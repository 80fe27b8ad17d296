-- ===== src/Dkg/Rotation/Refresh.antt =====
-- Rotation adds shares of zero to the shares: the secret and the group key stay.
use Prim.Native.Nat.{max, pred, ◌+◌ as nat_add}
use craftsec.Base.{
  ℕ, zero, suc, ◌≤◌, ◌<◌, ◌≡◌, refl, ap, ◌∙◌, List, map, length, length-span, length-map, span,
  some, get_elem?-map-span, u32_bound, arith, Bool-cases, ==→eq, inl, inr, ◌==◌,
}
use craftsec.Curve.{Curve, Scalar, Point, ◌+◌, ◌•◌, scalar_zero, basepoint, from_u64}
use craftsec.Curve.Ring.{add-zero}
use craftsec.Core.External.{RngCore, State}
use craftsec.Core.Error.{ok, index}
use craftsec.Core.Error.Loops.{traverse-span, for_each-span}
use craftsec.Core.Types.{KeyShare, ThresholdConfig}
use craftsec.Dkg.Polynomial.Horner.{
  horner, horner-add, add_all, add_coefficients, length-add_coefficients,
}
use craftsec.Dkg.Sharing.{public_key, share_of, IsSharing}
use craftsec.Dkg.Feldman.{DkgContribution, verify_received}
use craftsec.Dkg.Feldman.Honest.{
  AllHonest, as_u32-eq, received-AllHonest, verify_received-AllHonest,
}
use craftsec.Dkg.Feldman.Ceremony.{length-add_all_pos}
use craftsec.Dkg.Rotation.{find_share, rotate_verification_share, rotate_share, rotate_shares}
use craftsec.Dkg.Rotation.ZeroShares.{contribute_zero-ContributesZero, add_all-AllVanish}

module _ ⦃c : Curve⦄ where
  -- The search by index finds the entry of a participant in range.
  pub find_share-span :
      (f : ℕ → Point) (j lo k : ℕ)
      → lo ≤ j
      → j < nat_add lo k
      → find_share j (map (λ i. (i, f i)) (span lo k)) ≡ some (f j)
  unfolding find_share
  find_share-span f j lo zero l u = absurd (omega arith)
  find_share-span f j lo (suc k) l u = elim (Bool-cases (lo == j)) [
    | inl e ↦ rw e (ap (λ i. some (f i)) (==→eq lo j e))
    | inr e ↦ rw e (find_share-span f j (suc lo) k (ground arith) (omega arith))
  ]

  index-share :
      (f : List Scalar) (n i : ℕ)
      → 0 < i
      → i < suc n
      → index (map (share_of f n) (span 1 n)) (pred i) ≡ ok (share_of f n i)
  index-share f n zero l u = elim l [ ]
  index-share f n (suc i) l u =
      rw (get_elem?-map-span (share_of f n) 1 n i (omega arith))
        (let e : nat_add 1 i ≡ suc i = omega arith in rw e)

  -- The secret at zero, and so the public key, does not change.
  pub public_key-add :
      (f z : List Scalar)
      → horner z scalar_zero ≡ scalar_zero
      → public_key (add_coefficients f z) ≡ public_key f
  public_key-add f z v =
      ap (λ t. basepoint • t)
        (horner-add f z scalar_zero
          ∙ ap (λ t. horner f scalar_zero + t) v
          ∙ add-zero (horner f scalar_zero))

  -- A section over contributions from polynomials with the sum `z`.
  module _ (f : List Scalar) (n : ℕ) (ds : List DkgContribution) (fs : List (List Scalar))
      (h : AllHonest n ds fs) (b : n < u32_bound) where
    rotate_verification_share-span :
        (j : ℕ)
        → 0 < j
        → j < suc n
        → rotate_verification_share (map (share_of f n) (span 1 n)) ds j
          ≡ ok (j, basepoint • horner (add_coefficients f (add_all fs)) (from_u64 j))
    unfolding rotate_verification_share
    rotate_verification_share-span j l u = rw (
      index-share f n j l u,
      as_u32-eq j (omega arith),
      find_share-span (λ i. basepoint • horner f (from_u64 i)) j 1 n l (omega arith),
      received-AllHonest n j ds fs h l u,
      c.point_mul-add,
      horner-add f (add_all fs) (from_u64 j),
    )

    rotate_share-span :
        (i : ℕ)
        → horner (add_all fs) scalar_zero ≡ scalar_zero
        → 0 < i
        → i < suc n
        → rotate_share (map (share_of f n) (span 1 n)) ds n (public_key f) i
          ≡ ok (share_of (add_coefficients f (add_all fs)) n i)
    unfolding rotate_share
    rotate_share-span i v l u = rw (
      index-share f n i l u,
      received-AllHonest n i ds fs h l u,
      traverse-span (rotate_verification_share (map (share_of f n) (span 1 n)) ds)
          (λ j. (j, basepoint • horner (add_coefficients f (add_all fs)) (from_u64 j))) 1 n
          (λ j l' u'. rotate_verification_share-span j l' (omega arith)),
      as_u32-eq i (omega arith),
      public_key-add f (add_all fs) v,
      horner-add f (add_all fs) (from_u64 i),
    )

  module _ ⦃g : RngCore⦄ where
    rotate_steps :
        (f : List Scalar) (n t total : ℕ) (s : State)
        → 0 < t
        → 0 < n
        → n < u32_bound
        → (z : List Scalar) × (shares : List KeyShare) × (s' : State) × (rotate_shares
              (map (share_of f n) (span 1 n))
              (record { threshold = t; total = total })
              s
            ≡ ok (shares, s'))
          × (length z ≡ t)
          × (horner z scalar_zero ≡ scalar_zero)
          × IsSharing (add_coefficients f z) n shares
    unfolding rotate_shares
    rotate_steps f n zero total s pos many b = elim pos [ ]
    rotate_steps f n (suc degree) total s pos many b =
        let (ds, s', fs, e, h, l, v, k) = contribute_zero-ContributesZero degree n (span 1 n) s in
        let z = add_all fs in
        let v0 = add_all-AllVanish fs v in
        (
          z,
          map (share_of (add_coefficients f z) n) (span 1 n),
          s',
          rw (
            length-map (share_of f n) (span 1 n),
            length-span 1 n,
            index-share f n 1 (omega arith) (omega arith),
            e,
            for_each-span (verify_received ds) 1 n
                (λ i l' u'. verify_received-AllHonest n i ds fs h b l' (omega arith)),
            traverse-span (rotate_share (map (share_of f n) (span 1 n)) ds n (public_key f))
                (share_of (add_coefficients f z) n) 1 n
                (λ i l' u'. rotate_share-span f n ds fs h b i v0 l' (omega arith)),
          ),
          length-add_all_pos (suc degree) fs l (omega (arith, length-span 1 n)),
          v0,
          refl,
        )

    -- Rotation of the shares of `f` succeeds for any random bytes and any positive threshold. The
    -- new shares are those of `f + z` for a polynomial `z` with `threshold` coefficients and
    -- constant term zero. The public key is the old one, and the number of coefficients is the
    -- larger of the old one and the new threshold.
    pub rotate_shares-IsSharing :
        (f : List Scalar) (n : ℕ) (old_shares : List KeyShare) (config : ThresholdConfig)
        (s : State)
        → IsSharing f n old_shares
        → 0 < n
        → n < u32_bound
        → 0 < config.threshold
        → (z : List Scalar) × (shares : List KeyShare) × (s' : State) × (rotate_shares old_shares
              config s
            ≡ ok (shares, s'))
          × IsSharing (add_coefficients f z) n shares
          × (length z ≡ config.threshold)
          × (horner z scalar_zero ≡ scalar_zero)
          × (public_key (add_coefficients f z) ≡ public_key f)
          × (length (add_coefficients f z) ≡ max (length f) config.threshold)
    rotate_shares-IsSharing f n old_shares config s sharing many b pos =
        let (z, shares, s', e, l, v, k) =
          rotate_steps f n config.threshold config.total s pos many b in
        (
          z,
          shares,
          s',
          ap (λ x. rotate_shares x config s) sharing ∙ e,
          k,
          l,
          v,
          public_key-add f z v,
          omega (arith, length-add_coefficients f z),
        )

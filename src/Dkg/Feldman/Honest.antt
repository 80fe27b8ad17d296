-- ===== src/Dkg/Feldman/Honest.antt =====
-- Contributions that follow the protocol, each from a polynomial: what a receiver checks and sums.
use Prim.Native.Nat.{◌+◌ as nat_add}
use native.Mathlib.Nat.{mod-eq_of_lt}
use craftsec.Base.{
  ℕ, zero, suc, ◌<◌, ◌≡◌, refl, sym, ap, ap₂, ◌∙◌, List, [], ◌∷◌, map, length, get_elem?-map-span,
  as_u32, u32_bound, arith,
}
use craftsec.Curve.{Curve, Scalar, ◌+◌, ◌⊕◌, ◌•◌, scalar_zero, basepoint, from_u64}
use craftsec.Core.Error.{ok, index, traverse, for_each}
use craftsec.Dkg.Polynomial.{Polynomial, evaluate}
use craftsec.Dkg.Polynomial.Horner.{horner, horner-zero, horner-add, add_all, evaluate-horner}
use craftsec.Dkg.Sharing.{public_key}
use craftsec.Dkg.Feldman.{
  DkgContribution, sum, sum_points, evaluate_commitments, commit, deal, share_for, verify_received,
  received, verification_share, group_key,
}
use craftsec.Dkg.Feldman.Commitments.{
  sum_points-map, evaluate_commitments-commit, verify_share_decides,
}

pub as_u32-eq : (n : ℕ) → n < u32_bound → as_u32 n ≡ n
unfolding as_u32
as_u32-eq n h = mod-eq_of_lt h

module _ ⦃c : Curve⦄ where
  abbrev pub poly : List Scalar → Polynomial
  poly f = record { coefficients = f }

  -- The contribution publishes and sends what the polynomial `f` gives.
  abbrev pub Honest : ℕ → DkgContribution → List Scalar → Type 0
  Honest n d f = (d.commitments ≡ commit (poly f)) × (d.shares ≡ deal n (poly f))

  abbrev pub AllHonest : ℕ → List DkgContribution → List (List Scalar) → Type 0
  AllHonest n [] [] = Unit
  AllHonest n [] (f ∷ fs) = ⊥
  AllHonest n (d ∷ ds) [] = ⊥
  AllHonest n (d ∷ ds) (f ∷ fs) = Honest n d f × AllHonest n ds fs

  share_for-Honest :
      (n i : ℕ) (d : DkgContribution) (f : List Scalar)
      → Honest n d f
      → 0 < i
      → i < suc n
      → share_for i d ≡ ok (horner f (from_u64 i))
  unfolding share_for deal
  share_for-Honest n zero d f h l u = elim l [ ]
  share_for-Honest n (suc i) d f h l u =
      rw (h.1, get_elem?-map-span {A = ℕ × Scalar} pair 1 n i (omega arith))
        (let e : nat_add 1 i ≡ suc i = omega arith in
          rw e (ap ok (evaluate-horner (poly f) (from_u64 (suc i)))))
    where
      pair : ℕ → ℕ × Scalar
      pair j = (as_u32 j, evaluate (poly f) (from_u64 j))

  -- The sum of the values is the value of the sum.
  sum-map-horner :
      (x : Scalar) (fs : List (List Scalar))
      → sum (map (λ f. horner f x) fs) ≡ horner (add_all fs) x
  unfolding sum
  sum-map-horner x [] = refl
  sum-map-horner x (f ∷ fs) =
      ap (λ t. horner f x + t) (sum-map-horner x fs) ∙ sym (horner-add f (add_all fs) x)

  traverse-shares :
      (n i : ℕ) (ds : List DkgContribution) (fs : List (List Scalar))
      → AllHonest n ds fs
      → 0 < i
      → i < suc n
      → traverse (share_for i) ds ≡ ok (map (λ f. horner f (from_u64 i)) fs)
  unfolding traverse
  traverse-shares n i [] [] h l u = refl
  traverse-shares n i [] (f ∷ fs) h l u = absurd h
  traverse-shares n i (d ∷ ds) [] h l u = absurd h
  traverse-shares n i (d ∷ ds) (f ∷ fs) h l u =
      rw (share_for-Honest n i d f h.0 l u, traverse-shares n i ds fs h.1 l u)

  -- A participant's secret is its value of the sum of the polynomials.
  pub received-AllHonest :
      (n i : ℕ) (ds : List DkgContribution) (fs : List (List Scalar))
      → AllHonest n ds fs
      → 0 < i
      → i < suc n
      → received ds i ≡ ok (horner (add_all fs) (from_u64 i))
  unfolding received
  received-AllHonest n i ds fs h l u =
      rw (traverse-shares n i ds fs h l u) (ap ok (sum-map-horner (from_u64 i) fs))

  -- Every receiver accepts every share.
  pub verify_received-AllHonest :
      (n i : ℕ) (ds : List DkgContribution) (fs : List (List Scalar))
      → AllHonest n ds fs
      → n < u32_bound
      → 0 < i
      → i < suc n
      → verify_received ds i ≡ ok tt
  unfolding verify_received for_each
  verify_received-AllHonest n i [] [] h b l u = refl
  verify_received-AllHonest n i [] (f ∷ fs) h b l u = absurd h
  verify_received-AllHonest n i (d ∷ ds) [] h b l u = absurd h
  verify_received-AllHonest n i (d ∷ ds) (f ∷ fs) h b l u =
      rw
        (
          share_for-Honest n i d f h.0 l u,
          as_u32-eq i (omega arith),
          h.0.0,
          (verify_share_decides i _ (poly f)).0 (sym (evaluate-horner (poly f) (from_u64 i))),
        )
        (verify_received-AllHonest n i ds fs h.1 b l u)

  evaluate_all :
      (n : ℕ) (x : Scalar) (ds : List DkgContribution) (fs : List (List Scalar))
      → AllHonest n ds fs
      → sum_points (map (λ d. evaluate_commitments d.commitments x) ds)
        ≡ sum_points (map (λ f. basepoint • horner f x) fs)
  unfolding sum_points
  evaluate_all n x [] [] h = refl
  evaluate_all n x [] (f ∷ fs) h = absurd h
  evaluate_all n x (d ∷ ds) [] h = absurd h
  evaluate_all n x (d ∷ ds) (f ∷ fs) h =
      ap₂ ◌⊕◌ (ap (λ t. evaluate_commitments t x) h.0.0 ∙ evaluate_commitments-commit (poly f) x)
        (evaluate_all n x ds fs h.1)

  -- A verification share is the commitment to the participant's secret.
  pub verification_share-AllHonest :
      (n j : ℕ) (ds : List DkgContribution) (fs : List (List Scalar))
      → AllHonest n ds fs
      → j < u32_bound
      → verification_share ds j ≡ (j, basepoint • horner (add_all fs) (from_u64 j))
  unfolding verification_share
  verification_share-AllHonest n j ds fs h b =
      let x = from_u64 j in
      rw (
        as_u32-eq j b,
        evaluate_all n x ds fs h,
        sum_points-map (λ f. horner f x) fs,
        sum-map-horner x fs,
      )

  -- Every polynomial has a constant term.
  abbrev pub AllNonempty : List (List Scalar) → Type 0
  AllNonempty [] = Unit
  AllNonempty (f ∷ fs) = (0 < length f) × AllNonempty fs

  constant-commit : (f : List Scalar) → 0 < length f → index (commit (poly f)) 0 ≡ ok (public_key f)
  unfolding commit
  constant-commit [] h = elim h [ ]
  constant-commit (a ∷ f) h = ap (λ t. ok (basepoint • t)) (sym (horner-zero a f))

  traverse-constants :
      (n : ℕ) (ds : List DkgContribution) (fs : List (List Scalar))
      → AllHonest n ds fs
      → AllNonempty fs
      → traverse (λ d. index d.commitments 0) ds ≡ ok (map public_key fs)
  unfolding traverse
  traverse-constants n [] [] h e = refl
  traverse-constants n [] (f ∷ fs) h e = absurd h
  traverse-constants n (d ∷ ds) [] h e = absurd h
  traverse-constants n (d ∷ ds) (f ∷ fs) h e =
      rw (h.0.0, constant-commit f e.0, traverse-constants n ds fs h.1 e.1)

  -- The group key is the commitment to the secret that the sum hides at zero.
  pub group_key-AllHonest :
      (n : ℕ) (ds : List DkgContribution) (fs : List (List Scalar))
      → AllHonest n ds fs
      → AllNonempty fs
      → group_key ds ≡ ok (public_key (add_all fs))
  unfolding group_key
  group_key-AllHonest n ds fs h e = rw (
    traverse-constants n ds fs h e,
    sum_points-map (λ f. horner f scalar_zero) fs,
    sum-map-horner scalar_zero fs,
  )

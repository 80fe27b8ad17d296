-- ===== src/Dkg/Feldman/Ceremony.antt =====
-- The whole ceremony of feldman.rs: it succeeds, and deals the shares of one polynomial.
use craftsec.Base.{
  ℕ, zero, suc, ◌≤◌, ◌<◌, ◌≡◌, refl, ap, List, [], ◌∷◌, map, length, length-span, span,
  map-span-congr, All, u32_bound, arith,
}
use craftsec.Curve.{Curve, Scalar, Point, ◌•◌, basepoint, from_u64}
use craftsec.Core.External.{RngCore, State}
use craftsec.Core.Error.{Result, ok}
use craftsec.Core.Error.Loops.{traverse-span, for_each-span}
use craftsec.Core.Types.{KeyShare, ThresholdConfig, IsValid}
use craftsec.Dkg.Polynomial.{random_full}
use craftsec.Dkg.Polynomial.Horner.{horner, add_all, length-add_coefficients}
use craftsec.Dkg.Polynomial.Random.{length-random_full}
use craftsec.Dkg.Sharing.{public_key, share_of, IsSharing}
use craftsec.Dkg.Feldman.{
  DkgContribution, contribution, contribute, verify_received, verification_share, key_share,
  run_dkg,
}
use craftsec.Dkg.Feldman.Honest.{
  AllHonest, AllNonempty, as_u32-eq, received-AllHonest, verify_received-AllHonest,
  verification_share-AllHonest, group_key-AllHonest,
}

module _ ⦃c : Curve⦄ where
  -- Every polynomial has `k` coefficients.
  abbrev pub AllLength : ℕ → List (List Scalar) → Type 0
  AllLength k = All (λ f. length f ≡ k)

  pub AllLength-AllNonempty :
      (k : ℕ) (fs : List (List Scalar)) → AllLength (suc k) fs → AllNonempty fs
  AllLength-AllNonempty k [] h = tt
  AllLength-AllNonempty k (f ∷ fs) h = (omega arith, AllLength-AllNonempty k fs h.1)

  pub length-add_all : (k : ℕ) (fs : List (List Scalar)) → AllLength k fs → length (add_all fs) ≤ k
  length-add_all k [] h = omega arith
  length-add_all k (f ∷ fs) h =
      omega (arith, length-add_coefficients f (add_all fs), length-add_all k fs h.1)

  pub length-add_all_pos :
      (k : ℕ) (fs : List (List Scalar)) → AllLength k fs → 0 < length fs → length (add_all fs) ≡ k
  length-add_all_pos k [] h l = elim l [ ]
  length-add_all_pos k (f ∷ fs) h l =
      omega (arith, length-add_coefficients f (add_all fs), length-add_all k fs h.1)

  -- From verified contributions on, each participant gets its share of the sum.
  pub key_share-AllHonest :
      (n i : ℕ) (ds : List DkgContribution) (fs : List (List Scalar))
      → AllHonest n ds fs
      → n < u32_bound
      → 0 < i
      → i < suc n
      → key_share ds n (public_key (add_all fs)) i ≡ ok (share_of (add_all fs) n i)
  unfolding key_share
  key_share-AllHonest n i ds fs h b l u =
      rw (received-AllHonest n i ds fs h l u, as_u32-eq i (omega arith))
        (ap
          (λ vs. ok (record {
            index = i;
            secret = horner (add_all fs) (from_u64 i);
            group_public_key = public_key (add_all fs);
            verification_shares = vs;
          }))
          (map-span-congr {A = ℕ × Point} (verification_share ds)
            (λ j. (j, basepoint • horner (add_all fs) (from_u64 j))) 1 n
            (λ j l' u'. verification_share-AllHonest n j ds fs h (omega arith))))

  module _ ⦃g : RngCore⦄ where
    -- What a round of honest contributions produces.
    abbrev pub Contributes : ℕ → ℕ → List ℕ → Result (List DkgContribution × State) → Type 0
    Contributes t n is r =
        (ds : List DkgContribution) × (s' : State) × (fs : List (List Scalar)) × (r ≡ ok (ds, s'))
        × AllHonest n ds fs
        × AllLength t fs
        × (length fs ≡ length is)

    contribute-Contributes :
        (degree n : ℕ) (is : List ℕ) (s : State)
        → Contributes (suc degree) n is (contribute (suc degree) n is s)
    unfolding contribute contribution
    contribute-Contributes degree n [] s = ([], s, [], refl, tt, tt, refl)
    contribute-Contributes degree n (i ∷ is) s =
        let drawn = random_full degree s in
        let (ds, s', fs, e, h, l, k) = contribute-Contributes degree n is drawn.1 in
        (
          contribution n i drawn.0 ∷ ds,
          s',
          drawn.0.coefficients ∷ fs,
          rw e,
          ((refl, refl), h),
          (length-random_full degree s, l),
          ap suc k,
        )

    run_dkg_steps :
        (t n : ℕ) (s : State)
        → 0 < t
        → 0 < n
        → n < u32_bound
        → (f : List Scalar) × (shares : List KeyShare) × (s' : State) × (run_dkg
              (record { threshold = t; total = n })
              s
            ≡ ok (shares, s'))
          × (length f ≡ t)
          × IsSharing f n shares
    unfolding run_dkg
    run_dkg_steps zero n s pos many b = elim pos [ ]
    run_dkg_steps (suc degree) n s pos many b =
        let (ds, s', fs, e, h, l, k) = contribute-Contributes degree n (span 1 n) s in
        let f = add_all fs in
        (
          f,
          map (share_of f n) (span 1 n),
          s',
          rw (
            e,
            for_each-span (verify_received ds) 1 n
                (λ i l' u'. verify_received-AllHonest n i ds fs h b l' (omega arith)),
            group_key-AllHonest n ds fs h (AllLength-AllNonempty degree fs l),
            traverse-span (key_share ds n (public_key f)) (share_of f n) 1 n
                (λ i l' u'. key_share-AllHonest n i ds fs h b l' (omega arith)),
          ),
          length-add_all_pos (suc degree) fs l (omega (arith, length-span 1 n)),
          refl,
        )

    -- For a valid configuration and any random bytes the ceremony succeeds, with no panic and no
    -- share refused. There is one polynomial with `threshold` coefficients of which the results are
    -- the shares of participants `1` to `total`: secrets, group key and verification shares.
    pub run_dkg-IsSharing :
        (config : ThresholdConfig) (s : State)
        → IsValid config
        → (f : List Scalar) × (shares : List KeyShare) × (s' : State) × (run_dkg config s
            ≡ ok (shares, s'))
          × (length f ≡ config.threshold)
          × IsSharing f config.total shares
    run_dkg-IsSharing config s v =
        run_dkg_steps config.threshold config.total s v.positive (omega arith) v.fits

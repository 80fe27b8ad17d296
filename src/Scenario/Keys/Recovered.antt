-- ===== src/Scenario/Keys/Recovered.antt =====
-- Key generations and derivations deal shares that fit together, recover the secret and sign.
use Prim.Native.Nat.{◌+◌}
use craftsec.Base.{
  ℕ, zero, suc, ◌≤◌, ◌<◌, ◌≡◌, refl, ap, ◌∙◌, true, List, [], ◌∷◌, map, length, length-map,
  length-span, span, Text, ◌==◌, arith,
}
use craftsec.Base.Fresh.{Distinct, Below, Below-mono}
use craftsec.Curve.{Curve, Scalar, ◌*◌, ◌•◌, basepoint, from_u64, scalar_zero}
use craftsec.Core.External.{Digests, RngCore, State}
use craftsec.Core.Error.{ok, traverse, for_each}
use craftsec.Core.Types.{KeyShare, IsValid}
use craftsec.Dkg.Polynomial.Horner.{horner}
use craftsec.Dkg.Sharing.{public_key, share_of, IsSharing}
use craftsec.Dkg.Rotation.Refresh.{find_share-span}
use craftsec.Dkg.Pdk.{derive_polynomial}
use craftsec.Dkg.Pdk.Derived.{derive_key-IsSharing}
use craftsec.Signing.Lagrange.{lagrange_coefficient}
use craftsec.Signing.Lagrange.Interpolation.{interpolation}
use craftsec.Scenario.Signing.Rounds.{
  index-IsSharing, Distinct-suc, Below-suc, sign_message_verifies,
}
use craftsec.Scenario.Signing.Verified.{assert_point_refl, assert_all, new_config_lem, generate_lem}
use craftsec.Scenario.Keys.{
  recovered_term, recover, check_verification_share, dkg_agrees, dkg_matches, sign_with_derived_key,
  shares_reconstruct_to_group_key,
}

module _ ⦃c : Curve⦄ where
  -- The terms at the positions of a sharing.
  recovered_terms :
      (f : List Scalar) (n : ℕ) (shares : List KeyShare) (indices positions : List ℕ)
      → IsSharing f n shares
      → Below n positions
      → traverse (recovered_term shares indices) positions
        ≡ ok (map (λ i. lagrange_coefficient i indices * horner f (from_u64 i)) (map suc positions))
  unfolding traverse recovered_term
  recovered_terms f n shares indices [] sharing b = refl
  recovered_terms f n shares indices (i ∷ positions) sharing b =
      rw
        (
          index-IsSharing f n i shares sharing b.0,
          recovered_terms f n shares indices positions sharing b.1,
        )
        (ap
          (λ y. ok (
            y
            ∷ map (λ i. lagrange_coefficient i indices * horner f (from_u64 i))
                (map suc positions)))
          (c.mul_comm (horner f (from_u64 (suc i))) (lagrange_coefficient (suc i) indices)))

  -- Shares at distinct positions, as many as the polynomial has coefficients, give its secret.
  recover_lem :
      (f : List Scalar) (n : ℕ) (shares : List KeyShare) (positions : List ℕ)
      → IsSharing f n shares
      → Below n positions
      → Distinct positions
      → length f ≤ length positions
      → n < c.order
      → recover shares positions ≡ ok (horner f scalar_zero)
  unfolding recover
  recover_lem f n shares positions sharing b u l small =
      rw (recovered_terms f n shares (map suc positions) positions sharing b) (
        ap ok (
          interpolation f (map suc positions) (omega (arith, l, length-map suc positions))
            (Distinct-suc positions u)
            (Below-mono (suc n) c.order (map suc positions) (omega arith)
              (Below-suc n positions b))))

  check_all :
      (f : List Scalar) (n lo k : ℕ)
      → 1 ≤ lo
      → lo + k ≤ suc n
      → for_each check_verification_share (map (share_of f n) (span lo k)) ≡ ok tt
  unfolding for_each check_verification_share
  check_all f n lo zero l u = refl
  check_all f n lo (suc k) l u =
      rw
        (
          find_share-span (λ i. basepoint • horner f (from_u64 i)) lo 1 n l (omega arith),
          assert_point_refl (basepoint • horner f (from_u64 lo))
              (basepoint • horner f (from_u64 lo)) refl,
        )
        (check_all f n (suc lo) k (omega arith) (omega arith))

  module _ (t n : ℕ) (valid : IsValid (record { threshold = t; total = n })) where
    -- For every valid configuration a key generation deals as many shares as there are
    -- participants, all with the same public key, and each fits the verification share that its
    -- holder has of itself.
    pub dkg_checks_total :
        ⦃g : RngCore⦄ → (rng : State) → (dkg_agrees t n rng ≡ ok tt) × (dkg_matches t n rng ≡ ok tt)
    unfolding dkg_agrees dkg_matches
    dkg_checks_total rng =
        let (f, shares, rng', dealt, size, sharing) = generate_lem t n valid rng in
        let count : length shares ≡ n =
          ap length sharing ∙ length-map (share_of f n) (span 1 n) ∙ length-span 1 n in
        let counted : (length shares == n) ≡ true = ground (arith, count) in
        (
          rw
              (
                dealt,
                counted,
                index-IsSharing f n 0 shares sharing (omega (arith, valid.positive, valid.within)),
              )
              (ap (for_each _) sharing ∙ assert_all f (public_key f) n 1 n refl),
          rw dealt (
              ap (for_each check_verification_share) sharing
              ∙ check_all f n 1 n (omega arith) (omega arith)),
        )

    module _ ⦃d : Digests⦄ (program_cid seed : Text) (small : n < c.order) where
      -- For every valid configuration with fewer participants than the group order, the derived
      -- shares at distinct positions, at least as many as the threshold, recover the secret of the
      -- derived public key, and their holders sign any message under it.
      pub derived_key_total :
          ⦃g : RngCore⦄
          → (signers message : List ℕ) (rng : State) → Below n signers
          → Distinct signers
          → t ≤ length signers
          → (shares_reconstruct_to_group_key t n program_cid seed signers ≡ ok tt)
            × (sign_with_derived_key t n program_cid seed signers message rng ≡ ok tt)
      unfolding shares_reconstruct_to_group_key sign_with_derived_key
      derived_key_total signers message rng b u l =
          let f = (derive_polynomial program_cid seed t).coefficients in
          let (shares, derived, sharing, size) =
            derive_key-IsSharing program_cid seed (record { threshold = t; total = n }) valid in
          let (sig, signed, verified) =
            sign_message_verifies f n shares sharing signers message rng b u
              (omega (arith, size, l)) small in
          let config = new_config_lem t n valid in
          (
            rw
                (
                  config,
                  derived,
                  recover_lem f n shares signers sharing b u (omega (arith, size, l)) small,
                  assert_point_refl (public_key f) (public_key f) refl,
                )
                refl,
            rw (config, derived, signed, verified) refl,
          )

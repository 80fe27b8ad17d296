-- ===== src/Scenario/Signing/Verified.antt =====
-- Key generation, rotations and signing end well for every valid configuration.
use craftsec.Base.{ℕ, zero, suc, ◌≤◌, ◌<◌, ◌≡◌, refl, ap, sym, ◌∙◌, List, map, span, length, arith}
use craftsec.Base.Fresh.{Distinct, Below}
use craftsec.Curve.{Curve, Scalar, Point}
use craftsec.Core.External.{Digests, RngCore, State}
use craftsec.Core.Error.{ok, for_each}
use craftsec.Core.Types.{KeyShare, ThresholdConfig, new_config, IsValid}
use craftsec.Dkg.Polynomial.Horner.{add_coefficients}
use craftsec.Dkg.Sharing.{public_key, share_of, IsSharing}
use craftsec.Dkg.Feldman.Ceremony.{run_dkg-IsSharing}
use craftsec.Dkg.Rotation.{rotate_shares}
use craftsec.Dkg.Rotation.Refresh.{rotate_shares-IsSharing}
use craftsec.Signing.Frost.{verify}
use craftsec.Scenario.Signing.{
  assert_point, generate, sign_and_verify, rotate_preserves_public_key, new_shares_can_sign,
  double_rotation,
}
use craftsec.Scenario.Signing.Rounds.{index-IsSharing, sign_message_verifies}

module _ ⦃c : Curve⦄ where
  -- Equal points pass the comparison.
  pub assert_point_refl : (p q : Point) → p ≡ q → assert_point p q ≡ ok tt
  assert_point_refl p q e = rw ((c.point_eq_iff p q).1 e)

  pub assert_all :
      (f : List Scalar) (p : Point) (n lo k : ℕ)
      → public_key f ≡ p
      → for_each (λ s. assert_point s.group_public_key p) (map (share_of f n) (span lo k)) ≡ ok tt
  unfolding for_each
  assert_all f p n lo zero e = refl
  assert_all f p n lo (suc k) e =
      rw (assert_point_refl (public_key f) p e) (assert_all f p n (suc lo) k e)

  module _ ⦃g : RngCore⦄ (t n : ℕ) (valid : IsValid (record { threshold = t; total = n })) where
    abbrev pub config : ThresholdConfig
    config = record { threshold = t; total = n }

    pub new_config_lem : new_config t n ≡ ok config
    unfolding new_config
    new_config_lem = ground (arith, valid.positive, valid.within)

    pub generate_lem :
        (rng : State)
        → (f : List Scalar) × (shares : List KeyShare) × (rng' : State) × (generate t n rng
            ≡ ok (config, shares, rng'))
          × (length f ≡ t)
          × IsSharing f n shares
    unfolding generate
    generate_lem rng =
        let (f, shares, rng', dealt, size, sharing) = run_dkg-IsSharing config rng valid in
        (f, shares, rng', rw (new_config_lem, dealt) refl, size, sharing)

    -- One rotation of the shares of a polynomial with `t` coefficients.
    rotate_lem :
        (f : List Scalar) (shares : List KeyShare) (rng : State)
        → length f ≡ t
        → IsSharing f n shares
        → (f' : List Scalar) × (rotated : List KeyShare) × (rng' : State) × (rotate_shares shares
              config rng
            ≡ ok (rotated, rng'))
          × (length f' ≡ t)
          × IsSharing f' n rotated
          × (public_key f' ≡ public_key f)
    rotate_lem f shares rng size sharing =
        let (z, rotated, rng', done, sharing', _, _, key, l) =
          rotate_shares-IsSharing f n shares config rng sharing
            (omega (arith, valid.positive, valid.within)) valid.fits valid.positive in
        (add_coefficients f z, rotated, rng', done, omega (arith, l, size), sharing', key)

    -- For every valid configuration, a rotation after the key generation leaves every participant
    -- with the public key of the generation.
    pub rotate_preserves_public_key_total :
        (rng : State) → rotate_preserves_public_key t n rng ≡ ok tt
    unfolding rotate_preserves_public_key
    rotate_preserves_public_key_total rng =
        let (f, shares, rng', dealt, size, sharing) = generate_lem rng in
        let (f', rotated, rng'', done, size', sharing', key) =
          rotate_lem f shares rng' size sharing in
        let some_first : 0 < n = omega (arith, valid.positive, valid.within) in
        rw
          (
            dealt,
            index-IsSharing f n 0 shares sharing some_first,
            done,
            index-IsSharing f' n 0 rotated sharing' some_first,
            assert_point_refl (public_key f') (public_key f) key,
          )
          (ap (for_each (λ s. assert_point s.group_public_key (public_key f))) sharing'
            ∙ assert_all f' (public_key f) n 1 n key)

    module _ ⦃d : Digests⦄ (signers message : List ℕ) (positions : Below n signers)
        (distinct : Distinct signers) (enough : t ≤ length signers) (small : n < c.order) where
      -- For every valid configuration with fewer participants than the group order, key generation
      -- followed by both signing rounds at distinct positions, at least as many as the threshold,
      -- makes a signature of any message that verifies under the group key.
      pub sign_and_verify_total : (rng : State) → sign_and_verify t n signers message rng ≡ ok tt
      unfolding sign_and_verify
      sign_and_verify_total rng =
          let (f, shares, rng', dealt, size, sharing) = generate_lem rng in
          let (sig, signed, verified) =
            sign_message_verifies f n shares sharing signers message rng' positions distinct
              (omega (arith, size, enough)) small in
          rw
            (
              dealt,
              signed,
              index-IsSharing f n 0 shares sharing (omega (arith, valid.positive, valid.within)),
              verified,
            )
            refl

      -- The same signers sign after a rotation of the shares, under the new shares' public key.
      pub new_shares_can_sign_total :
          (rng : State) → new_shares_can_sign t n signers message rng ≡ ok tt
      unfolding new_shares_can_sign
      new_shares_can_sign_total rng =
          let (f, shares, rng', dealt, size, sharing) = generate_lem rng in
          let (f', rotated, rng'', done, size', sharing', key) =
            rotate_lem f shares rng' size sharing in
          let (sig, signed, verified) =
            sign_message_verifies f' n rotated sharing' signers message rng'' positions distinct
              (omega (arith, size', enough)) small in
          rw
            (
              dealt,
              done,
              signed,
              index-IsSharing f' n 0 rotated sharing' (omega (arith, valid.positive, valid.within)),
              verified,
            )
            refl

      -- After two rotations the public key is still the one of the key generation, and the
      -- signature of the newest shares verifies under it.
      pub double_rotation_total : (rng : State) → double_rotation t n signers message rng ≡ ok tt
      unfolding double_rotation
      double_rotation_total rng =
          let (f, shares, rng₀, dealt, size, sharing) = generate_lem rng in
          let (f₁, once, rng₁, done₁, size₁, sharing₁, key₁) =
            rotate_lem f shares rng₀ size sharing in
          let (f₂, twice, rng₂, done₂, size₂, sharing₂, key₂) =
            rotate_lem f₁ once rng₁ size₁ sharing₁ in
          let (sig, signed, verified) =
            sign_message_verifies f₂ n twice sharing₂ signers message rng₂ positions distinct
              (omega (arith, size₂, enough)) small in
          let unwrapped : verify sig (public_key f) message ≡ ok tt =
            ap (λ p. verify sig p message) (sym (key₂ ∙ key₁)) ∙ verified in
          let some_first : 0 < n = omega (arith, valid.positive, valid.within) in
          rw
            (
              dealt,
              index-IsSharing f n 0 shares sharing some_first,
              done₁,
              done₂,
              index-IsSharing f₂ n 0 twice sharing₂ some_first,
              assert_point_refl (public_key f₂) (public_key f) (key₂ ∙ key₁),
              signed,
              unwrapped,
            )
            refl

-- ===== src/Scenario/Signing.antt =====
-- crates/signing/src/frost.rs and crates/dkg/src/rotation.rs, tests: key generation, rotations, both
-- signing rounds at chosen positions, and verification. The message and the signers are arguments.
pub mod Rounds
pub mod Verified
use craftsec.Base.{ℕ, zero, suc, List, [], ◌∷◌, map, if◌then◌else◌}
use craftsec.Curve.{Curve, Point}
use craftsec.Core.External.{Digests, RngCore, State}
use craftsec.Core.Error.{Result, ok, panic, index, unwrap_ok, for_each, ◌>>=◌, ◌>>◌}
use craftsec.Core.Types.{KeyShare, ThresholdConfig, new_config}
use craftsec.Dkg.Feldman.{run_dkg}
use craftsec.Dkg.Rotation.{rotate_shares}
use craftsec.Signing.Frost.{
  SigningNonce, SigningCommitment, PartialSignature, ThresholdSignature, generate_nonces,
  sign_partial, aggregate, verify,
}

module _ ⦃c : Curve⦄ where
  -- `assert_eq!` of two points.
  abbrev pub assert_point : Point → Point → Result (Unit {0})
  assert_point p q = if c.point_eq p q then ok tt else panic

  module _ ⦃g : RngCore⦄ where
    -- Round 1: a nonce and its commitment for each selected position.
    unfoldable pub round1 :
        List KeyShare → List ℕ → State → Result (List (SigningNonce × SigningCommitment) × State)
    round1 key_shares [] rng = ok ([], rng)
    round1 key_shares (i ∷ signers) rng = do
      share ← index key_shares i
      let (drawn, rng') = generate_nonces share.index rng
      rest ← round1 key_shares signers rng'
      ok (drawn ∷ rest.0, rest.1)

    -- `config` and `run_dkg`.
    unfoldable pub generate : ℕ → ℕ → State → Result (ThresholdConfig × List KeyShare × State)
    generate t n rng = do
      config ← unwrap_ok (new_config t n)
      dealt ← unwrap_ok (run_dkg config rng)
      ok (config, dealt.0, dealt.1)

    -- One rotation: the public key is compared at every participant.
    unfoldable pub rotate_preserves_public_key : ℕ → ℕ → State → Result (Unit {0})
    rotate_preserves_public_key t n rng = do
      dealt ← generate t n rng
      first ← index dealt.1 0
      rotated ← unwrap_ok (rotate_shares dealt.1 dealt.0 dealt.2)
      new_first ← index rotated.0 0
      assert_point new_first.group_public_key first.group_public_key
      for_each (λ s. assert_point s.group_public_key first.group_public_key) rotated.0

    module _ ⦃d : Digests⦄ where
      -- Round 2, with the nonces in the order of round 1 from the place `idx` on.
      unfoldable pub round2 :
          List KeyShare
          → List SigningNonce
          → List ℕ
          → List SigningCommitment
          → ℕ
          → List ℕ
          → Result (List PartialSignature)
      round2 key_shares nonces message commitments idx [] = ok []
      round2 key_shares nonces message commitments idx (i ∷ signers) = do
        share ← index key_shares i
        nonce ← index nonces idx
        partial ← unwrap_ok (sign_partial share nonce message commitments)
        rest ← round2 key_shares nonces message commitments (suc idx) signers
        ok (partial ∷ rest)

      -- Both rounds and the aggregate.
      unfoldable pub sign_message :
          List KeyShare → List ℕ → List ℕ → State → Result ThresholdSignature
      sign_message key_shares signers message rng = do
        r ← round1 key_shares signers rng
        let nonces = map (λ p. p.0) r.0
        let commitments = map (λ p. p.1) r.0
        partials ← round2 key_shares nonces message commitments zero signers
        ok (aggregate message commitments partials)

      unfoldable pub sign_and_verify : ℕ → ℕ → List ℕ → List ℕ → State → Result (Unit {0})
      sign_and_verify t n signers message rng = do
        dealt ← generate t n rng
        sig ← sign_message dealt.1 signers message dealt.2
        first ← index dealt.1 0
        unwrap_ok (verify sig first.group_public_key message)

      -- One rotation, after which the new shares sign.
      unfoldable pub new_shares_can_sign : ℕ → ℕ → List ℕ → List ℕ → State → Result (Unit {0})
      new_shares_can_sign t n signers message rng = do
        dealt ← generate t n rng
        rotated ← unwrap_ok (rotate_shares dealt.1 dealt.0 dealt.2)
        sig ← sign_message rotated.0 signers message rotated.1
        new_first ← index rotated.0 0
        unwrap_ok (verify sig new_first.group_public_key message)

      unfoldable pub double_rotation : ℕ → ℕ → List ℕ → List ℕ → State → Result (Unit {0})
      double_rotation t n signers message rng = do
        dealt ← generate t n rng
        first ← index dealt.1 0
        let gpk = first.group_public_key
        once ← unwrap_ok (rotate_shares dealt.1 dealt.0 dealt.2)
        twice ← unwrap_ok (rotate_shares once.0 dealt.0 once.1)
        last ← index twice.0 0
        assert_point last.group_public_key gpk
        sig ← sign_message twice.0 signers message twice.1
        unwrap_ok (verify sig gpk message)

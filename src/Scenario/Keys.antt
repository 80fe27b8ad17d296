-- ===== src/Scenario/Keys.antt =====
-- crates/dkg/src/feldman.rs and crates/dkg/src/pdk.rs, tests: what a key generation and a derivation
-- deal, the secret recovered from shares, and signing with a derived key. The parameters are
-- arguments.
pub mod Recovered
use Prim.Native.Nat.{◌+◌ as nat_add}
use craftsec.Base.{ℕ, suc, List, [], ◌∷◌, map, length, Text, ◌==◌}
use craftsec.Curve.{Curve, Scalar, ◌*◌, ◌•◌, basepoint}
use craftsec.Core.External.{Digests, RngCore, State}
use craftsec.Core.Error.{Result, ok, index, unwrap, unwrap_ok, traverse, for_each, ◌>>=◌, ◌>>◌}
use craftsec.Core.Types.{KeyShare, new_config}
use craftsec.Dkg.Feldman.{sum}
use craftsec.Dkg.Rotation.{find_share}
use craftsec.Dkg.Pdk.{derive_key}
use craftsec.Signing.Lagrange.{lagrange_coefficient}
use craftsec.Signing.Frost.{verify}
use craftsec.Scenario.Signing.{assert_point, generate, sign_message}
use craftsec.Scenario.Nodes.{assert}

module _ ⦃c : Curve⦄ where
  -- The share at a position, times the coefficient of its participant.
  unfoldable pub recovered_term : List KeyShare → List ℕ → ℕ → Result Scalar
  recovered_term shares indices i = do
    share ← index shares i
    ok (share.secret * lagrange_coefficient (suc i) indices)

  -- The secret from the shares at these positions.
  unfoldable pub recover : List KeyShare → List ℕ → Result Scalar
  recover shares positions = do
    terms ← traverse (recovered_term shares (map suc positions)) positions
    ok (sum terms)

  -- `g * share.secret` is the verification share of the participant.
  unfoldable pub check_verification_share : KeyShare → Result (Unit {0})
  check_verification_share share = do
    expected ← unwrap (find_share share.index share.verification_shares)
    assert_point (basepoint • share.secret) expected

  module _ ⦃g : RngCore⦄ where
    unfoldable pub dkg_agrees : ℕ → ℕ → State → Result (Unit {0})
    dkg_agrees t n rng = do
      dealt ← generate t n rng
      assert (length dealt.1 == n)
      first ← index dealt.1 0
      for_each (λ s. assert_point s.group_public_key first.group_public_key) dealt.1

    -- Every share matches its participant's verification share.
    unfoldable pub dkg_matches : ℕ → ℕ → State → Result (Unit {0})
    dkg_matches t n rng = do dealt ← generate t n rng; for_each check_verification_share dealt.1

    module _ ⦃d : Digests⦄ where
      unfoldable pub sign_with_derived_key :
          ℕ → ℕ → Text → Text → List ℕ → List ℕ → State → Result (Unit {0})
      sign_with_derived_key t n program_cid seed signers message rng = do
        config ← unwrap_ok (new_config t n)
        key ← unwrap_ok (derive_key program_cid seed config)
        sig ← sign_message key.1 signers message rng
        unwrap_ok (verify sig key.0 message)

  unfoldable pub shares_reconstruct_to_group_key :
      ⦃d : Digests⦄ → ℕ → ℕ → Text → Text → List ℕ → Result (Unit {0})
  shares_reconstruct_to_group_key t n program_cid seed positions = do
    config ← unwrap_ok (new_config t n)
    key ← unwrap_ok (derive_key program_cid seed config)
    secret ← recover key.1 positions
    assert_point (basepoint • secret) key.0

-- ===== src/Dkg/Rotation.antt =====
-- crates/dkg/src/rotation.rs. `RotationContribution` has the fields of `DkgContribution`, and the
-- check of the zero-shares is the loop of the key generation.
pub mod ZeroShares
pub mod Refresh
use Prim.Native.Nat.{pred}
use craftsec.Base.{
  ℕ, zero, suc, List, [], ◌∷◌, map, Option, none, some, as_u32, span, length, ◌==◌, if◌then◌else◌,
}
use craftsec.Curve.{Curve, Scalar, Point, ◌+◌, ◌⊕◌, ◌•◌, scalar_zero, from_u64, basepoint, identity}
use craftsec.Core.External.{RngCore, State}
use craftsec.Core.Error.{Result, ok, panic, unwrap, index, traverse, for_each, ◌>>=◌, ◌>>◌}
use craftsec.Core.Types.{KeyShare, ThresholdConfig}
use craftsec.Dkg.Polynomial.{Polynomial, random}
use craftsec.Dkg.Feldman.{DkgContribution, commit, contribution, verify_received, received}

module _ ⦃c : Curve⦄ where
  abbrev pub RotationContribution : Type 0
  RotationContribution = DkgContribution

  -- `debug_assert_eq!(commitments[0], EdwardsPoint::default())`.
  unfoldable pub assert_identity : List Point → Result (Unit {0})
  assert_identity commitments = do
    constant ← index commitments 0
    if c.point_eq constant identity then ok tt else panic

  -- The zero-polynomials' contributions, one for each participant of the list.
  unfoldable pub contribute_zero :
      ⦃g : RngCore⦄ → ℕ → ℕ → List ℕ → State → Result (List RotationContribution × State)
  contribute_zero t n [] s = ok ([], s)
  contribute_zero zero n (i ∷ is) s = panic
  contribute_zero (suc degree) n (i ∷ is) s =
      let (poly, s') = random degree scalar_zero s in
      let rest = contribute_zero (suc degree) n is s' in
      assert_identity (commit poly) >>= λ _. rest >>= λ r. ok (contribution n i poly ∷ r.0, r.1)

  -- `verification_shares.iter().find(|(idx, _)| *idx == j)`.
  unfoldable pub find_share : ℕ → List (ℕ × Point) → Option Point
  find_share j [] = none
  find_share j ((idx, p) ∷ rest) = if idx == j then some p else find_share j rest

  -- The new verification share of participant `j`.
  unfoldable pub rotate_verification_share :
      List KeyShare → List RotationContribution → ℕ → Result (ℕ × Point)
  rotate_verification_share old_shares contributions j = do
    old ← index old_shares (pred j)
    old_vk ← unwrap (find_share (as_u32 j) old.verification_shares)
    delta_j ← received contributions j
    ok (as_u32 j, old_vk ⊕ basepoint • delta_j)

  -- The new key share of participant `i`.
  unfoldable pub rotate_share :
      List KeyShare → List RotationContribution → ℕ → Point → ℕ → Result KeyShare
  rotate_share old_shares contributions n group_public_key i = do
    old ← index old_shares (pred i)
    delta ← received contributions i
    verification_shares ← traverse (rotate_verification_share old_shares contributions) (span 1 n)
    ok (record {
      index = as_u32 i;
      secret = old.secret + delta;
      group_public_key = group_public_key;
      verification_shares = verification_shares;
    })

  unfoldable pub rotate_shares :
      ⦃g : RngCore⦄ → List KeyShare → ThresholdConfig → State → Result (List KeyShare × State)
  rotate_shares old_shares new_config s = do
    let n = length old_shares
    let t = new_config.threshold
    first ← index old_shares 0
    r ← contribute_zero t n (span 1 n) s
    for_each (verify_received r.0) (span 1 n)
    new_shares ← traverse (rotate_share old_shares r.0 n first.group_public_key) (span 1 n)
    ok (new_shares, r.1)

-- ===== src/Dkg/Feldman.antt =====
-- crates/dkg/src/feldman.rs. A loop `for i in 1..=n` is a recursion on the list `span 1 n`, and the
-- generator's state goes through the first loop.
pub mod Commitments
pub mod Honest
pub mod Ceremony
use craftsec.Base.{
  ℕ, zero, suc, List, [], ◌∷◌, ◌++◌, map, Text, text, decimal, as_u32, span, if◌then◌else◌,
}
use Prim.Native.Nat.{pred}
use craftsec.Curve.{
  Curve, Scalar, Point, ◌+◌, ◌*◌, ◌⊕◌, ◌•◌, scalar_zero, scalar_one, from_u64, basepoint, identity,
}
use craftsec.Core.External.{RngCore, State}
use craftsec.Core.Error.{
  Result, ok, err, panic, invalid_share, index, traverse, for_each, ◌>>=◌, ◌>>◌,
}
use craftsec.Core.Types.{KeyShare, ThresholdConfig}
use craftsec.Dkg.Polynomial.{Polynomial, evaluate, random_full}

module _ ⦃c : Curve⦄ where
  pub record DkgContribution : Type 0 where
    pub index : ℕ
    pub commitments : List Point
    pub shares : List (ℕ × Scalar)

  -- `iter().sum()` over scalars and over points.
  unfoldable pub sum : List Scalar → Scalar
  sum [] = scalar_zero
  sum (a ∷ as') = a + sum as'

  unfoldable pub sum_points : List Point → Point
  sum_points [] = identity
  sum_points (p ∷ ps) = p ⊕ sum_points ps

  -- The loop `for commitment in commitments` with its two variables.
  evaluate_commitments_loop : Scalar → Point → Scalar → List Point → Point
  evaluate_commitments_loop x result x_power [] = result
  evaluate_commitments_loop x result x_power (commitment ∷ rest) =
      evaluate_commitments_loop x (result ⊕ commitment • x_power) (x_power * x) rest

  unfoldable pub evaluate_commitments : List Point → Scalar → Point
  unfolding evaluate_commitments_loop
  evaluate_commitments commitments x = evaluate_commitments_loop x identity scalar_one commitments

  unfoldable pub verify_share : ℕ → Scalar → List Point → Result (Unit {0})
  verify_share i share commitments =
      let x = from_u64 i in
      let lhs = basepoint • share in
      let rhs = evaluate_commitments commitments x in
      if c.point_eq lhs rhs
      then ok tt
      else err (invalid_share (text "share verification failed for participant " ++ decimal i))

  -- `C_j = a_j * G` for each coefficient.
  unfoldable pub commit : Polynomial → List Point
  commit poly = map (λ a. basepoint • a) poly.coefficients

  -- The pairs `(j, f(j))` for `j` in `1..=n`.
  unfoldable pub deal : ℕ → Polynomial → List (ℕ × Scalar)
  deal n poly = map (λ j. (as_u32 j, evaluate poly (from_u64 j))) (span 1 n)

  -- What participant `i` of `n` publishes and sends.
  unfoldable pub contribution : ℕ → ℕ → Polynomial → DkgContribution
  contribution n i poly = record {
    index = as_u32 i;
    commitments = commit poly;
    shares = deal n poly;
  }

  -- Step 1 for each participant of the list. `t - 1` underflows at `t = 0`.
  unfoldable pub contribute :
      ⦃g : RngCore⦄ → ℕ → ℕ → List ℕ → State → Result (List DkgContribution × State)
  contribute t n [] s = ok ([], s)
  contribute zero n (i ∷ is) s = panic
  contribute (suc degree) n (i ∷ is) s =
      let (poly, s') = random_full degree s in
      contribute (suc degree) n is s' >>= λ r. ok (contribution n i poly ∷ r.0, r.1)

  -- `contribution.shares[i - 1].1`.
  unfoldable pub share_for : ℕ → DkgContribution → Result Scalar
  share_for i d = do share ← index d.shares (pred i); ok share.1

  -- Step 2 at one receiver.
  unfoldable pub verify_received : List DkgContribution → ℕ → Result (Unit {0})
  verify_received contributions i =
      for_each (λ d. share_for i d >>= λ share. verify_share (as_u32 i) share d.commitments)
        contributions

  -- The sum of the shares that participant `i` receives.
  unfoldable pub received : List DkgContribution → ℕ → Result Scalar
  received contributions i = do shares ← traverse (share_for i) contributions; ok (sum shares)

  -- `Y_j`, from all commitments at `j`.
  unfoldable pub verification_share : List DkgContribution → ℕ → ℕ × Point
  verification_share contributions j = (
    as_u32 j,
    sum_points (map (λ d. evaluate_commitments d.commitments (from_u64 j)) contributions),
  )

  -- Step 3 at participant `i`.
  unfoldable pub key_share : List DkgContribution → ℕ → Point → ℕ → Result KeyShare
  key_share contributions n group_public_key i = do
    secret ← received contributions i
    ok (record {
      index = as_u32 i;
      secret = secret;
      group_public_key = group_public_key;
      verification_shares = map (verification_share contributions) (span 1 n);
    })

  -- The sum of the constant terms' commitments.
  unfoldable pub group_key : List DkgContribution → Result Point
  group_key contributions = do
    constants ← traverse (λ d. index d.commitments 0) contributions
    ok (sum_points constants)

  unfoldable pub run_dkg : ⦃g : RngCore⦄ → ThresholdConfig → State → Result (List KeyShare × State)
  run_dkg config s = do
    let t = config.threshold
    let n = config.total
    r ← contribute t n (span 1 n) s
    for_each (verify_received r.0) (span 1 n)
    group_public_key ← group_key r.0
    key_shares ← traverse (key_share r.0 n group_public_key) (span 1 n)
    ok (key_shares, r.1)

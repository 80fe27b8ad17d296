-- ===== src/Signing/Frost.antt =====
-- crates/signing/src/frost.rs.
pub mod Session
pub mod Threshold
pub mod Partial
use craftsec.Base.{ℕ, List, [], ◌∷◌, ◌++◌, map, Text, text, decimal, to_le_bytes, if◌then◌else◌}
use craftsec.Curve.{Curve, Scalar, Point, ◌+◌, ◌*◌, ◌⊕◌, ◌•◌, basepoint}
use craftsec.Core.External.{Digests, RngCore, State, sha512}
use craftsec.Core.Error.{Result, ok, err, invalid_signature}
use craftsec.Core.Types.{KeyShare}
use craftsec.Core.ScalarExt.{random_scalar, hash_to_scalar}
use craftsec.Dkg.Feldman.{sum, sum_points}
use craftsec.Signing.Lagrange.{lagrange_coefficient}

module _ ⦃c : Curve⦄ where
  pub record SigningNonce : Type 0 where
    pub index : ℕ
    pub d : Scalar
    pub e : Scalar

  pub record SigningCommitment : Type 0 where
    pub index : ℕ
    pub hiding : Point
    pub binding : Point

  pub record PartialSignature : Type 0 where
    pub index : ℕ
    pub z : Scalar

  pub record ThresholdSignature : Type 0 where
    pub r : Point
    pub s : Scalar

  -- The public half of a nonce.
  unfoldable pub commitment_of : SigningNonce → SigningCommitment
  commitment_of nonce = record {
    index = nonce.index;
    hiding = basepoint • nonce.d;
    binding = basepoint • nonce.e;
  }

  unfoldable pub generate_nonces :
      ⦃g : RngCore⦄ → ℕ → State → (SigningNonce × SigningCommitment) × State
  unfolding commitment_of
  generate_nonces i rng =
      let (d, rng') = random_scalar rng in
      let (e, rng'') = random_scalar rng' in
      let nonce : SigningNonce = record { index = i; d = d; e = e } in
      ((nonce, commitment_of nonce), rng'')

  -- The bytes of all commitments.
  commitment_bytes : List SigningCommitment → List ℕ
  commitment_bytes [] = []
  commitment_bytes (m ∷ rest) =
      to_le_bytes 4 m.index
      ++ (c.compress m.hiding ++ (c.compress m.binding ++ commitment_bytes rest))

  unfoldable pub signer_indices : List SigningCommitment → List ℕ
  signer_indices commitments = map (λ m. m.index) commitments

  module _ ⦃h : Digests⦄ where
    unfoldable pub binding_factor : ℕ → List ℕ → List SigningCommitment → Scalar
    unfolding commitment_bytes
    binding_factor i message commitments =
        hash_to_scalar (to_le_bytes 4 i ++ (message ++ commitment_bytes commitments))

    -- `D_i + E_i * ρ_i`.
    unfoldable pub bound_commitment : List ℕ → List SigningCommitment → SigningCommitment → Point
    bound_commitment message commitments m =
        m.hiding ⊕ m.binding • binding_factor m.index message commitments

    unfoldable pub group_commitment : List ℕ → List SigningCommitment → Point
    group_commitment message commitments =
        sum_points (map (bound_commitment message commitments) commitments)

    unfoldable pub compute_challenge : Point → Point → List ℕ → Scalar
    compute_challenge r public_key message =
        c.from_bytes_mod_order_wide (sha512 (c.compress r ++ (c.compress public_key ++ message)))

    unfoldable pub sign_partial :
        KeyShare → SigningNonce → List ℕ → List SigningCommitment → Result PartialSignature
    sign_partial key_share nonce message commitments =
        let r = group_commitment message commitments in
        let challenge = compute_challenge r key_share.group_public_key message in
        let rho = binding_factor key_share.index message commitments in
        let lambda = lagrange_coefficient key_share.index (signer_indices commitments) in
        ok (record {
          index = key_share.index;
          z = nonce.d + nonce.e * rho + lambda * key_share.secret * challenge;
        })

    unfoldable pub verify_partial :
        PartialSignature
        → SigningCommitment
        → Point
        → List ℕ
        → List SigningCommitment
        → Point
        → Result (Unit {0})
    verify_partial partial commitment verification_share message commitments group_public_key =
        let r = group_commitment message commitments in
        let challenge = compute_challenge r group_public_key message in
        let rho = binding_factor partial.index message commitments in
        let lambda = lagrange_coefficient partial.index (signer_indices commitments) in
        let lhs = basepoint • partial.z in
        let rhs =
          commitment.hiding
          ⊕ commitment.binding • rho
          ⊕ verification_share • (lambda * challenge) in
        if c.point_eq lhs rhs
        then ok tt
        else err (
            invalid_signature (
              text "partial signature verification failed for participant "
              ++ decimal partial.index))

    unfoldable pub aggregate :
        List ℕ → List SigningCommitment → List PartialSignature → ThresholdSignature
    aggregate message commitments partials = record {
      r = group_commitment message commitments;
      s = sum (map (λ p. p.z) partials);
    }

    unfoldable pub verify : ThresholdSignature → Point → List ℕ → Result (Unit {0})
    verify signature public_key message =
        let challenge = compute_challenge signature.r public_key message in
        let lhs = basepoint • signature.s in
        let rhs = signature.r ⊕ public_key • challenge in
        if c.point_eq lhs rhs
        then ok tt
        else err (invalid_signature (text "threshold signature verification failed"))

-- ===== src/Signing/Frost/Threshold.antt =====
-- Threshold signing works: any large enough set of holders makes a signature that verifies.
use craftsec.Base.{ℕ, ◌≤◌, ◌≡◌, refl, ap, ◌∙◌, List, [], ◌∷◌, map, length, length-map, arith}
use craftsec.Curve.{Curve, Scalar, ◌+◌, ◌*◌, scalar_zero, from_u64}
use craftsec.Core.External.{Digests}
use craftsec.Core.Error.{ok, traverse}
use craftsec.Dkg.Polynomial.Horner.{horner}
use craftsec.Dkg.Sharing.{public_key}
use craftsec.Dkg.Feldman.{sum}
use craftsec.Base.Fresh.{Distinct}
use craftsec.Signing.Lagrange.Coefficient.{Small}
use craftsec.Signing.Lagrange.Weighted.{weighted}
use craftsec.Signing.Lagrange.Interpolation.{interpolation}
use craftsec.Signing.Frost.{
  SigningCommitment, PartialSignature, signer_indices, group_commitment, compute_challenge,
  sign_partial, aggregate, verify,
}
use craftsec.Signing.Frost.Session.{
  Signer, indices, commitments_of, AllHold, bound_nonce, partials_of, response, expected,
  sum-response, signer_indices-commitments_of, verify-aggregate,
}

module _ ⦃c : Curve⦄ ⦃d : Digests⦄ where
  -- The partial signature of one signer.
  abbrev partial_of : List ℕ → List SigningCommitment → List ℕ → Scalar → Signer → PartialSignature
  partial_of message ms S x s = record { index = s.0.index; z = response message ms S x s }

  traverse-sign_partial :
      (f : List Scalar) (message : List ℕ) (ms : List SigningCommitment) (signers : List Signer)
      → AllHold f signers
      → traverse (λ s. sign_partial s.0 s.1 message ms) signers
        ≡ ok (
            map
              (partial_of message ms
                (signer_indices ms)
                (compute_challenge (group_commitment message ms) (public_key f) message))
              signers)
  unfolding traverse sign_partial
  traverse-sign_partial f message ms [] h = refl
  traverse-sign_partial f message ms (s ∷ signers) h =
      rw (h.0.1, traverse-sign_partial f message ms signers h.1)

  sum-partials :
      (message : List ℕ) (ms : List SigningCommitment) (S : List ℕ) (x : Scalar)
      (signers : List Signer)
      → sum (map (λ p. p.z) (map (partial_of message ms S x) signers))
        ≡ sum (map (response message ms S x) signers)
  unfolding sum
  sum-partials message ms S x [] = refl
  sum-partials message ms S x (s ∷ signers) =
      ap (λ t. response message ms S x s + t) (sum-partials message ms S x signers)

  -- Signers with distinct indices below the group order, each holding its value of `f`, at least
  -- as many as `f` has coefficients: every one of them produces its partial signature, and the
  -- aggregate of these verifies under the public key of `f`, for every message and all nonces.
  pub threshold_signature-verifies :
      (f : List Scalar) (message : List ℕ) (signers : List Signer)
      → AllHold f signers
      → length f ≤ length signers
      → Distinct (indices signers)
      → Small (indices signers)
      → (partials : List PartialSignature) × (partials_of message signers ≡ ok partials)
        × (verify (aggregate message (commitments_of signers) partials) (public_key f) message
            ≡ ok tt)
  threshold_signature-verifies f message signers h l u b = (
    map (partial_of message ms S x) signers,
    traverse-sign_partial f message ms signers h
        ∙ ap (λ T. ok (map (partial_of message ms T x) signers)) same,
    (verify-aggregate f message signers _).0 total,
  )
    where
      ms : List SigningCommitment
      ms = commitments_of signers

      S : List ℕ
      S = indices signers

      x : Scalar
      x = compute_challenge (group_commitment message ms) (public_key f) message

      same : signer_indices ms ≡ S
      same = signer_indices-commitments_of f signers h

      recovered : weighted (λ i. horner f (from_u64 i)) S S ≡ horner f scalar_zero
      recovered =
          interpolation f S (omega (arith, length-map (λ (s : Signer). s.0.index) signers)) u b

      total :
          sum (map (λ p. p.z) (map (partial_of message ms S x) signers))
          ≡ expected f message signers
      total =
          sum-partials message ms S x signers
          ∙ sum-response f message ms S x signers h
          ∙ ap (λ t. sum (map (bound_nonce message ms) signers) + t * x) recovered

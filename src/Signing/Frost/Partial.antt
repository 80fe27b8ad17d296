-- ===== src/Signing/Frost/Partial.antt =====
-- Partial signatures: what `verify_partial` accepts is what `sign_partial` produces.
use craftsec.Base.{ℕ, ◌≡◌, ◌≢◌, sym, ap, ap₂, ◌∙◌, List, ◌++◌, text, decimal}
use craftsec.Curve.{Curve, Scalar, ◌+◌, ◌*◌, ◌⊕◌, ◌•◌, basepoint}
use craftsec.Curve.Ring.{mul_assoc, mul_left_comm}
use craftsec.Core.External.{Digests}
use craftsec.Core.Error.{ok, err, invalid_signature}
use craftsec.Core.Types.{KeyShare}
use craftsec.Dkg.Feldman.Commitments.{point_eq_refl, point_ne→eq}
use craftsec.Signing.Lagrange.{lagrange_coefficient}
use craftsec.Signing.Frost.{
  SigningNonce, SigningCommitment, PartialSignature, commitment_of, signer_indices, binding_factor,
  group_commitment, compute_challenge, sign_partial, verify_partial,
}

module _ ⦃c : Curve⦄ ⦃d : Digests⦄ where
  -- The response of a signer to the commitments.
  abbrev honest_response : KeyShare → SigningNonce → List ℕ → List SigningCommitment → Scalar
  honest_response k nonce message ms =
      nonce.d
      + nonce.e * binding_factor k.index message ms
      + lagrange_coefficient k.index (signer_indices ms)
        * k.secret
        * compute_challenge (group_commitment message ms) k.group_public_key message

  right_side :
      (k : KeyShare) (nonce : SigningNonce) (message : List ℕ) (ms : List SigningCommitment)
      → basepoint • nonce.d
          ⊕ basepoint • nonce.e • binding_factor k.index message ms
          ⊕ basepoint
            • k.secret
            • (lagrange_coefficient k.index (signer_indices ms)
                * compute_challenge (group_commitment message ms) k.group_public_key message)
        ≡ basepoint • honest_response k nonce message ms
  right_side k nonce message ms =
      ap₂ ◌⊕◌ (ap (λ p. basepoint • nonce.d ⊕ p) (c.point_mul-mul _ _) ∙ c.point_mul-add _ _)
        (c.point_mul-mul _ _)
      ∙ c.point_mul-add _ _
      ∙ ap (λ t. basepoint • (nonce.d + nonce.e * binding_factor k.index message ms + t))
          (regroup _ _ _)
    where
      regroup : (s l x : Scalar) → s * (l * x) ≡ l * s * x
      regroup s l x = simp (mul_assoc, mul_left_comm)

  -- A partial signature under the signer's index is checked against the signer's commitment and the
  -- verification share of its secret. It is accepted if its response is the one that `sign_partial`
  -- returns, and refused with `InvalidSignature` if it is any other.
  pub verify_partial-sign_partial :
      (k : KeyShare) (nonce : SigningNonce) (message : List ℕ) (ms : List SigningCommitment)
      (p q : PartialSignature)
      → sign_partial k nonce message ms ≡ ok q
      → p.index ≡ k.index
      → (p.z ≡ q.z
          → verify_partial p
              (commitment_of nonce)
              (basepoint • k.secret)
              message
              ms
              k.group_public_key
            ≡ ok tt)
        × (p.z ≢ q.z
            → verify_partial p
                (commitment_of nonce)
                (basepoint • k.secret)
                message
                ms
                k.group_public_key
              ≡ err (
                  invalid_signature (
                    text "partial signature verification failed for participant "
                    ++ decimal p.index)))
  unfolding verify_partial sign_partial commitment_of
  verify_partial-sign_partial k nonce message ms p q e i = (
    λ z. rw (i, right_side k nonce message ms, z, honest) (rw (point_eq_refl _)),
    λ ne. rw (
      i,
      right_side k nonce message ms,
      point_ne→eq (basepoint • p.z) (basepoint • honest_response k nonce message ms)
          (λ w. ne (c.point_mul-injective _ _ w ∙ sym honest)),
    ),
  )
    where
      honest : q.z ≡ honest_response k nonce message ms
      honest = cc

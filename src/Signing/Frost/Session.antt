-- ===== src/Signing/Frost/Session.antt =====
-- A signing session of frost.rs: both rounds at a list of signers, then the aggregate.
use craftsec.Base.{ℕ, ◌≡◌, ◌≢◌, refl, sym, ap, ap₂, ◌∙◌, List, [], ◌∷◌, map, text}
use craftsec.Curve.{Curve, Scalar, ◌+◌, ◌*◌, ◌⊕◌, ◌•◌, scalar_zero, basepoint, from_u64}
use craftsec.Curve.Ring.{ring, zero-add, zero-mul}
use craftsec.Core.External.{Digests}
use craftsec.Core.Error.{Result, ok, err, invalid_signature, traverse}
use craftsec.Core.Types.{KeyShare}
use craftsec.Dkg.Polynomial.Horner.{horner}
use craftsec.Dkg.Sharing.{public_key}
use craftsec.Dkg.Feldman.{sum, sum_points}
use craftsec.Dkg.Feldman.Commitments.{point_eq_refl, point_ne→eq}
use craftsec.Signing.Lagrange.{lagrange_coefficient}
use craftsec.Signing.Lagrange.Weighted.{weighted}
use craftsec.Signing.Frost.{
  SigningNonce, SigningCommitment, PartialSignature, commitment_of, signer_indices, binding_factor,
  bound_commitment, group_commitment, compute_challenge, sign_partial, aggregate, verify,
}

module _ ⦃c : Curve⦄ where
  -- A key share with the nonce that its holder drew for the session.
  abbrev pub Signer : Type 0
  Signer = KeyShare × SigningNonce

  abbrev pub indices : List Signer → List ℕ
  indices = map (λ s. s.0.index)

  -- The commitments of round 1, in the order of the signers.
  abbrev pub commitments_of : List Signer → List SigningCommitment
  commitments_of = map (λ s. commitment_of s.1)

  -- The signer holds the value of `f` at its index, the public key of `f`, and a nonce of its own.
  abbrev pub Holds : List Scalar → Signer → Type 0
  Holds f s =
      (s.0.secret ≡ horner f (from_u64 s.0.index))
      × (s.0.group_public_key ≡ public_key f)
      × (s.1.index ≡ s.0.index)

  abbrev pub AllHold : List Scalar → List Signer → Type 0
  AllHold f [] = Unit
  AllHold f (s ∷ signers) = Holds f s × AllHold f signers

  pub signer_indices-commitments_of :
      (f : List Scalar) (signers : List Signer)
      → AllHold f signers
      → signer_indices (commitments_of signers) ≡ indices signers
  unfolding signer_indices commitment_of
  signer_indices-commitments_of f [] h = refl
  signer_indices-commitments_of f (s ∷ signers) h =
      ap₂ ◌∷◌ h.0.2 (signer_indices-commitments_of f signers h.1)

  module _ ⦃d : Digests⦄ where
    -- Round 2 at every signer, over the commitments of all of them.
    abbrev pub partials_of : List ℕ → List Signer → Result (List PartialSignature)
    partials_of message signers =
        traverse (λ s. sign_partial s.0 s.1 message (commitments_of signers)) signers

    -- The secret nonce of a signer that its commitment stands for in the group commitment.
    abbrev pub bound_nonce : List ℕ → List SigningCommitment → Signer → Scalar
    bound_nonce message ms s = s.1.d + s.1.e * binding_factor s.1.index message ms

    bound_commitment-commitment_of :
        (message : List ℕ) (ms : List SigningCommitment) (s : Signer)
        → bound_commitment message ms (commitment_of s.1) ≡ basepoint • bound_nonce message ms s
    unfolding bound_commitment commitment_of
    bound_commitment-commitment_of message ms s =
        ap (λ p. basepoint • s.1.d ⊕ p) (c.point_mul-mul _ _) ∙ c.point_mul-add _ _

    sum_points-bound :
        (message : List ℕ) (ms : List SigningCommitment) (signers : List Signer)
        → sum_points (map (bound_commitment message ms) (commitments_of signers))
          ≡ basepoint • sum (map (bound_nonce message ms) signers)
    unfolding sum_points sum
    sum_points-bound message ms [] = sym c.point_mul-zero
    sum_points-bound message ms (s ∷ signers) =
        ap₂ ◌⊕◌ (bound_commitment-commitment_of message ms s) (sum_points-bound message ms signers)
        ∙ c.point_mul-add _ _

    -- The group commitment hides the sum of the signers' bound nonces.
    group_commitment-commitments_of :
        (message : List ℕ) (signers : List Signer)
        → group_commitment message (commitments_of signers)
          ≡ basepoint • sum (map (bound_nonce message (commitments_of signers)) signers)
    unfolding group_commitment
    group_commitment-commitments_of message signers =
        sum_points-bound message (commitments_of signers) signers

    -- The response of one signer, when every one uses the challenge `x` and the weights for `S`.
    abbrev pub response : List ℕ → List SigningCommitment → List ℕ → Scalar → Signer → Scalar
    response message ms S x s =
        s.1.d
        + s.1.e * binding_factor s.0.index message ms
        + lagrange_coefficient s.0.index S * s.0.secret * x

    -- The responses add up to the nonces and the weighted secrets.
    pub sum-response :
        (f : List Scalar) (message : List ℕ) (ms : List SigningCommitment) (S : List ℕ) (x : Scalar)
        (signers : List Signer)
        → AllHold f signers
        → sum (map (response message ms S x) signers)
          ≡ sum (map (bound_nonce message ms) signers)
            + weighted (λ i. horner f (from_u64 i)) S (indices signers) * x
    unfolding sum
    sum-response f message ms S x [] h = sym (zero-add _ ∙ zero-mul x)
    sum-response f message ms S x (s ∷ signers) h =
        rw (h.0.0, h.0.2, sum-response f message ms S x signers h.1) (regroup _ _ _ _)
      where
        regroup : (p q r t : Scalar) → p + q * x + (r + t * x) ≡ p + r + (q + t) * x
        regroup p q r t = simp ring

    -- The response sum that `verify` wants of a session.
    abbrev pub expected : List Scalar → List ℕ → List Signer → Scalar
    expected f message signers =
        sum (map (bound_nonce message (commitments_of signers)) signers)
        + horner f scalar_zero
          * compute_challenge (group_commitment message (commitments_of signers)) (public_key f)
              message

    verify_expected :
        (f : List Scalar) (message : List ℕ) (signers : List Signer)
        → group_commitment message (commitments_of signers)
            ⊕ public_key f
              • compute_challenge
                  (group_commitment message (commitments_of signers))
                  (public_key f)
                  message
          ≡ basepoint • expected f message signers
    verify_expected f message signers =
        ap₂ ◌⊕◌ (group_commitment-commitments_of message signers) (c.point_mul-mul _ _)
        ∙ c.point_mul-add _ _

    -- Whatever partial signatures come in over a session's commitments, the aggregate verifies
    -- under the public key of `f` if their sum is the expected one (the bound nonces plus the secret
    -- times the challenge), and is refused with `InvalidSignature` otherwise.
    pub verify-aggregate :
        (f : List Scalar) (message : List ℕ) (signers : List Signer)
        (partials : List PartialSignature)
        → (sum (map (λ p. p.z) partials) ≡ expected f message signers
            → verify (aggregate message (commitments_of signers) partials) (public_key f) message
              ≡ ok tt)
          × (sum (map (λ p. p.z) partials) ≢ expected f message signers
              → verify (aggregate message (commitments_of signers) partials) (public_key f) message
                ≡ err (invalid_signature (text "threshold signature verification failed")))
    unfolding verify aggregate
    verify-aggregate f message signers partials = (
      λ e. rw (verify_expected f message signers, e) (rw (point_eq_refl _)),
      λ ne. rw (
        verify_expected f message signers,
        point_ne→eq _ _ (λ e. ne (c.point_mul-injective _ _ e)),
      ),
    )

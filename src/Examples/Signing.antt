-- ===== src/Examples/Signing.antt =====
-- Interpolation and a signing session of two of three participants.
use craftsec.Base.{◌≡◌, ◌≢◌, refl, ◌++◌, List, [], ◌∷◌, map, text, decimal, arith}
use craftsec.Curve.{scalar_zero, from_u64, ◌•◌, basepoint}
use craftsec.Curve.Small.{Residue, r0, r2, r3, r4, r5, r6, mod_seven}
use craftsec.Core.Error.{ok, err, invalid_signature}
use craftsec.Dkg.Polynomial.Horner.{horner}
use craftsec.Dkg.Sharing.{public_key, share_of}
use craftsec.Dkg.Feldman.{sum}
use craftsec.Signing.Lagrange.Weighted.{weighted}
use craftsec.Signing.Lagrange.Interpolation.{interpolation}
use craftsec.Signing.Frost.{
  SigningNonce, PartialSignature, commitment_of, sign_partial, verify_partial, aggregate, verify,
}
use craftsec.Signing.Frost.Session.{Signer, commitments_of, partials_of, expected, verify-aggregate}
use craftsec.Signing.Frost.Threshold.{threshold_signature-verifies}
use craftsec.Signing.Frost.Partial.{verify_partial-sign_partial}
use craftsec.Examples.World.{sums}

abbrev line : List Residue
line = r3 ∷ r2 ∷ []

interpolation_example :
    weighted (λ i. horner line (from_u64 i)) (1 ∷ 3 ∷ []) (1 ∷ 3 ∷ []) ≡ horner line scalar_zero
interpolation_example =
    interpolation line (1 ∷ 3 ∷ []) (omega arith) ((omega arith, tt), (tt, tt))
      (omega arith, (omega arith, tt))

abbrev first_nonce : SigningNonce
first_nonce = record { index = 1; d = r4; e = r5 }

abbrev third_nonce : SigningNonce
third_nonce = record { index = 3; d = r6; e = r2 }

abbrev signers : List Signer
signers = (share_of line 3 1, first_nonce) ∷ (share_of line 3 3, third_nonce) ∷ []

threshold_signature-verifies_example :
    (partials : List PartialSignature) × (partials_of (text "pay") signers ≡ ok partials)
    × (verify
          (aggregate (text "pay") (commitments_of signers) partials)
          (public_key line)
          (text "pay")
        ≡ ok tt)
threshold_signature-verifies_example =
    threshold_signature-verifies line (text "pay") signers
      ((refl, refl, refl), ((refl, refl, refl), tt)) (omega arith) ((omega arith, tt), (tt, tt))
      (omega arith, (omega arith, tt))

abbrev forged : List PartialSignature
forged = record { index = 1; z = r0 } ∷ []

verify-aggregate_example :
    (sum (map (λ p. p.z) forged) ≡ expected line (text "pay") signers
      → verify
          (aggregate (text "pay") (commitments_of signers) forged)
          (public_key line)
          (text "pay")
        ≡ ok tt)
    × (sum (map (λ p. p.z) forged) ≢ expected line (text "pay") signers
        → verify
            (aggregate (text "pay") (commitments_of signers) forged)
            (public_key line)
            (text "pay")
          ≡ err (invalid_signature (text "threshold signature verification failed")))
verify-aggregate_example = verify-aggregate line (text "pay") signers forged

first_partial :
    (q : PartialSignature) × (sign_partial
        (share_of line 3 1)
        first_nonce
        (text "pay")
        (commitments_of signers)
      ≡ ok q)
unfolding sign_partial
first_partial = (_, refl)

verify_partial-sign_partial_example :
    (r0 ≡ first_partial.0.z
      → verify_partial
          (record { index = 1; z = r0 })
          (commitment_of first_nonce)
          (basepoint • (share_of line 3 1).secret)
          (text "pay")
          (commitments_of signers)
          (public_key line)
        ≡ ok tt)
    × (r0 ≢ first_partial.0.z
        → verify_partial
            (record { index = 1; z = r0 })
            (commitment_of first_nonce)
            (basepoint • (share_of line 3 1).secret)
            (text "pay")
            (commitments_of signers)
            (public_key line)
          ≡ err (
              invalid_signature
                (text "partial signature verification failed for participant " ++ decimal 1)))
verify_partial-sign_partial_example =
    verify_partial-sign_partial (share_of line 3 1) first_nonce (text "pay")
      (commitments_of signers) (record { index = 1; z = r0 }) first_partial.0 first_partial.1 refl

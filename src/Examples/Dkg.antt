-- ===== src/Examples/Dkg.antt =====
-- Polynomials, the ceremony, rotation and key derivation at concrete inputs.
use Prim.Native.Nat.{max}
use craftsec.Base.{
  All, ℕ, ◌≡◌, ◌≢◌, refl, ◌++◌, List, [], ◌∷◌, map, length, span, text, decimal, arith,
}
use craftsec.Curve.{scalar_zero, from_u64}
use craftsec.Curve.Small.{Residue, r2, r3, r4, r5, r6, mod_seven}
use craftsec.Core.Error.{ok, err, invalid_share}
use craftsec.Core.Types.{KeyShare}
use craftsec.Dkg.Polynomial.{Polynomial, evaluate, secret}
use craftsec.Dkg.Polynomial.Horner.{horner, add_coefficients, evaluate-horner}
use craftsec.Dkg.Polynomial.Secrecy.{secret-evaluate}
use craftsec.Dkg.Sharing.{public_key, share_of, IsSharing}
use craftsec.Dkg.Feldman.{commit, verify_share, run_dkg}
use craftsec.Dkg.Feldman.Commitments.{verify_share_decides}
use craftsec.Dkg.Feldman.Ceremony.{run_dkg-IsSharing}
use craftsec.Dkg.Rotation.{rotate_shares}
use craftsec.Dkg.Rotation.Refresh.{rotate_shares-IsSharing}
use craftsec.Dkg.Pdk.{derive_key, derive_polynomial}
use craftsec.Dkg.Pdk.Derived.{derive_key-IsSharing, key_material-injective}
use craftsec.Examples.World.{sums, counter, two_of_three, two_of_three-IsValid}

abbrev line : List Residue
line = r3 ∷ r2 ∷ []

abbrev line_polynomial : Polynomial
line_polynomial = record { coefficients = line }

evaluate-horner_example : evaluate line_polynomial r4 ≡ horner line r4
evaluate-horner_example = evaluate-horner line_polynomial r4

verify_share_decides_example :
    (r5 ≡ evaluate line_polynomial (from_u64 1)
      → verify_share 1 r5 (commit line_polynomial) ≡ ok tt)
    × (r5 ≢ evaluate line_polynomial (from_u64 1)
        → verify_share 1 r5 (commit line_polynomial)
          ≡ err (invalid_share (text "share verification failed for participant " ++ decimal 1)))
verify_share_decides_example = verify_share_decides 1 r5 line_polynomial

run_dkg-IsSharing_example :
    (f : List Residue) × (shares : List KeyShare) × (end : ℕ) × (run_dkg two_of_three 10
      ≡ ok (shares, end))
    × (length f ≡ 2)
    × IsSharing f 3 shares
run_dkg-IsSharing_example = run_dkg-IsSharing two_of_three 10 two_of_three-IsValid

abbrev line_shares : List KeyShare
line_shares = map (share_of line 3) (span 1 3)

rotate_shares-IsSharing_example :
    (z : List Residue) × (shares : List KeyShare) × (end : ℕ) × (rotate_shares line_shares
        two_of_three 10
      ≡ ok (shares, end))
    × IsSharing (add_coefficients line z) 3 shares
    × (length z ≡ 2)
    × (horner z scalar_zero ≡ scalar_zero)
    × (public_key (add_coefficients line z) ≡ public_key line)
    × (length (add_coefficients line z) ≡ max (length line) 2)
rotate_shares-IsSharing_example =
    rotate_shares-IsSharing line 3 line_shares two_of_three 10 refl (omega arith) (omega arith)
      (omega arith)

derive_key-IsSharing_example :
    (shares : List KeyShare) × (derive_key (text "Qm") (text "main") two_of_three
      ≡ ok (public_key (derive_polynomial (text "Qm") (text "main") 2).coefficients, shares))
    × IsSharing (derive_polynomial (text "Qm") (text "main") 2).coefficients 3 shares
    × (length (derive_polynomial (text "Qm") (text "main") 2).coefficients ≡ 2)
derive_key-IsSharing_example =
    derive_key-IsSharing (text "Qm") (text "main") two_of_three two_of_three-IsValid

key_material-injective_example : (text "Qm" ≡ text "Qm") × (text "main" ≡ text "main")
key_material-injective_example =
    key_material-injective (text "Qm") (text "main") (text "Qm") (text "main")
      (omega arith, (omega arith, tt)) (omega arith, (omega arith, tt)) refl

-- The share of participant 2 fits the secret 6 as well.
secret-evaluate_example :
    (q : Polynomial) × (length q.coefficients ≡ length line)
    × (secret q ≡ ok r6)
    × All (λ i. evaluate q (from_u64 i) ≡ evaluate line_polynomial (from_u64 i)) (2 ∷ [])
secret-evaluate_example =
    secret-evaluate line_polynomial (2 ∷ []) r6 (omega arith) (omega arith, tt) (omega arith, tt)

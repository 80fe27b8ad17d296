-- ===== src/Dkg/Rotation/ZeroShares.antt =====
-- The contributions of a rotation come from polynomials that vanish at zero.
use craftsec.Base.{ℕ, suc, ◌≡◌, refl, ap, ap₂, ◌∙◌, List, [], ◌∷◌, length, All}
use craftsec.Curve.{Curve, Scalar, ◌+◌, scalar_zero}
use craftsec.Curve.Ring.{zero-add}
use craftsec.Core.External.{RngCore, State}
use craftsec.Core.Error.{Result, ok}
use craftsec.Dkg.Polynomial.{random, random_coefficients}
use craftsec.Dkg.Polynomial.Horner.{horner, horner-zero, horner-add, add_all}
use craftsec.Dkg.Polynomial.Random.{length-random}
use craftsec.Dkg.Feldman.{DkgContribution, commit, contribution}
use craftsec.Dkg.Feldman.Commitments.{point_eq_refl}
use craftsec.Dkg.Feldman.Honest.{AllHonest, poly}
use craftsec.Dkg.Feldman.Ceremony.{AllLength}
use craftsec.Dkg.Rotation.{assert_identity, contribute_zero}

module _ ⦃c : Curve⦄ where
  -- Every polynomial is zero at zero.
  abbrev pub AllVanish : List (List Scalar) → Type 0
  AllVanish = All (λ f. horner f scalar_zero ≡ scalar_zero)

  pub add_all-AllVanish :
      (fs : List (List Scalar)) → AllVanish fs → horner (add_all fs) scalar_zero ≡ scalar_zero
  add_all-AllVanish [] h = refl
  add_all-AllVanish (f ∷ fs) h =
      horner-add f (add_all fs) scalar_zero
      ∙ ap₂ ◌+◌ h.0 (add_all-AllVanish fs h.1)
      ∙ zero-add scalar_zero

  -- The assertion on the constant term's commitment holds.
  assert_identity-zero :
      (rest : List Scalar) → assert_identity (commit (poly (scalar_zero ∷ rest))) ≡ ok tt
  unfolding assert_identity commit
  assert_identity-zero rest = rw c.point_mul-zero (rw (point_eq_refl _))

  module _ ⦃g : RngCore⦄ where
    abbrev pub ContributesZero : ℕ → ℕ → List ℕ → Result (List DkgContribution × State) → Type 0
    ContributesZero t n is r =
        (ds : List DkgContribution) × (s' : State) × (fs : List (List Scalar)) × (r ≡ ok (ds, s'))
        × AllHonest n ds fs
        × AllLength t fs
        × AllVanish fs
        × (length fs ≡ length is)

    pub contribute_zero-ContributesZero :
        (degree n : ℕ) (is : List ℕ) (s : State)
        → ContributesZero (suc degree) n is (contribute_zero (suc degree) n is s)
    unfolding contribute_zero contribution random
    contribute_zero-ContributesZero degree n [] s = ([], s, [], refl, tt, tt, tt, refl)
    contribute_zero-ContributesZero degree n (i ∷ is) s =
        let drawn = random degree scalar_zero s in
        let (ds, s', fs, e, h, l, v, k) = contribute_zero-ContributesZero degree n is drawn.1 in
        (
          contribution n i drawn.0 ∷ ds,
          s',
          drawn.0.coefficients ∷ fs,
          rw (assert_identity-zero (random_coefficients degree s).0, e),
          ((refl, refl), h),
          (length-random degree scalar_zero s, l),
          (horner-zero scalar_zero (random_coefficients degree s).0, v),
          ap suc k,
        )

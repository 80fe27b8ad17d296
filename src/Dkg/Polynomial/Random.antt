-- ===== src/Dkg/Polynomial/Random.antt =====
-- Random polynomials have the requested degree and constant term, whatever the generator gives.
use craftsec.Base.{ℕ, zero, suc, ◌≡◌, refl, ap, length}
use craftsec.Curve.{Curve, Scalar}
use craftsec.Core.External.{RngCore, State}
use craftsec.Core.ScalarExt.{random_scalar}
use craftsec.Dkg.Polynomial.{random_coefficients, random, random_full}

module _ ⦃c : Curve⦄ ⦃g : RngCore⦄ where
  length-random_coefficients : (k : ℕ) (s : State) → length (random_coefficients k s).0 ≡ k
  unfolding random_coefficients
  length-random_coefficients zero s = refl
  length-random_coefficients (suc k) s = ap suc (length-random_coefficients k (random_scalar s).1)

  pub length-random :
      (degree : ℕ) (constant : Scalar) (s : State)
      → length (random degree constant s).0.coefficients ≡ suc degree
  unfolding random
  length-random degree constant s = ap suc (length-random_coefficients degree s)

  pub length-random_full :
      (degree : ℕ) (s : State) → length (random_full degree s).0.coefficients ≡ suc degree
  unfolding random_full
  length-random_full degree s = length-random degree (random_scalar s).0 (random_scalar s).1

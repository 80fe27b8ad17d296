-- ===== src/Dkg/Polynomial.antt =====
-- crates/dkg/src/polynomial.rs. The generator's state is passed on explicitly.
pub mod Horner
pub mod Random
pub mod Secrecy
use craftsec.Base.{ℕ, zero, suc, List, [], ◌∷◌}
use craftsec.Curve.{Curve, Scalar, ◌+◌, ◌*◌, scalar_zero, scalar_one}
use craftsec.Core.External.{RngCore, State}
use craftsec.Core.Error.{Result, index}
use craftsec.Core.ScalarExt.{random_scalar}

module _ ⦃c : Curve⦄ where
  pub record Polynomial : Type 0 where
    pub coefficients : List Scalar

  -- The loop `for coeff in &self.coefficients` with its two variables.
  evaluate_loop : Scalar → Scalar → Scalar → List Scalar → Scalar
  evaluate_loop x result x_power [] = result
  evaluate_loop x result x_power (coeff ∷ rest) =
      evaluate_loop x (result + coeff * x_power) (x_power * x) rest

  unfoldable pub evaluate : Polynomial → Scalar → Scalar
  unfolding evaluate_loop
  evaluate p x = evaluate_loop x scalar_zero scalar_one p.coefficients

  -- `coefficients[0]`, which panics on a polynomial with no coefficient.
  unfoldable pub secret : Polynomial → Result Scalar
  secret p = index p.coefficients 0

  module _ ⦃g : RngCore⦄ where
    -- The loop `for _ in 0..degree`.
    unfoldable pub random_coefficients : ℕ → State → List Scalar × State
    random_coefficients zero s = ([], s)
    random_coefficients (suc k) s =
        let (a, s') = random_scalar s in
        let (rest, s'') = random_coefficients k s' in (a ∷ rest, s'')

    -- `Polynomial::random`.
    unfoldable pub random : ℕ → Scalar → State → Polynomial × State
    random degree constant s =
        let (rest, s') = random_coefficients degree s in
        (record { coefficients = constant ∷ rest }, s')

    unfoldable pub random_full : ℕ → State → Polynomial × State
    random_full degree s = let (constant, s') = random_scalar s in random degree constant s'

-- ===== src/Signing/Lagrange.antt =====
-- crates/signing/src/lagrange.rs.
pub mod Coefficient
pub mod Weighted
pub mod Interpolation
use craftsec.Base.{ℕ, List, [], ◌∷◌, ◌==◌, if◌then◌else◌}
use craftsec.Curve.{Curve, Scalar, ◌*◌, ◌-◌, invert, scalar_one, from_u64}

module _ ⦃c : Curve⦄ where
  -- The loop `for &j in signer_indices` with `numerator` and `denominator`.
  unfoldable pub lagrange_loop : ℕ → Scalar × Scalar → List ℕ → Scalar × Scalar
  lagrange_loop i acc [] = acc
  lagrange_loop i (numerator, denominator) (j ∷ rest) =
      lagrange_loop i
        (if j == i
          then (numerator, denominator)
          else (numerator * from_u64 j, denominator * (from_u64 j - from_u64 i)))
        rest

  unfoldable pub lagrange_coefficient : ℕ → List ℕ → Scalar
  lagrange_coefficient i signer_indices =
      let (numerator, denominator) = lagrange_loop i (scalar_one, scalar_one) signer_indices in
      numerator * invert denominator

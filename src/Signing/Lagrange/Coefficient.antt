-- ===== src/Signing/Lagrange/Coefficient.antt =====
-- The coefficients of lagrange.rs: what the loop computes, and what one more signer changes.
use craftsec.Base.{
  ℕ, ◌<◌, ◌≡◌, ◌≢◌, sym, ap₂, ◌∙◌, List, [], ◌∷◌, arith, ◌==◌, ==_refl, ne→==, Bool-cases, inl, inr,
  if◌then◌else◌,
}
use craftsec.Base.Fresh.{Below}
use craftsec.Curve.{Curve, Scalar, ◌*◌, ◌-◌, invert, scalar_zero, scalar_one, from_u64}
use craftsec.Curve.Ring.{
  one-mul, mul-one, mul_assoc, mul_comm, mul_left_comm, mul-ne-zero, one-ne-zero, mul-invert-mul,
  sub-ne-zero,
}
use craftsec.Signing.Lagrange.{lagrange_loop, lagrange_coefficient}

module _ ⦃c : Curve⦄ where
  -- Every index is below the order, so distinct indices are distinct scalars.
  abbrev pub Small : List ℕ → Type 0
  Small = Below c.order

  -- The products that the loop accumulates.
  numerators : ℕ → List ℕ → Scalar
  numerators i [] = scalar_one
  numerators i (j ∷ rest) = (if j == i then scalar_one else from_u64 j) * numerators i rest

  denominators : ℕ → List ℕ → Scalar
  denominators i [] = scalar_one
  denominators i (j ∷ rest) =
      (if j == i then scalar_one else from_u64 j - from_u64 i) * denominators i rest

  lagrange_loop_lem :
      (i : ℕ) (n d : Scalar) (S : List ℕ)
      → lagrange_loop i (n, d) S ≡ (n * numerators i S, d * denominators i S)
  unfolding lagrange_loop numerators denominators
  lagrange_loop_lem i n d [] = simp mul-one
  lagrange_loop_lem i n d (j ∷ S) = elim (Bool-cases (j == i)) [
    | inl e ↦ rw e (lagrange_loop_lem i n d S ∙ simp one-mul)
    | inr e ↦
        rw e
          (lagrange_loop_lem i (n * from_u64 j) (d * (from_u64 j - from_u64 i)) S ∙ simp mul_assoc)
  ]

  coefficient_lem :
      (i : ℕ) (S : List ℕ) → lagrange_coefficient i S ≡ numerators i S * invert (denominators i S)
  unfolding lagrange_coefficient
  coefficient_lem i S = rw (lagrange_loop_lem i scalar_one scalar_one S) (simp one-mul)

  pub from_u64-ne : (i j : ℕ) → i < c.order → j < c.order → i ≢ j → from_u64 i ≢ from_u64 j
  from_u64-ne i j h k ne e = ne (c.from_u64-injective i j h k e)

  denominators-ne-zero :
      (i : ℕ) (S : List ℕ) → i < c.order → Small S → denominators i S ≢ scalar_zero
  unfolding denominators
  denominators-ne-zero i [] h s = one-ne-zero
  denominators-ne-zero i (j ∷ S) h s = elim (Bool-cases (j == i)) [
    | inl e ↦ rw e (mul-ne-zero _ _ one-ne-zero (denominators-ne-zero i S h s.1))
    | inr e ↦ rw e (
        mul-ne-zero _ _ (sub-ne-zero _ _ (from_u64-ne j i s.0 h (ground arith)))
          (denominators-ne-zero i S h s.1))
  ]

  -- The order of the first two signers does not matter.
  pub coefficient-swap :
      (i a b : ℕ) (S : List ℕ)
      → lagrange_coefficient i (a ∷ b ∷ S) ≡ lagrange_coefficient i (b ∷ a ∷ S)
  unfolding numerators denominators
  coefficient-swap i a b S =
      coefficient_lem i (a ∷ b ∷ S)
      ∙ ap₂ (λ n d. n * invert d) (mul_left_comm _ _ _) (mul_left_comm _ _ _)
      ∙ sym (coefficient_lem i (b ∷ a ∷ S))

  -- A signer alone has the coefficient one.
  pub coefficient-alone : (a : ℕ) → lagrange_coefficient a (a ∷ []) ≡ scalar_one
  unfolding numerators denominators
  coefficient-alone a =
      coefficient_lem a (a ∷ []) ∙ rw (==_refl a) (rw one-mul (c.mul-invert scalar_one one-ne-zero))

  -- Another signer `a` multiplies the coefficient by `a / (a - i)`.
  pub coefficient-cons :
      (a i : ℕ) (S : List ℕ)
      → i < c.order
      → Small (a ∷ S)
      → a ≢ i
      → lagrange_coefficient i (a ∷ S) * (from_u64 a - from_u64 i)
        ≡ from_u64 a * lagrange_coefficient i S
  unfolding numerators denominators
  coefficient-cons a i S h s ne =
      rw (coefficient_lem i (a ∷ S), coefficient_lem i S, ne→== a i ne)
        (rearranged (from_u64 a) (numerators i S) (from_u64 a - from_u64 i) (denominators i S) (
          mul-invert-mul (from_u64 a - from_u64 i) (denominators i S)
            (sub-ne-zero _ _ (from_u64-ne a i s.0 h ne)) (denominators-ne-zero i S h s.1)))
    where
      rearranged :
          (x n d e : Scalar)
          → d * invert (d * e) ≡ invert e
          → x * n * invert (d * e) * d ≡ x * (n * invert e)
      rearranged x n d e k = rw (← k) (simp (mul_assoc, mul_comm))

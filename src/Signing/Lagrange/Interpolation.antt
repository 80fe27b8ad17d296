-- ===== src/Signing/Lagrange/Interpolation.antt =====
-- Lagrange interpolation at zero with the coefficients of lagrange.rs.
use craftsec.Base.{ℕ, ◌≤◌, ◌≡◌, ◌≢◌, refl, sym, ap, ◌∙◌, ◌≡⟨◌⟩◌, ◌∎, List, [], ◌∷◌, length, arith}
use craftsec.Curve.{Curve, Scalar, ◌+◌, ◌*◌, ◌-◌, scalar_zero, scalar_one, from_u64}
use craftsec.Curve.Ring.{
  ring, zero-add, add-zero, one-mul, mul-one, zero-mul, add_right_cancel, mul_left_cancel, sub-add,
  sub-ne-zero, add_left_comm,
}
use craftsec.Dkg.Polynomial.Horner.{horner, quotient, length-quotient, horner-quotient}
use craftsec.Dkg.Feldman.{sum}
use craftsec.Base.Fresh.{Distinct}
use craftsec.Signing.Lagrange.Coefficient.{Small, from_u64-ne, coefficient-alone}
use craftsec.Signing.Lagrange.Weighted.{
  weighted, away, weighted-congr, weighted-add, weighted-scale, weighted-swap, weighted-away,
}

module _ ⦃c : Curve⦄ where
  abbrev total : List ℕ → Scalar
  total S = weighted (λ _. scalar_one) S S

  -- The first two signers can be exchanged.
  weighted-swap_all :
      (g : ℕ → Scalar) (a b : ℕ) (S : List ℕ)
      → weighted g (b ∷ a ∷ S) (b ∷ a ∷ S) ≡ weighted g (a ∷ b ∷ S) (a ∷ b ∷ S)
  unfolding sum
  weighted-swap_all g a b S = weighted-swap g b a S (b ∷ a ∷ S) ∙ add_left_comm _ _ _

  -- The weighted sum of the indices, by the distances from the first.
  balance :
      (a : ℕ) (S : List ℕ)
      → Distinct (a ∷ S)
      → Small (a ∷ S)
      → weighted from_u64 (a ∷ S) (a ∷ S) + from_u64 a * total S ≡ from_u64 a * total (a ∷ S)
  balance a S u s =
      weighted from_u64 (a ∷ S) (a ∷ S) + x * total S
      ≡⟨ ap (λ t. t + x * total S) split ⟩
        weighted apart (a ∷ S) (a ∷ S) + x * total (a ∷ S) + x * total S
      ≡⟨ regroup _ _ _ (weighted-away (λ _. scalar_one) a S s u.0) ⟩ x * total (a ∷ S) ∎
    where
      x : Scalar
      x = from_u64 a

      apart : ℕ → Scalar
      apart i = away a i * scalar_one

      near : (i : ℕ) → from_u64 i ≡ apart i + x * scalar_one
      near i = sym (sub-add (from_u64 i) x) ∙ simp mul-one

      split : weighted from_u64 (a ∷ S) (a ∷ S) ≡ weighted apart (a ∷ S) (a ∷ S) + x * total (a ∷ S)
      split =
          weighted-congr from_u64 (λ i. apart i + x * scalar_one) (a ∷ S) (a ∷ S) near
          ∙ weighted-add apart (λ _. x * scalar_one) (a ∷ S) (a ∷ S)
          ∙ ap (λ t. weighted apart (a ∷ S) (a ∷ S) + t)
              (weighted-scale (λ _. scalar_one) x (a ∷ S) (a ∷ S))

      regroup : (p q r : Scalar) → p + r ≡ scalar_zero → p + q + r ≡ q
      regroup p q r h =
          p + q + r
          ≡⟨ (simp ring) ⟩ p + r + q
          ≡⟨ ap (λ t. t + q) h ⟩ scalar_zero + q
          ≡⟨ zero-add q ⟩ q ∎

  -- Two different scalars in one linear equation leave one solution.
  slope_one :
      (p u x y : Scalar)
      → p + x * scalar_one ≡ x * u
      → p + y * scalar_one ≡ y * u
      → x ≢ y
      → u ≡ scalar_one
  slope_one p u x y h k ne = mul_left_cancel d u scalar_one (sub-ne-zero x y ne) (
      add_right_cancel (y * u) _ _ (
        d * u + y * u
        ≡⟨ (simp ring) ⟩ (d + y) * u
        ≡⟨ ap (λ t. t * u) (sub-add x y) ⟩ x * u
        ≡⟨ sym h ⟩ p + x * scalar_one
        ≡⟨ ap (λ t. p + t * scalar_one) (sym (sub-add x y)) ⟩ p + (d + y) * scalar_one
        ≡⟨ (simp ring) ⟩ d * scalar_one + (p + y * scalar_one)
        ≡⟨ ap (λ t. d * scalar_one + t) k ⟩ d * scalar_one + y * u ∎))
    where
      d : Scalar
      d = x - y

  -- The coefficients of distinct signers add up to one.
  total-one : (a : ℕ) (S : List ℕ) → Distinct (a ∷ S) → Small (a ∷ S) → total (a ∷ S) ≡ scalar_one
  unfolding sum
  total-one a [] u s = rw (coefficient-alone a) (add-zero _ ∙ one-mul scalar_one)
  total-one a (b ∷ S) u s =
      slope_one (weighted from_u64 (a ∷ b ∷ S) (a ∷ b ∷ S)) _ (from_u64 a) (from_u64 b)
        (rw (total-one b S u.1 s.1) at (balance a (b ∷ S) u s))
        (rw
          (
            total-one a S (u.0.1, u.1.1) (s.0, s.1.1),
            weighted-swap_all from_u64 a b S,
            weighted-swap_all (λ _. scalar_one) a b S,
          )
          at
          (balance b (a ∷ S) (((λ e. u.0.0 (sym e)), u.1.0), (u.0.1, u.1.1)) (s.1.0, (s.0, s.1.1))))
        (from_u64-ne a b s.0 s.1.0 u.0.0)

  -- One signer more: the polynomial is divided by its distance from that signer.
  interpolation_step :
      (f : List Scalar) (a : ℕ) (S : List ℕ)
      → Distinct (a ∷ S)
      → Small (a ∷ S)
      → weighted (λ i. horner (quotient (from_u64 a) f) (from_u64 i)) S S
        ≡ horner (quotient (from_u64 a) f) scalar_zero
      → weighted (λ i. horner f (from_u64 i)) (a ∷ S) (a ∷ S) ≡ horner f scalar_zero
  interpolation_step f a S u s ih =
      split
      ∙ finish _ (horner f x) (horner q scalar_zero) x (
          ap (λ t. weighted apart (a ∷ S) (a ∷ S) + x * t) (sym ih)
          ∙ weighted-away (λ i. horner q (from_u64 i)) a S s u.0)
      ∙ sym (horner-quotient f scalar_zero (scalar_zero - x) x (sub-add scalar_zero x))
    where
      x : Scalar
      x = from_u64 a

      q : List Scalar
      q = quotient x f

      apart : ℕ → Scalar
      apart i = away a i * horner q (from_u64 i)

      near : (i : ℕ) → horner f (from_u64 i) ≡ horner f x * scalar_one + apart i
      near i = horner-quotient f (from_u64 i) (away a i) x (sub-add (from_u64 i) x) ∙ simp mul-one

      split :
          weighted (λ i. horner f (from_u64 i)) (a ∷ S) (a ∷ S)
          ≡ horner f x * scalar_one + weighted apart (a ∷ S) (a ∷ S)
      split =
          weighted-congr _ (λ i. horner f x * scalar_one + apart i) (a ∷ S) (a ∷ S) near
          ∙ weighted-add (λ _. horner f x * scalar_one) apart (a ∷ S) (a ∷ S)
          ∙ ap (λ t. t + weighted apart (a ∷ S) (a ∷ S))
              (weighted-scale (λ _. scalar_one) (horner f x) (a ∷ S) (a ∷ S)
                ∙ ap (λ t. horner f x * t) (total-one a S u s))

      finish :
          (p v r y : Scalar)
          → p + y * r ≡ scalar_zero
          → v * scalar_one + p ≡ v + (scalar_zero - y) * r
      finish p v r y h = add_right_cancel (y * r) _ _ (
          v * scalar_one + p + y * r
          ≡⟨ (simp ring) ⟩ v + (p + y * r)
          ≡⟨ ap (λ t. v + t) (h ∙ sym (zero-mul r)) ⟩ v + scalar_zero * r
          ≡⟨ ap (λ t. v + t * r) (sym (sub-add scalar_zero y)) ⟩ v + (scalar_zero - y + y) * r
          ≡⟨ (simp ring) ⟩ v + (scalar_zero - y) * r + y * r ∎)

  -- Distinct signers, at least as many as the polynomial has coefficients, recover its constant
  -- term: the sum of their values, each times the signer's coefficient, is the value at zero. The
  -- indices are below the group order.
  pub interpolation :
      (f : List Scalar) (S : List ℕ)
      → length f ≤ length S
      → Distinct S
      → Small S
      → weighted (λ i. horner f (from_u64 i)) S S ≡ horner f scalar_zero
  unfolding sum
  interpolation [] [] h u s = refl
  interpolation (b ∷ f) [] h u s = absurd (omega arith)
  interpolation [] (a ∷ S) h u s =
      interpolation_step [] a S u s (interpolation [] S (omega arith) u.1 s.1)
  interpolation (b ∷ f) (a ∷ S) h u s = interpolation_step (b ∷ f) a S u s (
      interpolation (quotient (from_u64 a) (b ∷ f)) S
        (omega (arith, length-quotient (from_u64 a) b f)) u.1 s.1)

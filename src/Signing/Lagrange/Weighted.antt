-- ===== src/Signing/Lagrange/Weighted.antt =====
-- Sums over the signers weighted by their coefficients.
use craftsec.Base.{ℕ, ◌≡◌, refl, sym, ap, ap₂, ◌∙◌, ◌≡⟨◌⟩◌, ◌∎, List, [], ◌∷◌, map}
use mathlib.Core.Path.{fun_ext}
use craftsec.Curve.{Curve, Scalar, ◌+◌, ◌*◌, ◌-◌, scalar_zero, from_u64}
use craftsec.Curve.Ring.{
  ring, zero-add, zero-mul, mul-zero, mul_assoc, add_right_cancel, sub-add, sub-add-sub,
}
use craftsec.Dkg.Feldman.{sum}
use craftsec.Signing.Lagrange.{lagrange_coefficient}
use craftsec.Base.Fresh.{Fresh}
use craftsec.Signing.Lagrange.Coefficient.{Small, coefficient-cons, coefficient-swap}

module _ ⦃c : Curve⦄ where
  -- The sum over the signers `T` of `g` at each, weighted by the coefficients for the signers `S`.
  abbrev pub weighted : (ℕ → Scalar) → List ℕ → List ℕ → Scalar
  weighted g S T = sum (map (λ i. lagrange_coefficient i S * g i) T)

  -- The distance of signer `i` from `a`.
  abbrev pub away : ℕ → ℕ → Scalar
  away a i = from_u64 i - from_u64 a

  pub weighted-congr :
      (g h : ℕ → Scalar) (S T : List ℕ) → ((i : ℕ) → g i ≡ h i) → weighted g S T ≡ weighted h S T
  weighted-congr g h S T e = rw (fun_ext e)

  pub weighted-add :
      (g h : ℕ → Scalar) (S T : List ℕ)
      → weighted (λ i. g i + h i) S T ≡ weighted g S T + weighted h S T
  unfolding sum
  weighted-add g h S [] = sym (zero-add scalar_zero)
  weighted-add g h S (i ∷ T) = rw (weighted-add g h S T) (step _ (g i) (h i) _ _)
    where
      step : (l x y u v : Scalar) → l * (x + y) + (u + v) ≡ l * x + u + (l * y + v)
      step l x y u v = simp ring

  pub weighted-scale :
      (g : ℕ → Scalar) (x : Scalar) (S T : List ℕ)
      → weighted (λ i. x * g i) S T ≡ x * weighted g S T
  unfolding sum
  weighted-scale g x S [] = sym (mul-zero x)
  weighted-scale g x S (i ∷ T) = rw (weighted-scale g x S T) (step _ (g i) _)
    where
      step : (l y u : Scalar) → l * (x * y) + x * u ≡ x * (l * y + u)
      step l y u = simp ring

  pub weighted-swap :
      (g : ℕ → Scalar) (a b : ℕ) (S T : List ℕ)
      → weighted g (a ∷ b ∷ S) T ≡ weighted g (b ∷ a ∷ S) T
  unfolding sum
  weighted-swap g a b S [] = refl
  weighted-swap g a b S (i ∷ T) =
      ap₂ (λ x y. x * g i + y) (coefficient-swap i a b S) (weighted-swap g a b S T)

  opposite :
      (l m g x d e : Scalar)
      → l * e ≡ x * m
      → d + e ≡ scalar_zero
      → l * (d * g) + x * (m * g) ≡ scalar_zero
  opposite l m g x d e h k =
      l * (d * g) + x * (m * g)
      ≡⟨ ap (λ t. l * (d * g) + t) (sym (mul_assoc x m g) ∙ ap (λ t. t * g) (sym h)) ⟩
        l * (d * g) + l * e * g
      ≡⟨ (simp ring) ⟩ (d + e) * (l * g)
      ≡⟨ ap (λ t. t * (l * g)) k ⟩ scalar_zero * (l * g)
      ≡⟨ zero-mul _ ⟩ scalar_zero ∎

  -- Over the other signers, the factor `i - a` takes `a` out of the coefficients.
  weighted-away-others :
      (g : ℕ → Scalar) (a : ℕ) (S T : List ℕ)
      → Small (a ∷ S)
      → Small T
      → Fresh a T
      → weighted (λ i. away a i * g i) (a ∷ S) T + from_u64 a * weighted g S T ≡ scalar_zero
  unfolding sum
  weighted-away-others g a S [] s t f = rw mul-zero (zero-add scalar_zero)
  weighted-away-others g a S (i ∷ T) s t f =
      regroup _ _ (from_u64 a) _ _
        (opposite _ _ (g i) (from_u64 a) (away a i) (from_u64 a - from_u64 i)
          (coefficient-cons a i S t.0 s f.0) (sub-add-sub (from_u64 i) (from_u64 a)))
        (weighted-away-others g a S T s t.1 f.1)
    where
      regroup :
          (p q x r u : Scalar)
          → p + x * q ≡ scalar_zero
          → r + x * u ≡ scalar_zero
          → p + r + x * (q + u) ≡ scalar_zero
      regroup p q x r u h k =
          p + r + x * (q + u)
          ≡⟨ (simp ring) ⟩ p + x * q + (r + x * u)
          ≡⟨ ap₂ (λ y z. y + z) h k ⟩ scalar_zero + scalar_zero
          ≡⟨ zero-add scalar_zero ⟩ scalar_zero ∎

  away_self : (a : ℕ) → away a a ≡ scalar_zero
  away_self a = add_right_cancel (from_u64 a) _ _ (sub-add _ _ ∙ sym (zero-add _))

  -- Over all signers, since `a - a` is zero.
  pub weighted-away :
      (g : ℕ → Scalar) (a : ℕ) (S : List ℕ)
      → Small (a ∷ S)
      → Fresh a S
      → weighted (λ i. away a i * g i) (a ∷ S) (a ∷ S) + from_u64 a * weighted g S S ≡ scalar_zero
  unfolding sum
  weighted-away g a S s f =
      rw (away_self a, zero-mul, mul-zero, zero-add) (weighted-away-others g a S S s s.1 f)

-- ===== src/Dkg/Polynomial/Secrecy.antt =====
-- Fewer shares than coefficients say nothing about the secret: every secret fits them.
use craftsec.Base.{
  ℕ, suc, ◌<◌, ◌≡◌, ◌≢◌, refl, sym, ap, ◌∙◌, List, [], ◌∷◌, map, length, length-map, All, arith,
}
use craftsec.Base.Fresh.{Below}
use craftsec.Curve.{Curve, Scalar, ◌+◌, ◌*◌, ◌-◌, scalar_zero, scalar_one, from_u64, invert}
use craftsec.Curve.Ring.{
  ring, zero-add, add-zero, mul-zero, zero-mul, mul-one, mul_assoc, mul_comm, sub-add, mul-ne-zero,
  one-ne-zero, add_comm,
}
use craftsec.Core.Error.{ok, index}
use craftsec.Dkg.Polynomial.{Polynomial, evaluate, secret}
use craftsec.Dkg.Polynomial.Horner.{
  horner, horner-zero, add_coefficients, horner-add, length-add_coefficients, evaluate-horner,
}

module _ ⦃c : Curve⦄ where
  -- Every coefficient times `k`.
  abbrev scale : Scalar → List Scalar → List Scalar
  scale k f = map (λ a. k * a) f

  horner-scale : (k : Scalar) (f : List Scalar) (x : Scalar) → horner (scale k f) x ≡ k * horner f x
  horner-scale k [] x = sym (mul-zero k)
  horner-scale k (a ∷ f) x = rw (horner-scale k f x) (simp ring)

  -- The product of `x - i` over the list.
  vanish : List ℕ → List Scalar
  vanish [] = scalar_one ∷ []
  vanish (i ∷ S) = add_coefficients (scalar_zero ∷ vanish S) (scale (c.neg (from_u64 i)) (vanish S))

  length-vanish : (S : List ℕ) → length (vanish S) ≡ suc (length S)
  unfolding vanish
  length-vanish [] = refl
  length-vanish (i ∷ S) = omega (
    arith,
    length-add_coefficients (scalar_zero ∷ vanish S) (scale (c.neg (from_u64 i)) (vanish S)),
    length-map (λ a. c.neg (from_u64 i) * a) (vanish S),
    length-vanish S,
  )

  collect_factor : (n x v : Scalar) → scalar_zero + x * v + n * v ≡ (n + x) * v
  collect_factor n x v = simp ring

  horner-vanish :
      (i : ℕ) (S : List ℕ) (x : Scalar)
      → horner (vanish (i ∷ S)) x ≡ (c.neg (from_u64 i) + x) * horner (vanish S) x
  unfolding vanish
  horner-vanish i S x =
      horner-add (scalar_zero ∷ vanish S) (scale (c.neg (from_u64 i)) (vanish S)) x
      ∙ rw (horner-scale (c.neg (from_u64 i)) (vanish S) x)
          (collect_factor (c.neg (from_u64 i)) x (horner (vanish S) x))

  neg-ne-zero : (i : ℕ) → 0 < i → i < c.order → c.neg (from_u64 i) + scalar_zero ≢ scalar_zero
  neg-ne-zero i pos small e =
      let a = from_u64 i in
      let none : c.neg a ≡ scalar_zero = sym (add-zero (c.neg a)) ∙ e in
      let same : a ≡ scalar_zero = sym (zero-add a) ∙ ap (λ n. n + a) (sym none) ∙ c.neg-add a in
      let equal : i ≡ 0 =
        c.from_u64-injective i 0 small (omega arith) (same ∙ sym c.from_u64-zero) in
      omega (arith, equal)

  vanish-ne-zero :
      (S : List ℕ)
      → All (λ i. 0 < i) S
      → Below c.order S
      → horner (vanish S) scalar_zero ≢ scalar_zero
  unfolding vanish
  vanish-ne-zero [] pos small e = one-ne-zero (sym (horner-zero scalar_one []) ∙ e)
  vanish-ne-zero (i ∷ S) pos small e =
      mul-ne-zero _ _ (neg-ne-zero i pos.0 small.0) (vanish-ne-zero S pos.1 small.1)
        (sym (horner-vanish i S scalar_zero) ∙ e)

  All-map : {P Q : ℕ → Type 0} → ((i : ℕ) → P i → Q i) → (S : List ℕ) → All P S → All Q S
  All-map f [] h = tt
  All-map f (i ∷ S) h = (f i h.0, All-map f S h.1)

  -- The product is zero at each number of the list.
  vanish_at : (S : List ℕ) → All (λ i. horner (vanish S) (from_u64 i) ≡ scalar_zero) S
  vanish_at [] = tt
  vanish_at (i ∷ S) = (
    horner-vanish i S (from_u64 i) ∙ rw (c.neg-add (from_u64 i)) (zero-mul _),
    All-map (λ k h. horner-vanish i S (from_u64 k) ∙ rw h (mul-zero _)) S (vanish_at S),
  )

  secret-horner : (l : List Scalar) → 0 < length l → index l 0 ≡ ok (horner l scalar_zero)
  secret-horner [] h = absurd (omega arith)
  secret-horner (a ∷ rest) h = ap ok (sym (horner-zero a rest))

  -- Shares of fewer participants than the polynomial has coefficients, with positive indices below
  -- the group order, fit every secret: for any scalar there is a polynomial with as many
  -- coefficients that has it as its secret and gives these participants the same shares.
  pub secret-evaluate :
      (p : Polynomial) (S : List ℕ) (s : Scalar)
      → length S < length p.coefficients
      → All (λ i. 0 < i) S
      → Below c.order S
      → (q : Polynomial) × (length q.coefficients ≡ length p.coefficients)
        × (secret q ≡ ok s)
        × All (λ i. evaluate q (from_u64 i) ≡ evaluate p (from_u64 i)) S
  unfolding secret
  secret-evaluate p S s few pos small = (
    record { coefficients = g },
    size,
    secret-horner g (omega (arith, size)) ∙ ap ok at_zero,
    All-map
        (λ i h.
          evaluate-horner (record { coefficients = g }) (from_u64 i)
          ∙ horner-add f (scale k (vanish S)) (from_u64 i)
          ∙ ap (λ t. horner f (from_u64 i) + t)
              (horner-scale k (vanish S) (from_u64 i) ∙ ap (λ t. k * t) h ∙ mul-zero k)
          ∙ add-zero _
          ∙ sym (evaluate-horner p (from_u64 i)))
        S (vanish_at S),
  )
    where
      f : List Scalar
      f = p.coefficients

      v : Scalar
      v = horner (vanish S) scalar_zero

      k : Scalar
      k = (s - horner f scalar_zero) * invert v

      g : List Scalar
      g = add_coefficients f (scale k (vanish S))

      size : length g ≡ length f
      size = omega (
        arith,
        few,
        length-add_coefficients f (scale k (vanish S)),
        length-map (λ a. k * a) (vanish S),
        length-vanish S,
      )

      cancel : (d w z : Scalar) → w * z ≡ scalar_one → d * z * w ≡ d
      cancel d w z e = mul_assoc d z w ∙ ap (λ t. d * t) (mul_comm z w ∙ e) ∙ mul-one d

      at_zero : horner g scalar_zero ≡ s
      at_zero =
          horner-add f (scale k (vanish S)) scalar_zero
          ∙ ap (λ t. horner f scalar_zero + t)
              (horner-scale k (vanish S) scalar_zero
                ∙ cancel (s - horner f scalar_zero) v (invert v)
                    (c.mul-invert v (vanish-ne-zero S pos small)))
          ∙ add_comm _ _
          ∙ sub-add s (horner f scalar_zero)

-- ===== src/Dkg/Polynomial/Horner.antt =====
-- The values of a polynomial: the loop of `evaluate` against Horner's rule, sums and division.
use Prim.Native.Nat.{max}
use craftsec.Base.{suc, ◌≡◌, refl, sym, ap, ◌∙◌, List, [], ◌∷◌, length, arith}
use craftsec.Curve.{Curve, Scalar, ◌+◌, ◌*◌, scalar_zero, scalar_one}
use craftsec.Curve.Ring.{ring, zero-add, one-mul, zero-mul, add-zero}
use craftsec.Dkg.Polynomial.{Polynomial, evaluate, evaluate_loop}

module _ ⦃c : Curve⦄ where
  -- The value of the polynomial with these coefficients, the constant term first.
  abbrev pub horner : List Scalar → Scalar → Scalar
  horner [] x = scalar_zero
  horner (a ∷ rest) x = a + x * horner rest x

  evaluate_loop_lem :
      (x result power : Scalar) (cs : List Scalar)
      → evaluate_loop x result power cs ≡ result + power * horner cs x
  unfolding evaluate_loop
  evaluate_loop_lem x result power [] = simp ring
  evaluate_loop_lem x result power (a ∷ rest) =
      evaluate_loop_lem x (result + a * power) (power * x) rest ∙ simp ring

  -- Evaluation by running powers gives the value that Horner's rule gives.
  pub evaluate-horner : (p : Polynomial) (x : Scalar) → evaluate p x ≡ horner p.coefficients x
  unfolding evaluate
  evaluate-horner p x =
      evaluate_loop_lem x scalar_zero scalar_one p.coefficients ∙ simp (zero-add, one-mul)

  pub horner-zero : (a : Scalar) (rest : List Scalar) → horner (a ∷ rest) scalar_zero ≡ a
  horner-zero a rest = simp (zero-mul, add-zero)

  -- The sum of two polynomials, of any lengths.
  abbrev pub add_coefficients : List Scalar → List Scalar → List Scalar
  add_coefficients [] bs = bs
  add_coefficients (a ∷ rest) [] = a ∷ rest
  add_coefficients (a ∷ rest) (b ∷ bs) = (a + b) ∷ add_coefficients rest bs

  pub horner-add :
      (f g : List Scalar) (x : Scalar) → horner (add_coefficients f g) x ≡ horner f x + horner g x
  horner-add [] g x = sym (zero-add (horner g x))
  horner-add (a ∷ f) [] x = sym (add-zero (horner (a ∷ f) x))
  horner-add (a ∷ f) (b ∷ g) x = rw (horner-add f g x) (simp ring)

  pub length-add_coefficients :
      (f g : List Scalar) → length (add_coefficients f g) ≡ max (length f) (length g)
  length-add_coefficients [] g = omega arith
  length-add_coefficients (a ∷ f) [] = omega arith
  length-add_coefficients (a ∷ f) (b ∷ g) = omega (arith, length-add_coefficients f g)

  -- The sum of many polynomials.
  abbrev pub add_all : List (List Scalar) → List Scalar
  add_all [] = []
  add_all (f ∷ fs) = add_coefficients f (add_all fs)

  -- What is left of a polynomial divided by `x - a`, without the remainder `f a`.
  abbrev pub quotient : Scalar → List Scalar → List Scalar
  quotient a [] = []
  quotient a (b ∷ []) = []
  quotient a (b ∷ b' ∷ rest) = horner (b' ∷ rest) a ∷ quotient a (b' ∷ rest)

  pub length-quotient : (a b : Scalar) (f : List Scalar) → length (quotient a (b ∷ f)) ≡ length f
  length-quotient a b [] = refl
  length-quotient a b (b' ∷ f) = ap suc (length-quotient a b' f)

  divide_step :
      (b x d a fa fx q : Scalar)
      → fx ≡ fa + d * q
      → d + a ≡ x
      → b + x * fx ≡ b + a * fa + d * (fa + x * q)
  divide_step b x d a fa fx q h e = rw (h, ← e) (simp ring)

  -- Division by `x - a`, with `d` for that difference.
  pub horner-quotient :
      (f : List Scalar) (x d a : Scalar)
      → d + a ≡ x
      → horner f x ≡ horner f a + d * horner (quotient a f) x
  horner-quotient [] x d a e = simp ring
  horner-quotient (b ∷ []) x d a e = simp ring
  horner-quotient (b ∷ b' ∷ f) x d a e =
      divide_step b x d a _ _ _ (horner-quotient (b' ∷ f) x d a e) e

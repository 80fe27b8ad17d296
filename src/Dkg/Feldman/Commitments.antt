-- ===== src/Dkg/Feldman/Commitments.antt =====
-- The commitments to a polynomial: sums of points, their value at a participant, and what
-- `verify_share` accepts.
use craftsec.Base.{
  ℕ, ◌≡◌, ◌≢◌, refl, sym, ap, ◌∙◌, List, [], ◌∷◌, ◌++◌, map, text, decimal, true, false, inl, inr,
  Bool-cases,
}
use craftsec.Curve.{
  Curve, Scalar, Point, ◌+◌, ◌*◌, ◌⊕◌, ◌•◌, scalar_zero, scalar_one, basepoint, from_u64,
}
use craftsec.Curve.Ring.{ring, zero-add, one-mul}
use craftsec.Core.Error.{ok, err, invalid_share}
use craftsec.Dkg.Polynomial.{Polynomial, evaluate}
use craftsec.Dkg.Polynomial.Horner.{horner, evaluate-horner}
use craftsec.Dkg.Feldman.{
  sum, sum_points, evaluate_commitments_loop, evaluate_commitments, verify_share, commit,
}

module _ ⦃c : Curve⦄ where
  pub sum_points-map {ℓ} :
      {A : Type ℓ} (f : A → Scalar) (xs : List A)
      → sum_points (map (λ a. basepoint • f a) xs) ≡ basepoint • sum (map f xs)
  unfolding sum sum_points
  sum_points-map f [] = sym c.point_mul-zero
  sum_points-map f (a ∷ xs) =
      ap (λ p. basepoint • f a ⊕ p) (sum_points-map f xs) ∙ c.point_mul-add _ _

  evaluate_commitments_loop-map :
      (x result power : Scalar) (f : List Scalar)
      → evaluate_commitments_loop x (basepoint • result) power (map (λ a. basepoint • a) f)
        ≡ basepoint • (result + power * horner f x)
  unfolding evaluate_commitments_loop
  evaluate_commitments_loop-map x result power [] = ap (λ t. basepoint • t) (simp ring)
  evaluate_commitments_loop-map x result power (a ∷ f) =
      ap (λ p. evaluate_commitments_loop x p (power * x) (map (λ b. basepoint • b) f))
        (ap (λ p. basepoint • result ⊕ p) (c.point_mul-mul a power) ∙ c.point_mul-add _ _)
      ∙ evaluate_commitments_loop-map x (result + a * power) (power * x) f
      ∙ ap (λ t. basepoint • t) (simp ring)

  -- The commitments at a point are a commitment to the value there.
  pub evaluate_commitments-commit :
      (p : Polynomial) (x : Scalar)
      → evaluate_commitments (commit p) x ≡ basepoint • horner p.coefficients x
  unfolding evaluate_commitments commit
  evaluate_commitments-commit p x =
      ap (λ q. evaluate_commitments_loop x q scalar_one (map (λ a. basepoint • a) p.coefficients))
        (sym c.point_mul-zero)
      ∙ evaluate_commitments_loop-map x scalar_zero scalar_one p.coefficients
      ∙ ap (λ t. basepoint • t) (zero-add _ ∙ one-mul _)

  pub point_eq_refl : (p : Point) → c.point_eq p p ≡ true
  point_eq_refl p = (c.point_eq_iff p p).1 refl

  pub point_ne→eq : (p q : Point) → p ≢ q → c.point_eq p q ≡ false
  point_ne→eq p q ne = elim (Bool-cases (c.point_eq p q)) [
    | inl e ↦ absurd (ne ((c.point_eq_iff p q).0 e))
    | inr e ↦ e
  ]

  -- Against the commitments of a polynomial, `verify_share` accepts the polynomial's value at the
  -- participant's index, and rejects every other share with `InvalidShare`.
  pub verify_share_decides :
      (i : ℕ) (share : Scalar) (p : Polynomial)
      → (share ≡ evaluate p (from_u64 i) → verify_share i share (commit p) ≡ ok tt)
        × (share ≢ evaluate p (from_u64 i)
            → verify_share i share (commit p)
              ≡ err
                  (invalid_share (text "share verification failed for participant " ++ decimal i)))
  unfolding verify_share
  verify_share_decides i share p = (
    λ e. rw (value, e, evaluate-horner p (from_u64 i)) (rw (point_eq_refl _)),
    λ ne. rw (
      value,
      point_ne→eq _ _
          (λ e. ne (c.point_mul-injective _ _ e ∙ sym (evaluate-horner p (from_u64 i)))),
    ),
  )
    where
      value :
          evaluate_commitments (commit p) (from_u64 i)
          ≡ basepoint • horner p.coefficients (from_u64 i)
      value = evaluate_commitments-commit p (from_u64 i)

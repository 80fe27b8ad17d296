-- ===== src/Curve/Ring.antt =====
-- Laws of the scalar field of curve25519-dalek, and the rule set that sorts its sums of products.
use craftsec.Base.{◌≡◌, ◌≢◌, sym, ap, ◌∙◌, ◌≡⟨◌⟩◌, ◌∎}
use craftsec.Curve.{Curve, Scalar, ◌+◌, ◌*◌, ◌-◌, neg, invert, scalar_zero, scalar_one}

module _ ⦃c : Curve⦄ where
  pub add_assoc : (x y z : Scalar) → x + y + z ≡ x + (y + z)
  add_assoc = c.add_assoc

  pub add_comm : (x y : Scalar) → x + y ≡ y + x
  add_comm = c.add_comm

  pub add_left_comm : (x y z : Scalar) → x + (y + z) ≡ y + (x + z)
  add_left_comm x y z = sym (add_assoc x y z) ∙ ap (λ t. t + z) (add_comm x y) ∙ add_assoc y x z

  pub zero-add : (x : Scalar) → scalar_zero + x ≡ x
  zero-add = c.zero-add

  pub add-zero : (x : Scalar) → x + scalar_zero ≡ x
  add-zero x = add_comm x scalar_zero ∙ zero-add x

  pub mul_assoc : (x y z : Scalar) → x * y * z ≡ x * (y * z)
  mul_assoc = c.mul_assoc

  pub mul_comm : (x y : Scalar) → x * y ≡ y * x
  mul_comm = c.mul_comm

  pub mul_left_comm : (x y z : Scalar) → x * (y * z) ≡ y * (x * z)
  mul_left_comm x y z = sym (mul_assoc x y z) ∙ ap (λ t. t * z) (mul_comm x y) ∙ mul_assoc y x z

  pub one-mul : (x : Scalar) → scalar_one * x ≡ x
  one-mul = c.one-mul

  pub mul-one : (x : Scalar) → x * scalar_one ≡ x
  mul-one x = mul_comm x scalar_one ∙ one-mul x

  pub mul-add : (x y z : Scalar) → x * (y + z) ≡ x * y + x * z
  mul-add = c.mul-add

  pub add-mul : (x y z : Scalar) → (x + y) * z ≡ x * z + y * z
  add-mul x y z = simp (mul_comm, mul-add)

  pub add_left_cancel : (x y z : Scalar) → x + y ≡ x + z → y ≡ z
  add_left_cancel x y z h =
      y ≡⟨ sym (back y) ⟩ neg x + (x + y) ≡⟨ ap (λ t. neg x + t) h ⟩ neg x + (x + z) ≡⟨ back z ⟩ z ∎
    where
      back : (t : Scalar) → neg x + (x + t) ≡ t
      back t = sym (add_assoc (neg x) x t) ∙ ap (λ s. s + t) (c.neg-add x) ∙ zero-add t

  pub add_right_cancel : (x y z : Scalar) → y + x ≡ z + x → y ≡ z
  add_right_cancel x y z h = add_left_cancel x y z (add_comm x y ∙ h ∙ add_comm z x)

  pub zero-mul : (x : Scalar) → scalar_zero * x ≡ scalar_zero
  zero-mul x = add_left_cancel (scalar_zero * x) _ _ (
      sym (add-mul scalar_zero scalar_zero x)
      ∙ ap (λ t. t * x) (zero-add scalar_zero)
      ∙ sym (add-zero (scalar_zero * x)))

  pub mul-zero : (x : Scalar) → x * scalar_zero ≡ scalar_zero
  mul-zero x = mul_comm x scalar_zero ∙ zero-mul x

  -- A difference is what is added to come back.
  pub sub-add : (x y : Scalar) → x - y + y ≡ x
  sub-add x y =
      x - y + y
      ≡⟨ ap (λ t. t + y) (c.sub-eq x y) ⟩ x + neg y + y
      ≡⟨ add_assoc x (neg y) y ⟩ x + (neg y + y)
      ≡⟨ ap (λ t. x + t) (c.neg-add y) ⟩ x + scalar_zero
      ≡⟨ add-zero x ⟩ x ∎

  pub sub-ne-zero : (x y : Scalar) → x ≢ y → x - y ≢ scalar_zero
  sub-ne-zero x y h e = h (sym (sub-add x y) ∙ ap (λ t. t + y) e ∙ zero-add y)

  -- Opposite differences cancel.
  pub sub-add-sub : (x y : Scalar) → x - y + (y - x) ≡ scalar_zero
  sub-add-sub x y = add_right_cancel x _ _ (
      x - y + (y - x) + x
      ≡⟨ add_assoc (x - y) (y - x) x ⟩ x - y + (y - x + x)
      ≡⟨ ap (λ t. x - y + t) (sub-add y x) ⟩ x - y + y
      ≡⟨ sub-add x y ⟩ x
      ≡⟨ sym (zero-add x) ⟩ scalar_zero + x ∎)

  -- A nonzero factor can be cancelled, and a product of nonzero factors is not zero.
  pub mul_left_cancel : (x y z : Scalar) → x ≢ scalar_zero → x * y ≡ x * z → y ≡ z
  mul_left_cancel x y z h e = sym (back y) ∙ ap (λ t. invert x * t) e ∙ back z
    where
      back : (t : Scalar) → invert x * (x * t) ≡ t
      back t =
          sym (mul_assoc (invert x) x t)
          ∙ ap (λ s. s * t) (mul_comm (invert x) x ∙ c.mul-invert x h)
          ∙ one-mul t

  pub mul-ne-zero : (x y : Scalar) → x ≢ scalar_zero → y ≢ scalar_zero → x * y ≢ scalar_zero
  mul-ne-zero x y h k e = k (mul_left_cancel x y scalar_zero h (e ∙ sym (mul-zero x)))

  pub one-ne-zero : scalar_one ≢ scalar_zero
  one-ne-zero e = c.zero-ne-one (sym e)

  -- The inverse of a product gives back one factor.
  pub mul-invert-mul :
      (x y : Scalar) → x ≢ scalar_zero → y ≢ scalar_zero → x * invert (x * y) ≡ invert y
  mul-invert-mul x y h k = mul_left_cancel y _ _ k (
      y * (x * invert (x * y))
      ≡⟨ (simp (mul_assoc, mul_left_comm)) ⟩ x * y * invert (x * y)
      ≡⟨ c.mul-invert (x * y) (mul-ne-zero x y h k) ⟩ scalar_one
      ≡⟨ sym (c.mul-invert y k) ⟩ y * invert y ∎)

-- Sums of products over `+` and `*` in one order: both sides of a ring equation come out alike.
pub ruleset ring = (
  add_assoc, add_comm, add_left_comm, mul_assoc, mul_comm, mul_left_comm, mul-add, add-mul,
  zero-add, add-zero, zero-mul, mul-zero, one-mul, mul-one,
)

ring_example :
    ⦃c : Curve⦄ (x y z w : Scalar) → (x + y) * (z + w) + x ≡ w * y + x + (z * y + (w * x + z * x))
ring_example x y z w = simp ring

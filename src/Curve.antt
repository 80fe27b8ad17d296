-- ===== src/Curve.antt =====
-- What the program takes from curve25519-dalek: the scalar field, the points of the curve and the
-- base point. The crate's code is not part of the repository, so its types and operations are the
-- fields of a record, with the documented laws that the program relies on.
pub mod Ring
pub mod Small
use craftsec.Base.{ℕ, zero, ◌<◌, ◌≡◌, ◌≢◌, ◌↔◌, Bool, true, List}

pub record Curve : Type 1 where
  pub Scalar : Type 0
  pub Point : Type 0
  -- `Scalar::ZERO`, `Scalar::ONE` and the field operations. `invert` is used at nonzero scalars.
  pub scalar_zero : Scalar
  pub scalar_one : Scalar
  pub add : Scalar → Scalar → Scalar
  pub neg : Scalar → Scalar
  pub sub : Scalar → Scalar → Scalar
  pub mul : Scalar → Scalar → Scalar
  pub invert : Scalar → Scalar
  -- `Scalar::from(u64)` and `Scalar::from_bytes_mod_order_wide`.
  pub from_u64 : ℕ → Scalar
  pub from_bytes_mod_order_wide : List ℕ → Scalar
  -- `ED25519_BASEPOINT_POINT`, `EdwardsPoint::default`, the sum of points, a point times a scalar,
  -- the comparison of points and `compress().as_bytes()`.
  pub basepoint : Point
  pub identity : Point
  pub point_add : Point → Point → Point
  pub point_mul : Point → Scalar → Point
  pub point_eq : Point → Point → Bool
  pub compress : Point → List ℕ
  -- The order of the base point, the prime below which the integers are distinct scalars.
  pub order : ℕ
  -- The scalars are a field.
  pub add_assoc : (a b c : Scalar) → add (add a b) c ≡ add a (add b c)
  pub add_comm : (a b : Scalar) → add a b ≡ add b a
  pub zero-add : (a : Scalar) → add scalar_zero a ≡ a
  pub neg-add : (a : Scalar) → add (neg a) a ≡ scalar_zero
  pub sub-eq : (a b : Scalar) → sub a b ≡ add a (neg b)
  pub mul_assoc : (a b c : Scalar) → mul (mul a b) c ≡ mul a (mul b c)
  pub mul_comm : (a b : Scalar) → mul a b ≡ mul b a
  pub one-mul : (a : Scalar) → mul scalar_one a ≡ a
  pub mul-add : (a b c : Scalar) → mul a (add b c) ≡ add (mul a b) (mul a c)
  pub zero-ne-one : scalar_zero ≢ scalar_one
  pub mul-invert : (a : Scalar) → a ≢ scalar_zero → mul a (invert a) ≡ scalar_one
  -- Small integers are distinct scalars.
  pub from_u64-injective : (i j : ℕ) → i < order → j < order → from_u64 i ≡ from_u64 j → i ≡ j
  pub from_u64-zero : from_u64 zero ≡ scalar_zero
  -- The multiples of the base point are a copy of the scalars.
  pub point_mul-zero : point_mul basepoint scalar_zero ≡ identity
  pub point_mul-add :
      (a b : Scalar)
      → point_add (point_mul basepoint a) (point_mul basepoint b) ≡ point_mul basepoint (add a b)
  pub point_mul-mul :
      (a b : Scalar) → point_mul (point_mul basepoint a) b ≡ point_mul basepoint (mul a b)
  pub point_mul-injective : (a b : Scalar) → point_mul basepoint a ≡ point_mul basepoint b → a ≡ b
  pub point_eq_iff : (p q : Point) → (point_eq p q ≡ true) ↔ (p ≡ q)

module _ ⦃c : Curve⦄ where
  abbrev pub Scalar : Type 0
  Scalar = c.Scalar

  abbrev pub Point : Type 0
  Point = c.Point

  abbrev pub scalar_zero : Scalar
  scalar_zero = c.scalar_zero

  abbrev pub scalar_one : Scalar
  scalar_one = c.scalar_one

  infixl 65 ◌+◌ ◌-◌
  infixl 70 ◌*◌
  abbrev pub ◌+◌ : Scalar → Scalar → Scalar
  ◌+◌ = c.add

  abbrev pub ◌-◌ : Scalar → Scalar → Scalar
  ◌-◌ = c.sub

  abbrev pub ◌*◌ : Scalar → Scalar → Scalar
  ◌*◌ = c.mul

  abbrev pub neg : Scalar → Scalar
  neg = c.neg

  abbrev pub invert : Scalar → Scalar
  invert = c.invert

  abbrev pub from_u64 : ℕ → Scalar
  from_u64 = c.from_u64

  abbrev pub identity : Point
  identity = c.identity

  abbrev pub basepoint : Point
  basepoint = c.basepoint

  -- The sum of two points, and a point times a scalar.
  infixl 65 ◌⊕◌
  infixl 70 ◌•◌
  abbrev pub ◌⊕◌ : Point → Point → Point
  ◌⊕◌ = c.point_add

  abbrev pub ◌•◌ : Point → Scalar → Point
  ◌•◌ = c.point_mul

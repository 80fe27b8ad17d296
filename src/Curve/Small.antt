-- ===== src/Curve/Small.antt =====
-- A small instance of the interface: the integers modulo 7, with the scalars themselves as points
-- and 1 as the base point. It shows that the laws can hold, and runs the definitions in tests.
use Prim.Native.Nat.{◌+◌ as nat_add, ◌*◌ as nat_mul, ◌%◌}
use craftsec.Base.{
  ℕ, zero, suc, ◌<◌, ◌≡◌, ◌≢◌, ◌↔◌, refl, sym, ap, ◌∙◌, Bool, true, ◌&&◌, List, [], ◌∷◌, arith,
  ◌==◌, ==→eq, ==_refl,
}
use craftsec.Curve.{Curve}

pub data Residue : Type 0 where
  r0 r1 r2 r3 r4 r5 r6 : Residue

abbrev pub to_nat : Residue → ℕ
to_nat r0 = 0
to_nat r1 = 1
to_nat r2 = 2
to_nat r3 = 3
to_nat r4 = 4
to_nat r5 = 5
to_nat r6 = 6

-- The residue of a number below 7.
below_seven : ℕ → Residue
below_seven zero = r0
below_seven (suc zero) = r1
below_seven (suc (suc zero)) = r2
below_seven (suc (suc (suc zero))) = r3
below_seven (suc (suc (suc (suc zero)))) = r4
below_seven (suc (suc (suc (suc (suc zero))))) = r5
below_seven (suc (suc (suc (suc (suc (suc n)))))) = r6

unfoldable pub of_nat : ℕ → Residue
unfolding below_seven
of_nat n = below_seven (n % 7)

abbrev pub same : Residue → Residue → Bool
same a b = to_nat a == to_nat b

abbrev every : (Residue → Bool) → Bool
every f = f r0 && (f r1 && (f r2 && (f r3 && (f r4 && (f r5 && f r6)))))

every_sound : (f : Residue → Bool) → every f ≡ true → (a : Residue) → f a ≡ true
every_sound f h r0 = ground arith
every_sound f h r1 = ground arith
every_sound f h r2 = ground arith
every_sound f h r3 = ground arith
every_sound f h r4 = ground arith
every_sound f h r5 = ground arith
every_sound f h r6 = ground arith

of_nat-to_nat : (a : Residue) → of_nat (to_nat a) ≡ a
unfolding of_nat
of_nat-to_nat r0 = refl
of_nat-to_nat r1 = refl
of_nat-to_nat r2 = refl
of_nat-to_nat r3 = refl
of_nat-to_nat r4 = refl
of_nat-to_nat r5 = refl
of_nat-to_nat r6 = refl

same→eq : (a b : Residue) → same a b ≡ true → a ≡ b
same→eq a b h = sym (of_nat-to_nat a) ∙ ap of_nat (==→eq _ _ h) ∙ of_nat-to_nat b

eq₁ : (f g : Residue → Residue) → every (λ a. same (f a) (g a)) ≡ true → (a : Residue) → f a ≡ g a
eq₁ f g h a = same→eq _ _ (every_sound (λ a. same (f a) (g a)) h a)

eq₂ :
    (f g : Residue → Residue → Residue)
    → every (λ a. every (λ b. same (f a b) (g a b))) ≡ true
    → (a b : Residue) → f a b ≡ g a b
eq₂ f g h a = eq₁ (f a) (g a) (every_sound (λ a. every (λ b. same (f a b) (g a b))) h a)

eq₃ :
    (f g : Residue → Residue → Residue → Residue)
    → every (λ a. every (λ b. every (λ c. same (f a b c) (g a b c)))) ≡ true
    → (a b c : Residue) → f a b c ≡ g a b c
eq₃ f g h a =
    eq₂ (f a) (g a) (every_sound (λ a. every (λ b. every (λ c. same (f a b c) (g a b c)))) h a)

unfoldable pub plus : Residue → Residue → Residue
unfolding of_nat
plus a b = of_nat (nat_add (to_nat a) (to_nat b))

unfoldable pub times : Residue → Residue → Residue
unfolding of_nat
times a b = of_nat (nat_mul (to_nat a) (to_nat b))

unfoldable pub opposite : Residue → Residue
unfolding of_nat
opposite a = of_nat (nat_mul 6 (to_nat a))

-- `a ^ 5`, the inverse by Fermat's theorem.
unfoldable pub inverse : Residue → Residue
unfolding times
inverse a = times a (times a (times a (times a a)))

-- The digits of a number in base 256, the lowest first.
unfoldable pub of_bytes : List ℕ → Residue
unfolding plus times of_nat
of_bytes [] = r0
of_bytes (b ∷ bs) = plus (of_nat b) (times (of_nat 256) (of_bytes bs))

pub plus_assoc : (a b c : Residue) → plus (plus a b) c ≡ plus a (plus b c)
unfolding plus
plus_assoc = eq₃ _ _ refl

pub plus_comm : (a b : Residue) → plus a b ≡ plus b a
unfolding plus
plus_comm = eq₂ _ _ refl

pub times_assoc : (a b c : Residue) → times (times a b) c ≡ times a (times b c)
unfolding times
times_assoc = eq₃ _ _ refl

pub times_comm : (a b : Residue) → times a b ≡ times b a
unfolding times
times_comm = eq₂ _ _ refl

pub times-plus : (a b c : Residue) → times a (plus b c) ≡ plus (times a b) (times a c)
unfolding times plus
times-plus = eq₃ _ _ refl

pub zero-plus : (a : Residue) → plus r0 a ≡ a
unfolding plus
zero-plus = eq₁ _ _ refl

pub one-times : (a : Residue) → times r1 a ≡ a
unfolding times
one-times = eq₁ _ _ refl

pub opposite-plus : (a : Residue) → plus (opposite a) a ≡ r0
unfolding plus opposite
opposite-plus = eq₁ _ _ refl

pub times-inverse : (a : Residue) → a ≢ r0 → times a (inverse a) ≡ r1
unfolding inverse
times-inverse r0 h = absurd (h refl)
times-inverse r1 h = refl
times-inverse r2 h = refl
times-inverse r3 h = refl
times-inverse r4 h = refl
times-inverse r5 h = refl
times-inverse r6 h = refl

to_nat-of_nat : (n : ℕ) → n < 7 → to_nat (of_nat n) ≡ n
unfolding of_nat
to_nat-of_nat n h = ground arith

pub of_nat-injective : (i j : ℕ) → i < 7 → j < 7 → of_nat i ≡ of_nat j → i ≡ j
of_nat-injective i j h k e = sym (to_nat-of_nat i h) ∙ ap to_nat e ∙ to_nat-of_nat j k

pub same_iff : (a b : Residue) → (same a b ≡ true) ↔ (a ≡ b)
same_iff a b = (same→eq a b, λ e. rw e (==_refl (to_nat b)))

pub r0-ne-r1 : r0 ≢ r1
r0-ne-r1 e = cc

pub of_nat-zero : of_nat zero ≡ r0
unfolding of_nat
of_nat-zero = refl

instance abbrev pub mod_seven : Curve
mod_seven = record {
  Scalar = Residue;
  Point = Residue;
  scalar_zero = r0;
  scalar_one = r1;
  add = plus;
  neg = opposite;
  sub = λ a b. plus a (opposite b);
  mul = times;
  invert = inverse;
  from_u64 = of_nat;
  from_bytes_mod_order_wide = of_bytes;
  basepoint = r1;
  identity = r0;
  point_add = plus;
  point_mul = times;
  point_eq = same;
  compress = λ a. to_nat a ∷ [];
  order = 7;
  add_assoc = plus_assoc;
  add_comm = plus_comm;
  zero-add = zero-plus;
  neg-add = opposite-plus;
  sub-eq = λ a b. refl;
  mul_assoc = times_assoc;
  mul_comm = times_comm;
  one-mul = one-times;
  mul-add = times-plus;
  zero-ne-one = r0-ne-r1;
  mul-invert = times-inverse;
  from_u64-injective = of_nat-injective;
  from_u64-zero = of_nat-zero;
  point_mul-zero = one-times r0;
  point_mul-add = λ a b. simp one-times;
  point_mul-mul = λ a b. simp one-times;
  point_mul-injective = λ a b e. simp one-times at e;
  point_eq_iff = same_iff;
}

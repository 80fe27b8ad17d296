-- ===== src/Core/Error/Loops.antt =====
-- Fallible loops that do not fail.
use craftsec.Base.{
  ℕ, zero, suc, ◌≤◌, ◌<◌, ◌≡◌, refl, ◌⊎◌, inl, inr, List, [], ◌∷◌, map, span, arith,
}
use Prim.Native.Nat.{◌+◌}
use craftsec.Core.Error.{CraftSecError, Result, ok, err, panic, traverse, for_each, ◌>>=◌}

pub traverse-span {ℓ} :
    {A : Type ℓ} (f : ℕ → Result A) (g : ℕ → A) (lo k : ℕ)
    → ((j : ℕ) → lo ≤ j → j < lo + k → f j ≡ ok (g j))
    → traverse f (span lo k) ≡ ok (map g (span lo k))
unfolding traverse
traverse-span f g lo zero h = refl
traverse-span f g lo (suc k) h = rw (
  h lo (omega arith) (omega arith),
  traverse-span f g (suc lo) k (λ j l u. h j (omega arith) (omega arith)),
)

pub for_each-span :
    (f : ℕ → Result (Unit {0})) (lo k : ℕ)
    → ((j : ℕ) → lo ≤ j → j < lo + k → f j ≡ ok tt)
    → for_each f (span lo k) ≡ ok tt
unfolding for_each
for_each-span f lo zero h = refl
for_each-span f lo (suc k) h = rw (
  h lo (omega arith) (omega arith),
  for_each-span f (suc lo) k (λ j l u. h j (omega arith) (omega arith)),
)

-- A loop whose every call succeeds.
pub traverse-map {ℓ κ} :
    {A : Type ℓ} {B : Type κ} (f : A → Result B) (g : A → B) (xs : List A)
    → ((a : A) → f a ≡ ok (g a))
    → traverse f xs ≡ ok (map g xs)
unfolding traverse
traverse-map f g [] h = refl
traverse-map f g (x ∷ xs) h = rw (h x, traverse-map f g xs h)

-- To split on the result of a call and keep the equation.
pub Result-cases {ℓ} :
    {A : Type ℓ} (r : Result A)
    → ((a : A) × (r ≡ ok a)) ⊎ ((e : CraftSecError) × (r ≡ err e)) ⊎ (r ≡ panic)
Result-cases (ok a) = inl (a, refl)
Result-cases (err e) = inr (inl (e, refl))
Result-cases panic = inr (inr refl)

-- The first step of a successful chain succeeded.
pub >>=-eq-ok {κ ℓ} :
    {V : Type κ} {W : Type ℓ} (call : Result V) (next : V → Result W) {w : W}
    → (call >>= next) ≡ ok w
    → (v : V) × (call ≡ ok v) × (next v ≡ ok w)
>>=-eq-ok panic next done = cc
>>=-eq-ok (err failure) next done = cc
>>=-eq-ok (ok value) next done = (value, refl, done)

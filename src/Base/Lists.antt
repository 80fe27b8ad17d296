-- ===== src/Base/Lists.antt =====
-- Lists with native lengths and positions, and the range `lo..lo + k` of a counted loop.
use Prim.Native.Nat.{ℕ, zero, suc, ◌+◌, ◌≤◌, ◌<◌}
use mathlib.Core.Path.{◌≡◌, refl, ap, ap₂}
use mathlib.Core.Logic.{◌≢◌}
use mathlib.Core.Option.{Option, none, some}
use mathlib.Core.List.{List, [], ◌∷◌, ◌++◌, map}
use native.Mathlib.Omega.{arith}

module _ {ℓ} {A : Type ℓ} where
  abbrev pub length : List A → ℕ
  length [] = 0
  length (x ∷ xs) = suc (length xs)

  abbrev pub get_elem? : List A → ℕ → Option A
  get_elem? [] i = none
  get_elem? (x ∷ xs) zero = some x
  get_elem? (x ∷ xs) (suc i) = get_elem? xs i

  -- A write out of bounds changes nothing.
  abbrev pub set : List A → ℕ → A → List A
  set [] i v = []
  set (x ∷ xs) zero v = v ∷ xs
  set (x ∷ xs) (suc i) v = x ∷ set xs i v

  abbrev pub replicate : ℕ → A → List A
  replicate zero a = []
  replicate (suc n) a = a ∷ replicate n a

  pub length-append : (xs ys : List A) → length (xs ++ ys) ≡ length xs + length ys
  length-append [] ys = omega arith
  length-append (x ∷ xs) ys = omega (arith, length-append xs ys)

  -- Every element satisfies `P`.
  abbrev pub All {κ} : (A → Type κ) → List A → Type κ
  All P [] = Unit
  All P (x ∷ xs) = P x × All P xs

-- The numbers `lo, lo + 1, …`, `k` of them; `1..=n` is `span 1 n`.
abbrev pub span : ℕ → ℕ → List ℕ
span lo zero = []
span lo (suc k) = lo ∷ span (suc lo) k

pub length-map {ℓ κ} :
    {A : Type ℓ} {B : Type κ} (f : A → B) (xs : List A) → length (map f xs) ≡ length xs
length-map f [] = refl
length-map f (x ∷ xs) = ap suc (length-map f xs)

pub length-span : (lo k : ℕ) → length (span lo k) ≡ k
length-span lo zero = refl
length-span lo (suc k) = ap suc (length-span (suc lo) k)

-- The element at `i` of what a counted loop builds.
pub get_elem?-map-span {ℓ} :
    {A : Type ℓ} (f : ℕ → A) (lo k i : ℕ)
    → i < k
    → get_elem? (map f (span lo k)) i ≡ some (f (lo + i))
get_elem?-map-span f lo zero i h = elim h [ ]
get_elem?-map-span f lo (suc k) zero h = let e : lo ≡ lo + 0 = omega arith in ap (λ x. some (f x)) e
get_elem?-map-span f lo (suc k) (suc i) h =
    let e : suc lo + i ≡ lo + suc i = omega arith in
    rw (get_elem?-map-span f (suc lo) k i (omega arith)) (ap (λ x. some (f x)) e)

-- Two loops over a range agree if their bodies agree on the range.
pub map-span-congr {ℓ} :
    {A : Type ℓ} (f g : ℕ → A) (lo k : ℕ)
    → ((j : ℕ) → lo ≤ j → j < lo + k → f j ≡ g j)
    → map f (span lo k) ≡ map g (span lo k)
map-span-congr f g lo zero h = refl
map-span-congr f g lo (suc k) h =
    ap₂ ◌∷◌ (h lo (omega arith) (omega arith))
      (map-span-congr f g (suc lo) k (λ j l u. h j (omega arith) (omega arith)))

module _ {ℓ} {A : Type ℓ} where
  pub length-set : (l : List A) (i : ℕ) (v : A) → length (set l i v) ≡ length l
  length-set [] i v = refl
  length-set (x ∷ l) zero v = refl
  length-set (x ∷ l) (suc i) v = ap suc (length-set l i v)

  pub get_elem?-set_self :
      (l : List A) (i : ℕ) (v : A) → i < length l → get_elem? (set l i v) i ≡ some v
  get_elem?-set_self [] i v h = elim h [ ]
  get_elem?-set_self (x ∷ l) zero v h = refl
  get_elem?-set_self (x ∷ l) (suc i) v h = get_elem?-set_self l i v (omega arith)

  pub get_elem?-set_ne :
      (l : List A) (i k : ℕ) (v : A) → k ≢ i → get_elem? (set l i v) k ≡ get_elem? l k
  get_elem?-set_ne [] i k v h = refl
  get_elem?-set_ne (x ∷ l) zero zero v h = absurd (h refl)
  get_elem?-set_ne (x ∷ l) zero (suc k) v h = refl
  get_elem?-set_ne (x ∷ l) (suc i) zero v h = refl
  get_elem?-set_ne (x ∷ l) (suc i) (suc k) v h = get_elem?-set_ne l i k v (λ e. h (ap suc e))

  pub length-replicate : (n : ℕ) (a : A) → length (replicate n a) ≡ n
  length-replicate zero a = refl
  length-replicate (suc n) a = ap suc (length-replicate n a)

  abbrev pub take : ℕ → List A → List A
  take zero l = []
  take (suc n) [] = []
  take (suc n) (a ∷ l) = a ∷ take n l

  pub length-take : (n : ℕ) (l : List A) → n ≤ length l → length (take n l) ≡ n
  length-take zero l h = refl
  length-take (suc n) [] h = absurd (omega arith)
  length-take (suc n) (a ∷ l) h = ap suc (length-take n l (omega arith))

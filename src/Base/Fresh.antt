-- ===== src/Base/Fresh.antt =====
-- Lists of numbers without repetition, built at the end.
use Prim.Native.Nat.{ℕ, ◌≤◌, ◌<◌}
use mathlib.Core.Logic.{◌≢◌}
use mathlib.Core.List.{List, [], ◌∷◌, ◌++◌}
use native.Mathlib.Omega.{arith}
use craftsec.Base.Lists.{All}

-- `a` is not in the list.
abbrev pub Fresh : ℕ → List ℕ → Type 0
Fresh a = All (λ b. a ≢ b)

-- No number occurs twice.
abbrev pub Distinct : List ℕ → Type 0
Distinct [] = Unit
Distinct (a ∷ rest) = Fresh a rest × Distinct rest

-- Every number is below the bound.
abbrev pub Below : ℕ → List ℕ → Type 0
Below n = All (λ a. a < n)

pub Below-mono : (n m : ℕ) (l : List ℕ) → n ≤ m → Below n l → Below m l
Below-mono n m [] h b = tt
Below-mono n m (a ∷ l) h b = (omega arith, Below-mono n m l h b.1)

pub Below-snoc : (n a : ℕ) (l : List ℕ) → Below n l → a < n → Below n (l ++ a ∷ [])
Below-snoc n a [] b h = (h, tt)
Below-snoc n a (x ∷ l) b h = (b.0, Below-snoc n a l b.1 h)

Fresh-snoc : (x a : ℕ) (l : List ℕ) → Fresh x l → x ≢ a → Fresh x (l ++ a ∷ [])
Fresh-snoc x a [] f h = (h, tt)
Fresh-snoc x a (y ∷ l) f h = (f.0, Fresh-snoc x a l f.1 h)

-- A number above all others can be added.
pub Distinct-snoc : (a : ℕ) (l : List ℕ) → Below a l → Distinct l → Distinct (l ++ a ∷ [])
Distinct-snoc a [] b d = (tt, tt)
Distinct-snoc a (x ∷ l) b d = (Fresh-snoc x a l d.0 (omega arith), Distinct-snoc a l b.1 d.1)

-- ===== src/Core/Action.antt =====
-- Fallible calls that change a state of type `T`. The state stays changed after an error.
pub mod Inversion
use craftsec.Core.Error.{Result, ok, err, panic}

abbrev pub Action : Type 0 → Type 0 → Type 0
Action T A = T → Result A × T

-- What follows a call, on its result and the state that it leaves.
abbrev pub after : {T A B : Type 0} → (A → Action T B) → Result A × T → Result B × T
after f (ok a, t) = f a t
after f (err e, t) = (err e, t)
after f (panic, t) = (panic, t)

infixl 5 ◌>>=◌ ◌>>◌
abbrev pub ◌>>=◌ : {T A B : Type 0} → Action T A → (A → Action T B) → Action T B
◌>>=◌ m f t = after f (m t)

abbrev pub ◌>>◌ : {T B : Type 0} → Action T (Unit {0}) → Action T B → Action T B
m >> k = m >>= λ _. k

-- A call that does not touch the state.
abbrev pub lift : {T A : Type 0} → Result A → Action T A
lift r t = (r, t)

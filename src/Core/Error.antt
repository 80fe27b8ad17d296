-- ===== src/Core/Error.antt =====
-- crates/core/src/error.rs, and the results of fallible code. `panic` is a Rust panic: an index out
-- of range, an `unwrap` of `None`, an underflow.
pub mod Loops
pub mod Display
use craftsec.Base.{ℕ, ◌≡◌, refl, List, [], ◌∷◌, Option, none, some, Text, get_elem?}

pub data CraftSecError : Type 0 where
  -- `t` and `n`.
  invalid_threshold : ℕ → ℕ → CraftSecError
  invalid_share : Text → CraftSecError
  invalid_commitment : Text → CraftSecError
  invalid_signature : Text → CraftSecError
  -- `have` and `need`.
  insufficient_shares : ℕ → ℕ → CraftSecError
  attestation_failed : Text → CraftSecError
  program_error : Text → CraftSecError
  program_frozen : Text → CraftSecError
  serialization_error : Text → CraftSecError

pub data Result {ℓ} (A : Type ℓ) : Type ℓ where
  ok : A → Result A
  err : CraftSecError → Result A
  panic : Result A

-- The operator `?`: what follows runs on a value only.
abbrev pub ◌>>=◌ {κ ℓ} : {V : Type κ} {W : Type ℓ} → Result V → (V → Result W) → Result W
panic >>= next = panic
err failure >>= next = err failure
ok value >>= next = next value

abbrev pub ◌>>◌ {ℓ} : {W : Type ℓ} → Result (Unit {0}) → Result W → Result W
check >> next = check >>= λ _. next

infixl 5 ◌>>=◌ ◌>>◌
module _ {ℓ} {A : Type ℓ} where
  abbrev pub unwrap : Option A → Result A
  unwrap none = panic
  unwrap (some a) = ok a

  -- `ok_or_else`.
  abbrev pub ok_or : Option A → CraftSecError → Result A
  ok_or none e = err e
  ok_or (some a) e = ok a

  -- `xs[i]`.
  abbrev pub index : List A → ℕ → Result A
  index xs i = unwrap (get_elem? xs i)

  -- A loop that makes a fallible call for each element and keeps the results.
  unfoldable pub traverse {κ} : {B : Type κ} → (A → Result B) → List A → Result (List B)
  traverse f [] = ok []
  traverse f (x ∷ xs) = do y ← f x; ys ← traverse f xs; ok (y ∷ ys)

  -- A loop that only checks.
  unfoldable pub for_each : (A → Result (Unit {0})) → List A → Result (Unit {0})
  for_each f [] = ok tt
  for_each f (x ∷ xs) = do f x; for_each f xs

  -- `result.unwrap()`.
  abbrev pub unwrap_ok : Result A → Result A
  unwrap_ok (ok a) = ok a
  unwrap_ok (err e) = panic
  unwrap_ok panic = panic

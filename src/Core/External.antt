-- ===== src/Core/External.antt =====
-- What the program takes from other crates besides the curve: hashes (sha2), random bytes (rand)
-- and JSON values (serde_json), with the documented facts that it relies on.
use Prim.Native.Nat.{◌*◌}
use craftsec.Base.{ℕ, ◌≡◌, Bool, Option, none, List, Text, length}

-- `Sha256::digest` and `Sha512::digest`, and `hex::encode`.
pub record Digests : Type 0 where
  pub sha256 : List ℕ → List ℕ
  pub sha512 : List ℕ → List ℕ
  pub hex_encode : List ℕ → Text
  pub length-hex_encode : (bytes : List ℕ) → length (hex_encode bytes) ≡ 2 * length bytes
  pub hex_encode-injective : (a b : List ℕ) → hex_encode a ≡ hex_encode b → a ≡ b
  pub length-sha256 : (bytes : List ℕ) → length (sha256 bytes) ≡ 32
  pub length-sha512 : (bytes : List ℕ) → length (sha512 bytes) ≡ 64

-- A generator of type `impl RngCore`.
pub record RngCore : Type 1 where
  pub State : Type 0
  -- `fill_bytes` of a buffer of the given length.
  pub fill_bytes : ℕ → State → List ℕ × State

-- `serde_json::Value` with the accessors that the program calls, and the `f64` of its numbers.
pub record Json : Type 1 where
  pub Value : Type 0
  pub Float : Type 0
  pub get : Value → Text → Option Value
  pub null : Value
  pub as_str : Value → Option Text
  pub as_f64 : Value → Option Float
  pub as_u64 : Value → Option ℕ
  -- `a <= b` and `a > b`, both false where an operand is not a number.
  pub float_le : Float → Float → Bool
  pub float_gt : Float → Float → Bool
  -- `0.0` and `1000.0`.
  pub float_zero : Float
  pub float_thousand : Float
  pub as_str-null : as_str null ≡ none
  pub as_f64-null : as_f64 null ≡ none

module _ ⦃d : Digests⦄ where
  abbrev pub sha256 : List ℕ → List ℕ
  sha256 = d.sha256

  abbrev pub sha512 : List ℕ → List ℕ
  sha512 = d.sha512

  abbrev pub hex_encode : List ℕ → Text
  hex_encode = d.hex_encode

module _ ⦃g : RngCore⦄ where
  abbrev pub State : Type 0
  State = g.State

  abbrev pub fill_bytes : ℕ → State → List ℕ × State
  fill_bytes = g.fill_bytes

module _ ⦃j : Json⦄ where
  abbrev pub Value : Type 0
  Value = j.Value

  abbrev pub Float : Type 0
  Float = j.Float

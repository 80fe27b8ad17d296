-- ===== src/Examples/World.antt =====
-- Concrete stand-ins for the other crates: digests that are easy to compute, random bytes that
-- count up, a small type of JSON values with natural numbers, and the curve modulo 7.
use Prim.Native.Nat.{◌*◌, ◌/◌, ◌+◌}
use craftsec.Base.{
  ℕ, suc, ◌≡◌, refl, ap₂, Option, none, some, List, [], ◌∷◌, Text, text, text_eq, ◌%◌, length,
  length-replicate, replicate, leb, ltb, if◌then◌else◌, arith,
}
use craftsec.Curve.Small.{mod_seven}
use craftsec.Core.External.{Digests, RngCore, Json}
use craftsec.Core.Types.{Serde, ThresholdConfig, IsValid, AttestationRequest}

-- Two hexadecimal digits for each byte, as numbers.
abbrev pub digits : List ℕ → Text
digits [] = []
digits (b ∷ bs) = b / 16 ∷ b % 16 ∷ digits bs

pub length-digits : (bs : List ℕ) → length (digits bs) ≡ 2 * length bs
length-digits [] = refl
length-digits (b ∷ bs) = omega (arith, length-digits bs)

pub digits-injective : (a b : List ℕ) → digits a ≡ digits b → a ≡ b
digits-injective [] [] e = refl
digits-injective [] (y ∷ b) e = cc
digits-injective (x ∷ a) [] e = cc
digits-injective (x ∷ a) (y ∷ b) e =
    let high : x / 16 ≡ y / 16 = cc in
    let low : x % 16 ≡ y % 16 = cc in
    let others : digits a ≡ digits b = cc in
    ap₂ ◌∷◌ (omega (arith, high, low)) (digits-injective a b others)

-- `n` copies of the sum of the bytes, modulo 256.
abbrev pub sum_of : List ℕ → ℕ
sum_of [] = 0
sum_of (b ∷ bs) = b + sum_of bs

instance abbrev pub sums : Digests
sums = record {
  sha256 = λ bytes. replicate 32 (sum_of bytes % 256);
  sha512 = λ bytes. replicate 64 (sum_of bytes % 256);
  hex_encode = digits;
  length-hex_encode = length-digits;
  hex_encode-injective = digits-injective;
  length-sha256 = λ bytes. length-replicate 32 (sum_of bytes % 256);
  length-sha512 = λ bytes. length-replicate 64 (sum_of bytes % 256);
}

instance abbrev pub counter : RngCore
counter = record { State = ℕ; fill_bytes = λ n state. (replicate n (state % 256), suc state) }

pub data Value : Type 0 where
  null : Value
  str : Text → Value
  number : ℕ → Value
  field : Text → Value → Value → Value

abbrev pub get : Value → Text → Option Value
get null key = none
get (str s) key = none
get (number n) key = none
get (field k v rest) key = if text_eq k key then some v else get rest key

abbrev pub as_str : Value → Option Text
as_str null = none
as_str (str s) = some s
as_str (number n) = none
as_str (field k v rest) = none

abbrev pub as_number : Value → Option ℕ
as_number null = none
as_number (str s) = none
as_number (number n) = some n
as_number (field k v rest) = none

instance abbrev pub values : Json
values = record {
  Value = Value;
  Float = ℕ;
  get = get;
  null = null;
  as_str = as_str;
  as_f64 = as_number;
  as_u64 = as_number;
  float_le = leb;
  float_gt = λ a b. ltb b a;
  float_zero = 0;
  float_thousand = 1000;
  as_str-null = refl;
  as_f64-null = refl;
}

instance abbrev pub recipient_and_amount : Serde
recipient_and_amount = record { to_vec = λ tx. tx.amount ∷ tx.recipient }

abbrev pub two_of_three : ThresholdConfig
two_of_three = record { threshold = 2; total = 3 }

pub two_of_three-IsValid : IsValid two_of_three
two_of_three-IsValid = record { positive = omega arith; within = omega arith; fits = omega arith }

-- A transfer of 50 to Bob.
abbrev pub transfer_args : Value
transfer_args = field (text "recipient") (str (text "bob")) (field (text "amount") (number 50) null)

abbrev pub transfer_request : AttestationRequest
transfer_request = record {
  program_cid = text "Qm_transfer";
  requester = text "alice";
  args = transfer_args;
  request_id = text "req-1";
}

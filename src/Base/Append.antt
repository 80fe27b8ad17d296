-- ===== src/Base/Append.antt =====
-- When a concatenation determines its parts, and integers their little-endian bytes.
use Prim.Native.Nat.{◌/◌, ◌%◌, ◌^◌}
use native.Mathlib.Nat.{pow-suc}
use mathlib.Core.Path.{◌≡◌, refl, ap, ap₂}
use mathlib.Core.List.{List, [], ◌∷◌, ◌++◌}
use native.Mathlib.Omega.{arith}
use Prim.Native.Nat.{ℕ, zero, suc, ◌<◌}
use craftsec.Base.Lists.{length, length-append}
use craftsec.Base.Bytes.{to_le_bytes}

module _ {ℓ} {A : Type ℓ} where
  pub append_left_cancel : (xs ys zs : List A) → xs ++ ys ≡ xs ++ zs → ys ≡ zs
  append_left_cancel [] ys zs e = e
  append_left_cancel (x ∷ xs) ys zs e = append_left_cancel xs ys zs (cc)

  -- Second parts of one length: the parts are equal.
  pub append-injective_right :
      (xs ys xs' ys' : List A)
      → length ys ≡ length ys'
      → xs ++ ys ≡ xs' ++ ys'
      → (xs ≡ xs') × (ys ≡ ys')
  append-injective_right [] ys [] ys' l e = (refl, e)
  append-injective_right [] ys (x ∷ xs') ys' l e =
      absurd (omega (arith, ap length e, length-append xs' ys', l))
  append-injective_right (x ∷ xs) ys [] ys' l e =
      absurd (omega (arith, ap length e, length-append xs ys, l))
  append-injective_right (x ∷ xs) ys (x' ∷ xs') ys' l e =
      let (p, q) = append-injective_right xs ys xs' ys' l (cc) in
      let r : x ≡ x' = cc in (ap₂ ◌∷◌ r p, q)

  -- First parts of one length.
  pub append-injective_left :
      (xs ys xs' ys' : List A)
      → length xs ≡ length xs'
      → xs ++ ys ≡ xs' ++ ys'
      → (xs ≡ xs') × (ys ≡ ys')
  append-injective_left [] ys [] ys' l e = (refl, e)
  append-injective_left [] ys (x ∷ xs') ys' l e = absurd (omega arith)
  append-injective_left (x ∷ xs) ys [] ys' l e = absurd (omega arith)
  append-injective_left (x ∷ xs) ys (x' ∷ xs') ys' l e =
      let (p, q) = append-injective_left xs ys xs' ys' (omega arith) (cc) in
      let r : x ≡ x' = cc in (ap₂ ◌∷◌ r p, q)

pub length-to_le_bytes : (k n : ℕ) → length (to_le_bytes k n) ≡ k
unfolding to_le_bytes
length-to_le_bytes zero n = refl
length-to_le_bytes (suc k) n = ap suc (length-to_le_bytes k (n / 256))

pub to_le_bytes-injective :
    (k n m : ℕ) → n < 256 ^ k → m < 256 ^ k → to_le_bytes k n ≡ to_le_bytes k m → n ≡ m
unfolding to_le_bytes
to_le_bytes-injective zero n m h h' e = omega arith
to_le_bytes-injective (suc k) n m h h' e =
    let low : n % 256 ≡ m % 256 = cc in
    let high =
      to_le_bytes-injective k (n / 256) (m / 256) (omega (arith, pow-suc 256 k, h))
        (omega (arith, pow-suc 256 k, h')) (cc) in
    omega (arith, low, high)

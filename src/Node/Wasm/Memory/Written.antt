-- ===== src/Node/Wasm/Memory/Written.antt =====
-- Bytes that are written are found, and a packed pointer and length are unpacked again.
use Prim.Native.Nat.{◌+◌}
use craftsec.Base.{
  ℕ, zero, suc, ◌≤◌, ◌<◌, ◌≡◌, refl, ap, ap₂, List, [], ◌∷◌, ◌++◌, take, length, length-append,
  length-take, leb, ◌==◌, ◌&&◌, as_u32, u32_bound, Bool-cases, inl, inr, arith,
}
use craftsec.Core.Error.{ok, panic}
use craftsec.Node.Wasm.Memory.{pack, unpack, drop, slice, write_at}

-- Unpacking gives back a pointer and a length of `u32` values.
pub unpack-pack :
    (ptr len : ℕ) → ptr < u32_bound → len < u32_bound → unpack (pack ptr len) ≡ (ptr, len)
unfolding unpack pack
unpack-pack ptr len h k = ap₂ (λ a b. (a, b)) (omega arith) (omega arith)

-- A slice in range is the bytes there, and one out of range is a panic.
pub slice_decides :
    (memory : List ℕ) (ptr len : ℕ)
    → (ptr + len < u32_bound
        → ptr + len ≤ length memory
        → slice memory ptr len ≡ ok (take len (drop ptr memory)))
      × (length memory < ptr + len → slice memory ptr len ≡ panic)
unfolding slice
slice_decides memory ptr len = ((λ h k. ground arith), λ h. ground arith)

pub take-append : (bytes rest : List ℕ) → take (length bytes) (bytes ++ rest) ≡ bytes
take-append [] rest = refl
take-append (b ∷ bytes) rest = ap (λ l. b ∷ l) (take-append bytes rest)

pub drop-append :
    (memory rest : List ℕ) (n : ℕ) → n ≤ length memory → drop n (take n memory ++ rest) ≡ rest
drop-append memory rest zero h = refl
drop-append [] rest (suc n) h = absurd (omega arith)
drop-append (b ∷ memory) rest (suc n) h = drop-append memory rest n (omega arith)

length-drop : (n : ℕ) (l : List ℕ) → n ≤ length l → length (drop n l) + n ≡ length l
length-drop zero l h = omega arith
length-drop (suc n) [] h = absurd (omega arith)
length-drop (suc n) (b ∷ l) h = omega (arith, length-drop n l)

-- A write in range succeeds.
abbrev pub with_bytes : List ℕ → ℕ → List ℕ → List ℕ
with_bytes memory ptr bytes = take ptr memory ++ (bytes ++ drop (ptr + length bytes) memory)

pub write_at_fits :
    (memory bytes : List ℕ) (ptr : ℕ)
    → ptr + length bytes ≤ length memory
    → write_at memory ptr (length bytes) bytes ≡ ok (with_bytes memory ptr bytes)
unfolding write_at
write_at_fits memory bytes ptr room = ground arith

-- It keeps the size, and the bytes are in place.
pub length-with_bytes :
    (memory bytes : List ℕ) (ptr : ℕ)
    → ptr + length bytes ≤ length memory
    → length (with_bytes memory ptr bytes) ≡ length memory
length-with_bytes memory bytes ptr room = omega (
  arith,
  length-append (take ptr memory) (bytes ++ drop (ptr + length bytes) memory),
  length-append bytes (drop (ptr + length bytes) memory),
  length-take ptr memory,
  length-drop (ptr + length bytes) memory,
)

pub with_bytes_lem :
    (memory bytes : List ℕ) (ptr : ℕ)
    → ptr + length bytes ≤ length memory
    → take (length bytes) (drop ptr (with_bytes memory ptr bytes)) ≡ bytes
with_bytes_lem memory bytes ptr room =
    rw (drop-append memory (bytes ++ drop (ptr + length bytes) memory) ptr (omega arith))
      (take-append bytes (drop (ptr + length bytes) memory))

-- So the slice at the pointer is the bytes.
pub slice-with_bytes :
    (memory bytes : List ℕ) (ptr : ℕ)
    → ptr + length bytes ≤ length memory
    → ptr + length bytes < u32_bound
    → slice (with_bytes memory ptr bytes) ptr (length bytes) ≡ ok bytes
slice-with_bytes memory bytes ptr room small =
    rw
      (
        (slice_decides (with_bytes memory ptr bytes) ptr (length bytes)).0 small
            (omega (arith, length-with_bytes memory bytes ptr room)),
        with_bytes_lem memory bytes ptr room,
      )
      refl

-- A write that succeeds leaves the bytes at the pointer.
pub write_at_lem :
    (memory written bytes : List ℕ) (ptr len : ℕ)
    → write_at memory ptr len bytes ≡ ok written
    → take len (drop ptr written) ≡ bytes
unfolding write_at
write_at_lem memory written bytes ptr len e =
    elim (Bool-cases (leb (ptr + len) (length memory) && length bytes == len)) [
      | inl fits ↦
          let done : take ptr memory ++ (bytes ++ drop (ptr + len) memory) ≡ written =
            let e' = rw fits at e in cc in
          let size : length bytes ≡ len = ground (arith, fits) in
          let room : ptr + length bytes ≤ length memory = ground (arith, fits) in
          rw (← done, ← size) (with_bytes_lem memory bytes ptr room)
      | inr out ↦ let e' = rw out at e in cc
    ]

pub as_u32-lt : (n : ℕ) → as_u32 n < u32_bound
unfolding as_u32
as_u32-lt n = omega arith

pub as_u32_small : (n : ℕ) → n < u32_bound → as_u32 n ≡ n
unfolding as_u32
as_u32_small n h = omega arith

pub write_at_outside :
    (memory bytes : List ℕ) (ptr : ℕ)
    → length memory < ptr + length bytes
    → write_at memory ptr (length bytes) bytes ≡ panic
unfolding write_at
write_at_outside memory bytes ptr outside = ground arith

-- ===== src/Node/Wasm/Memory.antt =====
-- crates/node/src/wasm_executor.rs: the memory of a guest, and pointers and lengths packed in a
-- `u64`.
pub mod Written
use Prim.Native.Nat.{◌+◌, ◌*◌, ◌/◌, ◌%◌}
use craftsec.Base.{
  ℕ, zero, suc, Bool, true, false, Option, List, [], ◌∷◌, ◌++◌, ◌⊎◌, inl, inr, Text, text, take,
  length, leb, ltb, ◌==◌, u32_bound, ◌&&◌, ◌||◌, if◌then◌else◌,
}
use craftsec.Core.Error.{Result, ok, err, panic, program_error}

-- A guest instance in its store: the memory, the lines that it made the host log, and whatever else
-- it keeps.
pub record Instance (R : Type 0) : Type 0 where
  pub memory : List ℕ
  pub stderr : List Text
  pub rest : R

-- The end of a call of an exported function: a value, a trap with its text, or a panic of a host
-- function that it called.
pub data Outcome (A : Type 0) : Type 0 where
  returned : A → Outcome A
  trapped : Text → Outcome A
  panicked : Outcome A

-- `wasmtime::Val`: the values of other types are neither an `i32` nor an `i64`. An integer is given
-- by its bits.
pub data Val : Type 0 where
  i32 : ℕ → Val
  i64 : ℕ → Val
  other : Val

-- `Val::unwrap_i32` and `Val::unwrap_i64`.
abbrev pub unwrap_i32 : Val → Result ℕ
unwrap_i32 (i32 n) = ok n
unwrap_i32 (i64 n) = panic
unwrap_i32 other = panic

abbrev pub unwrap_i64 : Val → Result ℕ
unwrap_i64 (i32 n) = panic
unwrap_i64 (i64 n) = ok n
unwrap_i64 other = panic

-- The functions that the host links, with the numbers of a `u32` as arguments.
pub record HostFunctions (R : Type 0) : Type 0 where
  pub host_sql_query : ℕ → ℕ → ℕ → ℕ → ℕ → ℕ → Instance R → Result (ℕ × Instance R)
  pub host_log : ℕ → ℕ → ℕ → Instance R → Result (Instance R)

-- What a module exports. A call with arguments of other types than it takes is a trap. The
-- allocator calls no function of the host.
pub record Exports (R : Type 0) : Type 0 where
  pub memory : Bool
  pub guest_alloc : Option (ℕ → Instance R → Outcome (Val × Instance R))
  pub attest : Option (HostFunctions R → ℕ → ℕ → Instance R → Outcome (Val × Instance R))

-- `result.map_err(|e| CraftSecError::ProgramError(format!("{context}: {e}")))`.
abbrev pub map_err : {A : Type 0} → Text → A ⊎ Text → Result A
map_err context (inl a) = ok a
map_err context (inr e) = err (program_error (context ++ (text ": " ++ e)))

-- The same of a call into the guest, and its `unwrap`.
abbrev pub map_trap : {A : Type 0} → Text → Outcome A → Result A
map_trap context (returned a) = ok a
map_trap context (trapped e) = err (program_error (context ++ (text ": " ++ e)))
map_trap context panicked = panic

abbrev pub unwrap_call : {A : Type 0} → Outcome A → Result A
unwrap_call (returned a) = ok a
unwrap_call (trapped e) = panic
unwrap_call panicked = panic

-- `caller.get_export("memory").unwrap()`.
abbrev pub unwrap_memory : Bool → Result (Unit {0})
unwrap_memory true = ok tt
unwrap_memory false = panic

-- `(ptr << 32) | len` of two `u32` values.
unfoldable pub pack : ℕ → ℕ → ℕ
pack ptr len = ptr * u32_bound + len

-- `(packed >> 32) as u32` and `(packed & 0xFFFFFFFF) as u32` of a `u64`.
unfoldable pub unpack : ℕ → ℕ × ℕ
unpack packed = (packed / u32_bound % u32_bound, packed % u32_bound)

abbrev pub drop {ℓ} : {A : Type ℓ} → ℕ → List A → List A
drop zero l = l
drop (suc n) [] = []
drop (suc n) (a ∷ l) = drop n l

-- `&data[ptr as usize..(ptr + len) as usize]`. A sum above `u32` panics, and where it wraps around
-- instead the end is before the start, which is a panic as well.
unfoldable pub slice : List ℕ → ℕ → ℕ → Result (List ℕ)
slice memory ptr len =
    if leb u32_bound (ptr + len) || ltb (length memory) (ptr + len)
    then panic
    else ok (take len (drop ptr memory))

-- `data_mut[ptr..ptr + len].copy_from_slice(bytes)`, a panic out of range or at another length.
unfoldable pub write_at : List ℕ → ℕ → ℕ → List ℕ → Result (List ℕ)
write_at memory ptr len bytes =
    if leb (ptr + len) (length memory) && length bytes == len
    then ok (take ptr memory ++ (bytes ++ drop (ptr + len) memory))
    else panic

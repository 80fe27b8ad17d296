-- ===== src/Guest/Hosted.antt =====
-- The transfer program as a guest of the executor: its queries reach the databases of the registry.
use Prim.Native.Nat.{◌+◌}
use craftsec.Base.{
  ℕ, ◌≤◌, ◌<◌, ◌≡◌, refl, true, none, some, inl, ◌⊎◌, Text, text, length, leb, as_u32, u32_bound,
  arith, take, Bool-cases, inr, sym, ◌∙◌,
}
use craftsec.Base.Maps.{lookup}
use craftsec.Core.External.{Digests, Json}
use craftsec.Core.Error.{ok}
use craftsec.Node.Wasm.Memory.{Instance, Outcome, returned, trapped, panicked, slice, drop}
use craftsec.Node.Wasm.Memory.Written.{
  with_bytes, unpack-pack, slice_decides, slice-with_bytes, as_u32_small,
}
use craftsec.Node.Wasm.Calls.{continue}
use craftsec.Node.Wasm.Sql.{Rusqlite, SqlDatabase, Databases, query}
use craftsec.Node.Wasm.Host.{Utf8, linked, query_result, read_text}
use craftsec.Node.Wasm.Host.Written.{HasRoom, host_sql_query_total}
use craftsec.Guest.{GuestJson}
use craftsec.Guest.Memory.{
  Allocator, as_ptr, put_bytes, guest_alloc, raw_parts, read_rows, call_sql_query, sql_query,
  guest_exports,
}

module _ {R : Type 0} ⦃a : Allocator R⦄ where
  -- Reading what a slice of the host would read.
  pub raw_parts_lem :
      (s : Instance R) (ptr len : ℕ) {bytes : Text}
      → ptr + len < u32_bound
      → ptr + len ≤ length s.memory
      → slice s.memory ptr len ≡ ok bytes
      → raw_parts ptr len s ≡ (returned bytes, s)
  unfolding raw_parts
  raw_parts_lem s ptr len {bytes} small fits there =
      let found : ok (take len (drop ptr s.memory)) ≡ ok bytes =
        sym ((slice_decides s.memory ptr len).0 small fits) ∙ there in
      let same : take len (drop ptr s.memory) ≡ bytes = cc in
      let inside : leb (ptr + len) (length s.memory) ≡ true = ground arith in rw (inside, same) refl

  put_bytes_lem :
      (s s' : Instance R) (at ptr : ℕ) (string : Text)
      → put_bytes at string s ≡ (returned ptr, s')
      → ptr + length string < u32_bound
      → slice s'.memory ptr (length string) ≡ ok string
  unfolding put_bytes
  put_bytes_lem s s' at ptr string e small =
      elim (Bool-cases (leb (at + length string) (length s.memory))) [
        | inl fits ↦
            let e' = rw fits at e in
            let place : at ≡ ptr = cc in
            let written : with_bytes s.memory at string ≡ s'.memory = cc in
            rw (← written, ← place)
              (slice-with_bytes s.memory string at (ground (arith, fits)) (omega (arith, place)))
        | inr out ↦ let e' = rw out at e in cc
      ]

  -- A string that has been put into the memory is there.
  pub as_ptr_lem :
      (s s' : Instance R) (ptr : ℕ) (string : Text)
      → as_ptr string s ≡ (returned ptr, s')
      → ptr + length string < u32_bound
      → slice s'.memory ptr (length string) ≡ ok string
  unfolding as_ptr
  as_ptr_lem s s' ptr string e small = placed (guest_alloc (length string) s) e
    where
      placed :
          (p : Outcome ℕ × Instance R)
          → continue (λ at. put_bytes at string) p ≡ (returned ptr, s')
          → slice s'.memory ptr (length string) ≡ ok string
      placed (returned at, s₁) e' = put_bytes_lem s₁ s' at ptr string e' small
      placed (trapped t, s₁) e' = cc
      placed (panicked, s₁) e' = cc

module _ ⦃j : Json⦄ ⦃q : Rusqlite⦄ ⦃d : Digests⦄ ⦃u : Utf8⦄ where
  -- The three texts of a query are valid UTF-8. They have been put into the guest's memory, one
  -- after the other, below 2^32, and the later ones have not been put over the earlier ones.
  pub record IsPlaced {R : Type 0} ⦃a : Allocator R⦄ (db sql params : Text) (s : Instance R)
      : Type 0 where
    pub first : Instance R
    pub second : Instance R
    pub placed : Instance R
    pub db_ptr : ℕ
    pub sql_ptr : ℕ
    pub params_ptr : ℕ
    pub put_db : as_ptr db s ≡ (returned db_ptr, first)
    pub put_sql : as_ptr sql first ≡ (returned sql_ptr, second)
    pub put_params : as_ptr params second ≡ (returned params_ptr, placed)
    pub low_db : db_ptr + length db < u32_bound
    pub low_sql : sql_ptr + length sql < u32_bound
    pub low_params : params_ptr + length params < u32_bound
    pub kept_db : slice placed.memory db_ptr (length db) ≡ slice first.memory db_ptr (length db)
    pub kept_sql :
        slice placed.memory sql_ptr (length sql) ≡ slice second.memory sql_ptr (length sql)
    pub utf8_db : u.from_utf8_lossy db ≡ db
    pub utf8_sql : u.from_utf8_lossy sql ≡ sql
    pub utf8_params : u.from_utf8_lossy params ≡ params

  -- The host reads a text that has been put into the memory and kept there.
  read_text-as_ptr :
      {R : Type 0} ⦃a : Allocator R⦄ (s s' later : Instance R) (ptr : ℕ) (string : Text)
      → as_ptr string s ≡ (returned ptr, s')
      → ptr + length string < u32_bound
      → slice later.memory ptr (length string) ≡ slice s'.memory ptr (length string)
      → u.from_utf8_lossy string ≡ string
      → read_text later ptr (as_u32 (length string)) ≡ ok string
  unfolding read_text
  read_text-as_ptr s s' later ptr string put low kept utf8 =
      rw
        (
          as_u32_small (length string) (omega (arith, low)),
          kept ∙ as_ptr_lem s s' ptr string put low,
          utf8,
        )
        refl

  -- What the databases answer to a query: the database of that name its rows for the SQL and the
  -- parameters, and an unknown name no rows.
  abbrev pub IsAnswer : Databases → Text → Text → Text → Text → Type 0
  IsAnswer databases db sql params answer =
      ((database : SqlDatabase) × (lookup db databases ≡ some database)
        × (answer ≡ query database sql params))
      ⊎ ((lookup db databases ≡ none) × (answer ≡ text "[]"))

  query_result-IsAnswer :
      (databases : Databases) (db sql params answer : Text)
      → IsAnswer databases db sql params answer
      → query_result databases db sql params ≡ answer
  unfolding query_result
  query_result-IsAnswer databases db sql params answer (inl (database, found, rows)) =
      rw (found, rows) refl
  query_result-IsAnswer databases db sql params answer (inr (missing, rows)) =
      rw (missing, rows) refl

  memory_exported :
      (R : Type 0) ⦃a : Allocator R⦄ ⦃p : GuestJson⦄ → (guest_exports {R = R}).memory ≡ true
  unfolding guest_exports
  memory_exported R = refl

  -- A query of the transfer program, whose texts its allocator has placed, gives the program what
  -- the databases of the registry answer: the rows of the database of that name for the SQL and the
  -- parameters, and no rows for an unknown name. The program's allocator must give room for the
  -- answer below 2^32, and the answer must be valid UTF-8.
  pub sql_query_lem :
      {R : Type 0} ⦃a : Allocator R⦄ ⦃p : GuestJson⦄ (databases : Databases)
      (db sql params answer : Text) (s s' : Instance R) (ptr : ℕ) (texts : IsPlaced db sql params s)
      → IsAnswer databases db sql params answer
      → HasRoom guest_exports texts.placed (length answer) ptr s'
      → u.from_utf8_lossy answer ≡ answer
      → (left : Instance R) × (sql_query (linked databases guest_exports) db sql params s
          ≡ (returned answer, left))
  unfolding sql_query call_sql_query read_rows linked
  sql_query_lem {R} databases db sql params answer s s' ptr texts answers room utf8 =
      let result = query_result-IsAnswer databases db sql params answer answers in
      let (written, asked, there, size) =
        host_sql_query_total databases guest_exports texts.db_ptr (as_u32 (length db)) texts.sql_ptr
          (as_u32 (length sql)) texts.params_ptr (as_u32 (length params)) texts.placed s' db sql
          params ptr (memory_exported R)
          (read_text-as_ptr s texts.first texts.placed texts.db_ptr db texts.put_db texts.low_db
            texts.kept_db texts.utf8_db)
          (read_text-as_ptr texts.first texts.second texts.placed texts.sql_ptr sql texts.put_sql
            texts.low_sql texts.kept_sql texts.utf8_sql)
          (read_text-as_ptr texts.second texts.placed texts.placed texts.params_ptr params
            texts.put_params texts.low_params refl texts.utf8_params)
          (rw result room) in
      let asked' = rw result at asked in
      let there' = rw result at there in
      (
        written,
        rw
            (
              texts.put_db,
              texts.put_sql,
              texts.put_params,
              asked',
              unpack-pack ptr (length answer) (omega (arith, room.small))
                  (omega (arith, room.small)),
              raw_parts_lem written ptr (length answer) room.small
                  (omega (arith, size, room.within)) there',
              utf8,
            )
            refl,
      )

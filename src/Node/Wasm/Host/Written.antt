-- ===== src/Node/Wasm/Host/Written.antt =====
-- What the host writes is what the guest finds.
use Prim.Native.Nat.{◌+◌}
use craftsec.Base.{ℕ, ◌≤◌, ◌<◌, ◌≡◌, refl, true, some, Text, length, u32_bound, arith}
use craftsec.Core.External.{Digests, Json}
use craftsec.Core.Error.{ok}
use craftsec.Node.Wasm.Memory.{Instance, Exports, Outcome, returned, Val, i32, pack, slice}
use craftsec.Node.Wasm.Memory.Written.{
  with_bytes, length-with_bytes, write_at_fits, slice-with_bytes, as_u32_small,
}
use craftsec.Node.Wasm.Sql.{Rusqlite, Databases}
use craftsec.Node.Wasm.Host.{Utf8, query_result, read_text, return_text, host_sql_query}

-- A guest with an allocator whose allocation gives a place of the given size in the memory.
pub record HasRoom {R : Type 0} (guest : Exports R) (s : Instance R) (size ptr : ℕ)
    (s' : Instance R) : Type 0 where
  pub allocator : ℕ → Instance R → Outcome (Val × Instance R)
  pub exported : guest.guest_alloc ≡ some allocator
  pub allocated : allocator size s ≡ returned (i32 ptr, s')
  pub within : ptr + size ≤ length s'.memory
  pub small : ptr + size < u32_bound

module _ {R : Type 0} (guest : Exports R) (result : Text) (s s' : Instance R) (ptr : ℕ)
    (room : HasRoom guest s (length result) ptr s') where
  pub return_text_lem :
      return_text guest result s
      ≡ ok (pack ptr (length result), record s' { memory = with_bytes s'.memory ptr result })
  unfolding return_text
  return_text_lem =
      rw
        (
          as_u32_small (length result) (omega (arith, room.small)),
          room.exported,
          room.allocated,
          as_u32_small ptr (omega (arith, room.small)),
          write_at_fits s'.memory result ptr room.within,
        )
        refl

module _ ⦃j : Json⦄ ⦃q : Rusqlite⦄ ⦃d : Digests⦄ ⦃u : Utf8⦄ where
  -- Whatever database, SQL and parameters a guest passes by pointers in range, if it exports its
  -- memory and its allocator gives room for the answer below 2^32, then the query returns to the
  -- guest a packed pointer and length at which the slice of the memory is the answer of the
  -- database of that name.
  pub host_sql_query_total :
      {R : Type 0} (databases : Databases) (guest : Exports R)
      (db_ptr db_len sql_ptr sql_len params_ptr params_len : ℕ) (s s' : Instance R)
      (db_name sql params : Text) (ptr : ℕ)
      → guest.memory ≡ true
      → read_text s db_ptr db_len ≡ ok db_name
      → read_text s sql_ptr sql_len ≡ ok sql
      → read_text s params_ptr params_len ≡ ok params
      → HasRoom guest s (length (query_result databases db_name sql params)) ptr s'
      → let result = query_result databases db_name sql params in
        (written : Instance R) × (host_sql_query databases guest db_ptr db_len sql_ptr sql_len
            params_ptr params_len s
          ≡ ok (pack ptr (length result), written))
        × (slice written.memory ptr (length result) ≡ ok result)
        × (length written.memory ≡ length s'.memory)
  unfolding host_sql_query return_text
  host_sql_query_total databases guest db_ptr db_len sql_ptr sql_len params_ptr params_len s s'
        db_name sql params ptr exported named asked given room =
      let result = query_result databases db_name sql params in
      (
        record s' { memory = with_bytes s'.memory ptr result },
        rw (exported, named, asked, given) (return_text_lem guest result s s' ptr room),
        slice-with_bytes s'.memory result ptr room.within room.small,
        length-with_bytes s'.memory result ptr room.within,
      )

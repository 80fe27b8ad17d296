-- ===== src/Node/Wasm/Host.antt =====
-- crates/node/src/wasm_executor.rs: the functions `host_log` and `host_sql_query` on the memory of a
-- guest.
pub mod Written
use Prim.Native.Nat.{◌+◌}
use craftsec.Base.{
  ℕ, Option, none, some, List, [], ◌∷◌, ◌++◌, ◌⊎◌, Text, text, length, ◌==◌, as_u32, if◌then◌else◌,
}
use craftsec.Base.Maps.{lookup}
use craftsec.Core.External.{Digests, Json}
use craftsec.Core.Error.{Result, ok, panic, unwrap, ◌>>=◌, ◌>>◌}
use craftsec.Node.Wasm.Memory.{
  Instance, Exports, HostFunctions, unwrap_call, unwrap_i32, unwrap_memory, pack, slice, write_at,
}
use craftsec.Node.Wasm.Sql.{Rusqlite, SqlDatabase, Databases, query}

-- `str::from_utf8` and `String::from_utf8_lossy`.
pub record Utf8 : Type 0 where
  pub from_utf8 : List ℕ → Text ⊎ Text
  pub from_utf8_lossy : List ℕ → Text

unfoldable pub level_str : ℕ → Text
level_str level =
    if level == 0
    then text "DEBUG"
    else if level == 1
    then text "INFO"
    else if level == 2
    then text "WARN"
    else if level == 3
    then text "ERROR"
    else text "?"

module _ ⦃u : Utf8⦄ where
  -- A text that the guest passes by pointer and length.
  unfoldable pub read_text : {R : Type 0} → Instance R → ℕ → ℕ → Result Text
  read_text s ptr len = do bytes ← slice s.memory ptr len; ok (u.from_utf8_lossy bytes)

  -- `eprintln!` adds a line.
  unfoldable pub host_log : {R : Type 0} → Exports R → ℕ → ℕ → ℕ → Instance R → Result (Instance R)
  host_log guest level msg_ptr msg_len s = do
    unwrap_memory guest.memory
    msg ← read_text s msg_ptr msg_len
    let line = text "[WASM " ++ (level_str level ++ (text "] " ++ msg))
    ok (record s { stderr = s.stderr ++ (line ∷ []) })

-- From the result on: allocation, writing and packing.
unfoldable pub return_text : {R : Type 0} → Exports R → Text → Instance R → Result (ℕ × Instance R)
return_text guest result s = do
  let len = as_u32 (length result)
  guest_alloc ← unwrap guest.guest_alloc
  r ← unwrap_call (guest_alloc len s)
  given ← unwrap_i32 r.0
  let ptr = as_u32 given
  written ← write_at r.1.memory ptr len result
  ok (pack ptr len, record r.1 { memory = written })

module _ ⦃j : Json⦄ ⦃q : Rusqlite⦄ ⦃d : Digests⦄ where
  -- The answer of a database, empty rows for an unknown one.
  unfoldable pub query_result : Databases → Text → Text → Text → Text
  query_result databases db_name sql params = ask (lookup db_name databases)
    where
      ask : Option SqlDatabase → Text
      ask none = text "[]"
      ask (some db) = query db sql params

  module _ ⦃u : Utf8⦄ where
    unfoldable pub host_sql_query :
        {R : Type 0}
        → Databases
        → Exports R
        → ℕ
        → ℕ
        → ℕ
        → ℕ
        → ℕ
        → ℕ
        → Instance R
        → Result (ℕ × Instance R)
    host_sql_query databases guest db_ptr db_len sql_ptr sql_len params_ptr params_len s = do
      unwrap_memory guest.memory
      db_name ← read_text s db_ptr db_len
      sql ← read_text s sql_ptr sql_len
      params ← read_text s params_ptr params_len
      return_text guest (query_result databases db_name sql params) s

    -- The functions that `execute` links, for the databases of the registry.
    unfoldable pub linked : {R : Type 0} → Databases → Exports R → HostFunctions R
    linked databases guest = record {
      host_sql_query = host_sql_query databases guest;
      host_log = host_log guest;
    }

-- ===== src/Guest/Memory.antt =====
-- examples/transfer-validator/src/lib.rs: the exported functions and the calls of the host, on the
-- memory of the instance that the program runs in. The allocator is an interface.
use Prim.Native.Nat.{◌+◌}
use craftsec.Base.{
  ℕ, true, List, [], ◌++◌, ◌⊎◌, inl, inr, some, Text, length, leb, take, as_u32, if◌then◌else◌,
}
use craftsec.Core.External.{Json}
use craftsec.Node.Wasm.Memory.{
  Instance, Exports, HostFunctions, Outcome, returned, i32, i64, trapped, panicked, pack, unpack,
  drop,
}
use craftsec.Node.Wasm.Calls.{Call, pure, with_state, host_outcome, joined, ◌>>=◌}
use craftsec.Node.Wasm.Host.{Utf8}
use craftsec.Guest.{GuestJson, Host, do_attest}

-- The allocator of the guest, which traps when there is no place, and the texts of its traps.
pub record Allocator (R : Type 0) : Type 0 where
  pub allocate : ℕ → Instance R → Outcome (ℕ × Instance R)
  pub out_of_bounds : Text
  pub unreachable : Text

module _ {R : Type 0} ⦃a : Allocator R⦄ where
  -- `Vec::with_capacity(len)`, whose buffer is kept.
  unfoldable pub guest_alloc : ℕ → Call (Instance R) ℕ
  guest_alloc len s = with_state s (a.allocate len s)

  -- `from_raw_parts`: reading outside of the memory traps.
  unfoldable pub raw_parts : ℕ → ℕ → Call (Instance R) (List ℕ)
  raw_parts ptr len s =
      if leb (ptr + len) (length s.memory)
      then (returned (take len (drop ptr s.memory)), s)
      else (trapped a.out_of_bounds, s)

  -- The bytes of a string are put in its place.
  unfoldable pub put_bytes : ℕ → Text → Call (Instance R) ℕ
  put_bytes ptr bytes s =
      if leb (ptr + length bytes) (length s.memory)
      then (
        returned ptr,
        record s { memory = take ptr s.memory ++ (bytes ++ drop (ptr + length bytes) s.memory) },
      )
      else (trapped a.out_of_bounds, s)

  -- `as_ptr` of a string, which is put into the memory for it.
  unfoldable pub as_ptr : Text → Call (Instance R) ℕ
  as_ptr string = do ptr ← guest_alloc (length string); put_bytes ptr string

  module _ ⦃u : Utf8⦄ (functions : HostFunctions R) where
    -- The call of the imported function.
    unfoldable pub call_sql_query : ℕ → ℕ → ℕ → ℕ → ℕ → ℕ → Call (Instance R) ℕ
    call_sql_query db_ptr db_len sql_ptr sql_len params_ptr params_len s = with_state s (
        host_outcome
          (functions.host_sql_query db_ptr db_len sql_ptr sql_len params_ptr params_len s))

    -- The reading of its answer.
    unfoldable pub read_rows : ℕ → Call (Instance R) Text
    read_rows packed = do
      let (ptr, len) = unpack packed
      slice ← raw_parts ptr len
      pure (u.from_utf8_lossy slice)

    unfoldable pub sql_query : Text → Text → Text → Call (Instance R) Text
    sql_query db sql params = do
      db_ptr ← as_ptr db
      sql_ptr ← as_ptr sql
      params_ptr ← as_ptr params
      packed ←
          call_sql_query db_ptr (as_u32 (length db)) sql_ptr (as_u32 (length sql)) params_ptr
            (as_u32 (length params))
      read_rows packed

    unfoldable pub call_log : ℕ → ℕ → ℕ → Call (Instance R) (Unit {0})
    call_log level ptr len s =
        with_state s (logged (host_outcome (functions.host_log level ptr len s)))
      where
        logged : Outcome (Instance R) → Outcome (Unit {0} × Instance R)
        logged (returned s') = returned (tt, s')
        logged (trapped e) = trapped e
        logged panicked = panicked

    unfoldable pub log_info : Text → Call (Instance R) (Unit {0})
    log_info msg = do msg_ptr ← as_ptr msg; call_log 1 msg_ptr (as_u32 (length msg))

    -- The host as the program calls it.
    abbrev pub linked_host : ⦃j : Json⦄ → Host (Instance R)
    linked_host = record { sql_query = sql_query; log_info = log_info; panic_text = a.unreachable }

    -- `std::str::from_utf8(request_bytes).unwrap_or("")`.
    request_text : Text ⊎ Text → Text
    request_text (inl request_str) = request_str
    request_text (inr e) = []

    -- The exported function `attest`.
    unfoldable pub guest_attest : ⦃j : Json⦄ → ⦃s : GuestJson⦄ → ℕ → ℕ → Call (Instance R) ℕ
    unfolding request_text
    guest_attest request_ptr request_len = do
      request_bytes ← raw_parts request_ptr request_len
      result ← do_attest ⦃host = linked_host⦄ (request_text (u.from_utf8 request_bytes))
      ptr ← as_ptr result
      pure (pack ptr (length result))

  -- What the compiled program exports.
  unfoldable pub guest_exports : ⦃j : Json⦄ → ⦃s : GuestJson⦄ → ⦃u : Utf8⦄ → Exports R
  guest_exports = record {
    memory = true;
    guest_alloc = some (λ len s. joined ((guest_alloc len >>= λ ptr. pure (i32 ptr)) s));
    attest = some (λ functions ptr len s.
        joined ((guest_attest functions ptr len >>= λ packed. pure (i64 packed)) s));
  }

-- ===== src/Examples/Hosted.antt =====
-- The transfer program in the executor at a concrete request.
use craftsec.Base.{
  ℕ, ◌≡◌, refl, true, some, [], ◌∷◌, ◌++◌, inl, Text, text, text_eq, length, replicate, as_u32,
  arith,
}
use craftsec.Base.Maps.{lookup}
use craftsec.Node.Executor.{value_at}
use craftsec.Node.Wasm.Memory.{
  Instance, HostFunctions, Outcome, returned, i32, write_at, pack, unpack, slice,
}
use craftsec.Node.Wasm.Calls.{joined, pure, ◌>>=◌}
use craftsec.Node.Wasm.Sql.{print_rows, run_statement, query}
use craftsec.Node.Wasm.Host.{
  level_str, host_log, return_text, read_text, query_result, host_sql_query, linked,
}
use craftsec.Node.Wasm.Host.Written.{HasRoom}
use craftsec.Node.Wasm.Execution.{with_request}
use craftsec.Guest.{
  AttestResult, with_defaults, valid_result, balance_of_rows, recipient_exists, log_transfer,
  query_balance, query_recipient, judge_balance, judge_recipient, or_panic, judge,
}
use craftsec.Guest.Memory.{
  call_sql_query, read_rows, log_info, call_log, guest_alloc, raw_parts, put_bytes, as_ptr,
  sql_query, linked_host, guest_exports,
}
use craftsec.Guest.Hosted.{IsPlaced, IsAnswer, sql_query_lem}
use craftsec.Guest.Verdict.{IsParsed, Reaches, execute_wasm_guest}
use craftsec.Examples.World.{sums, values, transfer_request}
use craftsec.Examples.WasmWorld.{
  raw_bob, bob, rows_text, printed, counting, one_row, ascii, answer_value, wire, bump,
  empty_instance, transfers, registry,
}

abbrev printed_request : Text
printed_request = text "{}"

-- The instance with the request's place taken.
abbrev allocated : Instance ℕ
allocated = record empty_instance { rest = 2 }

request_room : HasRoom guest_exports empty_instance (length printed_request) 0 allocated
unfolding guest_exports guest_alloc
request_room = record {
  allocator = λ len s. joined ((guest_alloc len >>= λ ptr. pure (i32 ptr)) s);
  exported = refl;
  allocated = refl;
  within = omega arith;
  small = omega arith;
}

abbrev start : Instance ℕ
start = with_request allocated 0 printed_request

abbrev functions : HostFunctions ℕ
functions = linked registry.databases guest_exports

found_module : lookup transfer_request.program_cid registry.modules ≡ some (1 ∷ [])
unfolding lookup text_eq
found_module = refl

abbrev rows : Text
rows = query_result registry.databases (text "balances") (text "S") (text "p")

rows_lem : rows ≡ rows_text
unfolding query_result query lookup text_eq run_statement print_rows
rows_lem = refl

-- A guest with the texts `balances`, `S` and `p` at the places 0, 8 and 9.
abbrev texts : Instance ℕ
texts = record { memory = text "balancesSp" ++ replicate 90 0; stderr = []; rest = 10 }

rows_room : HasRoom guest_exports texts (length rows) 10 (record texts { rest = 17 })
unfolding guest_exports guest_alloc query_result query lookup text_eq run_statement print_rows
rows_room = record {
  allocator = λ len s. joined ((guest_alloc len >>= λ ptr. pure (i32 ptr)) s);
  exported = refl;
  allocated = refl;
  within = omega arith;
  small = omega arith;
}

memory_exported : (guest_exports {R = ℕ}).memory ≡ true
unfolding guest_exports
memory_exported = refl

-- The texts of a query, put one after the other.
abbrev before : Instance ℕ
before = record { memory = replicate 100 0; stderr = []; rest = 0 }

texts_placed : IsPlaced (text "balances") (text "S") (text "p") before
unfolding as_ptr guest_alloc put_bytes slice as_u32
texts_placed = record {
  first = record before { memory = text "balances" ++ replicate 92 0; rest = 8 };
  second = record before { memory = text "balancesS" ++ replicate 91 0; rest = 9 };
  placed = texts;
  db_ptr = 0;
  sql_ptr = 8;
  params_ptr = 9;
  put_db = refl;
  put_sql = refl;
  put_params = refl;
  low_db = omega arith;
  low_sql = omega arith;
  low_params = omega arith;
  kept_db = refl;
  kept_sql = refl;
  utf8_db = refl;
  utf8_sql = refl;
  utf8_params = refl;
}

rows-IsAnswer : IsAnswer registry.databases (text "balances") (text "S") (text "p") rows
unfolding query_result lookup text_eq
rows-IsAnswer = inl (record { conn = 1 }, refl, refl)

sql_query_lem_example :
    (left : Instance ℕ) × (sql_query functions (text "balances") (text "S") (text "p") before
      ≡ (returned rows, left))
unfolding texts_placed
sql_query_lem_example =
    sql_query_lem registry.databases (text "balances") (text "S") (text "p") rows before
      (record texts { rest = 17 }) 10 texts_placed rows-IsAnswer rows_room refl

-- What the program makes of the request, and the instance that it leaves.
abbrev judged : Outcome AttestResult × Instance ℕ
judged = judge ⦃host = linked_host functions⦄ bob start

judged_lem : judged ≡ (returned (valid_result bob), judged.1)
unfolding judge judge_balance judge_recipient log_transfer query_balance query_recipient or_panic
    balance_of_rows recipient_exists text_eq with_defaults sql_query call_sql_query read_rows
    log_info call_log as_ptr guest_alloc put_bytes raw_parts linked host_sql_query host_log
    read_text slice return_text write_at query_result query lookup run_statement print_rows pack
    unpack as_u32 guest_exports level_str
judged_lem = refl

abbrev answered : Outcome ℕ × Instance ℕ
answered = as_ptr (text "valid") judged.1

put_answer : answered ≡ (returned 142, answered.1)
unfolding judge judge_balance judge_recipient log_transfer query_balance query_recipient or_panic
    balance_of_rows recipient_exists text_eq with_defaults sql_query call_sql_query read_rows
    log_info call_log as_ptr guest_alloc put_bytes raw_parts linked host_sql_query host_log
    read_text slice return_text write_at query_result query lookup run_statement print_rows pack
    unpack as_u32 guest_exports level_str
put_answer = refl

bob-IsParsed : IsParsed (valid_result bob) answer_value
unfolding value_at text_eq valid_result with_defaults
bob-IsParsed = record { status = refl; reason = refl; transaction = λ t e. cc }

execute_wasm_guest_example : Reaches raw_bob (valid_result bob) registry transfer_request
unfolding valid_result
execute_wasm_guest_example =
    execute_wasm_guest registry transfer_request (1 ∷ []) empty_instance allocated judged.1
      answered.1 printed_request raw_bob (valid_result bob) answer_value 0 142 found_module refl
      refl refl request_room refl refl judged_lem put_answer (omega arith) refl refl bob-IsParsed

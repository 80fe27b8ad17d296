-- ===== src/Examples/WasmWorld.antt =====
-- Concrete stand-ins for the other crates of the executor and of the transfer program. The database
-- has one row with the number 100, and the program's allocator takes one place after the other.
use Prim.Native.Nat.{◌+◌}
use craftsec.Base.{
  ℕ, ◌⊎◌, none, some, List, [], ◌∷◌, inl, inr, Text, text, text_eq, replicate, if◌then◌else◌,
}
use craftsec.Core.Types.{Transaction}
use craftsec.Node.Wasm.Memory.{Instance, returned}
use craftsec.Node.Wasm.Sql.{JsonKind, SqlValue, Rusqlite, Databases}
use craftsec.Node.Wasm.Host.{Utf8}
use craftsec.Node.Wasm.Run.{Wasmtime, WireJson, WasmProgramRegistry}
use craftsec.Guest.{RawRequest, TransferRequest, GuestJson, Host, with_defaults}
use craftsec.Guest.Memory.{Allocator, guest_exports}
use craftsec.Examples.World.{Value, null, str, number, field, sums, values}

abbrev pub raw_bob : RawRequest
raw_bob = record {
  requester = text "alice";
  program_cid = text "Qm_transfer";
  recipient = text "bob";
  amount = 50;
  seq = none;
  prev_hash = none;
  timestamp = some 1000;
  asset = none;
  user_sig = none;
}

abbrev pub bob : TransferRequest
bob = with_defaults raw_bob

abbrev pub rows_text : Text
rows_text = text "[[100]]"

instance abbrev pub printed : GuestJson
printed = record {
  from_str = λ t. inl raw_bob;
  rows = λ t. if text_eq t rows_text then some ((number 100 ∷ []) ∷ []) else none;
  to_string = λ r. r.status;
  to_array = λ t. t;
  display = λ n. n ∷ [];
}

-- A host that answers every query with the row, and counts the calls.
instance abbrev pub counting : Host ℕ
counting = record {
  sql_query = λ db sql params h. (returned rows_text, h + 1);
  log_info = λ message h. (returned tt, h + 1);
  panic_text = text "unreachable";
}

-- A connection counts its batches, and a batch fails if its text is empty.
abbrev pub run_batch : Text → ℕ → (Unit {0} ⊎ Text) × ℕ
run_batch [] n = (inr (text "nothing"), n)
run_batch (c ∷ sql) n = (inl tt, n + 1)

instance abbrev pub one_row : Rusqlite
one_row = record {
  Connection = ℕ;
  Statement = Text;
  I64 = ℕ;
  Number = ℕ;
  open_in_memory = 0;
  execute_batch = run_batch;
  prepare = λ conn sql. inl sql;
  query_map = λ conn stmt params. inl ((SqlValue.integer 100 ∷ []) ∷ []);
  params_from_str = λ t. some (str t ∷ []);
  kind = λ v. JsonKind.null;
  as_i64 = λ n. some n;
  as_f64 = λ n. some n;
  number_to_string = λ n. n ∷ [];
  of_i64 = λ n. number n;
  of_f64 = λ n. number n;
  of_str = λ t. str t;
  to_string = λ rows. inl rows_text;
}

abbrev pub no_databases : Databases
no_databases = []

instance abbrev pub ascii : Utf8
ascii = record { from_utf8 = λ bytes. inl bytes; from_utf8_lossy = λ bytes. bytes }

-- The transaction of the request.
abbrev pub sent : Transaction
sent = record {
  seq = bob.args.seq;
  prev_hash = bob.args.prev_hash;
  sender = bob.requester;
  recipient = bob.args.recipient;
  amount = bob.args.amount;
  asset = bob.args.asset;
  timestamp = bob.args.timestamp;
  program_cid = bob.program_cid;
  user_sig = bob.args.user_sig;
}

abbrev pub answer_value : Value
answer_value = field (text "status") (str (text "valid")) null

instance abbrev pub wire : WireJson
wire = record {
  request_to_string = λ requester cid args. inl (text "{}");
  from_str = λ t. inl answer_value;
  from_value = λ v. inl sent;
}

-- The guest's places are taken one after the other.
instance abbrev pub bump : Allocator ℕ
bump = record {
  allocate = λ len s. returned (s.rest, record s { rest = s.rest + len });
  out_of_bounds = text "out of bounds";
  unreachable = text "unreachable";
}

abbrev pub empty_instance : Instance ℕ
empty_instance = record { memory = replicate 400 0; stderr = []; rest = 0 }

instance abbrev pub transfers : Wasmtime
transfers = record {
  Module = List ℕ;
  Rest = ℕ;
  new_module = λ bytes. inl bytes;
  instantiate = λ compiled. inl empty_instance;
  exports = λ compiled. guest_exports;
}

abbrev pub registry : WasmProgramRegistry
registry = record {
  modules = (text "Qm_transfer", 1 ∷ []) ∷ [];
  databases = (text "balances", record { conn = 1 }) ∷ [];
}

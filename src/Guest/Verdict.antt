-- ===== src/Guest/Verdict.antt =====
-- The verdict of the transfer program, run by the executor, reaches the node.
use Prim.Native.Nat.{◌+◌}
use craftsec.Base.{
  ℕ, ◌≤◌, ◌<◌, ◌≡◌, refl, subst, sym, ap, some, inl, inr, ◌⊎◌, Text, text, text_eq, length,
  u32_bound, arith, ◌∙◌,
}
use craftsec.Base.Maps.{lookup}
use craftsec.Core.External.{Digests, Json, Value}
use craftsec.Core.Error.{ok}
use craftsec.Core.Types.{AttestationRequest, valid, invalid, Transaction}
use craftsec.Node.Executor.{value_at}
use craftsec.Node.Wasm.Memory.{Instance, HostFunctions, returned, i64, pack, slice}
use craftsec.Node.Wasm.Memory.Written.{unpack-pack, length-with_bytes}
use craftsec.Node.Wasm.Calls.{joined, pure, ◌>>=◌}
use craftsec.Node.Wasm.Sql.{Rusqlite}
use craftsec.Node.Wasm.Host.{Utf8, linked}
use craftsec.Node.Wasm.Host.Written.{HasRoom}
use craftsec.Node.Wasm.Run.{
  Wasmtime, WireJson, WasmProgramRegistry, read_status, read_answer, execute_wasm,
}
use craftsec.Node.Wasm.Execution.{with_request, execute_wasm_lem}
use craftsec.Guest.{
  RawRequest, TxOutput, AttestResult, GuestJson, with_defaults, valid_result, invalid_result, judge,
  judge_parsed, do_attest,
}
use craftsec.Guest.Results.{valid_result-IsOfRequest}
use craftsec.Guest.Cases.{judge_cases}
use craftsec.Guest.Memory.{Allocator, as_ptr, linked_host, guest_attest, guest_exports}
use craftsec.Guest.Hosted.{raw_parts_lem, as_ptr_lem}

module _ ⦃j : Json⦄ ⦃q : Rusqlite⦄ ⦃d : Digests⦄ ⦃u : Utf8⦄ ⦃w : Wasmtime⦄ ⦃a : Allocator w.Rest⦄
    ⦃p : GuestJson⦄ ⦃s : WireJson⦄ where
  -- The exported `attest` on a request in its memory: what `do_attest` makes of it, as the host
  -- reads it.
  guest_attest_lem :
      (functions : HostFunctions w.Rest) (start judged left : Instance w.Rest)
      (printed answer : Text) (value : Value) (ptr place : ℕ)
      → ptr + length printed < u32_bound
      → ptr + length printed ≤ length start.memory
      → slice start.memory ptr (length printed) ≡ ok printed
      → u.from_utf8 printed ≡ inl printed
      → do_attest ⦃host = linked_host functions⦄ printed start ≡ (returned answer, judged)
      → as_ptr answer judged ≡ (returned place, left)
      → place + length answer < u32_bound
      → u.from_utf8 answer ≡ inl answer
      → s.from_str answer ≡ inl value
      → (guest_attest functions ptr (length printed) start
          ≡ (returned (pack place (length answer)), left))
        × (read_answer (pack place (length answer)) left.memory
            ≡ read_status value (j.as_str (value_at value (text "status"))))
  unfolding guest_attest read_answer
  guest_attest_lem functions start judged left printed answer value ptr place small fits there utf8
        judgement put low utf8' parsed =
      (
        rw (raw_parts_lem start ptr (length printed) small fits there, utf8, judgement, put) refl,
        rw
            (
              unpack-pack place (length answer) (omega arith) (omega arith),
              as_ptr_lem judged left place answer put low,
              utf8',
              parsed,
            )
            refl,
      )

  -- The execution is what the parsed answer's status asks for.
  execute_wasm_answer :
      (r : WasmProgramRegistry) (request : AttestationRequest) (compiled : w.Module)
      (fresh allocated judged left : Instance w.Rest) (printed answer : Text) (value : Value)
      (ptr place : ℕ)
      → lookup request.program_cid r.modules ≡ some compiled
      → w.instantiate compiled ≡ inl fresh
      → w.exports compiled ≡ guest_exports
      → s.request_to_string request.requester request.program_cid request.args ≡ inl printed
      → HasRoom guest_exports fresh (length printed) ptr allocated
      → u.from_utf8 printed ≡ inl printed
      → do_attest ⦃host = linked_host (linked r.databases guest_exports)⦄ printed
          (with_request allocated ptr printed)
        ≡ (returned answer, judged)
      → as_ptr answer judged ≡ (returned place, left)
      → place + length answer < u32_bound
      → u.from_utf8 answer ≡ inl answer
      → s.from_str answer ≡ inl value
      → execute_wasm r request ≡ read_status value (j.as_str (value_at value (text "status")))
  unfolding guest_exports
  execute_wasm_answer r request compiled fresh allocated judged left printed answer value ptr place
        registered instantiated program printing room utf8 judgement put low utf8' parsed =
      let (there, ran) =
        execute_wasm_lem r request compiled fresh allocated printed ptr
          (λ functions at len start.
            joined ((guest_attest functions at len >>= λ packed. pure (i64 packed)) start))
          registered instantiated printing (rw program refl) (rw program room) (rw program refl) in
      let (attested, answered) =
        guest_attest_lem (linked r.databases guest_exports) (with_request allocated ptr printed)
          judged left printed answer value ptr place room.small
          (omega (arith, length-with_bytes allocated.memory printed ptr room.within, room.within))
          there utf8 judgement put low utf8' parsed in
      ran ∙ rw program (rw attested answered)

  -- The transaction with the fields of the program's output, as the derived parser matches them.
  abbrev pub wire_transaction : TxOutput → Transaction
  wire_transaction t = record {
    seq = t.seq;
    prev_hash = t.prev_hash;
    sender = t.sender;
    recipient = t.recipient;
    amount = t.amount;
    asset = t.asset;
    timestamp = t.timestamp;
    program_cid = t.program_cid;
    user_sig = t.user_sig;
  }

  -- The printed result has been parsed: the value has its status, its reason and its transaction.
  pub record IsParsed (r : AttestResult) (value : Value) : Type 0 where
    pub status : j.as_str (value_at value (text "status")) ≡ some r.status
    pub reason : j.as_str (value_at value (text "reason")) ≡ r.reason
    pub transaction :
        (t : TxOutput)
        → r.transaction ≡ some t
        → s.from_value (value_at value (text "transaction")) ≡ inl (wire_transaction t)

  -- What the node gets for a result of the program about a request.
  abbrev pub Reaches : RawRequest → AttestResult → WasmProgramRegistry → AttestationRequest → Type 0
  Reaches raw result r request =
      (result.status ≡ text "valid"
        → (tx : Transaction) × (execute_wasm r request ≡ ok (valid tx))
          × (tx.sender ≡ raw.requester)
          × (tx.recipient ≡ raw.recipient)
          × (tx.amount ≡ raw.amount)
          × (tx.program_cid ≡ raw.program_cid))
      × ((reason : Text)
          → result.reason ≡ some reason
          → execute_wasm r request ≡ ok (invalid reason))

  reaches :
      (r : WasmProgramRegistry) (request : AttestationRequest) (raw : RawRequest)
      (result : AttestResult) (value : Value)
      → (result ≡ valid_result (with_defaults raw))
        ⊎ ((reason : Text) × (result ≡ invalid_result reason))
      → IsParsed result value
      → execute_wasm r request ≡ read_status value (j.as_str (value_at value (text "status")))
      → Reaches raw result r request
  unfolding read_status text_eq valid_result invalid_result with_defaults
  reaches r request raw result value (inl same) parsed ran =
      let known = valid_result-IsOfRequest (with_defaults raw) in
      let fields : IsParsed (valid_result (with_defaults raw)) value =
        subst (λ res. IsParsed res value) same parsed in
      subst (λ res. Reaches raw res r request) (sym same)
        (
          (λ v. (
            wire_transaction known.tx,
            ran ∙ rw (fields.status, fields.transaction known.tx known.carried) refl,
            known.sender,
            known.recipient,
            known.amount,
            known.program_cid,
          )),
          λ reason e. cc,
        )
  reaches r request raw result value (inr (reason, same)) parsed ran =
      let fields : IsParsed (invalid_result reason) value =
        subst (λ res. IsParsed res value) same parsed in
      subst (λ res. Reaches raw res r request) (sym same)
        (
          (λ v. cc),
          λ given e.
              let equal : reason ≡ given = cc in
              ran ∙ rw (fields.status, fields.reason, equal) refl,
        )

  -- The transfer program registered at a node, where its allocator gives room for the printed
  -- request, the program parses the request and comes to a result, and the printed result is put
  -- into the memory below 2^32 and parsed by the node, both texts being valid UTF-8. If the result
  -- has the status `valid`, then the node gets a valid judgement whose transaction has the
  -- request's sender, recipient, amount and program. If the result has a reason, then the node gets
  -- the rejection with this reason.
  pub execute_wasm_guest :
      (r : WasmProgramRegistry) (request : AttestationRequest) (compiled : w.Module)
      (fresh allocated judged left : Instance w.Rest) (printed : Text) (raw : RawRequest)
      (result : AttestResult) (value : Value) (ptr place : ℕ)
      → lookup request.program_cid r.modules ≡ some compiled
      → w.instantiate compiled ≡ inl fresh
      → w.exports compiled ≡ guest_exports
      → s.request_to_string request.requester request.program_cid request.args ≡ inl printed
      → HasRoom guest_exports fresh (length printed) ptr allocated
      → u.from_utf8 printed ≡ inl printed
      → p.from_str printed ≡ inl raw
      → judge ⦃host = linked_host (linked r.databases guest_exports)⦄
          (with_defaults raw)
          (with_request allocated ptr printed)
        ≡ (returned result, judged)
      → as_ptr (p.to_string result) judged ≡ (returned place, left)
      → place + length (p.to_string result) < u32_bound
      → u.from_utf8 (p.to_string result) ≡ inl (p.to_string result)
      → s.from_str (p.to_string result) ≡ inl value
      → IsParsed result value
      → Reaches raw result r request
  unfolding do_attest judge_parsed
  execute_wasm_guest r request compiled fresh allocated judged left printed raw result value ptr
        place registered instantiated program printing room utf8 read judgement put low utf8' parsed
        fields =
      reaches r request raw result value
        (judge_cases ⦃host = linked_host (linked r.databases guest_exports)⦄ (with_defaults raw)
          (with_request allocated ptr printed) result (ap (λ o. o.0) judgement))
        fields
        (execute_wasm_answer r request compiled fresh allocated judged left printed
          (p.to_string result) value ptr place registered instantiated program printing room utf8
          (rw (read, judgement) refl) put low utf8' parsed)

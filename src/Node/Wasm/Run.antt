-- ===== src/Node/Wasm/Run.antt =====
-- crates/node/src/wasm_executor.rs: the registry, and the execution of a request from the module's
-- instance to the reading of the answer.
use craftsec.Base.{
  ℕ, Option, none, some, List, [], ◌++◌, ◌⊎◌, inl, inr, Text, text, text_eq, length, as_u32,
  if◌then◌else◌,
}
use craftsec.Base.Maps.{lookup, insert}
use craftsec.Core.External.{Digests, Json, Value}
use craftsec.Core.Error.{Result, ok, err, program_error, serialization_error, ok_or, ◌>>=◌, ◌>>◌}
use craftsec.Core.Types.{AttestationRequest, AttestationResult, valid, invalid, Transaction}
use craftsec.Node.Executor.{unwrap_or, value_at}
use craftsec.Node.Node.{ProgramExecutor}
use craftsec.Node.Wasm.Memory.{
  Instance, Exports, unwrap_i32, unwrap_i64, map_err, map_trap, unpack, slice, write_at,
}
use craftsec.Node.Wasm.Sql.{Rusqlite, Databases, setup}
use craftsec.Node.Wasm.Host.{Utf8, linked}

-- wasmtime: a module and its compilation, and an instance of it with its exports. The linker takes
-- functions of distinct names without an error.
pub record Wasmtime : Type 1 where
  pub Module : Type 0
  pub Rest : Type 0
  pub new_module : List ℕ → Module ⊎ Text
  pub instantiate : Module → Instance Rest ⊎ Text
  pub exports : Module → Exports Rest

module _ ⦃j : Json⦄ where
  -- The printing of `json!({"requester", "program_cid", "args"})`, and the parsing of an answer.
  pub record WireJson : Type 0 where
    pub request_to_string : Text → Text → Value → Text ⊎ Text
    pub from_str : Text → Value ⊎ Text
    pub from_value : Value → Transaction ⊎ Text

  module _ ⦃q : Rusqlite⦄ ⦃w : Wasmtime⦄ where
    pub record WasmProgramRegistry : Type 0 where
      pub modules : List (Text × w.Module)
      pub databases : Databases

    unfoldable pub new_wasm_registry : WasmProgramRegistry
    new_wasm_registry = record { modules = []; databases = [] }

    -- The compiled module is inserted, or the error is returned.
    unfoldable pub register_compiled :
        WasmProgramRegistry → Text → w.Module ⊎ Text → Result (Unit {0}) × WasmProgramRegistry
    register_compiled r cid (inl compiled) =
        (ok tt, record r { modules = insert cid compiled r.modules })
    register_compiled r cid (inr e) =
        (err (program_error (text "failed to compile WASM: " ++ e)), r)

    unfoldable pub register_wasm :
        WasmProgramRegistry → Text → List ℕ → Result (Unit {0}) × WasmProgramRegistry
    register_wasm r cid wasm_bytes = register_compiled r cid (w.new_module wasm_bytes)

    unfoldable pub setup_database :
        WasmProgramRegistry → Text → Text → Result (Unit {0}) × WasmProgramRegistry
    setup_database r name sql =
        let (result, databases) = setup r.databases name sql in
        (result, record r { databases = databases })

  module _ ⦃s : WireJson⦄ ⦃u : Utf8⦄ where
    -- The answer's status, and what it asks for.
    unfoldable pub read_status : Value → Option Text → Result AttestationResult
    read_status result none = err (program_error (text "invalid result status"))
    read_status result (some status) =
        if text_eq status (text "valid")
        then (map_err (text "invalid transaction")
              (s.from_value (value_at result (text "transaction")))
            >>= λ tx. ok (valid tx))
        else if text_eq status (text "invalid")
        then ok (invalid (unwrap_or (j.as_str (value_at result (text "reason"))) (text "unknown")))
        else err (program_error (text "invalid result status"))

    -- From the packed result on.
    unfoldable pub read_answer : ℕ → List ℕ → Result AttestationResult
    read_answer packed memory = do
      let (result_ptr, result_len) = unpack packed
      result_bytes ← slice memory result_ptr result_len
      result_str ← map_err (text "invalid UTF-8") (u.from_utf8 result_bytes)
      result ← map_err (text "invalid JSON") (s.from_str result_str)
      read_status result (j.as_str (value_at result (text "status")))

    serialized : Text ⊎ Text → Result Text
    serialized (inl request_json) = ok request_json
    serialized (inr e) = err (serialization_error e)

    unfoldable pub request_json : AttestationRequest → Result Text
    unfolding serialized
    request_json request =
        serialized (s.request_to_string request.requester request.program_cid request.args)

    module _ ⦃q : Rusqlite⦄ ⦃d : Digests⦄ ⦃w : Wasmtime⦄ where
      exported_memory : Exports w.Rest → Result (Unit {0})
      exported_memory guest =
          if guest.memory then ok tt else err (program_error (text "no memory export"))

      -- Allocation of a place in the guest, and the writing of the request there.
      unfoldable pub write_request :
          Exports w.Rest → List ℕ → Instance w.Rest → Result (ℕ × Instance w.Rest)
      unfolding exported_memory
      write_request guest request_bytes instance' = do
        guest_alloc ← ok_or guest.guest_alloc (program_error (text "no guest_alloc export"))
        r ←
            map_trap (text "guest_alloc failed")
              (guest_alloc (as_u32 (length request_bytes)) instance')
        given ← unwrap_i32 r.0
        let request_ptr = as_u32 given
        exported_memory guest
        written ← write_at r.1.memory request_ptr (length request_bytes) request_bytes
        ok (request_ptr, record r.1 { memory = written })

      -- The call of `attest`, and its answer.
      unfoldable pub call_attest :
          Databases → Exports w.Rest → ℕ → ℕ → Instance w.Rest → Result AttestationResult
      call_attest databases guest request_ptr request_len s' = do
        attest ← ok_or guest.attest (program_error (text "no 'attest' export"))
        r ←
            map_trap (text "WASM execution failed")
              (attest (linked databases guest) request_ptr (as_u32 request_len) s')
        packed ← unwrap_i64 r.0
        read_answer packed r.1.memory

      -- What runs for a module.
      unfoldable pub run_module :
          w.Module → Databases → AttestationRequest → Result AttestationResult
      run_module compiled databases request = do
        instance' ← map_err (text "instantiation failed") (w.instantiate compiled)
        request_bytes ← request_json request
        r ← write_request (w.exports compiled) request_bytes instance'
        call_attest databases (w.exports compiled) r.0 (length request_bytes) r.1

      unfoldable pub execute_wasm :
          WasmProgramRegistry → AttestationRequest → Result AttestationResult
      execute_wasm r request = do
        compiled ←
            ok_or (lookup request.program_cid r.modules)
              (program_error (text "unknown program CID: " ++ request.program_cid))
        run_module compiled r.databases request

      instance abbrev pub wasm_executor : ProgramExecutor WasmProgramRegistry
      wasm_executor = record { run = execute_wasm }

-- ===== src/Node/Wasm/Registry.antt =====
-- Registration of modules, and the execution that follows it.
use craftsec.Base.{
  ℕ, ◌≡◌, refl, Bool-cases, inl, inr, List, Text, text, text_eq, ◌++◌, if◌then◌else◌,
}
use craftsec.Base.Maps.{lookup-insert}
use craftsec.Core.External.{Digests, Json}
use craftsec.Core.Error.{ok, err, program_error}
use craftsec.Core.Types.{AttestationRequest}
use craftsec.Node.Wasm.Sql.{Rusqlite}
use craftsec.Node.Wasm.Host.{Utf8}
use craftsec.Node.Wasm.Run.{
  Wasmtime, WireJson, WasmProgramRegistry, register_compiled, register_wasm, run_module,
  execute_wasm,
}

module _ ⦃j : Json⦄ ⦃s : WireJson⦄ ⦃u : Utf8⦄ ⦃q : Rusqlite⦄ ⦃d : Digests⦄ ⦃w : Wasmtime⦄ where
  -- Bytes that compile are registered: requests for the program run the new module, and all others
  -- run as before. Bytes that do not compile are an error, and the registry stays.
  pub register_wasm_cases :
      (r : WasmProgramRegistry) (cid : Text) (wasm_bytes : List ℕ) (request : AttestationRequest)
      → ((compiled : w.Module)
          → w.new_module wasm_bytes ≡ inl compiled
          → ((register_wasm r cid wasm_bytes).0 ≡ ok tt)
            × (execute_wasm (register_wasm r cid wasm_bytes).1 request ≡ (
                if text_eq cid request.program_cid
                then run_module compiled r.databases request
                else execute_wasm r request)))
        × ((e : Text)
            → w.new_module wasm_bytes ≡ inr e
            → register_wasm r cid wasm_bytes
              ≡ (err (program_error (text "failed to compile WASM: " ++ e)), r))
  unfolding register_wasm register_compiled execute_wasm
  register_wasm_cases r cid wasm_bytes request = (
    (λ compiled h. (
      rw h refl,
      elim (Bool-cases (text_eq cid request.program_cid)) [
        | inl same ↦ rw (h, lookup-insert cid request.program_cid compiled r.modules, same) refl
        | inr other ↦ rw (h, lookup-insert cid request.program_cid compiled r.modules, other) refl
      ],
    )),
    λ e h. rw h refl,
  )

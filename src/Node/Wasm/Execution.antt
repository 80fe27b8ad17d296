-- ===== src/Node/Wasm/Execution.antt =====
-- A request from the registry to the guest's `attest`, and how an execution fails.
use Prim.Native.Nat.{◌+◌}
use craftsec.Base.{
  ℕ, ◌≤◌, ◌<◌, ◌≡◌, refl, true, false, some, none, inl, inr, Text, text, ◌++◌, length, as_u32,
  arith,
}
use craftsec.Base.Maps.{lookup}
use craftsec.Core.External.{Digests, Json}
use craftsec.Core.Error.{ok, err, panic, program_error, serialization_error, ◌>>=◌}
use craftsec.Core.Types.{AttestationRequest}
use craftsec.Node.Wasm.Memory.{
  Instance, HostFunctions, Outcome, returned, Val, i32, unwrap_i64, trapped, map_trap, slice,
}
use craftsec.Node.Wasm.Memory.Written.{
  with_bytes, write_at_fits, write_at_outside, slice-with_bytes, as_u32_small,
}
use craftsec.Node.Wasm.Sql.{Rusqlite}
use craftsec.Node.Wasm.Host.{Utf8, linked}
use craftsec.Node.Wasm.Host.Written.{HasRoom}
use craftsec.Node.Wasm.Run.{
  Wasmtime, WireJson, WasmProgramRegistry, request_json, write_request, call_attest, read_answer,
  run_module, execute_wasm,
}

-- The instance with a printed request in its memory.
abbrev pub with_request : {R : Type 0} → Instance R → ℕ → Text → Instance R
with_request allocated ptr printed = record allocated {
  memory = with_bytes allocated.memory ptr printed;
}

module _ ⦃j : Json⦄ ⦃s : WireJson⦄ ⦃u : Utf8⦄ ⦃q : Rusqlite⦄ ⦃d : Digests⦄ ⦃w : Wasmtime⦄ where
  -- If the program of a request is registered and its module can be instantiated, exports its
  -- memory, an allocator that gives room for the printed request, and `attest`, then `attest` runs
  -- with the host's functions over the registry's databases, on a pointer and a length at which
  -- the guest's memory holds the printed request; a trap is an error, and the answer is read from
  -- the memory that the run leaves.
  pub execute_wasm_lem :
      (r : WasmProgramRegistry) (request : AttestationRequest) (compiled : w.Module)
      (fresh allocated : Instance w.Rest) (printed : Text) (ptr : ℕ)
      (attest : HostFunctions w.Rest → ℕ → ℕ → Instance w.Rest → Outcome (Val × Instance w.Rest))
      → lookup request.program_cid r.modules ≡ some compiled
      → w.instantiate compiled ≡ inl fresh
      → s.request_to_string request.requester request.program_cid request.args ≡ inl printed
      → (w.exports compiled).memory ≡ true
      → HasRoom (w.exports compiled) fresh (length printed) ptr allocated
      → (w.exports compiled).attest ≡ some attest
      → let start = with_request allocated ptr printed in
        (slice start.memory ptr (length printed) ≡ ok printed)
        × (execute_wasm r request ≡ (
            map_trap
              (text "WASM execution failed")
              (attest (linked r.databases (w.exports compiled)) ptr (length printed) start)
            >>= λ p. unwrap_i64 p.0 >>= λ packed. read_answer packed p.1.memory))
  unfolding execute_wasm run_module request_json write_request call_attest
  execute_wasm_lem r request compiled fresh allocated printed ptr attest registered instantiated
        printing exported room runs =
      (
        slice-with_bytes allocated.memory printed ptr room.within room.small,
        rw
            (
              registered,
              instantiated,
              printing,
              room.exported,
              as_u32_small (length printed) (omega (arith, room.small)),
              room.allocated,
              as_u32_small ptr (omega (arith, room.small)),
              exported,
              write_at_fits allocated.memory printed ptr room.within,
              runs,
            )
            refl,
      )

  -- How the execution of a registered program fails before its `attest` runs: a module that cannot
  -- be instantiated, a request that cannot be printed, and an allocator, a memory or an `attest`
  -- that is not exported, or an allocator that traps, are errors. An allocator that gives a place
  -- with no room for the request in the memory makes the host panic.
  pub execute_wasm_errors :
      (r : WasmProgramRegistry) (request : AttestationRequest) (compiled : w.Module)
      (fresh : Instance w.Rest) (printed : Text)
      → lookup request.program_cid r.modules ≡ some compiled
      → ((e : Text)
          → w.instantiate compiled ≡ inr e
          → execute_wasm r request ≡ err (program_error (text "instantiation failed: " ++ e)))
        × (w.instantiate compiled ≡ inl fresh
            → ((e : Text)
                → s.request_to_string request.requester request.program_cid request.args ≡ inr e
                → execute_wasm r request ≡ err (serialization_error e))
              × (s.request_to_string request.requester request.program_cid request.args
                    ≡ inl printed
                  → ((w.exports compiled).guest_alloc ≡ none
                      → execute_wasm r request ≡ err (program_error (text "no guest_alloc export")))
                    × ((allocator : ℕ → Instance w.Rest → Outcome (Val × Instance w.Rest))
                          (e : Text)
                        → (w.exports compiled).guest_alloc ≡ some allocator
                        → allocator (as_u32 (length printed)) fresh ≡ trapped e
                        → execute_wasm r request
                          ≡ err (program_error (text "guest_alloc failed: " ++ e)))
                    × ((allocator : ℕ → Instance w.Rest → Outcome (Val × Instance w.Rest)) (ptr : ℕ)
                          (allocated : Instance w.Rest)
                        → (w.exports compiled).guest_alloc ≡ some allocator
                        → allocator (as_u32 (length printed)) fresh ≡ returned (i32 ptr, allocated)
                        → ((w.exports compiled).memory ≡ false
                            → execute_wasm r request
                              ≡ err (program_error (text "no memory export")))
                          × ((w.exports compiled).memory ≡ true
                              → length allocated.memory < as_u32 ptr + length printed
                              → execute_wasm r request ≡ panic)
                          × ((w.exports compiled).memory ≡ true
                              → as_u32 ptr + length printed ≤ length allocated.memory
                              → (w.exports compiled).attest ≡ none
                              → execute_wasm r request
                                ≡ err (program_error (text "no 'attest' export"))))))
  unfolding execute_wasm run_module request_json write_request call_attest
  execute_wasm_errors r request compiled fresh printed registered = (
    (λ e instantiated. rw (registered, instantiated) refl),
    λ instantiated. (
      (λ e unprinted. rw (registered, instantiated, unprinted) refl),
      λ printing. (
        (λ missing. rw (registered, instantiated, printing, missing) refl),
        (λ allocator e exported trap. rw (registered, instantiated, printing, exported, trap) refl),
        λ allocator ptr allocated exported done. (
          (λ hidden. rw (registered, instantiated, printing, exported, done, hidden) refl),
          (λ shown outside.
              rw
                (
                  registered,
                  instantiated,
                  printing,
                  exported,
                  done,
                  shown,
                  write_at_outside allocated.memory printed (as_u32 ptr) outside,
                )
                refl),
          λ shown inside missing.
              rw
                (
                  registered,
                  instantiated,
                  printing,
                  exported,
                  done,
                  shown,
                  write_at_fits allocated.memory printed (as_u32 ptr) inside,
                  missing,
                )
                refl,
        ),
      ),
    ),
  )

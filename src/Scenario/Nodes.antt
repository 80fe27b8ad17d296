-- ===== src/Scenario/Nodes.antt =====
-- crates/node/src/node.rs, tests: nodes of a key generation attest in two rounds, also after a
-- migration. The request, the signers and the programs are arguments.
pub mod Attested
pub mod Migrated
use craftsec.Base.{ℕ, zero, suc, Bool, true, false, List, [], ◌∷◌, map, Text, text, if◌then◌else◌}
use craftsec.Curve.{Curve}
use craftsec.Core.External.{Digests, RngCore, State, Json}
use craftsec.Core.Error.{Result, ok, err, panic, index, unwrap, unwrap_ok, traverse, ◌>>=◌, ◌>>◌}
use craftsec.Core.Types.{
  AttestationRequest, AttestationResult, valid, invalid, Serde, signing_bytes, KeyShare,
}
use craftsec.Signing.Frost.{
  SigningNonce, SigningCommitment, PartialSignature, ThresholdSignature, aggregate, verify,
}
use craftsec.Node.Executor.{ProgramRegistry, new_registry, register, transfer_validator}
use craftsec.Node.Node.{
  CraftSecNode, NodeResponse, NodeSignature, ProgramExecutor, registry_executor, new_node,
  register_key, is_frozen, sign, sign_for_program, migrate_program, process_request,
}
use craftsec.Scenario.Signing.{generate}

-- `assert!`.
abbrev pub assert : Bool → Result (Unit {0})
assert true = ok tt
assert false = panic

abbrev pub is_err : {A : Type 0} → Result A → Result Bool
is_err (ok a) = ok false
is_err (err e) = ok true
is_err panic = panic

-- A registry with the transfer program.
abbrev pub transfers_at : ⦃j : Json⦄ → Text → ProgramRegistry
transfers_at cid = register new_registry cid transfer_validator

module _ ⦃c : Curve⦄ ⦃j : Json⦄ where
  -- `assert!(matches!(resp.result, AttestationResult::Valid(_)))`.
  abbrev pub assert_valid : AttestationResult → Result (Unit {0})
  assert_valid (valid tx) = ok tt
  assert_valid (invalid reason) = panic

  -- The message that the first response is about.
  abbrev pub message_of : ⦃s : Serde⦄ → AttestationResult → Result (List ℕ)
  message_of (valid tx) = ok (signing_bytes tx)
  message_of (invalid reason) = panic

  module _ {E : Type 0} where
    -- Round 1 at the selected nodes, each response being checked.
    unfoldable pub respond_all :
        ⦃x : ProgramExecutor E⦄
        → ⦃g : RngCore⦄ → (AttestationResult → Result (Unit {0}))
        → List (CraftSecNode E)
        → AttestationRequest
        → List ℕ
        → State
        → Result (List NodeResponse × State)
    respond_all check nodes request [] rng = ok ([], rng)
    respond_all check nodes request (i ∷ signers) rng = do
      node ← index nodes i
      resp ← unwrap_ok (process_request node request rng)
      check resp.0.result
      rest ← respond_all check nodes request signers resp.1
      ok (resp.0 ∷ rest.0, rest.1)

    -- Round 2, by the given way to sign.
    unfoldable pub sign_all :
        (CraftSecNode E → SigningNonce → Result NodeSignature)
        → List (CraftSecNode E)
        → List NodeResponse
        → ℕ
        → List ℕ
        → Result (List PartialSignature)
    sign_all sign_at nodes responses idx [] = ok []
    sign_all sign_at nodes responses idx (i ∷ signers) = do
      resp ← index responses idx
      nonce ← unwrap resp.nonce
      node ← index nodes i
      sig ← unwrap_ok (sign_at node nonce)
      rest ← sign_all sign_at nodes responses (suc idx) signers
      ok (sig.partial ∷ rest)

    -- Both rounds: the message and the aggregate.
    unfoldable pub attest_nodes :
        ⦃x : ProgramExecutor E⦄
        → ⦃g : RngCore⦄ → ⦃d : Digests⦄ → ⦃s : Serde⦄ → (AttestationResult → Result (Unit {0}))
        → (CraftSecNode E → SigningNonce → List ℕ → List SigningCommitment → Result NodeSignature)
        → List (CraftSecNode E)
        → AttestationRequest
        → List ℕ
        → State
        → Result (List ℕ × ThresholdSignature)
    attest_nodes check sign_by nodes request signers rng = do
      responses ← respond_all check nodes request signers rng
      first ← index responses.0 0
      message ← message_of first.result
      commitments ← traverse (λ r. unwrap r.commitment) responses.0
      partials ←
          sign_all (λ node nonce. sign_by node nonce message commitments) nodes responses.0 zero
            signers
      ok (message, aggregate message commitments partials)

  -- Every node has the key for the first program, and migrates to the second. Its default key share
  -- is an argument, in the test the same share.
  unfoldable pub migrated_nodes :
      (KeyShare → KeyShare) → Text → Text → List KeyShare → List (CraftSecNode ProgramRegistry)
  migrated_nodes own v1 v2 key_shares =
      map
        (λ ks.
          migrate_program
            (register_key
              (new_node (own ks)
                (register (register new_registry v1 transfer_validator) v2 transfer_validator))
              v1 ks)
            v1 v2)
        key_shares

  module _ ⦃g : RngCore⦄ where
    unfoldable pub setup_nodes :
        ℕ → ℕ → State → Result (List (CraftSecNode ProgramRegistry) × State)
    setup_nodes t n rng = do
      dealt ← generate t n rng
      ok (map (λ ks. new_node ks (transfers_at (text "Qm_transfer"))) dealt.1, dealt.2)

    module _ ⦃d : Digests⦄ ⦃s : Serde⦄ where
      unfoldable pub end_to_end_attestation :
          ℕ → ℕ → AttestationRequest → List ℕ → State → Result (Unit {0})
      end_to_end_attestation t n request signers rng = do
        made ← setup_nodes t n rng
        signed ← attest_nodes assert_valid sign made.0 request signers made.1
        first ← index made.0 0
        unwrap_ok (verify signed.1 first.key_share.group_public_key signed.0)

      unfoldable pub migrate_program_transfers_key :
          ℕ
          → ℕ
          → (KeyShare → KeyShare)
          → Text
          → Text
          → AttestationRequest
          → AttestationRequest
          → List ℕ
          → State
          → Result (Unit {0})
      migrate_program_transfers_key t n own v1 v2 req_v1 req_v2 signers rng = do
        dealt ← generate t n rng
        first_share ← index dealt.1 0
        let nodes = migrated_nodes own v1 v2 dealt.1
        first ← index nodes 0
        assert (is_frozen first v1)
        refused ← is_err (process_request first req_v1 dealt.2)
        assert refused
        signed ←
            attest_nodes (λ result. ok tt) (λ node. sign_for_program node v2) nodes req_v2 signers
              dealt.2
        unwrap_ok (verify signed.1 first_share.group_public_key signed.0)

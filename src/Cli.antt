-- ===== src/Cli.antt =====
-- crates/cli/src/main.rs: what the commands compute. The parsing of the command line, the parsing
-- and the printing of JSON and the output are not modelled; the request's identifier is an argument.
pub mod Attests
pub mod Output
pub mod Printed
use craftsec.Base.{ℕ, List, [], ◌∷◌, ◌++◌, map, Text, text, take, length, leb, if◌then◌else◌}
use craftsec.Curve.{Curve, Point}
use craftsec.Core.External.{Digests, RngCore, State, Json, Value, sha256, hex_encode}
use craftsec.Core.Error.{Result, ok, err, panic, traverse, unwrap_ok, ◌>>=◌}
use craftsec.Core.Types.{AttestationRequest, Serde, new_config, KeyShare}
use craftsec.Dkg.Pdk.{derive_key}
use craftsec.Node.Executor.{ProgramRegistry, new_registry, register, transfer_validator}
use craftsec.Node.Node.{CraftSecNode, registry_executor, new_node}
use craftsec.Client.Attest.{AttestedTransaction, CraftSecClient, new_client, attest}
use craftsec.Client.Transport.{LocalTransport, new_local, local_transport}

-- `&s[..n]`, out of range a panic.
abbrev pub prefix : ℕ → Text → Result Text
prefix n s = if leb n (length s) then ok (take n s) else panic

pub data Commands : Type 0 where
  deploy : Text → Commands
  -- `program_cid` and `args_json`.
  attest_args : Text → Text → Commands
  keys : Text → Commands
  freeze : Text → Commands
  info : Text → Commands
  verify_receipt : Text → Commands

module _ ⦃j : Json⦄ where
  abbrev pub registry_for : Text → ProgramRegistry
  registry_for program_cid = register new_registry program_cid transfer_validator

  unfoldable pub cli_request : Text → Value → Text → AttestationRequest
  cli_request program_cid args request_id = record {
    program_cid = program_cid;
    requester = text "did:cli-user";
    args = args;
    request_id = request_id;
  }

module _ ⦃d : Digests⦄ where
  unfoldable pub compute_cid : List ℕ → Result Text
  compute_cid bytes = do short ← prefix 16 (hex_encode (sha256 bytes)); ok (text "Qm_" ++ short)

  module _ ⦃c : Curve⦄ where
    -- The configuration and the key that every command derives, with the seed.
    unfoldable pub program_key : Text → Text → Result (Point × List KeyShare)
    program_key program_cid seed = do
      config ← unwrap_ok (new_config 2 3)
      unwrap_ok (derive_key program_cid seed config)

    -- The CID, the key and the number of shares that `cmd_deploy` prints.
    unfoldable pub cmd_deploy : Text → Result (Text × Point × List KeyShare)
    cmd_deploy wasm_file = do
      cid ← compute_cid wasm_file
      key ← program_key cid (text "main")
      ok (cid, key.0, key.1)

    -- The keys that `cmd_keys` prints, in the order of the seeds.
    unfoldable pub cmd_keys : Text → Result (List Point)
    cmd_keys program_cid =
        traverse (λ seed. program_key program_cid seed >>= λ key. ok key.0)
          (text "main" ∷ text "escrow" ∷ text "treasury" ∷ [])

    module _ ⦃g : RngCore⦄ ⦃j : Json⦄ ⦃s : Serde⦄ where
      -- The attestation of `cmd_attest`, from the parsed arguments on.
      unfoldable pub cmd_attest : Text → Value → Text → State → Result AttestedTransaction
      cmd_attest program_cid args request_id rng = do
        key ← program_key program_cid (text "main")
        let nodes = map (λ ks. new_node ks (registry_for program_cid)) key.1
        let client = new_client (new_local nodes rng) key.0 2 3
        (attest client (cli_request program_cid args request_id)).0

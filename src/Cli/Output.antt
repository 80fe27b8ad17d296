-- ===== src/Cli/Output.antt =====
-- crates/cli/src/main.rs: the commands with what they print. The parsing of the command line (clap)
-- is not modelled; the random number of a request is an argument.
use craftsec.Base.{
  ℕ, List, [], ◌∷◌, ◌++◌, ◌⊎◌, inl, inr, Text, text, length, decimal, if◌then◌else◌,
}
use craftsec.Curve.{Curve, Point, Scalar}
use craftsec.Core.External.{Digests, RngCore, State, Json, Value, hex_encode}
use craftsec.Core.Error.{Result, ok, err, panic, ◌>>=◌}
use craftsec.Core.Error.Display.{display}
use craftsec.Core.Types.{Serde, Transaction}
use craftsec.Core.Receipt.{AttestationReceipt, ReceiptJson, from_json, verify_signatures}
use craftsec.Client.Attest.{AttestedTransaction}
use craftsec.Cli.{
  Commands, deploy, attest_args, keys, freeze, info, verify_receipt, program_key, cmd_deploy,
  cmd_keys, cmd_attest,
}

-- The UTF-8 bytes of a dash.
abbrev pub em_dash : Text
em_dash = 226 ∷ 128 ∷ 148 ∷ []

-- The lines on both streams, and the exit code.
pub record Output : Type 0 where
  pub stdout : List Text
  pub stderr : List Text
  pub code : ℕ

abbrev pub printed : List Text → Output
printed lines = record { stdout = lines; stderr = []; code = 0 }

-- `eprintln!` and `exit(1)`.
abbrev pub failed : Text → Output
failed line = record { stdout = []; stderr = line ∷ []; code = 1 }

unfoldable pub cmd_freeze : Text → Output
cmd_freeze program_cid = printed (
    (text "Program frozen: " ++ program_cid)
    ∷ text "  Future attestation requests will be rejected."
    ∷ [])

-- What is printed of a receipt, with the line of its status.
abbrev pub receipt_lines : AttestationReceipt → Text → List Text
receipt_lines r status =
    text "Receipt:"
    ∷ (text "  Program:    " ++ r.program_cid)
    ∷ (text "  Args Hash:  " ++ r.args_hash)
    ∷ (text "  Result Hash:" ++ r.result_hash)
    ∷ (text "  Timestamp:  " ++ decimal r.timestamp)
    ∷ (text "  Signatures: " ++ decimal (length r.node_signatures))
    ∷ status
    ∷ []

unfoldable pub receipt_output : Result AttestationReceipt → Result Output
receipt_output (ok r) = ok (
    printed (
      receipt_lines r (
        if verify_signatures r
        then text "  Status:     VALID"
        else text "  Status:     INVALID (no signatures)")))
receipt_output (err e) = ok (failed (text "Invalid receipt: " ++ display e))
receipt_output panic = panic

unfoldable pub cmd_verify_receipt : ⦃p : ReceiptJson⦄ → Text → Result Output
cmd_verify_receipt receipt_json = receipt_output (from_json receipt_json)

module _ ⦃d : Digests⦄ ⦃c : Curve⦄ where
  abbrev pub point_hex : Point → Text
  point_hex p = hex_encode (c.compress p)

  unfoldable pub deploy_output : Text → Result Output
  deploy_output wasm_file = do
    deployed ← cmd_deploy wasm_file
    ok (
        printed (
          text "Program deployed:"
          ∷ (text "  CID:        " ++ deployed.0)
          ∷ (text "  Public Key: " ++ point_hex deployed.1)
          ∷ text "  Threshold:  2-of-3"
          ∷ (text "  Shares:     " ++ (decimal (length deployed.2) ++ text " generated"))
          ∷ []))

  abbrev pub key_line : Text → Point → Text
  key_line seed gpk = text "  [" ++ (seed ++ (text "] " ++ point_hex gpk))

  key_lines : List Text → List Point → List Text
  key_lines [] points = []
  key_lines (seed ∷ seeds) [] = []
  key_lines (seed ∷ seeds) (gpk ∷ points) = key_line seed gpk ∷ key_lines seeds points

  unfoldable pub keys_output : Text → Result Output
  unfolding key_lines
  keys_output program_cid = do
    points ← cmd_keys program_cid
    ok (
        printed (
          (text "Derived keys for program " ++ (program_cid ++ text ":"))
          ∷ key_lines (text "main" ∷ text "escrow" ∷ text "treasury" ∷ []) points))

  unfoldable pub cmd_info : Text → Result Output
  cmd_info program_cid = do
    key ← program_key program_cid (text "main")
    ok (
        printed (
          text "Program Info:"
          ∷ (text "  CID:              " ++ program_cid)
          ∷ (text "  Public Key:       " ++ point_hex key.0)
          ∷ text "  Threshold:        2-of-3"
          ∷ text "  Status:           active"
          ∷ (text "  Attestation Count: 0 (stub " ++ (em_dash ++ text " no persistent state)"))
          ∷ []))

  module _ ⦃g : RngCore⦄ ⦃j : Json⦄ ⦃s : Serde⦄ where
    -- The parsing of the arguments, the printing of a transaction, and `Scalar::as_bytes`.
    pub record CliJson : Type 0 where
      pub from_str : Text → Value ⊎ Text
      pub to_string_pretty : Transaction → Text
      pub as_bytes : Scalar → List ℕ

    module _ ⦃p : CliJson⦄ where
      abbrev pub attest_lines : AttestedTransaction → List Text
      attest_lines attested =
          text "Attestation successful:"
          ∷ (text "  Transaction: " ++ p.to_string_pretty attested.transaction)
          ∷ (text "  Signature R: " ++ point_hex attested.signature.r)
          ∷ (text "  Signature s: " ++ hex_encode (p.as_bytes attested.signature.s))
          ∷ text "  Verified:    true"
          ∷ []

      unfoldable pub attest_output : Result AttestedTransaction → Result Output
      attest_output (ok attested) = ok (printed (attest_lines attested))
      attest_output (err e) = ok (failed (text "Attestation failed: " ++ display e))
      attest_output panic = panic

      unfoldable pub attest_parsed : Text → Text → State → Value ⊎ Text → Result Output
      attest_parsed program_cid request_id rng (inl args) =
          attest_output (cmd_attest program_cid args request_id rng)
      attest_parsed program_cid request_id rng (inr e) = ok (failed (text "Invalid JSON: " ++ e))

      -- `main`, with a random `u32` for the request's identifier.
      unfoldable pub run_command : ⦃r : ReceiptJson⦄ → ℕ → State → Commands → Result Output
      run_command random rng (deploy wasm_file) = deploy_output wasm_file
      run_command random rng (attest_args program_cid args_json) =
          attest_parsed program_cid (text "cli-" ++ decimal random) rng (p.from_str args_json)
      run_command random rng (keys program_cid) = keys_output program_cid
      run_command random rng (freeze program_cid) = ok (cmd_freeze program_cid)
      run_command random rng (info program_cid) = cmd_info program_cid
      run_command random rng (verify_receipt receipt) = cmd_verify_receipt receipt

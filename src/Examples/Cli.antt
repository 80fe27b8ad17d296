-- ===== src/Examples/Cli.antt =====
-- The commands at concrete inputs.
use craftsec.Base.{
  ℕ, ◌≡◌, refl, true, inl, inr, [], ◌∷◌, ◌++◌, Text, text, text_eq, decimal, length, arith,
}
use craftsec.Curve.Small.{mod_seven}
use craftsec.Core.Error.{ok}
use craftsec.Core.Types.{valid}
use craftsec.Core.Receipt.{AttestationReceipt, is_empty, to_json, add_signature}
use craftsec.Node.Executor.{transfer_validator, transfer_transaction, value_at, get_or}
use craftsec.Client.Attest.{AttestedTransaction, verify_attested}
use craftsec.Cli.{attest_args, compute_cid, cli_request}
use craftsec.Cli.Output.{
  CliJson, printed, failed, point_hex, key_line, em_dash, deploy_output, keys_output, cmd_info,
  receipt_lines, attest_lines, cmd_verify_receipt, run_command,
}
use craftsec.Cli.Printed.{
  seed_key, deploy_info_keys, cmd_verify_receipt_decides, run_command_attest,
}
use craftsec.Examples.World.{sums, counter, values, recipient_and_amount, transfer_args}
use craftsec.Examples.ReceiptWire.{length_prefixed}

-- Arguments are always those of the transfer to Bob.
instance abbrev console : CliJson
console = record {
  from_str = λ t. inl transfer_args;
  to_string_pretty = λ tx. tx.recipient;
  as_bytes = λ s. [];
}

abbrev receipt : AttestationReceipt
receipt = record {
  program_cid = text "Qm_transfer";
  args_hash = [];
  result_hash = [];
  timestamp = 1000;
  node_signatures = [];
}

cli_request-accepted :
    transfer_validator (cli_request (text "Qm_transfer") transfer_args (text "cli-" ++ decimal 1))
    ≡ ok (
        valid (
          transfer_transaction
            (cli_request (text "Qm_transfer") transfer_args (text "cli-" ++ decimal 1))
            (text "bob")
            50))
unfolding cli_request transfer_validator transfer_transaction value_at get_or text_eq
cli_request-accepted = refl

run_command_attest_example :
    (console.from_str (text "{}") ≡ inl transfer_args
      → transfer_validator
          (cli_request (text "Qm_transfer") transfer_args (text "cli-" ++ decimal 1))
        ≡ ok (
            valid (
              transfer_transaction
                (cli_request (text "Qm_transfer") transfer_args (text "cli-" ++ decimal 1))
                (text "bob")
                50))
      → (a : AttestedTransaction) × (run_command 1 20 (attest_args (text "Qm_transfer") (text "{}"))
          ≡ ok (printed (attest_lines a)))
        × (verify_attested a ≡ ok tt)
        × (a.group_public_key ≡ seed_key (text "Qm_transfer") (text "main"))
        × (a.transaction
            ≡ transfer_transaction
                (cli_request (text "Qm_transfer") transfer_args (text "cli-" ++ decimal 1))
                (text "bob")
                50))
    × (console.from_str (text "{}") ≡ inr []
        → run_command 1 20 (attest_args (text "Qm_transfer") (text "{}"))
          ≡ ok (failed (text "Invalid JSON: " ++ [])))
run_command_attest_example =
    run_command_attest 1 20 (text "Qm_transfer") (text "{}") [] transfer_args
      (transfer_transaction
        (cli_request (text "Qm_transfer") transfer_args (text "cli-" ++ decimal 1)) (text "bob") 50)
      (omega arith)

cmd_verify_receipt_decides_example :
    (is_empty receipt.node_signatures ≡ true
      → cmd_verify_receipt (to_json receipt)
        ≡ ok (printed (receipt_lines receipt (text "  Status:     INVALID (no signatures)"))))
    × (let signed = add_signature receipt 1 (text "any") in
        cmd_verify_receipt (to_json signed)
        ≡ ok (printed (receipt_lines signed (text "  Status:     VALID"))))
    × (length_prefixed.from_str [] ≡ inr []
        → cmd_verify_receipt [] ≡ ok (failed (text "Invalid receipt: serialization error: " ++ [])))
cmd_verify_receipt_decides_example = cmd_verify_receipt_decides receipt 1 (text "any") [] []

deploy_info_keys_example :
    (cid : Text) × (compute_cid (text "transfer.wasm") ≡ ok cid)
    × (◌≡◌ {A = ℕ} (length cid) 19)
    × (deploy_output (text "transfer.wasm")
        ≡ ok (
            printed (
              text "Program deployed:"
              ∷ (text "  CID:        " ++ cid)
              ∷ (text "  Public Key: " ++ point_hex (seed_key cid (text "main")))
              ∷ text "  Threshold:  2-of-3"
              ∷ text "  Shares:     3 generated"
              ∷ [])))
    × (cmd_info cid
        ≡ ok (
            printed (
              text "Program Info:"
              ∷ (text "  CID:              " ++ cid)
              ∷ (text "  Public Key:       " ++ point_hex (seed_key cid (text "main")))
              ∷ text "  Threshold:        2-of-3"
              ∷ text "  Status:           active"
              ∷ (text "  Attestation Count: 0 (stub " ++ (em_dash ++ text " no persistent state)"))
              ∷ [])))
    × (keys_output cid
        ≡ ok (
            printed (
              (text "Derived keys for program " ++ (cid ++ text ":"))
              ∷ key_line (text "main") (seed_key cid (text "main"))
              ∷ key_line (text "escrow") (seed_key cid (text "escrow"))
              ∷ key_line (text "treasury") (seed_key cid (text "treasury"))
              ∷ [])))
deploy_info_keys_example = deploy_info_keys (text "transfer.wasm")

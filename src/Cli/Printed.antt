-- ===== src/Cli/Printed.antt =====
-- What the commands print agrees from one command to the next.
use craftsec.Base.{
  ℕ, ◌≡◌, ◌<◌, refl, inl, true, false, inr, ap, List, [], ◌∷◌, ◌++◌, length, Text, text, decimal,
}
use craftsec.Curve.{Curve, Point}
use craftsec.Core.External.{Digests, RngCore, State, Json, Value}
use craftsec.Core.Error.{ok, traverse}
use craftsec.Core.Error.Display.{display}
use craftsec.Core.Types.{Serde, Transaction, valid}
use craftsec.Core.Receipt.{
  AttestationReceipt, ReceiptJson, add_signature, verify_signatures, is_empty, to_json, from_json,
}
use craftsec.Node.Executor.{transfer_validator}
use craftsec.Client.Attest.{AttestedTransaction, verify_attested}
use craftsec.Dkg.Sharing.{public_key}
use craftsec.Dkg.Pdk.{derive_polynomial}
use craftsec.Cli.{attest_args, compute_cid, cmd_deploy, cmd_keys, cli_request}
use craftsec.Cli.Attests.{compute_cid_total, cmd_attest_total, program_key-IsSharing}
use craftsec.Cli.Output.{
  printed, failed, point_hex, key_line, deploy_output, keys_output, cmd_info, receipt_lines,
  receipt_output, cmd_verify_receipt, CliJson, attest_lines, attest_parsed, attest_output,
  run_command, em_dash,
}

module _ ⦃d : Digests⦄ ⦃c : Curve⦄ where
  -- The public key that a program's seed stands for.
  abbrev pub seed_key : Text → Text → Point
  seed_key program_cid seed = public_key (derive_polynomial program_cid seed 2).coefficients

  keys_lem :
      (program_cid : Text)
      → cmd_keys program_cid
        ≡ ok (
            seed_key program_cid (text "main")
            ∷ seed_key program_cid (text "escrow")
            ∷ seed_key program_cid (text "treasury")
            ∷ [])
  unfolding cmd_keys traverse
  keys_lem program_cid =
      let (a, main, _, _) = program_key-IsSharing program_cid (text "main") in
      let (b, escrow, _, _) = program_key-IsSharing program_cid (text "escrow") in
      let (e, treasury, _, _) = program_key-IsSharing program_cid (text "treasury") in
      rw (main, escrow, treasury) refl

  -- What `deploy` prints, for any file name: the CID that it gives the program, of 19 characters,
  -- and the key of the program for the seed `main`, with three shares. With this CID, `info` prints
  -- the same key, and so does `keys` in its first line, with the keys of the two other seeds below.
  pub deploy_info_keys :
      (wasm_file : Text)
      → (cid : Text) × (compute_cid wasm_file ≡ ok cid)
        × (length cid ≡ 19)
        × (deploy_output wasm_file
            ≡ ok (
                printed (
                  text "Program deployed:"
                  ∷ (text "  CID:        " ++ cid)
                  ∷ (text "  Public Key: " ++ point_hex (seed_key cid (text "main")))
                  ∷ text "  Threshold:  2-of-3"
                  ∷ text "  Shares:     3 generated"
                  ∷ [])))
        × (cmd_info cid
            ≡ ok (
                printed (
                  text "Program Info:"
                  ∷ (text "  CID:              " ++ cid)
                  ∷ (text "  Public Key:       " ++ point_hex (seed_key cid (text "main")))
                  ∷ text "  Threshold:        2-of-3"
                  ∷ text "  Status:           active"
                  ∷ (text "  Attestation Count: 0 (stub "
                      ++ (em_dash ++ text " no persistent state)"))
                  ∷ [])))
        × (keys_output cid
            ≡ ok (
                printed (
                  (text "Derived keys for program " ++ (cid ++ text ":"))
                  ∷ key_line (text "main") (seed_key cid (text "main"))
                  ∷ key_line (text "escrow") (seed_key cid (text "escrow"))
                  ∷ key_line (text "treasury") (seed_key cid (text "treasury"))
                  ∷ [])))
  unfolding deploy_output cmd_deploy cmd_info keys_output decimal
  deploy_info_keys wasm_file =
      let (cid, named, size) = compute_cid_total wasm_file in
      let (shares, main, sharing, _) = program_key-IsSharing cid (text "main") in
      (
        cid,
        named,
        size,
        rw (named, main, ap length sharing) refl,
        rw main refl,
        rw (keys_lem cid) refl,
      )

is_empty-snoc : {A : Type 0} (xs : List A) (x : A) → is_empty (xs ++ x ∷ []) ≡ false
is_empty-snoc [] x = refl
is_empty-snoc (y ∷ xs) x = refl

module _ ⦃p : ReceiptJson⦄ where
  -- `verify-receipt` on the JSON of a receipt: without signatures it prints that the receipt is
  -- invalid, and once any text has been added as a signature it prints that the receipt is valid,
  -- both with the exit code 0. A text that cannot be parsed is an error with the exit code 1.
  pub cmd_verify_receipt_decides :
      (r : AttestationReceipt) (node_index : ℕ) (signature_hex json e : Text)
      → (is_empty r.node_signatures ≡ true
          → cmd_verify_receipt (to_json r)
            ≡ ok (printed (receipt_lines r (text "  Status:     INVALID (no signatures)"))))
        × (let signed = add_signature r node_index signature_hex in
            cmd_verify_receipt (to_json signed)
            ≡ ok (printed (receipt_lines signed (text "  Status:     VALID"))))
        × (p.from_str json ≡ inr e
            → cmd_verify_receipt json
              ≡ ok (failed (text "Invalid receipt: serialization error: " ++ e)))
  unfolding cmd_verify_receipt receipt_output from_json to_json verify_signatures add_signature
      display
  cmd_verify_receipt_decides r node_index signature_hex json e = (
    (λ none_yet. rw (p.from_str-to_string r, none_yet) refl),
    rw
        (
          p.from_str-to_string (add_signature r node_index signature_hex),
          is_empty-snoc r.node_signatures (node_index, signature_hex),
        )
        refl,
    λ unparsed. rw unparsed refl,
  )

module _ ⦃d : Digests⦄ ⦃c : Curve⦄ ⦃g : RngCore⦄ ⦃j : Json⦄ ⦃s : Serde⦄ ⦃p : CliJson⦄
    ⦃r : ReceiptJson⦄ where
  -- `attest` with JSON arguments that the transfer program accepts, over a group of order above 3:
  -- the command prints an attestation of that transaction which verifies under the key of the
  -- program for the seed `main`, and exits with the code 0. Arguments that are not JSON are an
  -- error with the exit code 1.
  pub run_command_attest :
      (random : ℕ) (rng : State) (program_cid args_json e : Text) (args : Value) (tx : Transaction)
      → 3 < c.order
      → (p.from_str args_json ≡ inl args
          → transfer_validator (cli_request program_cid args (text "cli-" ++ decimal random))
            ≡ ok (valid tx)
          → (a : AttestedTransaction) × (run_command random rng (attest_args program_cid args_json)
              ≡ ok (printed (attest_lines a)))
            × (verify_attested a ≡ ok tt)
            × (a.group_public_key ≡ seed_key program_cid (text "main"))
            × (a.transaction ≡ tx))
        × (p.from_str args_json ≡ inr e
            → run_command random rng (attest_args program_cid args_json)
              ≡ ok (failed (text "Invalid JSON: " ++ e)))
  unfolding run_command attest_parsed attest_output
  run_command_attest random rng program_cid args_json e args tx small = (
    (λ parsed accepted.
        let (a, done, verified, key, same) =
          cmd_attest_total program_cid (text "cli-" ++ decimal random) args rng tx small accepted in
        (a, rw (parsed, done) refl, verified, key, same)),
    λ unparsed. rw unparsed refl,
  )

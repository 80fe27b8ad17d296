-- ===== src/Examples/Wasm.antt =====
-- The executor's parts and the transfer program at concrete inputs.
use craftsec.Base.{ℕ, ◌≡◌, refl, true, false, List, [], ◌∷◌, Text, text, text_eq, arith}
use craftsec.Base.Maps.{lookup}
use craftsec.Core.Error.{panic}
use craftsec.Node.Wasm.Memory.{returned, pack}
use craftsec.Node.Wasm.Sql.Setup.{
  setup_all, batches_for, connection_of, connection_after, setup_all-lookup,
}
use craftsec.Node.Wasm.Run.{read_answer}
use craftsec.Node.Wasm.Answer.{read_answer_out_of_range}
use craftsec.Guest.{
  with_defaults, valid_result, balance_of_rows, recipient_exists, log_transfer, query_balance,
  query_recipient, judge_balance, judge_recipient, or_panic, judge,
}
use craftsec.Guest.Results.{IsOfRequest}
use craftsec.Guest.Judgement.{IsCovered, judge_sound}
use craftsec.Examples.World.{sums, values}
use craftsec.Examples.WasmWorld.{
  bob, printed, counting, one_row, no_databases, ascii, wire, bump, transfers,
}

bob-accepted : (judge {H = ℕ} bob 0).0 ≡ returned (valid_result bob)
unfolding judge judge_balance judge_recipient log_transfer query_balance query_recipient or_panic
    balance_of_rows recipient_exists text_eq with_defaults
bob-accepted = refl

bob_number :
    values.float_le bob.args.amount values.float_zero ≡ false
    → values.float_gt bob.args.amount values.float_zero ≡ true
unfolding with_defaults
bob_number low = refl

judge_sound_example :
    (logged : ℕ) × (log_transfer bob 0 ≡ (returned tt, logged))
    × (values.float_le bob.args.amount values.float_zero ≡ false)
    × IsCovered bob logged
    × IsOfRequest bob (valid_result bob)
unfolding valid_result
judge_sound_example = judge_sound {H = ℕ} bob 0 (valid_result bob) bob-accepted refl bob_number

-- The setup of two databases in three batches.
abbrev scripts : List (Text × Text)
scripts =
    (text "balances", text "CREATE")
    ∷ (text "others", text "CREATE")
    ∷ (text "balances", text "INSERT")
    ∷ []

setup_all-lookup_example :
    connection_of (lookup (text "balances") (setup_all scripts no_databases))
    ≡ connection_after
        (batches_for (text "balances") scripts)
        (connection_of (lookup (text "balances") no_databases))
setup_all-lookup_example = setup_all-lookup scripts no_databases (text "balances")

read_answer_out_of_range_example : read_answer (pack 2 4) (0 ∷ 0 ∷ 7 ∷ 8 ∷ 9 ∷ []) ≡ panic
read_answer_out_of_range_example =
    read_answer_out_of_range (0 ∷ 0 ∷ 7 ∷ 8 ∷ 9 ∷ []) 2 4 (omega arith) (omega arith) (omega arith)

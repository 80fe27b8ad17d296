-- ===== src/Examples/Scenario.antt =====
-- The scenarios with two of three participants, the first and the third of whom sign.
use craftsec.Base.{ℕ, ◌≡◌, refl, false, text_eq, List, [], ◌∷◌, text, arith}
use craftsec.Curve.Small.{mod_seven}
use craftsec.Core.Error.{ok}
use craftsec.Scenario.Signing.{double_rotation}
use craftsec.Scenario.Signing.Verified.{double_rotation_total}
use craftsec.Core.Types.{AttestationRequest, Transaction, valid, invalid}
use craftsec.Node.Executor.{transfer_validator, transfer_transaction, value_at, get_or}
use craftsec.Scenario.Nodes.{end_to_end_attestation, migrate_program_transfers_key}
use craftsec.Scenario.Nodes.Migrated.{
  end_to_end_attestation_total, migrate_program_transfers_key_total,
}
use craftsec.Scenario.Clients.{
  full_client_flow, p2p_flow, client_rejects_invalid_request, p2p_rejects_invalid,
}
use craftsec.Scenario.Clients.Flows.{client_flows_total, client_rejects_total}
use craftsec.Scenario.Keys.{sign_with_derived_key, shares_reconstruct_to_group_key}
use craftsec.Scenario.Keys.Recovered.{derived_key_total}
use craftsec.Examples.World.{
  sums, counter, values, recipient_and_amount, two_of_three-IsValid, transfer_request, number,
  field,
}

abbrev first_and_third : List ℕ
first_and_third = 0 ∷ 2 ∷ []

double_rotation_total_example :
    double_rotation 2 3 first_and_third (text "double rotated") 5 ≡ ok tt
double_rotation_total_example =
    double_rotation_total 2 3 two_of_three-IsValid first_and_third (text "double rotated")
      (omega arith) (omega arith) (omega arith) (omega arith) 5

abbrev bob_transfer : Transaction
bob_transfer = transfer_transaction transfer_request (text "bob") 50

transfer-accepted : transfer_validator transfer_request ≡ ok (valid bob_transfer)
unfolding transfer_validator transfer_transaction value_at get_or text_eq
transfer-accepted = refl

end_to_end_attestation_total_example :
    end_to_end_attestation 2 3 transfer_request first_and_third 5 ≡ ok tt
end_to_end_attestation_total_example =
    end_to_end_attestation_total 2 3 two_of_three-IsValid first_and_third (omega arith)
      (omega arith) (omega arith) (omega arith) bob_transfer 5 transfer_request refl
      transfer-accepted

abbrev new_version_request : AttestationRequest
new_version_request = record transfer_request { program_cid = text "Qm_transfer_v2" }

new_version-accepted :
    transfer_validator new_version_request
    ≡ ok (valid (transfer_transaction new_version_request (text "bob") 50))
unfolding transfer_validator transfer_transaction value_at get_or text_eq
new_version-accepted = refl

other_version : text_eq (text "Qm_transfer") (text "Qm_transfer_v2") ≡ false
unfolding text_eq
other_version = refl

migrate_program_transfers_key_total_example :
    migrate_program_transfers_key 2 3
      (λ k. record k { secret = mod_seven.scalar_zero })
      (text "Qm_transfer")
      (text "Qm_transfer_v2")
      transfer_request
      new_version_request
      first_and_third
      5
    ≡ ok tt
migrate_program_transfers_key_total_example =
    migrate_program_transfers_key_total 2 3 two_of_three-IsValid first_and_third (omega arith)
      (omega arith) (omega arith) (omega arith)
      (transfer_transaction new_version_request (text "bob") 50) 5
      (λ k. record k { secret = mod_seven.scalar_zero }) (text "Qm_transfer")
      (text "Qm_transfer_v2") transfer_request new_version_request other_version refl refl
      new_version-accepted

client_flows_total_example :
    (full_client_flow 2 3 transfer_request 5 ≡ ok tt) × (p2p_flow 2 3 7 transfer_request 5 ≡ ok tt)
client_flows_total_example =
    client_flows_total 2 3 two_of_three-IsValid transfer_request refl 7 bob_transfer 5 (omega arith)
      transfer-accepted

-- The sender has less than the amount.
abbrev poor_request : AttestationRequest
poor_request = record transfer_request {
  args = field (text "balance") (number 10) transfer_request.args;
}

poor-rejected : transfer_validator poor_request ≡ ok (invalid (text "insufficient balance"))
unfolding transfer_validator value_at get_or text_eq
poor-rejected = refl

client_rejects_total_example :
    (client_rejects_invalid_request 2 3 poor_request 5 ≡ ok tt)
    × (p2p_rejects_invalid 2 3 7 poor_request 5 ≡ ok tt)
client_rejects_total_example =
    client_rejects_total 2 3 two_of_three-IsValid poor_request refl 7 (text "insufficient balance")
      5 poor-rejected

derived_key_total_example :
    (shares_reconstruct_to_group_key 2 3 (text "Qm_test") (text "main") first_and_third ≡ ok tt)
    × (sign_with_derived_key 2 3
          (text "Qm_test")
          (text "main")
          first_and_third
          (text "test transaction")
          5
        ≡ ok tt)
derived_key_total_example =
    derived_key_total 2 3 two_of_three-IsValid (text "Qm_test") (text "main") (omega arith)
      first_and_third (text "test transaction") 5 (omega arith) (omega arith) (omega arith)

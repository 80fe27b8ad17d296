-- ===== src/Examples/Node.antt =====
-- A node with a transfer program: requests, freezing and migration at concrete inputs.
use craftsec.Base.{
  ℕ, ◌≡◌, refl, true, false, ◌||◌, if◌then◌else◌, some, [], ◌∷◌, Text, text, text_eq,
}
use craftsec.Base.Maps.{contains, add}
use craftsec.Curve.Small.{r1, r2, r3, mod_seven}
use craftsec.Core.Error.{ok, err, panic, program_frozen}
use craftsec.Core.Types.{Transaction, valid}
use craftsec.Dkg.Sharing.{share_of}
use craftsec.Node.Executor.{
  ProgramRegistry, new_registry, register, value_at, get_or, transfer_validator,
  transfer_transaction,
}
use craftsec.Node.Executor.Transfers.{transfer_validator_sound}
use craftsec.Node.Node.{
  CraftSecNode, NodeResponse, registry_executor, new_node, register_key, freeze_program, is_frozen,
  get_key_share, migrate_program, process_request, respond,
}
use craftsec.Node.Node.Lifecycle.{
  registers, migrates, here, next, migrate_program_lem, frozen-refuses,
}
use craftsec.Examples.World.{sums, counter, values, transfer_request, as_str, as_number}

abbrev cid : Text
cid = text "Qm_transfer"

abbrev registry : ProgramRegistry
registry = register new_registry cid transfer_validator

abbrev node : CraftSecNode ProgramRegistry
node = new_node (share_of (r3 ∷ r2 ∷ []) 3 1) registry

transfer_validator_sound_example :
    (transfer_validator transfer_request ≡ panic → ⊥)
    × ((tx : Transaction)
        → transfer_validator transfer_request ≡ ok (valid tx)
        → (as_str (value_at transfer_request.args (text "recipient")) ≡ some tx.recipient)
          × (as_number (value_at transfer_request.args (text "amount")) ≡ some tx.amount)
          × (values.float_le tx.amount 0 ≡ false)
          × (values.float_gt tx.amount
                (get_or as_number transfer_request.args (text "balance") 1000)
              ≡ false)
          × (tx.sender ≡ text "alice")
          × (tx.program_cid ≡ cid))
transfer_validator_sound_example = transfer_validator_sound transfer_request

migrate_program_lem_example :
    (get_key_share (migrate_program node cid (text "Qm_v2")) (text "Qm_v2") ≡ (
      if text_eq (text "Qm_v2") (text "Qm_v2")
      then get_key_share node cid
      else get_key_share node (text "Qm_v2")))
    × (is_frozen (migrate_program node cid (text "Qm_v2")) (text "Qm_v2")
        ≡ (text_eq cid (text "Qm_v2") || is_frozen node (text "Qm_v2")))
migrate_program_lem_example = migrate_program_lem node cid (text "Qm_v2") (text "Qm_v2")

-- What the node answers to the request.
abbrev answer : NodeResponse × ℕ
answer =
    respond node transfer_request (valid (transfer_transaction transfer_request (text "bob") 50)) 10

abbrev frozen_node : CraftSecNode ProgramRegistry
frozen_node = freeze_program node cid

frozen_node-is_frozen : is_frozen frozen_node cid ≡ true
unfolding is_frozen freeze_program new_node contains add text_eq
frozen_node-is_frozen = refl

-- The frozen node, with a new key and after a migration of the frozen program.
frozen-refuses_example :
    process_request
      (migrate_program (register_key frozen_node cid (share_of (r1 ∷ []) 3 1)) cid (text "Qm_v2"))
      transfer_request
      10
    ≡ err (program_frozen cid)
frozen-refuses_example =
    frozen-refuses frozen_node
      (migrate_program (register_key frozen_node cid (share_of (r1 ∷ []) 3 1)) cid (text "Qm_v2"))
      transfer_request 10 frozen_node-is_frozen
      (next (next here (registers frozen_node cid (share_of (r1 ∷ []) 3 1)))
        (migrates (register_key frozen_node cid (share_of (r1 ∷ []) 3 1)) cid (text "Qm_v2")))

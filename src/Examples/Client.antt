-- ===== src/Examples/Client.antt =====
-- A client of three nodes with a transfer program: attestations at concrete inputs.
use craftsec.Base.{
  All, ℕ, ◌≤◌, ◌<◌, ◌≡◌, refl, some, List, [], ◌∷◌, map, span, length, text, text_eq, arith,
}
use craftsec.Base.Maps.{lookup, insert, contains, add}
use craftsec.Curve.Small.{Residue, r1, r2, r3, mod_seven}
use craftsec.Core.Error.{ok, err, panic, insufficient_shares}
use craftsec.Core.Types.{KeyShare, Transaction, valid}
use craftsec.Dkg.Sharing.{share_of, public_key, IsSharing}
use craftsec.Dkg.Feldman.{run_dkg}
use craftsec.Dkg.Rotation.{rotate_shares}
use craftsec.Node.Executor.{
  ProgramRegistry, new_registry, register, execute, transfer_validator, transfer_transaction,
  value_at, get_or,
}
use craftsec.Node.Node.{
  CraftSecNode, registry_executor, new_node, freeze_program, get_key_share, is_frozen,
}
use craftsec.Client.Attest.{
  AttestedTransaction, CraftSecClient, Collected, collected_nothing, collect, attest,
  verify_attested,
}
use craftsec.Client.Attest.Sound.{IsCollected, attest_sound}
use craftsec.Client.Attest.Sound.Answers.{Answered}
use craftsec.Client.Transport.{
  LocalTransport, local_transport, local_round2, new_local, new_p2p, p2p_transport,
}
use craftsec.Client.Transport.Gathering.{Judged, AllReady, approvals}
use craftsec.Client.Transport.EndToEnd.{attest_total}
use craftsec.Client.Transport.Refusals.{AllTotal, attest_refused}
use craftsec.Client.Transport.Latency.{attest-new_p2p}
use craftsec.Client.Transport.Keys.{register_all, local_round2-register_all}
use craftsec.Client.Ceremony.{client_of, run_dkg_attests, rotate_shares_attests}
use craftsec.Examples.World.{
  sums, counter, values, recipient_and_amount, two_of_three, two_of_three-IsValid, transfer_request,
}

abbrev registry : ProgramRegistry
registry = register new_registry (text "Qm_transfer") transfer_validator

abbrev transfer : Transaction
transfer = transfer_transaction transfer_request (text "bob") 50

registry-accepts : execute registry transfer_request ≡ ok (valid transfer)
unfolding execute register new_registry transfer_validator value_at get_or lookup insert text_eq
registry-accepts = refl

run_dkg_attests_example :
    (f : List Residue) × (shares : List KeyShare) × (end : ℕ) × (a : AttestedTransaction) × (run_dkg
        two_of_three 10
      ≡ ok (shares, end))
    × IsSharing f 3 shares
    × ((attest (client_of f 2 shares registry 20) transfer_request).0 ≡ ok a)
    × (verify_attested a ≡ ok tt)
    × (a.group_public_key ≡ public_key f)
    × (a.transaction ≡ transfer)
run_dkg_attests_example =
    run_dkg_attests transfer_request registry transfer two_of_three 10 20 two_of_three-IsValid
      (omega arith) registry-accepts

abbrev line : List Residue
line = r3 ∷ r2 ∷ []

abbrev line_shares : List KeyShare
line_shares = map (share_of line 3) (span 1 3)

rotate_shares_attests_example :
    (shares : List KeyShare) × (end : ℕ) × (a : AttestedTransaction) × (rotate_shares line_shares
        two_of_three 10
      ≡ ok (shares, end))
    × ((attest (client_of line 2 shares registry 20) transfer_request).0 ≡ ok a)
    × (verify_attested a ≡ ok tt)
    × (a.group_public_key ≡ public_key line)
    × (a.transaction ≡ transfer)
rotate_shares_attests_example =
    rotate_shares_attests transfer_request registry transfer line 3 2 line_shares two_of_three 10 20
      refl (omega arith) (omega arith) (omega arith) (omega arith) (omega arith) (omega arith)
      registry-accepts

-- The second node has frozen the program, so that the other two approve.
abbrev nodes : List (CraftSecNode ProgramRegistry)
nodes =
    new_node (share_of line 3 1) registry
    ∷ freeze_program (new_node (share_of line 3 2) registry) (text "Qm_transfer")
    ∷ new_node (share_of line 3 3) registry
    ∷ []

abbrev client : CraftSecClient (LocalTransport ProgramRegistry)
client = record {
  transport = new_local nodes 20;
  group_public_key = public_key line;
  threshold = 2;
  node_count = 3;
}

registry-total : execute registry transfer_request ≡ panic → ⊥
registry-total e = let a = registry-accepts in cc

nodes-AllReady : AllReady line transfer_request 0 nodes
unfolding new_node freeze_program get_key_share lookup
nodes-AllReady = (
  record { secret = refl; key = refl; number = refl; default = refl; total = registry-total },
  (
    record { secret = refl; key = refl; number = refl; default = refl; total = registry-total },
    (
      record { secret = refl; key = refl; number = refl; default = refl; total = registry-total },
      tt,
    ),
  ),
)

nodes-approvals : approvals transfer_request nodes ≡ 2
unfolding new_node freeze_program is_frozen contains add execute register new_registry
    transfer_validator value_at get_or lookup insert text_eq
nodes-approvals = refl

attest_total_example :
    (a : AttestedTransaction) × ((attest client transfer_request).0 ≡ ok a)
    × (verify_attested a ≡ ok tt)
    × (a.group_public_key ≡ public_key line)
    × Judged transfer_request nodes a.transaction
attest_total_example =
    attest_total line transfer_request 2 nodes 20 nodes-AllReady (omega arith) (omega arith)
      (omega (arith, nodes-approvals)) (omega arith)

-- The attested transaction of this client.
attested : (a : AttestedTransaction) × ((attest client transfer_request).0 ≡ ok a)
attested =
    let r =
      attest_total line transfer_request 2 nodes 20 nodes-AllReady (omega arith) (omega arith)
        (omega (arith, nodes-approvals)) (omega arith) in
    (r.0, r.1)

attest_sound_example :
    (acc : Collected) × (t : LocalTransport ProgramRegistry) × (collect 2 transfer_request
        (span 0 3)
        collected_nothing
        client.transport
      ≡ (ok acc, t))
    × IsCollected 3 acc
    × All (Answered (LocalTransport ProgramRegistry) transfer_request) acc.responses
    × (2 ≤ length acc.responses)
    × (acc.transaction ≡ some attested.0.transaction)
    × (attested.0.group_public_key ≡ public_key line)
    × (verify_attested attested.0 ≡ ok tt)
attest_sound_example = attest_sound client transfer_request attested.0 attested.1

local_round2-register_all_example :
    (local_round2 0
      (text "pay")
      []
      (register_all (text "Qm_transfer") (share_of (r1 ∷ []) 3 1) client.transport)).0
    ≡ (local_round2 0 (text "pay") [] client.transport).0
local_round2-register_all_example =
    local_round2-register_all (text "Qm_transfer") (share_of (r1 ∷ []) 3 1) client.transport 0
      (text "pay") []

nodes-AllTotal : AllTotal transfer_request nodes
unfolding new_node freeze_program
nodes-AllTotal = (registry-total, (registry-total, (registry-total, tt)))

nodes-few : approvals transfer_request nodes < 3
nodes-few = omega (arith, nodes-approvals)

-- Three approvals are asked of these nodes.
attest_refused_example :
    (attest
      (record {
        transport = new_local nodes 20;
        group_public_key = public_key line;
        threshold = 3;
        node_count = 3;
      })
      transfer_request).0
    ≡ err (insufficient_shares (approvals transfer_request nodes) 3)
attest_refused_example =
    attest_refused transfer_request 3 nodes 20 (public_key line) nodes-AllTotal nodes-few

attest-new_p2p_example :
    (attest
      (record {
        transport = new_p2p nodes 5 20;
        group_public_key = public_key line;
        threshold = 2;
        node_count = 3;
      })
      transfer_request).0
    ≡ (attest client transfer_request).0
attest-new_p2p_example = attest-new_p2p 5 nodes 20 (public_key line) 2 3 transfer_request

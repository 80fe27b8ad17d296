-- ===== src/Examples/Contacts.antt =====
-- The calls of a client of three nodes.
use craftsec.Base.{refl, List, [], ◌∷◌, map, span, text}
use craftsec.Curve.Small.{Residue, r2, r3, mod_seven}
use craftsec.Dkg.Sharing.{share_of, public_key}
use craftsec.Node.Executor.{ProgramRegistry, new_registry, register, transfer_validator}
use craftsec.Node.Node.{registry_executor, new_node}
use craftsec.Client.Attest.{CraftSecClient, attest}
use craftsec.Client.Transport.{LocalTransport, new_local, local_transport}
use craftsec.Client.Attest.Contacts.{Logged, logged, IsOrderly}
use craftsec.Client.Attest.Contacts.Orderly.{attest-IsOrderly}
use craftsec.Examples.World.{sums, counter, values, recipient_and_amount, transfer_request}

abbrev line : List Residue
line = r3 ∷ r2 ∷ []

abbrev registry : ProgramRegistry
registry = register new_registry (text "Qm_transfer") transfer_validator

abbrev client : CraftSecClient (Logged (LocalTransport ProgramRegistry))
client = record {
  transport = record {
    inner = new_local (map (λ k. new_node k registry) (map (share_of line 3) (span 1 3))) 5;
    contacts = [];
  };
  group_public_key = public_key line;
  threshold = 2;
  node_count = 3;
}

attest-IsOrderly_example : IsOrderly 3 2 (attest client transfer_request).1.contacts
attest-IsOrderly_example = attest-IsOrderly client transfer_request refl

-- ===== src/Scenario/Clients.antt =====
-- crates/client/src/lib.rs, tests: a client of the nodes of a key generation, over both transports.
pub mod Flows
use craftsec.Base.{ℕ, List, map, text}
use craftsec.Curve.{Curve, Point}
use craftsec.Core.External.{Digests, RngCore, State, Json}
use craftsec.Core.Error.{Result, ok, index, unwrap_ok, ◌>>=◌, ◌>>◌}
use craftsec.Core.Types.{AttestationRequest, Serde}
use craftsec.Node.Executor.{ProgramRegistry}
use craftsec.Node.Node.{CraftSecNode, registry_executor, new_node}
use craftsec.Client.Attest.{CraftSecClient, NodeTransport, new_client, attest, verify_attested}
use craftsec.Client.Transport.{new_local, new_p2p, local_transport, p2p_transport}
use craftsec.Scenario.Signing.{generate}
use craftsec.Scenario.Nodes.{assert, is_err, transfers_at}

module _ ⦃c : Curve⦄ ⦃j : Json⦄ ⦃g : RngCore⦄ where
  -- The nodes and their public key, with the state of the generator.
  unfoldable pub make_nodes :
      ℕ → ℕ → State → Result (List (CraftSecNode ProgramRegistry) × Point × State)
  make_nodes t n rng = do
    dealt ← generate t n rng
    first ← index dealt.1 0
    ok (
      map (λ ks. new_node ks (transfers_at (text "Qm_transfer"))) dealt.1,
      first.group_public_key,
      dealt.2,
    )

  module _ ⦃d : Digests⦄ ⦃s : Serde⦄ where
    -- The client attests the request, and the result is verified.
    unfoldable pub client_flow :
        {T : Type 0}
        → ⦃y : NodeTransport T⦄ → CraftSecClient T
        → AttestationRequest
        → Result (Unit {0})
    client_flow client request = do
      attested ← unwrap_ok (attest client request).0
      unwrap_ok (verify_attested attested)

    unfoldable pub full_client_flow : ℕ → ℕ → AttestationRequest → State → Result (Unit {0})
    full_client_flow t n request rng = do
      made ← make_nodes t n rng
      client_flow (new_client (new_local made.0 made.2) made.1 t n) request

    -- The same over the delayed transport.
    unfoldable pub p2p_flow : ℕ → ℕ → ℕ → AttestationRequest → State → Result (Unit {0})
    p2p_flow t n latency request rng = do
      made ← make_nodes t n rng
      client_flow (new_client (new_p2p made.0 latency made.2) made.1 t n) request

    unfoldable pub client_rejects_invalid_request :
        ℕ → ℕ → AttestationRequest → State → Result (Unit {0})
    client_rejects_invalid_request t n request rng = do
      made ← make_nodes t n rng
      refused ← is_err (attest (new_client (new_local made.0 made.2) made.1 t n) request).0
      assert refused

    unfoldable pub p2p_rejects_invalid : ℕ → ℕ → ℕ → AttestationRequest → State → Result (Unit {0})
    p2p_rejects_invalid t n latency request rng = do
      made ← make_nodes t n rng
      refused ← is_err (attest (new_client (new_p2p made.0 latency made.2) made.1 t n) request).0
      assert refused

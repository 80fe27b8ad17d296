-- ===== src/Scenario/Clients/Flows.antt =====
-- The clients of a key generation's nodes get their attestations and their refusals.
use craftsec.Base.{
  ℕ, ◌<◌, ◌≡◌, refl, ap, sym, ◌∙◌, List, [], ◌∷◌, length, length-map, length-span, span, Text, text,
  arith,
}
use craftsec.Base.Maps.{contains}
use craftsec.Curve.{Curve, Scalar}
use craftsec.Core.External.{Digests, RngCore, State, Json}
use craftsec.Core.Error.{ok, panic}
use craftsec.Core.Types.{AttestationRequest, valid, invalid, Transaction, Serde, KeyShare, IsValid}
use craftsec.Dkg.Sharing.{public_key, share_of, IsSharing}
use craftsec.Node.Executor.{ProgramRegistry, new_registry, execute, transfer_validator}
use craftsec.Node.Node.{registry_executor, new_node, is_frozen}
use craftsec.Client.Attest.{new_client}
use craftsec.Client.Transport.{local_transport, p2p_transport}
use craftsec.Client.Transport.Gathering.{approvals}
use craftsec.Client.Transport.Refusals.{AllTotal, attest_refused}
use craftsec.Client.Transport.Latency.{attest-new_p2p}
use craftsec.Client.Ceremony.{nodes_of, sharing_attests}
use craftsec.Scenario.Signing.Verified.{generate_lem}
use craftsec.Scenario.Signing.Rounds.{index-IsSharing}
use craftsec.Scenario.Nodes.{transfers_at}
use craftsec.Scenario.Nodes.Migrated.{execute_registered}
use craftsec.Scenario.Clients.{
  make_nodes, client_flow, full_client_flow, p2p_flow, client_rejects_invalid_request,
  p2p_rejects_invalid,
}

abbrev registry : ⦃j : Json⦄ → ProgramRegistry
registry = transfers_at (text "Qm_transfer")

module _ ⦃c : Curve⦄ ⦃j : Json⦄ where
  -- What every node of the program makes of a rejected request.
  module _ (request : AttestationRequest) (reason : Text)
      (rejects : execute registry request ≡ ok (invalid reason)) where
    none_approve :
        ⦃g : RngCore⦄ → (shares : List KeyShare) → approvals request (nodes_of shares registry) ≡ 0
    unfolding new_node is_frozen contains
    none_approve [] = refl
    none_approve (k ∷ shares) = rw rejects (omega (arith, none_approve shares))

    none_panic :
        ⦃g : RngCore⦄ → (shares : List KeyShare) → AllTotal request (nodes_of shares registry)
    unfolding new_node
    none_panic [] = tt
    none_panic (k ∷ shares) =
        ((λ e. let e' : ok (invalid reason) ≡ panic = sym rejects ∙ e in cc), none_panic shares)

  module _ ⦃g : RngCore⦄ ⦃d : Digests⦄ ⦃s : Serde⦄ (t n : ℕ)
      (valid_config : IsValid (record { threshold = t; total = n })) (request : AttestationRequest)
      (named : request.program_cid ≡ text "Qm_transfer") where
    make_nodes_lem :
        (rng : State)
        → (f : List Scalar) × (shares : List KeyShare) × (rng' : State) × (make_nodes t n rng
            ≡ ok (nodes_of shares registry, public_key f, rng'))
          × (length f ≡ t)
          × IsSharing f n shares
          × (length (nodes_of shares registry) ≡ n)
    unfolding make_nodes
    make_nodes_lem rng =
        let (f, shares, rng', dealt, size, sharing) = generate_lem t n valid_config rng in
        (
          f,
          shares,
          rng',
          rw
              (
                dealt,
                index-IsSharing f n 0 shares sharing
                    (omega (arith, valid_config.positive, valid_config.within)),
              )
              refl,
          size,
          sharing,
          length-map (λ k. new_node k registry) shares
              ∙ ap length sharing
              ∙ length-map (share_of f n) (span 1 n)
              ∙ length-span 1 n,
        )

    runs : execute registry request ≡ transfer_validator request
    runs = execute_registered new_registry (text "Qm_transfer") request named

    -- For every valid configuration with fewer participants than the group order, a client of the
    -- nodes of a key generation gets a request attested that the transfer program accepts, and the
    -- result verifies: over the local transport, and over the delayed one for any latency.
    pub client_flows_total :
        (latency : ℕ) (tx : Transaction) (rng : State)
        → n < c.order
        → transfer_validator request ≡ ok (valid tx)
        → (full_client_flow t n request rng ≡ ok tt) × (p2p_flow t n latency request rng ≡ ok tt)
    unfolding full_client_flow p2p_flow client_flow new_client
    client_flows_total latency tx rng small accepted =
        let (f, shares, rng', made, size, sharing, count) = make_nodes_lem rng in
        let (a, answer, verified, _, _) =
          sharing_attests request registry tx f n t shares rng' (runs ∙ accepted) sharing
            (omega (arith, size)) valid_config.positive valid_config.within small in
        let local = rw count at answer in
        (
          rw (made, local, verified) refl,
          rw
              (
                made,
                attest-new_p2p latency (nodes_of shares registry) rng' (public_key f) t n request,
                local,
                verified,
              )
              refl,
        )

    -- For every valid configuration, a request that the transfer program rejects is refused by such
    -- a client over both transports.
    pub client_rejects_total :
        (latency : ℕ) (reason : Text) (rng : State)
        → transfer_validator request ≡ ok (invalid reason)
        → (client_rejects_invalid_request t n request rng ≡ ok tt)
          × (p2p_rejects_invalid t n latency request rng ≡ ok tt)
    unfolding client_rejects_invalid_request p2p_rejects_invalid new_client
    client_rejects_total latency reason rng rejected =
        let (f, shares, rng', made, size, sharing, count) = make_nodes_lem rng in
        let rejects = runs ∙ rejected in
        let answer =
          attest_refused request t (nodes_of shares registry) rng' (public_key f)
            (none_panic request reason rejects shares)
            (omega (arith, none_approve request reason rejects shares, valid_config.positive)) in
        let local = rw count at answer in
        (
          rw (made, local) refl,
          rw
              (
                made,
                attest-new_p2p latency (nodes_of shares registry) rng' (public_key f) t n request,
                local,
              )
              refl,
        )

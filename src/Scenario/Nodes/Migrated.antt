-- ===== src/Scenario/Nodes/Migrated.antt =====
-- Attestation by nodes of a key generation, before and after a migration.
use craftsec.Base.{
  ℕ, ◌≤◌, ◌<◌, ◌≡◌, refl, ap, sym, ◌∙◌, true, false, List, length, Text, text, text_eq,
  text_eq_refl, text_eq_iff, if◌then◌else◌, arith,
}
use craftsec.Base.Fresh.{Distinct, Below}
use craftsec.Base.Maps.{lookup, contains, add, lookup-insert}
use craftsec.Curve.{Curve}
use craftsec.Core.External.{Digests, RngCore, State, Json}
use craftsec.Core.Error.{ok, err, program_frozen}
use craftsec.Core.Types.{AttestationRequest, valid, Transaction, Serde, KeyShare, IsValid}
use craftsec.Dkg.Sharing.{share_of}
use craftsec.Node.Executor.{execute, ProgramRegistry, new_registry, register, transfer_validator}
use craftsec.Node.Executor.Transfers.{execute-register}
use craftsec.Node.Node.{
  CraftSecNode, registry_executor, new_node, register_key, freeze_program, is_frozen, get_key_share,
  sign, sign_for_program, migrate_program, process_request,
}
use craftsec.Scenario.Signing.Verified.{generate_lem}
use craftsec.Scenario.Signing.Rounds.{index-IsSharing}
use craftsec.Scenario.Nodes.{
  assert_valid, transfers_at, setup_nodes, end_to_end_attestation, migrated_nodes,
  migrate_program_transfers_key,
}
use craftsec.Scenario.Nodes.Attested.{Attests, node_at, attest_nodes_verifies}

module _ ⦃c : Curve⦄ ⦃j : Json⦄ ⦃d : Digests⦄ where
  -- A request for the program that was registered last.
  pub execute_registered :
      (r : ProgramRegistry) (cid : Text) (request : AttestationRequest)
      → request.program_cid ≡ cid
      → execute (register r cid transfer_validator) request ≡ transfer_validator request
  execute_registered r cid request named =
      execute-register r cid transfer_validator request
      ∙ ap (λ b. if b then transfer_validator request else execute r request)
          ((text_eq_iff cid request.program_cid).1 (sym named))

  -- A new node with the transfer program.
  new_node-Attests :
      (request : AttestationRequest) (tx : Transaction)
      → request.program_cid ≡ text "Qm_transfer"
      → transfer_validator request ≡ ok (valid tx)
      → Attests (λ k. new_node k (transfers_at (text "Qm_transfer"))) sign request tx
  unfolding new_node is_frozen contains get_key_share lookup sign
  new_node-Attests request tx named accepted = record {
    open_program = λ k. refl;
    accepts = λ k. execute_registered new_registry (text "Qm_transfer") request named ∙ accepted;
    key = λ k. refl;
    signs = λ k nonce message ms. refl;
  }

  module _ (own : KeyShare → KeyShare) (v1 v2 : Text) (distinct_cids : text_eq v1 v2 ≡ false) where
    abbrev migrated : KeyShare → CraftSecNode ProgramRegistry
    migrated k =
        migrate_program
          (register_key
            (new_node (own k)
              (register (register new_registry v1 transfer_validator) v2 transfer_validator))
            v1 k)
          v1 v2

    -- The second program has the first one's key.
    migrated-key : (k : KeyShare) → get_key_share (migrated k) v2 ≡ k
    unfolding migrate_program register_key freeze_program get_key_share new_node
    migrated-key k = simp (lookup-insert, text_eq_refl)

    -- The first program is frozen, so that its requests are refused.
    migrated_frozen : (k : KeyShare) → is_frozen (migrated k) v1 ≡ true
    unfolding migrate_program register_key freeze_program new_node is_frozen contains add
    migrated_frozen k = rw (text_eq_refl v1) refl

    migrated_refuses :
        ⦃g : RngCore⦄
        → (k : KeyShare) (request : AttestationRequest) → request.program_cid ≡ v1
        → (rng : State)
        → process_request (migrated k) request rng ≡ err (program_frozen request.program_cid)
    unfolding process_request
    migrated_refuses k request named rng =
        rw (ap (is_frozen (migrated k)) named ∙ migrated_frozen k) refl

    migrated-Attests :
        (request : AttestationRequest) (tx : Transaction)
        → request.program_cid ≡ v2
        → transfer_validator request ≡ ok (valid tx)
        → Attests migrated (λ node. sign_for_program node v2) request tx
    unfolding migrate_program register_key freeze_program new_node is_frozen contains add
        sign_for_program
    migrated-Attests request tx named accepted = record {
      open_program = λ k. rw (named, distinct_cids) refl;
      accepts = λ k.
          execute_registered (register new_registry v1 transfer_validator) v2 request named
          ∙ accepted;
      key = λ k. rw named (migrated-key k);
      signs = λ k nonce message ms. rw (migrated-key k) refl;
    }

  module _ ⦃g : RngCore⦄ ⦃s : Serde⦄ (t n : ℕ)
      (valid_config : IsValid (record { threshold = t; total = n })) (signers : List ℕ)
      (positions : Below n signers) (distinct : Distinct signers) (enough : t ≤ length signers)
      (small : n < c.order) (tx : Transaction) (rng : State) where
    -- For every valid configuration with fewer participants than the group order: nodes with the
    -- shares of a key generation, at distinct positions and at least as many as the threshold,
    -- all judge a request that the transfer program accepts valid, and their two rounds make a
    -- signature of the transaction that verifies under the nodes' group key.
    pub end_to_end_attestation_total :
        (request : AttestationRequest)
        → request.program_cid ≡ text "Qm_transfer"
        → transfer_validator request ≡ ok (valid tx)
        → end_to_end_attestation t n request signers rng ≡ ok tt
    unfolding end_to_end_attestation setup_nodes new_node
    end_to_end_attestation_total request named accepted =
        let (f, shares, rng', dealt, size, sharing) = generate_lem t n valid_config rng in
        let make = λ (k : KeyShare). new_node k (transfers_at (text "Qm_transfer")) in
        let attests = new_node-Attests request tx named accepted in
        let (sig, signed, verified) =
          attest_nodes_verifies make sign request tx attests f n shares sharing assert_valid refl
            signers rng' positions distinct (omega (arith, enough, valid_config.positive))
            (omega (arith, size, enough)) small in
        rw
          (
            dealt,
            signed,
            node_at make sign request tx attests f n shares sharing assert_valid refl 0
                (omega (arith, valid_config.positive, valid_config.within)),
            verified,
          )
          refl

    -- Nodes with any default key shares, each with its share of the key generation as the key of a
    -- first program, after a migration from it to another: the first node has the first program
    -- frozen and refuses every request for it, and the selected nodes sign the transaction of a
    -- request for the second with the keys that they have for it, which verifies under the public
    -- key of the key generation.
    pub migrate_program_transfers_key_total :
        (own : KeyShare → KeyShare) (v1 v2 : Text) (req_v1 req_v2 : AttestationRequest)
        → text_eq v1 v2 ≡ false
        → req_v1.program_cid ≡ v1
        → req_v2.program_cid ≡ v2
        → transfer_validator req_v2 ≡ ok (valid tx)
        → migrate_program_transfers_key t n own v1 v2 req_v1 req_v2 signers rng ≡ ok tt
    unfolding migrate_program_transfers_key migrated_nodes
    migrate_program_transfers_key_total own v1 v2 req_v1 req_v2 other named₁ named₂ accepted =
        let (f, shares, rng', dealt, size, sharing) = generate_lem t n valid_config rng in
        let attests = migrated-Attests own v1 v2 other req_v2 tx named₂ accepted in
        let sign_by = λ (node : CraftSecNode ProgramRegistry). sign_for_program node v2 in
        let some_node : 0 < n = omega (arith, valid_config.positive, valid_config.within) in
        let (sig, signed, verified) =
          attest_nodes_verifies (migrated own v1 v2 other) sign_by req_v2 tx attests f n shares
            sharing (λ result. ok tt) refl signers rng' positions distinct
            (omega (arith, enough, valid_config.positive)) (omega (arith, size, enough)) small in
        let first = share_of f n 1 in
        rw
          (
            dealt,
            index-IsSharing f n 0 shares sharing some_node,
            node_at (migrated own v1 v2 other) sign_by req_v2 tx attests f n shares sharing
                (λ result. ok tt) refl 0 some_node,
            migrated_frozen own v1 v2 other first,
            migrated_refuses own v1 v2 other first req_v1 named₁ rng',
            signed,
            verified,
          )
          refl

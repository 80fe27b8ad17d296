-- ===== src/Scenario/Nodes/Attested.antt =====
-- Nodes that hold the shares of a polynomial attest in two rounds what their program accepts.
use craftsec.Base.{
  ℕ, zero, suc, ◌≤◌, ◌<◌, ◌≡◌, refl, ap, false, some, List, [], ◌∷◌, map, length, arith,
}
use craftsec.Base.Fresh.{Distinct, Below}
use craftsec.Curve.{Curve, Scalar}
use craftsec.Core.External.{Digests, RngCore, State, Json}
use craftsec.Core.Error.{Result, ok, traverse, index, unwrap, ◌>>=◌}
use craftsec.Core.Types.{
  AttestationRequest, AttestationResult, valid, Transaction, Serde, signing_bytes, KeyShare,
}
use craftsec.Dkg.Sharing.{public_key, share_of, IsSharing}
use craftsec.Signing.Frost.{
  SigningNonce, SigningCommitment, ThresholdSignature, commitment_of, generate_nonces, sign_partial,
  aggregate, verify,
}
use craftsec.Signing.Frost.Session.{Signer, commitments_of}
use craftsec.Node.Node.{
  CraftSecNode, NodeResponse, NodeSignature, ProgramExecutor, is_frozen, get_key_share, respond,
  process_request,
}
use craftsec.Scenario.Signing.Rounds.{index-IsSharing, Found, Found-self, draw, draw-verifies}
use craftsec.Scenario.Nodes.{respond_all, sign_all, attest_nodes}

index-map :
    {A B : Type 0} (g : A → B) (l : List A) (i : ℕ) (a : A)
    → index l i ≡ ok a
    → index (map g l) i ≡ ok (g a)
index-map g [] i a h = cc
index-map g (x ∷ l) zero a h = let e : x ≡ a = cc in ap (λ y. ok (g y)) e
index-map g (x ∷ l) (suc i) a h = index-map g l i a h

module _ ⦃c : Curve⦄ ⦃j : Json⦄ where
  -- What a selected node answers in round 1.
  abbrev pub response_of : Transaction → Signer → NodeResponse
  response_of tx s = record {
    result = valid tx;
    commitment = some (commitment_of s.1);
    nonce = some s.1;
  }

  commitments-response_of :
      (tx : Transaction) (drawn : List Signer)
      → traverse (λ r. unwrap r.commitment) (map (response_of tx) drawn) ≡ ok (commitments_of drawn)
  unfolding traverse
  commitments-response_of tx [] = refl
  commitments-response_of tx (s ∷ drawn) = rw (commitments-response_of tx drawn) refl

  module _ {E : Type 0} ⦃x : ProgramExecutor E⦄ ⦃d : Digests⦄ (make : KeyShare → CraftSecNode E)
      (sign_by : CraftSecNode E
        → SigningNonce
        → List ℕ
        → List SigningCommitment
        → Result NodeSignature)
      (request : AttestationRequest) (tx : Transaction) where
    -- A node that is made of a key share accepts the request, with this key share, and signs with
    -- it.
    pub record Attests : Type 0 where
      pub open_program : (k : KeyShare) → is_frozen (make k) request.program_cid ≡ false
      pub accepts : (k : KeyShare) → x.run (make k).registry request ≡ ok (valid tx)
      pub key : (k : KeyShare) → get_key_share (make k) request.program_cid ≡ k
      pub signs :
          (k : KeyShare) (nonce : SigningNonce) (message : List ℕ) (ms : List SigningCommitment)
          → sign_by (make k) nonce message ms
            ≡ (sign_partial k nonce message ms >>= λ p. ok (record { partial = p }))

    module _ ⦃g : RngCore⦄ (attests : Attests) (f : List Scalar) (n : ℕ) (shares : List KeyShare)
        (sharing : IsSharing f n shares) (check : AttestationResult → Result (Unit {0}))
        (checked : check (valid tx) ≡ ok tt) where
      pub node_at : (i : ℕ) → i < n → index (map make shares) i ≡ ok (make (share_of f n (suc i)))
      node_at i h =
          index-map make shares i (share_of f n (suc i)) (index-IsSharing f n i shares sharing h)

      process_request_lem :
          (k : KeyShare) (rng : State)
          → process_request (make k) request rng
            ≡ ok (
              response_of tx (k, (generate_nonces k.index rng).0.0),
              (generate_nonces k.index rng).1,
            )
      unfolding process_request respond generate_nonces
      process_request_lem k rng = rw (attests.open_program k, attests.accepts k, attests.key k) refl

      respond_all_lem :
          (signers : List ℕ) (rng : State)
          → Below n signers
          → respond_all check (map make shares) request signers rng
            ≡ ok (map (response_of tx) (draw f n signers rng).0, (draw f n signers rng).1)
      unfolding respond_all draw
      respond_all_lem [] rng b = refl
      respond_all_lem (i ∷ signers) rng b =
          rw
            (
              node_at i b.0,
              process_request_lem (share_of f n (suc i)) rng,
              checked,
              respond_all_lem signers (generate_nonces (suc i) rng).1 b.1,
            )
            refl

      sign_all_lem :
          (message : List ℕ) (ms : List SigningCommitment) (responses : List NodeResponse) (idx : ℕ)
          (signers : List ℕ) (rng : State)
          → Below n signers
          → Found (response_of tx) responses idx (draw f n signers rng).0
          → sign_all
              (λ node nonce. sign_by node nonce message ms)
              (map make shares)
              responses
              idx
              signers
            ≡ traverse (λ s. sign_partial s.0 s.1 message ms) (draw f n signers rng).0
      unfolding sign_all draw traverse sign_partial
      sign_all_lem message ms responses idx [] rng b h = refl
      sign_all_lem message ms responses idx (i ∷ signers) rng b h =
          let nonce = (generate_nonces (suc i) rng).0.0 in
          rw
            (
              h.0,
              node_at i b.0,
              attests.signs (share_of f n (suc i)) nonce message ms,
              sign_all_lem message ms responses (suc idx) signers (generate_nonces (suc i) rng).1
                  b.1 h.1,
            )
            refl

      -- The selected nodes, at distinct positions and at least as many as the polynomial has
      -- coefficients, make a signature of the transaction that verifies under the public key.
      pub attest_nodes_verifies :
          ⦃s : Serde⦄
          → (signers : List ℕ) (rng : State) → Below n signers
          → Distinct signers
          → 0 < length signers
          → length f ≤ length signers
          → n < c.order
          → (sig : ThresholdSignature) × (attest_nodes check sign_by
                (map make shares)
                request
                signers
                rng
              ≡ ok (signing_bytes tx, sig))
            × (verify sig (public_key f) (signing_bytes tx) ≡ ok tt)
      unfolding attest_nodes draw
      attest_nodes_verifies [] rng b u some_signer l small = absurd (omega arith)
      attest_nodes_verifies (i ∷ signers) rng b u some_signer l small =
          let drawn = (draw f n (i ∷ signers) rng).0 in
          let message = signing_bytes tx in
          let (partials, signed, verified) =
            draw-verifies f n (i ∷ signers) message rng b u l small in
          (
            aggregate message (commitments_of drawn) partials,
            rw
                (
                  respond_all_lem (i ∷ signers) rng b,
                  commitments-response_of tx drawn,
                  sign_all_lem message (commitments_of drawn) (map (response_of tx) drawn) 0
                      (i ∷ signers) rng b (Found-self (response_of tx) drawn),
                  signed,
                )
                refl,
            verified,
          )

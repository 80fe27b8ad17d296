-- ===== src/Client/Transport/Latency.antt =====
-- The delayed transport against the local one: the client cannot tell them apart.
use craftsec.Base.{
  ℕ, ◌≡◌, refl, ap, ◌∙◌, Bool-cases, inl, inr, List, [], ◌∷◌, length, span, leb, ltb,
}
use craftsec.Curve.{Curve, Point}
use craftsec.Core.External.{Digests, RngCore, State, Json}
use craftsec.Core.Error.{Result, ok, err, panic, unwrap, traverse}
use craftsec.Core.Action.{Action, after}
use craftsec.Core.Types.{AttestationRequest, Serde, signing_bytes}
use craftsec.Signing.Frost.{SigningCommitment, aggregate, verify}
use craftsec.Node.Node.{CraftSecNode, ProgramExecutor}
use craftsec.Client.Attest.{
  Round1Response, Collected, collected_nothing, collect_response, collect_one, collect,
  collect_partials, complete, attest,
}
use craftsec.Client.Transport.{
  LocalTransport, P2pTransport, local_round1, local_round2, in_p2p, local_transport, p2p_transport,
  new_local, new_p2p,
}

module _ ⦃c : Curve⦄ ⦃g : RngCore⦄ {E : Type 0} (latency : ℕ) where
  -- The delayed transport with the given inner one.
  abbrev delayed : LocalTransport E → P2pTransport E
  delayed t = record { inner = t; latency = latency }

  abbrev delay : {A : Type 0} → Result A × LocalTransport E → Result A × P2pTransport E
  delay (r, t) = (r, delayed t)

  -- Two calls that agree on inner transports go on to agree.
  after-delay :
      {A B : Type 0} (f : A → Action (LocalTransport E) B) (f' : A → Action (P2pTransport E) B)
      → ((a : A) (t : LocalTransport E) → f' a (delayed t) ≡ delay (f a t))
      → (p : Result A × LocalTransport E) → after f' (delay p) ≡ delay (after f p)
  after-delay f f' h (ok a, t) = h a t
  after-delay f f' h (err e, t) = refl
  after-delay f f' h (panic, t) = refl

  -- A first call that agrees, and calls after it that do.
  step-delay :
      {A B : Type 0} (f : A → Action (LocalTransport E) B) (f' : A → Action (P2pTransport E) B)
      (p : Result A × LocalTransport E) {q : Result A × P2pTransport E}
      → q ≡ delay p
      → ((a : A) (t : LocalTransport E) → f' a (delayed t) ≡ delay (f a t))
      → after f' q ≡ delay (after f p)
  step-delay f f' p e h = ap (after f') e ∙ after-delay f f' h p

  module _ ⦃j : Json⦄ ⦃x : ProgramExecutor E⦄ ⦃d : Digests⦄ where
    collect_one-delay :
        (threshold : ℕ) (acc : Collected) (i : ℕ)
        (rest : Collected → Action (LocalTransport E) Collected)
        (rest' : Collected → Action (P2pTransport E) Collected)
        → ((acc' : Collected) (t : LocalTransport E) → rest' acc' (delayed t) ≡ delay (rest acc' t))
        → (p : Result Round1Response × LocalTransport E)
        → collect_one threshold acc i rest' (delay p) ≡ delay (collect_one threshold acc i rest p)
    unfolding collect_one
    collect_one-delay threshold acc i rest rest' h (ok resp, t) =
        elim (Bool-cases
          (leb threshold (length (collect_response acc i resp resp.result).responses))) [
            | inl enough ↦ rw enough refl
            | inr more ↦ rw more (h (collect_response acc i resp resp.result) t)
          ]
    collect_one-delay threshold acc i rest rest' h (err e, t) = h acc t
    collect_one-delay threshold acc i rest rest' h (panic, t) = refl

    collect-delay :
        (threshold : ℕ) (request : AttestationRequest) (is : List ℕ) (acc : Collected)
        (t : LocalTransport E)
        → collect ⦃n = p2p_transport⦄ threshold request is acc (delayed t)
          ≡ delay (collect ⦃n = local_transport⦄ threshold request is acc t)
    unfolding collect in_p2p
    collect-delay threshold request [] acc t = refl
    collect-delay threshold request (i ∷ is) acc t =
        collect_one-delay threshold acc i (collect ⦃n = local_transport⦄ threshold request is)
          (collect ⦃n = p2p_transport⦄ threshold request is)
          (λ acc' t'. collect-delay threshold request is acc' t') (local_round1 i request t)

    collect_partials-delay :
        (message : List ℕ) (ms : List SigningCommitment) (responses : List (ℕ × Round1Response))
        (t : LocalTransport E)
        → collect_partials ⦃n = p2p_transport⦄ message ms responses (delayed t)
          ≡ delay (collect_partials ⦃n = local_transport⦄ message ms responses t)
    unfolding collect_partials in_p2p
    collect_partials-delay message ms [] t = refl
    collect_partials-delay message ms ((i, resp) ∷ responses) t =
        after-delay _ _
          (λ r t'.
            step-delay _ _ _ (collect_partials-delay message ms responses t')
              (λ partials t''. refl))
          (local_round2 i message ms t)

    complete-delay :
        ⦃s : Serde⦄
        → (group_public_key : Point) (acc : Collected) (t : LocalTransport E)
        → complete ⦃n = p2p_transport⦄ group_public_key acc (delayed t)
          ≡ delay (complete ⦃n = local_transport⦄ group_public_key acc t)
    unfolding complete
    complete-delay group_public_key acc t =
        after-delay _ _
          (λ transaction t'.
            after-delay _ _
              (λ commitments t''.
                step-delay _ _ _
                  (collect_partials-delay (signing_bytes transaction) commitments acc.responses t'')
                  (λ partials t₃.
                    after-delay _ _ (λ checked t₄. refl)
                      (
                        verify (aggregate (signing_bytes transaction) commitments partials)
                            group_public_key (signing_bytes transaction),
                        t₃,
                      )))
              (traverse (λ (p : ℕ × Round1Response). unwrap p.1.commitment) acc.responses, t'))
          (unwrap acc.transaction, t)

    -- Over the same nodes, with the same random bytes, and for any latency, `attest` returns the
    -- same with the delayed transport as with the local one, whatever the nodes answer.
    pub attest-new_p2p :
        ⦃s : Serde⦄
        → (nodes : List (CraftSecNode E)) (rng : State) (group_public_key : Point)
          (threshold node_count : ℕ) (request : AttestationRequest)
        → (attest
            (record {
              transport = new_p2p nodes latency rng;
              group_public_key = group_public_key;
              threshold = threshold;
              node_count = node_count;
            })
            request).0
          ≡ (attest
              (record {
                transport = new_local nodes rng;
                group_public_key = group_public_key;
                threshold = threshold;
                node_count = node_count;
              })
              request).0
    unfolding attest new_p2p
    attest-new_p2p nodes rng group_public_key threshold node_count request =
        ap (λ p. p.0)
          (step-delay _ _ _
            (collect-delay threshold request (span 0 node_count) collected_nothing
              (new_local nodes rng))
            (λ acc t. elim (Bool-cases (ltb (length acc.responses) threshold)) [
              | inl few ↦ rw few refl
              | inr enough ↦ rw enough (complete-delay group_public_key acc t)
            ]))

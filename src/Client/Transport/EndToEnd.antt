-- ===== src/Client/Transport/EndToEnd.antt =====
-- The whole attestation over local nodes: with enough approvals it succeeds.
use Prim.Native.Nat.{◌+◌}
use craftsec.Base.{
  ℕ, suc, ◌≤◌, ◌<◌, ◌≡◌, refl, ap, inl, inr, true, false, Option, none, some, List, [], ◌∷◌, ◌++◌,
  length, length-replicate, get_elem?, span, ltb, leb, Bool-cases, arith,
}
use craftsec.Base.Fresh.{Below-mono}
use craftsec.Curve.{Curve, Scalar}
use craftsec.Core.External.{Digests, RngCore, State, Json}
use craftsec.Core.Error.{Result, ok}
use craftsec.Core.Types.{AttestationRequest, Transaction, Serde, signing_bytes}
use craftsec.Dkg.Sharing.{public_key}
use craftsec.Signing.Frost.{SigningNonce}
use craftsec.Signing.Frost.Session.{Signer, indices, commitments_of}
use craftsec.Signing.Frost.Threshold.{threshold_signature-verifies}
use craftsec.Node.Node.{CraftSecNode, ProgramExecutor}
use craftsec.Client.Attest.{
  AttestedTransaction, Collected, collected_nothing, collect, complete, attest, verify_attested,
}
use craftsec.Client.Transport.{LocalTransport, local_transport, new_local}
use craftsec.Client.Transport.Rounds.{Approval, local_round1_cases}
use craftsec.Client.Transport.Steps.{
  with_approval, collect_one-refused, collect_one-approved, length-with_approval,
  transaction-with_approval,
}
use craftsec.Client.Transport.Gathering.{
  Ready, AllReady, Judged, approvals, NodesFrom, Gathered, first_node, other_nodes,
  approved-Gathered, refused-Gathered,
}
use craftsec.Client.Transport.Tracking.{
  Tracks-length, Tracks-AllHold, Tracks-commitments, Tracks-partials,
}

module _ ⦃c : Curve⦄ ⦃g : RngCore⦄ ⦃j : Json⦄ {E : Type 0} ⦃x : ProgramExecutor E⦄
    ⦃d : Digests⦄ where
  -- What the loop of round 1 ends with: enough responses, with their signers, and a transaction.
  pub record Enough (f : List Scalar) (request : AttestationRequest) (all : List (CraftSecNode E))
      (threshold bound : ℕ) (result : Result Collected × LocalTransport E) : Type 0 where
    pub acc : Collected
    pub t : LocalTransport E
    pub signers : List Signer
    pub last : ℕ
    pub tx : Transaction
    pub answer : result ≡ (ok acc, t)
    pub gathered : Gathered f request all last t acc signers
    pub within : last ≤ bound
    pub reached : threshold ≤ length acc.responses
    pub transaction : acc.transaction ≡ some tx

  module _ (f : List Scalar) (request : AttestationRequest) (all : List (CraftSecNode E))
      (threshold : ℕ) where
    -- The approval that makes the responses enough.
    last_step :
        (lo bound : ℕ) (t : LocalTransport E) (acc : Collected) (signers : List Signer)
        (node : CraftSecNode E)
        → Gathered f request all lo t acc signers
        → Ready f request lo node
        → get_elem? t.nodes lo ≡ some node
        → (a : Approval t lo node request) → suc lo ≤ bound
        → leb threshold (length (with_approval request acc lo t node a).responses) ≡ true
        → Enough f request all threshold bound (ok (with_approval request acc lo t node a), a.after)
    last_step lo bound t acc signers node h r at a within enough = record {
      acc = with_approval request acc lo t node a;
      t = a.after;
      signers = signers ++ (node.key_share, a.nonce) ∷ [];
      last = suc lo;
      tx = (transaction-with_approval request acc lo t node a).0;
      answer = refl;
      gathered = approved-Gathered f request all lo t acc signers node h r at a;
      within = within;
      reached = ground (arith, enough);
      transaction = (transaction-with_approval request acc lo t node a).1;
    }

    -- With enough approvals among the nodes still to come, the loop ends with enough responses.
    gather :
        (nodes : List (CraftSecNode E)) (lo bound : ℕ) (t : LocalTransport E) (acc : Collected)
        (signers : List Signer)
        → Gathered f request all lo t acc signers
        → NodesFrom t lo nodes
        → lo + length nodes ≡ bound
        → bound ≤ length t.nonces
        → AllReady f request lo nodes
        → length acc.responses < threshold
        → threshold ≤ length acc.responses + approvals request nodes
        → Enough f request all threshold bound
            (collect threshold request (span lo (length nodes)) acc t)
    unfolding collect
    gather [] lo bound t acc signers h from end fits ready few enough = absurd (omega arith)
    gather (node ∷ nodes) lo bound t acc signers h from end fits (r, ready) few enough =
        elim (local_round1_cases t lo node request (first_node t lo node nodes from) (omega arith)
          r.total) [
            | inl (votes, a) ↦
                rw
                  (collect_one-approved request threshold acc lo t node
                    (collect threshold request (span (suc lo) (length nodes))) a)
                  (elim (Bool-cases
                    (leb threshold (length (with_approval request acc lo t node a).responses))) [
                      | inl enough' ↦ rw enough' (
                          last_step lo bound t acc signers node h r
                            (first_node t lo node nodes from) a (omega arith) enough')
                      | inr more ↦ rw more (
                          gather nodes (suc lo) bound a.after
                            (with_approval request acc lo t node a)
                            (signers ++ (node.key_share, a.nonce) ∷ [])
                            (approved-Gathered f request all lo t acc signers node h r
                              (first_node t lo node nodes from) a)
                            (other_nodes t a.after lo node nodes a.keeps.nodes from) (omega arith)
                            (omega (arith, a.keeps.size)) ready
                            (let e = length-with_approval request acc lo t node a in
                              rw e (ground (arith, more, e)))
                            (let e = rw votes at enough in
                              rw (length-with_approval request acc lo t node a) (omega (arith, e))))
                    ])
            | inr (votes, a) ↦
                rw
                  (collect_one-refused request threshold acc lo t
                    (collect threshold request (span (suc lo) (length nodes))) few a)
                  (gather nodes (suc lo) bound a.after acc signers
                    (refused-Gathered f request all lo t acc signers h a)
                    (other_nodes t a.after lo node nodes a.keeps.nodes from) (omega arith)
                    (omega (arith, a.keeps.size)) ready few
                    (let e = rw votes at enough in omega (arith, e)))
          ]

  module _ ⦃s : Serde⦄ (f : List Scalar) (request : AttestationRequest) where
    -- Round 2 and the check succeed on what round 1 has gathered.
    complete-verified :
        (all : List (CraftSecNode E)) (threshold bound : ℕ)
        (result : Result Collected × LocalTransport E)
        → length f ≤ threshold
        → bound < c.order
        → (h : Enough f request all threshold bound result)
        → (a : AttestedTransaction) × (complete (public_key f) h.acc h.t ≡ (ok a, h.t))
          × (verify_attested a ≡ ok tt)
          × (a.group_public_key ≡ public_key f)
          × Judged request all a.transaction
    unfolding complete verify_attested
    complete-verified all threshold bound result size small h =
        let message = signing_bytes h.tx in
        let count = Tracks-length f h.last h.t h.acc.responses h.signers h.gathered.tracks in
        let (partials, signed, accepted) =
          threshold_signature-verifies f message h.signers
            (Tracks-AllHold f h.last h.t h.acc.responses h.signers h.gathered.tracks)
            (omega (arith, count, h.reached)) h.gathered.distinct
            (Below-mono (suc h.last) c.order (indices h.signers) (omega (arith, h.within))
              h.gathered.below) in
        (
          _,
          rw
              (
                h.transaction,
                Tracks-commitments f h.last h.t h.acc.responses h.signers h.gathered.tracks,
                Tracks-partials f h.last h.t message (commitments_of h.signers) h.acc.responses
                    h.signers partials h.gathered.tracks signed,
                accepted,
              )
              refl,
          accepted,
          refl,
          h.gathered.judged h.tx h.transaction,
        )

    start-Gathered :
        (nodes : List (CraftSecNode E)) (rng : State)
        → Gathered f request nodes 0 (new_local nodes rng) collected_nothing []
    unfolding new_local
    start-Gathered nodes rng = record {
      tracks = tt;
      distinct = tt;
      below = tt;
      judged = λ tx e. cc;
      nodes = refl;
    }

    -- A client over the local nodes that hold the shares 1, 2, ... of `f`, each by default and for
    -- the request's program, no program panicking: if at least `threshold` of the nodes approve the
    -- request (they do not freeze its program and find it valid), where `threshold` is positive and
    -- at least the number of coefficients of `f`, and the node count is below the group order, then
    -- `attest` returns an attested transaction, and that one verifies under the public key of `f`,
    -- which it carries. The program of one of the nodes returned its transaction for the request.
    pub attest_total :
        (threshold : ℕ) (nodes : List (CraftSecNode E)) (rng : State)
        → AllReady f request 0 nodes
        → length f ≤ threshold
        → 0 < threshold
        → threshold ≤ approvals request nodes
        → length nodes < c.order
        → (a : AttestedTransaction) × ((attest
              (record {
                transport = new_local nodes rng;
                group_public_key = public_key f;
                threshold = threshold;
                node_count = length nodes;
              })
              request).0
            ≡ ok a)
          × (verify_attested a ≡ ok tt)
          × (a.group_public_key ≡ public_key f)
          × Judged request nodes a.transaction
    unfolding attest new_local
    attest_total threshold nodes rng ready size positive enough small =
        let h =
          gather f request nodes threshold nodes 0 (length nodes) (new_local nodes rng)
            collected_nothing [] (start-Gathered nodes rng)
            (λ k. ap (get_elem? nodes) (omega arith)) (omega arith)
            (omega (arith, length-replicate {A = Option SigningNonce} (length nodes) none)) ready
            positive (omega arith) in
        let (a, answer, accepted, carried, judged) =
          complete-verified nodes threshold (length nodes) _ size small h in
        let counted : ltb (length h.acc.responses) threshold ≡ false = ground (arith, h.reached) in
        (a, rw (h.answer, counted, answer) refl, accepted, carried, judged)

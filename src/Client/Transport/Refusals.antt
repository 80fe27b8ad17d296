-- ===== src/Client/Transport/Refusals.antt =====
-- The attestation over local nodes with too few approvals: it fails with their number.
use Prim.Native.Nat.{◌+◌}
use craftsec.Base.{
  ℕ, zero, suc, ◌≤◌, ◌<◌, ◌≡◌, ◌≢◌, refl, ap, ◌∙◌, inl, inr, Option, none, true, false, List, [],
  ◌∷◌, length, length-replicate, get_elem?, span, ltb, leb, arith, if◌then◌else◌,
}
use craftsec.Curve.{Curve, Point}
use craftsec.Core.External.{Digests, RngCore, State, Json}
use craftsec.Core.Error.{Result, ok, err, panic, insufficient_shares}
use craftsec.Core.Action.{Action}
use craftsec.Core.Types.{AttestationRequest, Serde}
use craftsec.Signing.Frost.{SigningNonce}
use craftsec.Node.Node.{CraftSecNode, ProgramExecutor}
use craftsec.Client.Attest.{Collected, collected_nothing, collect, attest}
use craftsec.Client.Transport.{LocalTransport, local_transport, new_local}
use craftsec.Client.Transport.Rounds.{approves, local_round1_cases}
use craftsec.Client.Transport.Steps.{
  with_approval, collect_one-refused, collect_one-approved, length-with_approval,
}
use craftsec.Client.Transport.Gathering.{approvals, NodesFrom, first_node, other_nodes}

module _ ⦃c : Curve⦄ ⦃g : RngCore⦄ ⦃j : Json⦄ {E : Type 0} ⦃x : ProgramExecutor E⦄ where
  -- No node's program panics on the request.
  abbrev pub AllTotal : AttestationRequest → List (CraftSecNode E) → Type 0
  AllTotal request [] = Unit
  AllTotal request (node ∷ nodes) = (x.run node.registry request ≢ panic) × AllTotal request nodes

  module _ ⦃d : Digests⦄ (request : AttestationRequest) (threshold : ℕ) where
    -- The loop has ended with `n` responses.
    abbrev Few : Result Collected × LocalTransport E → ℕ → Type 0
    Few result n =
        (end : Collected) × (t : LocalTransport E) × (result ≡ (ok end, t))
        × (length end.responses ≡ n)

    Few-eq :
        {result result' : Result Collected × LocalTransport E} {n m : ℕ}
        → result ≡ result'
        → m ≡ n
        → Few result' m
        → Few result n
    Few-eq e same (end, t, loops, count) = (end, t, e ∙ loops, count ∙ same)

    -- The loop runs over all nodes and keeps a response for each approval.
    gather_all :
        (nodes : List (CraftSecNode E)) (lo : ℕ) (t : LocalTransport E) (acc : Collected)
        → NodesFrom t lo nodes
        → lo + length nodes ≤ length t.nonces
        → AllTotal request nodes
        → length acc.responses + approvals request nodes < threshold
        → Few
            (collect threshold request (span lo (length nodes)) acc t)
            (length acc.responses + approvals request nodes)
    unfolding collect
    gather_all [] lo t acc from fits total few = (acc, t, refl, omega arith)
    gather_all (node ∷ nodes) lo t acc from fits (r, total) few =
        let rest : Collected → Action (LocalTransport E) Collected =
          collect threshold request (span (suc lo) (length nodes)) in
        elim (local_round1_cases t lo node request (first_node t lo node nodes from) (omega arith)
          r) [
            | inl (votes, a) ↦
                let acc' = with_approval request acc lo t node a in
                let counted : (if approves node request then 1 else 0) ≡ suc zero = rw votes refl in
                let grown = length-with_approval request acc lo t node a in
                let more : leb threshold (length acc'.responses) ≡ false =
                  ground (arith, counted, grown) in
                Few-eq (collect_one-approved request threshold acc lo t node rest a ∙ rw more refl)
                  (omega (arith, counted, grown))
                  (gather_all nodes (suc lo) a.after acc'
                    (other_nodes t a.after lo node nodes a.keeps.nodes from)
                    (omega (arith, a.keeps.size)) total (omega (arith, counted, grown)))
            | inr (votes, a) ↦
                let counted : (if approves node request then 1 else 0) ≡ zero = rw votes refl in
                Few-eq
                  (collect_one-refused request threshold acc lo t rest (omega (arith, counted)) a)
                  (omega (arith, counted))
                  (gather_all nodes (suc lo) a.after acc
                    (other_nodes t a.after lo node nodes a.keeps.nodes from)
                    (omega (arith, a.keeps.size)) total (omega (arith, counted)))
          ]

    -- If fewer than `threshold` of the nodes of a local transport approve the request, and no
    -- node's program panics on it, `attest` fails with `InsufficientShares` and the number of
    -- approvals, whatever keys the nodes hold.
    pub attest_refused :
        ⦃s : Serde⦄
        → (nodes : List (CraftSecNode E)) (rng : State) (group_public_key : Point)
        → AllTotal request nodes
        → approvals request nodes < threshold
        → (attest
            (record {
              transport = new_local nodes rng;
              group_public_key = group_public_key;
              threshold = threshold;
              node_count = length nodes;
            })
            request).0
          ≡ err (insufficient_shares (approvals request nodes) threshold)
    unfolding attest new_local
    attest_refused nodes rng group_public_key total few =
        let (end, t, loops, count) =
          gather_all nodes 0 (new_local nodes rng) collected_nothing
            (λ k. ap (get_elem? nodes) (omega arith))
            (omega (arith, length-replicate {A = Option SigningNonce} (length nodes) none)) total
            (omega arith) in
        let short : ltb (length end.responses) threshold ≡ true = ground (arith, count) in
        rw (loops, short) (ap (λ n. err (insufficient_shares n threshold)) (omega (arith, count)))

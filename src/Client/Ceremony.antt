-- ===== src/Client/Ceremony.antt =====
-- Key generation, nodes and client together: the nodes of a ceremony attest.
use Prim.Native.Nat.{max}
use craftsec.Base.{
  some, get_elem?, sym, ℕ, zero, suc, ◌≤◌, ◌<◌, ◌≡◌, refl, ap, ◌∙◌, List, [], ◌∷◌, map, length,
  length-map, length-span, span, arith, true, u32_bound,
}
use craftsec.Base.Maps.{lookup, contains}
use craftsec.Curve.{Curve, Scalar}
use craftsec.Core.External.{Digests, RngCore, State, Json}
use craftsec.Core.Error.{ok}
use craftsec.Core.Types.{
  AttestationRequest, valid, Transaction, Serde, ThresholdConfig, IsValid, KeyShare,
}
use craftsec.Dkg.Polynomial.Horner.{add_coefficients}
use craftsec.Dkg.Sharing.{public_key, share_of, IsSharing}
use craftsec.Dkg.Feldman.{run_dkg}
use craftsec.Dkg.Feldman.Ceremony.{run_dkg-IsSharing}
use craftsec.Dkg.Rotation.{rotate_shares}
use craftsec.Dkg.Rotation.Refresh.{rotate_shares-IsSharing}
use craftsec.Node.Node.{CraftSecNode, ProgramExecutor, new_node, get_key_share, is_frozen}
use craftsec.Client.Attest.{AttestedTransaction, CraftSecClient, attest, verify_attested}
use craftsec.Client.Transport.{LocalTransport, new_local, local_transport}
use craftsec.Client.Transport.Rounds.{approves}
use craftsec.Client.Transport.Gathering.{Judged, some-injective, Ready, AllReady, approvals}
use craftsec.Client.Transport.EndToEnd.{attest_total}

module _ ⦃c : Curve⦄ ⦃g : RngCore⦄ ⦃j : Json⦄ {E : Type 0} ⦃x : ProgramExecutor E⦄ where
  -- One new node per share, each with the same registry.
  abbrev pub nodes_of : List KeyShare → E → List (CraftSecNode E)
  nodes_of shares registry = map (λ k. new_node k registry) shares

  -- A client of such nodes.
  abbrev pub client_of :
      List Scalar → ℕ → List KeyShare → E → State → CraftSecClient (LocalTransport E)
  client_of f threshold shares registry rng = record {
    transport = new_local (nodes_of shares registry) rng;
    group_public_key = public_key f;
    threshold = threshold;
    node_count = length (nodes_of shares registry);
  }

  module _ (request : AttestationRequest) (registry : E) (tx : Transaction) where
    share_of-Ready :
        (f : List Scalar) (n i : ℕ)
        → x.run registry request ≡ ok (valid tx)
        → Ready f request i (new_node (share_of f n (suc i)) registry)
    unfolding new_node get_key_share lookup
    share_of-Ready f n i h = record {
      secret = refl;
      key = refl;
      number = refl;
      default = refl;
      total = λ e. cc;
    }

    nodes_of-AllReady :
        (f : List Scalar) (n lo k : ℕ)
        → x.run registry request ≡ ok (valid tx)
        → AllReady f request lo (nodes_of (map (share_of f n) (span (suc lo) k)) registry)
    nodes_of-AllReady f n lo zero h = tt
    nodes_of-AllReady f n lo (suc k) h =
        (share_of-Ready f n lo h, nodes_of-AllReady f n (suc lo) k h)

    new_node-approves :
        (share : KeyShare)
        → x.run registry request ≡ ok (valid tx)
        → approves (new_node share registry) request ≡ true
    unfolding new_node is_frozen contains
    new_node-approves share h = rw h

    approvals-nodes_of :
        (shares : List KeyShare)
        → x.run registry request ≡ ok (valid tx)
        → approvals request (nodes_of shares registry) ≡ length shares
    approvals-nodes_of [] h = refl
    approvals-nodes_of (share ∷ shares) h =
        let e = approvals-nodes_of shares h in rw (new_node-approves share h) (omega (arith, e))

    nodes_of-registry :
        (shares : List KeyShare) (i : ℕ) (node : CraftSecNode E)
        → get_elem? (nodes_of shares registry) i ≡ some node
        → node.registry ≡ registry
    unfolding new_node
    nodes_of-registry [] i node e = cc
    nodes_of-registry (share ∷ shares) zero node e = ap (λ n. n.registry) (sym (some-injective e))
    nodes_of-registry (share ∷ shares) (suc i) node e = nodes_of-registry shares i node e

    -- What one of such nodes judges is the one judgement of the program.
    Judged-nodes_of :
        (shares : List KeyShare) (other : Transaction)
        → x.run registry request ≡ ok (valid tx)
        → Judged request (nodes_of shares registry) other
        → other ≡ tx
    Judged-nodes_of shares other h (i, node, at, run) =
        let e : ok (valid other) ≡ ok (valid tx) =
          sym run ∙ ap (λ r. x.run r request) (nodes_of-registry shares i node at) ∙ h in
        cc

    module _ ⦃d : Digests⦄ ⦃s : Serde⦄ where
      -- Nodes that hold the shares of `f` attest what their program accepts.
      pub sharing_attests :
          (f : List Scalar) (n threshold : ℕ) (shares : List KeyShare) (rng : State)
          → x.run registry request ≡ ok (valid tx)
          → IsSharing f n shares
          → length f ≤ threshold
          → 0 < threshold
          → threshold ≤ n
          → n < c.order
          → (a : AttestedTransaction) × ((attest
                (client_of f threshold shares registry rng)
                request).0
              ≡ ok a)
            × (verify_attested a ≡ ok tt)
            × (a.group_public_key ≡ public_key f)
            × (a.transaction ≡ tx)
      sharing_attests f n threshold shares rng h sharing size positive within small =
          let (a, answer, accepted, carried, judged) =
            attest_total f request threshold (nodes_of shares registry) rng
              (rw sharing (nodes_of-AllReady f n 0 n h)) size positive
              (let e = approvals-nodes_of shares h in omega (arith, e, count))
              (let e = length-map (λ k. new_node k registry) shares in omega (arith, e, count)) in
          (a, answer, accepted, carried, Judged-nodes_of shares a.transaction h judged)
        where
          count : length shares ≡ n
          count = ap length sharing ∙ length-map (share_of f n) (span 1 n) ∙ length-span 1 n

      -- A ceremony with a valid configuration succeeds and deals the shares of one polynomial. A
      -- client of nodes with these shares attests every request that the nodes' program accepts:
      -- it attests the program's transaction, under the polynomial's public key, which the result
      -- carries, and the result verifies. The number of participants is below the group order.
      pub run_dkg_attests :
          (config : ThresholdConfig) (start rng : State)
          → IsValid config
          → config.total < c.order
          → x.run registry request ≡ ok (valid tx)
          → (f : List Scalar) × (shares : List KeyShare) × (end : State) × (a : AttestedTransaction)
            × (run_dkg config start ≡ ok (shares, end))
            × IsSharing f config.total shares
            × ((attest (client_of f config.threshold shares registry rng) request).0 ≡ ok a)
            × (verify_attested a ≡ ok tt)
            × (a.group_public_key ≡ public_key f)
            × (a.transaction ≡ tx)
      run_dkg_attests config start rng v small h =
          let (f, shares, end, e, size, sharing) = run_dkg-IsSharing config start v in
          let (a, answer, accepted, carried, returned) =
            sharing_attests f config.total config.threshold shares rng h sharing
              (omega (arith, size)) v.positive v.within small in
          (f, shares, end, a, e, sharing, answer, accepted, carried, returned)

      -- Rotation keeps the attestations going: after the rotation of `n` shares of `f`, which
      -- succeeds, a client with the old group key and a threshold that is at least the number of
      -- coefficients of `f` and the new threshold attests over nodes with the new shares every
      -- request that their program accepts: the result has the program's transaction and the old
      -- key, and it verifies. There are at least `threshold` and at least one
      -- participants, fewer than the group order and than 2^32.
      pub rotate_shares_attests :
          (f : List Scalar) (n threshold : ℕ) (old_shares : List KeyShare)
          (config : ThresholdConfig) (start rng : State)
          → IsSharing f n old_shares
          → 0 < n
          → n < u32_bound
          → n < c.order
          → 0 < config.threshold
          → max (length f) config.threshold ≤ threshold
          → threshold ≤ n
          → x.run registry request ≡ ok (valid tx)
          → (shares : List KeyShare) × (end : State) × (a : AttestedTransaction) × (rotate_shares
                old_shares config start
              ≡ ok (shares, end))
            × ((attest (client_of f threshold shares registry rng) request).0 ≡ ok a)
            × (verify_attested a ≡ ok tt)
            × (a.group_public_key ≡ public_key f)
            × (a.transaction ≡ tx)
      rotate_shares_attests f n threshold old_shares config start rng old many fits small pos size
            within h =
          let (z, shares, end, e, sharing, _, _, key, l) =
            rotate_shares-IsSharing f n old_shares config start old many fits pos in
          let (a, answer, accepted, carried, returned) =
            sharing_attests (add_coefficients f z) n threshold shares rng h sharing
              (omega (arith, l, size)) (omega (arith, size, pos)) within small in
          (shares, end, a, e, rw key at answer, accepted, carried ∙ key, returned)

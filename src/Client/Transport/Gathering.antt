-- ===== src/Client/Transport/Gathering.antt =====
-- Round 1 of the client over local nodes, step by step: who has approved so far.
use Prim.Native.Nat.{◌+◌}
use craftsec.Base.{
  ℕ, suc, ◌≡◌, ◌≢◌, refl, sym, ap, ap₂, ◌∙◌, subst, Option, none, some, List, [], ◌∷◌, ◌++◌,
  get_elem?, arith, if◌then◌else◌,
}
use mathlib.Core.List.{map-append}
use craftsec.Base.Fresh.{Below, Below-mono, Below-snoc, Distinct, Distinct-snoc}
use craftsec.Curve.{Curve, Scalar, from_u64}
use craftsec.Core.External.{RngCore, Json}
use craftsec.Core.Error.{ok, panic}
use craftsec.Core.Types.{AttestationRequest, valid, Transaction}
use craftsec.Dkg.Polynomial.Horner.{horner}
use craftsec.Dkg.Sharing.{public_key}
use craftsec.Signing.Frost.{commitment_of}
use craftsec.Signing.Frost.Session.{Signer, indices}
use craftsec.Node.Node.{CraftSecNode, ProgramExecutor, get_key_share}
use craftsec.Client.Attest.{Collected, collect_response, first_transaction}
use craftsec.Client.Transport.{LocalTransport, local_transport}
use craftsec.Client.Transport.Rounds.{approves, Approval, Refusal}
use craftsec.Client.Transport.Tracking.{Tracks, Tracks-Keeps, Tracks-snoc}

pub some-injective : {A : Type 0} {a b : A} → some a ≡ some b → a ≡ b
some-injective e = cc

module _ ⦃c : Curve⦄ ⦃g : RngCore⦄ ⦃j : Json⦄ {E : Type 0} ⦃x : ProgramExecutor E⦄ where
  -- The node at position `i` holds the share of `f` with number `i + 1`, uses it for the program,
  -- and its program does not panic.
  pub record Ready (f : List Scalar) (request : AttestationRequest) (i : ℕ) (node : CraftSecNode E)
      : Type 0 where
    pub secret : node.key_share.secret ≡ horner f (from_u64 node.key_share.index)
    pub key : node.key_share.group_public_key ≡ public_key f
    pub number : node.key_share.index ≡ suc i
    pub default : get_key_share node request.program_cid ≡ node.key_share
    pub total : x.run node.registry request ≢ panic

  abbrev pub AllReady : List Scalar → AttestationRequest → ℕ → List (CraftSecNode E) → Type 0
  AllReady f request lo [] = Unit
  AllReady f request lo (node ∷ nodes) = Ready f request lo node × AllReady f request (suc lo) nodes

  -- How many of the nodes approve the request.
  abbrev pub approvals : AttestationRequest → List (CraftSecNode E) → ℕ
  approvals request [] = 0
  approvals request (node ∷ nodes) =
      (if approves node request then 1 else 0) + approvals request nodes

  -- From position `lo` on, the transport's nodes are these.
  abbrev pub NodesFrom : LocalTransport E → ℕ → List (CraftSecNode E) → Type 0
  NodesFrom t lo nodes = (k : ℕ) → get_elem? t.nodes (lo + k) ≡ get_elem? nodes k

  pub first_node :
      (t : LocalTransport E) (lo : ℕ) (node : CraftSecNode E) (nodes : List (CraftSecNode E))
      → NodesFrom t lo (node ∷ nodes)
      → get_elem? t.nodes lo ≡ some node
  first_node t lo node nodes h = let e : lo ≡ lo + 0 = omega arith in ap (get_elem? t.nodes) e ∙ h 0

  pub other_nodes :
      (t t' : LocalTransport E) (lo : ℕ) (node : CraftSecNode E) (nodes : List (CraftSecNode E))
      → t'.nodes ≡ t.nodes
      → NodesFrom t lo (node ∷ nodes)
      → NodesFrom t' (suc lo) nodes
  other_nodes t t' lo node nodes same h k =
      let e : suc lo + k ≡ lo + suc k = omega arith in ap₂ get_elem? same e ∙ h (suc k)

  -- The program of one of the nodes accepts the request with this transaction.
  abbrev pub Judged : AttestationRequest → List (CraftSecNode E) → Transaction → Type 0
  Judged request nodes tx =
      (i : ℕ) × (node : CraftSecNode E) × (get_elem? nodes i ≡ some node)
      × (x.run node.registry request ≡ ok (valid tx))

  first_transaction-Judged :
      (request : AttestationRequest) (nodes : List (CraftSecNode E)) (old : Option Transaction)
      (new tx : Transaction)
      → ((t : Transaction) → old ≡ some t → Judged request nodes t)
      → Judged request nodes new
      → first_transaction old new ≡ some tx
      → Judged request nodes tx
  first_transaction-Judged request nodes none new tx h k e =
      subst (Judged request nodes) (some-injective e) k
  first_transaction-Judged request nodes (some old) new tx h k e = h tx e

  module _ (f : List Scalar) (request : AttestationRequest) (all : List (CraftSecNode E)) where
    -- The state of the client before node `lo`.
    pub record Gathered (lo : ℕ) (t : LocalTransport E) (acc : Collected) (signers : List Signer)
        : Type 0 where
      pub tracks : Tracks f lo t acc.responses signers
      pub distinct : Distinct (indices signers)
      pub below : Below (suc lo) (indices signers)
      -- The transaction kept so far is one that a node's program returned.
      pub judged : (tx : Transaction) → acc.transaction ≡ some tx → Judged request all tx
      pub nodes : t.nodes ≡ all

    -- An approval adds a signer.
    pub approved-Gathered :
        (lo : ℕ) (t : LocalTransport E) (acc : Collected) (signers : List Signer)
        (node : CraftSecNode E)
        → Gathered lo t acc signers
        → Ready f request lo node
        → get_elem? t.nodes lo ≡ some node
        → (a : Approval t lo node request)
        → Gathered
            (suc lo)
            a.after
            (collect_response acc lo
              (record { result = valid a.tx; commitment = some (commitment_of a.nonce) })
              (valid a.tx))
            (signers ++ (node.key_share, a.nonce) ∷ [])
    unfolding collect_response
    approved-Gathered lo t acc signers node h r at a = record {
      tracks =
          Tracks-snoc f (suc lo) a.after acc.responses signers lo _ (node.key_share, a.nonce)
            (Tracks-Keeps f lo t a.after acc.responses signers a.keeps h.tracks)
            (record {
              node = node;
              at_node = ap (λ l. get_elem? l lo) a.keeps.nodes ∙ at;
              key = refl;
              stored = a.stored;
              committed = refl;
              holds = (r.secret, r.key, a.number ∙ ap (λ k. k.index) r.default);
              number = r.number;
              before = omega arith;
            });
      distinct =
          rw
            (
              map-append (λ (s : Signer). s.0.index) signers ((node.key_share, a.nonce) ∷ []),
              r.number,
            )
            (Distinct-snoc (suc lo) (indices signers) h.below h.distinct);
      below =
          rw
            (
              map-append (λ (s : Signer). s.0.index) signers ((node.key_share, a.nonce) ∷ []),
              r.number,
            )
            (Below-snoc (suc (suc lo)) (suc lo) (indices signers)
              (Below-mono (suc lo) (suc (suc lo)) (indices signers) (omega arith) h.below)
              (omega arith));
      judged = λ tx e.
          first_transaction-Judged request all acc.transaction a.tx tx h.judged
            (lo, node, ap (λ l. get_elem? l lo) (sym h.nodes) ∙ at, a.judged) e;
      nodes = a.keeps.nodes ∙ h.nodes;
    }

    -- A refusal changes nothing.
    pub refused-Gathered :
        (lo : ℕ) (t : LocalTransport E) (acc : Collected) (signers : List Signer)
        → Gathered lo t acc signers
        → (a : Refusal t lo request) → Gathered (suc lo) a.after acc signers
    refused-Gathered lo t acc signers h a = record {
      tracks = Tracks-Keeps f lo t a.after acc.responses signers a.keeps h.tracks;
      distinct = h.distinct;
      below = Below-mono (suc lo) (suc (suc lo)) (indices signers) (omega arith) h.below;
      judged = h.judged;
      nodes = a.keeps.nodes ∙ h.nodes;
    }

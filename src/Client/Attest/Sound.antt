-- ===== src/Client/Attest/Sound.antt =====
-- What a client may conclude from an attested transaction, over any transport.
pub mod Answers
use Prim.Native.Nat.{◌+◌ as nat_add}
use craftsec.Base.{
  ℕ, zero, suc, ◌≤◌, ◌≡◌, refl, sym, ap, ◌∙◌, subst, Option, none, some, List, [], ◌∷◌, ◌++◌, map,
  length, span, All, arith, ltb, leb, Bool-cases, inl, inr,
}
use mathlib.Core.List.{map-append}
use craftsec.Base.Fresh.{Below, Below-mono, Below-snoc, Distinct, Distinct-snoc}
use craftsec.Curve.{Curve, Point}
use craftsec.Core.External.{Digests, Json}
use craftsec.Core.Error.{Result, ok, err, panic, unwrap, traverse}
use craftsec.Core.Action.{Action}
use craftsec.Core.Action.Inversion.{after-eq-ok}
use craftsec.Core.Types.{
  AttestationRequest, AttestationResult, valid, invalid, Transaction, Serde, signing_bytes,
}
use craftsec.Signing.Frost.{aggregate, verify}
use craftsec.Client.Attest.Sound.Answers.{All-snoc, Answered, collect-Answered}
use craftsec.Client.Attest.{
  Round1Response, AttestedTransaction, NodeTransport, CraftSecClient, verify_attested, Collected,
  collected_nothing, first_transaction, collect_response, collect_one, collect, collect_partials,
  complete, attest,
}

module _ ⦃c : Curve⦄ ⦃j : Json⦄ where
  -- The node approved the transaction.
  abbrev pub Approved : ℕ × Round1Response → Type 0
  Approved p = (tx : Transaction) × (p.1.result ≡ valid tx)

  -- The transaction of the first response.
  abbrev first_approved : List (ℕ × Round1Response) → Option Transaction
  first_approved [] = none
  first_approved ((i, resp) ∷ rest) = elim resp.result [
    | valid tx ↦ some tx
    | invalid reason ↦ none
  ]

  -- The responses collected from nodes below `bound`: all approvals, from different nodes, and the
  -- transaction is that of the first.
  pub record IsCollected (bound : ℕ) (acc : Collected) : Type 0 where
    pub approved : All Approved acc.responses
    pub below : Below bound (map (λ p. p.0) acc.responses)
    pub distinct : Distinct (map (λ p. p.0) acc.responses)
    pub first : acc.transaction ≡ first_approved acc.responses

  pub nothing-IsCollected : IsCollected 0 collected_nothing
  nothing-IsCollected = record { approved = tt; below = tt; distinct = tt; first = refl }

  weaken : (n m : ℕ) (acc : Collected) → n ≤ m → IsCollected n acc → IsCollected m acc
  weaken n m acc h v = record {
    approved = v.approved;
    below = Below-mono n m (map (λ p. p.0) acc.responses) h v.below;
    distinct = v.distinct;
    first = v.first;
  }

  first-snoc :
      (l : List (ℕ × Round1Response)) (i : ℕ) (resp : Round1Response) (tx : Transaction)
      → All Approved l
      → resp.result ≡ valid tx
      → first_transaction (first_approved l) tx ≡ first_approved (l ++ (i, resp) ∷ [])
  first-snoc [] i resp tx h e = rw e refl
  first-snoc ((k, r) ∷ l) i resp tx h e = rw h.0.1 refl

  collect_response-IsCollected :
      (i : ℕ) (acc : Collected) (resp : Round1Response) (result : AttestationResult)
      → resp.result ≡ result
      → IsCollected i acc
      → IsCollected (suc i) (collect_response acc i resp result)
  unfolding collect_response
  collect_response-IsCollected i acc resp (valid tx) e v =
      let numbers = map (λ (p : ℕ × Round1Response). p.0) acc.responses in
      record {
        approved = All-snoc Approved acc.responses (i, resp) v.approved (tx, e);
        below = rw (map-append (λ (p : ℕ × Round1Response). p.0) acc.responses ((i, resp) ∷ [])) (
            Below-snoc (suc i) i numbers (Below-mono i (suc i) numbers (omega arith) v.below)
              (omega arith));
        distinct =
            rw (map-append (λ (p : ℕ × Round1Response). p.0) acc.responses ((i, resp) ∷ []))
              (Distinct-snoc i numbers v.below v.distinct);
        first =
            ap (λ o. first_transaction o tx) v.first
            ∙ first-snoc acc.responses i resp tx v.approved e;
      }
  collect_response-IsCollected i acc resp (invalid reason) e v =
      weaken i (suc i) acc (omega arith) v

  unwrap-eq-ok : {A : Type 0} (o : Option A) {a : A} → unwrap o ≡ ok a → o ≡ some a
  unwrap-eq-ok o h = ground arith

  module _ {T : Type 0} ⦃n : NodeTransport T⦄ where
    collect_one-IsCollected :
        (threshold i bound : ℕ) (rest : Collected → Action T Collected) (acc acc' : Collected)
        (answer : Result Round1Response × T) (t' : T)
        → suc i ≤ bound
        → IsCollected i acc
        → ((a : Collected) (t : T)
            → IsCollected (suc i) a
            → rest a t ≡ (ok acc', t')
            → IsCollected bound acc')
        → collect_one threshold acc i rest answer ≡ (ok acc', t')
        → IsCollected bound acc'
    unfolding collect_one
    collect_one-IsCollected threshold i bound rest acc acc' (ok resp, t) t' b v ih h =
        let a = collect_response acc i resp resp.result in
        let w = collect_response-IsCollected i acc resp resp.result refl v in
        elim (Bool-cases (leb threshold (length a.responses))) [
          | inl enough ↦
              let same : a ≡ acc' = cc (rw enough at h) in
              subst (IsCollected bound) same (weaken (suc i) bound a b w)
          | inr more ↦ ih a t w (rw more at h)
        ]
    collect_one-IsCollected threshold i bound rest acc acc' (err e, t) t' b v ih h =
        ih acc t (weaken i (suc i) acc (omega arith) v) h
    collect_one-IsCollected threshold i bound rest acc acc' (panic, t) t' b v ih h = cc

    pub collect-IsCollected :
        (threshold : ℕ) (request : AttestationRequest) (lo k bound : ℕ) (acc acc' : Collected)
        (t t' : T)
        → nat_add lo k ≡ bound
        → IsCollected lo acc
        → collect threshold request (span lo k) acc t ≡ (ok acc', t')
        → IsCollected bound acc'
    unfolding collect
    collect-IsCollected threshold request lo zero bound acc acc' t t' e v h =
        let same : acc ≡ acc' = cc in
        subst (IsCollected bound) same (weaken lo bound acc (omega arith) v)
    collect-IsCollected threshold request lo (suc k) bound acc acc' t t' e v h =
        collect_one-IsCollected threshold lo bound (collect threshold request (span (suc lo) k)) acc
          acc' (n.round1 lo request t) t' (omega arith) v
          (λ a t₁ w q.
            collect-IsCollected threshold request (suc lo) k bound a acc' t₁ t' (omega arith) w q)
          h

    module _ ⦃d : Digests⦄ ⦃s : Serde⦄ where
      complete-verified :
          (group_public_key : Point) (acc : Collected) (t : T) (a : AttestedTransaction)
          → (complete group_public_key acc t).0 ≡ ok a
          → (acc.transaction ≡ some a.transaction)
            × (a.group_public_key ≡ group_public_key)
            × (verify_attested a ≡ ok tt)
      unfolding complete verify_attested
      complete-verified key acc t a h =
          let (tx, t₁, e₁, h₁) = after-eq-ok _ (unwrap acc.transaction, t) h in
          let (ms, t₂, e₂, h₂) = after-eq-ok _ (traverse _ acc.responses, t₁) h₁ in
          let (ps, t₃, e₃, h₃) = after-eq-ok _ (collect_partials _ ms acc.responses t₂) h₂ in
          let (u, t₄, e₄, h₄) = after-eq-ok _ (verify _ key _, t₃) h₃ in
          let checked : verify (aggregate (signing_bytes tx) ms ps) key (signing_bytes tx) ≡ ok tt =
            cc in
          let built : record {
            transaction = tx;
            signature = aggregate (signing_bytes tx) ms ps;
            group_public_key = key;
          }
              ≡ a =
            cc in
          (
            unwrap-eq-ok acc.transaction (cc)
                ∙ ap (λ (b : AttestedTransaction). some b.transaction) built,
            ap (λ (b : AttestedTransaction). b.group_public_key) (sym built),
            subst (λ b. verify_attested b ≡ ok tt) built checked,
          )

      -- An attested transaction verifies under the client's group key. It is the transaction of the
      -- first collected response. There are at least `threshold` collected responses, with
      -- different node numbers below `node_count`; each approves a transaction, and is what round 1
      -- of the node with that number answered to the request in some state of the transport.
      pub attest_sound :
          (client : CraftSecClient T) (request : AttestationRequest) (a : AttestedTransaction)
          → (attest client request).0 ≡ ok a
          → (acc : Collected) × (t : T) × (collect client.threshold request
                (span 0 client.node_count)
                collected_nothing
                client.transport
              ≡ (ok acc, t))
            × IsCollected client.node_count acc
            × All (Answered T request) acc.responses
            × (client.threshold ≤ length acc.responses)
            × (acc.transaction ≡ some a.transaction)
            × (a.group_public_key ≡ client.group_public_key)
            × (verify_attested a ≡ ok tt)
      unfolding attest
      attest_sound client request a h =
          let (acc, t, e, h₁) = after-eq-ok _ (collect _ _ _ _ _) h in
          elim (Bool-cases (ltb (length acc.responses) client.threshold)) [
            | inl few ↦ cc (rw few at h₁)
            | inr enough ↦
                let (first, key, checked) =
                  complete-verified client.group_public_key acc t a (rw enough at h₁) in
                (
                  acc,
                  t,
                  e,
                  collect-IsCollected client.threshold request 0 client.node_count client.node_count
                      collected_nothing acc client.transport t (omega arith) nothing-IsCollected e,
                  collect-Answered T request client.threshold 0 client.node_count collected_nothing
                      acc client.transport t tt e,
                  ground arith,
                  first,
                  key,
                  checked,
                )
          ]

-- ===== src/Client/Attest/Contacts/Orderly.antt =====
-- The calls of `attest` in both rounds.
use craftsec.Base.{
  ℕ, zero, suc, ◌≤◌, ◌<◌, ◌≡◌, ◌≢◌, refl, sym, ap, ◌∙◌, List, [], ◌∷◌, ◌++◌, map, take, length,
  length-take, length-map, All, span, ltb, Bool-cases, inl, inr, arith, if◌then◌else◌,
}
use mathlib.Core.List.{append-nil, append_assoc}
use craftsec.Base.Fresh.{Distinct}
use craftsec.Curve.{Curve, Point}
use craftsec.Core.External.{Digests, Json}
use craftsec.Core.Error.{Result, ok, err, panic, unwrap, traverse, insufficient_shares}
use craftsec.Core.Error.Loops.{Result-cases}
use craftsec.Core.Action.{Action, after, lift}
use craftsec.Core.Types.{AttestationRequest, Serde, signing_bytes}
use craftsec.Signing.Frost.{SigningCommitment, aggregate, verify}
use craftsec.Client.Attest.{
  Round1Response, Round2Response, NodeTransport, CraftSecClient, Collected, collected_nothing,
  collect, collect_partials, complete, attest,
}
use craftsec.Client.Attest.Sound.{IsCollected, collect-IsCollected, nothing-IsCollected}
use craftsec.Client.Attest.Contacts.{
  first_round, second_round, IsOrderly, Logged, noted, logged, Ended, collect-Ended,
}

All-take : (P : ℕ → Type 0) (m : ℕ) (l : List ℕ) → All P l → All P (take m l)
All-take P zero l h = tt
All-take P (suc m) [] h = tt
All-take P (suc m) (a ∷ l) h = (h.0, All-take P m l h.1)

Distinct-take : (m : ℕ) (l : List ℕ) → Distinct l → Distinct (take m l)
Distinct-take zero l d = tt
Distinct-take (suc m) [] d = tt
Distinct-take (suc m) (a ∷ l) d = (All-take (λ b. a ≢ b) m l d.0, Distinct-take m l d.1)

module _ ⦃c : Curve⦄ ⦃j : Json⦄ {T : Type 0} ⦃y : NodeTransport T⦄ where
  -- What follows without a call keeps the log.
  kept :
      {A B : Type 0} (f : A → Result B) (r : Result A × Logged T)
      → (after (λ a. lift (f a)) r).1.contacts ≡ r.1.contacts
  kept f (ok a, l) = refl
  kept f (err e, l) = refl
  kept f (panic, l) = refl

  -- Round 2 ended after calls of the first of these nodes, without repetition.
  abbrev pub Signed :
      {A : Type 0} → Result A × Logged T → List (ℕ × Round1Response) → Logged T → Type 0
  Signed r responses l =
      (m : ℕ) × (m ≤ length responses)
      × (r.1.contacts ≡ l.contacts ++ map second_round (take m (map (λ p. p.0) responses)))

  collect_partials-Signed :
      (message : List ℕ) (commitments : List SigningCommitment)
      (responses : List (ℕ × Round1Response)) (l : Logged T)
      → Signed (collect_partials message commitments responses l) responses l
  unfolding collect_partials
  collect_partials-Signed message commitments [] l = (0, omega arith, sym (append-nil l.contacts))
  collect_partials-Signed message commitments ((i, resp) ∷ rest) l =
      called (y.round2 i message commitments l.inner)
        (λ l'. collect_partials-Signed message commitments rest l')
    where
      called :
          (answer : Result Round2Response × T)
          → ((l' : Logged T) → Signed (collect_partials message commitments rest l') rest l')
          → Signed
              (after
                (λ r l'.
                  after
                    (λ partials. lift (ok (r.partial ∷ partials)))
                    (collect_partials message commitments rest l'))
                (noted (l.contacts ++ second_round i ∷ []) answer))
              ((i, resp) ∷ rest)
              l
      called (err e, t') ih = (1, omega arith, refl)
      called (panic, t') ih = (1, omega arith, refl)
      called (ok r, t') ih =
          let l' : Logged T = record { inner = t'; contacts = l.contacts ++ second_round i ∷ [] } in
          let (m, within, log) = ih l' in
          (
            suc m,
            omega arith,
            kept (λ partials. ok (r.partial ∷ partials))
                  (collect_partials message commitments rest l')
                ∙ log
                ∙ append_assoc l.contacts (second_round i ∷ [])
                    (map second_round (take m (map (λ (p : ℕ × Round1Response). p.0) rest))),
          )

  after-state :
      {A B : Type 0} (f : A → Action (Logged T) B) (r : Result A × Logged T)
      → ((a : A) (l : Logged T) → (f a l).1 ≡ l)
      → (after f r).1 ≡ r.1
  after-state f (ok a, l) h = h a l
  after-state f (err e, l) h = refl
  after-state f (panic, l) h = refl

  module _ ⦃d : Digests⦄ ⦃s : Serde⦄ where
    complete-Signed :
        (group_public_key : Point) (acc : Collected) (l : Logged T)
        → Signed (complete group_public_key acc l) acc.responses l
    unfolding complete
    complete-Signed group_public_key acc l = elim (Result-cases (unwrap acc.transaction)) [
      | inl (transaction, e) ↦
          let message = signing_bytes transaction in
          let called = traverse (λ (p : ℕ × Round1Response). unwrap p.1.commitment) acc.responses in
          elim (Result-cases called) [
            | inl (commitments, e') ↦
                let (m, within, log) =
                  collect_partials-Signed message commitments acc.responses l in
                rw (e, e')
                  (
                    m,
                    within,
                    ap (λ t. t.contacts)
                          (after-state _ (collect_partials message commitments acc.responses l)
                            (λ partials t.
                              after-state _
                                (
                                  verify (aggregate message commitments partials) group_public_key
                                      message,
                                  t,
                                )
                                (λ done t'. refl)))
                        ∙ log,
                  )
            | inr (inl (failure, e')) ↦ rw (e, e') (0, omega arith, sym (append-nil l.contacts))
            | inr (inr e') ↦ rw (e, e') (0, omega arith, sym (append-nil l.contacts))
          ]
      | inr (inl (failure, e)) ↦ rw e (0, omega arith, sym (append-nil l.contacts))
      | inr (inr e) ↦ rw e (0, omega arith, sym (append-nil l.contacts))
    ]

    finish :
        (client : CraftSecClient (Logged T)) (request : AttestationRequest)
        (p : Result Collected × Logged T)
        → client.transport.contacts ≡ []
        → Ended client.threshold request p 0 client.node_count client.transport
        → ((acc : Collected) (l : Logged T) → p ≡ (ok acc, l) → IsCollected client.node_count acc)
        → IsOrderly client.node_count client.threshold
            (after
              (λ acc l.
                (if ltb (length acc.responses) client.threshold
                    then lift (err (insufficient_shares (length acc.responses) client.threshold))
                    else complete client.group_public_key acc)
                  l)
              p).1.contacts
    finish client request (err e, l) fresh (k, within, log, few) collected = record {
      asked = k;
      signers = [];
      order =
          log
          ∙ ap (λ cs. cs ++ map first_round (span 0 k)) fresh
          ∙ sym (append-nil (map first_round (span 0 k)));
      in_range = within;
      known = tt;
      distinct = tt;
      few = omega arith;
    }
    finish client request (panic, l) fresh (k, within, log, few) collected = record {
      asked = k;
      signers = [];
      order =
          log
          ∙ ap (λ cs. cs ++ map first_round (span 0 k)) fresh
          ∙ sym (append-nil (map first_round (span 0 k)));
      in_range = within;
      known = tt;
      distinct = tt;
      few = omega arith;
    }
    finish client request (ok acc, l) fresh (k, within, log, few) collected =
        let start = log ∙ ap (λ cs. cs ++ map first_round (span 0 k)) fresh in
        let numbers = map (λ (p : ℕ × Round1Response). p.0) acc.responses in
        elim (Bool-cases (ltb (length acc.responses) client.threshold)) [
          | inl short ↦ rw short (record {
            asked = k;
            signers = [];
            order = start ∙ sym (append-nil (map first_round (span 0 k)));
            in_range = within;
            known = tt;
            distinct = tt;
            few = omega arith;
          })
          | inr enough ↦
              let (m, part, signed) = complete-Signed client.group_public_key acc l in
              let v = collected acc l refl in
              rw enough (record {
                asked = k;
                signers = take m numbers;
                order = signed ∙ ap (λ cs. cs ++ map second_round (take m numbers)) start;
                in_range = within;
                known = All-take (λ a. a < client.node_count) m numbers v.below;
                distinct = Distinct-take m numbers v.distinct;
                few = omega (
                  arith,
                  few acc refl,
                  part,
                  length-take m numbers,
                  length-map (λ (p : ℕ × Round1Response). p.0) acc.responses,
                );
              })
        ]

    -- Over any transport, whatever the nodes answer and however the attestation ends: `attest`
    -- calls round 1 of the nodes `0, 1, …` in this order, each once and no more than there are, and
    -- only then round 2 of some of them, each once, of as many as the threshold at most (of one at
    -- most, if the threshold is zero).
    pub attest-IsOrderly :
        (client : CraftSecClient (Logged T)) (request : AttestationRequest)
        → client.transport.contacts ≡ []
        → IsOrderly client.node_count client.threshold (attest client request).1.contacts
    unfolding attest
    attest-IsOrderly client request fresh =
        let p =
          collect client.threshold request (span 0 client.node_count) collected_nothing
            client.transport in
        finish client request p fresh
          (collect-Ended client.threshold request 0 client.node_count collected_nothing
            client.transport (omega arith))
          (λ acc l e.
            collect-IsCollected client.threshold request 0 client.node_count client.node_count
              collected_nothing acc client.transport l (omega arith) nothing-IsCollected e)

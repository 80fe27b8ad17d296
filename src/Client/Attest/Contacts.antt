-- ===== src/Client/Attest/Contacts.antt =====
-- Which nodes `attest` contacts in round 1, in which order and how often, over any transport.
pub mod Orderly
use Prim.Native.Nat.{◌+◌, max}
use craftsec.Base.{
  ℕ, zero, suc, ◌≤◌, ◌<◌, ◌≡◌, ◌≢◌, refl, sym, ap, ◌∙◌, true, false, some, none, List, [], ◌∷◌,
  ◌++◌, map, take, length, length-append, length-take, length-map, All, span, leb, ltb, Bool-cases,
  inl, inr, arith, if◌then◌else◌,
}
use mathlib.Core.List.{append-nil, append_assoc}
use craftsec.Base.Fresh.{Below, Fresh, Distinct}
use craftsec.Curve.{Curve, Point}
use craftsec.Core.External.{Digests, Json}
use craftsec.Core.Error.{Result, ok, err, panic, unwrap, traverse, insufficient_shares}
use craftsec.Core.Error.Loops.{Result-cases}
use craftsec.Core.Action.{Action, after, lift}
use craftsec.Core.Types.{
  AttestationRequest, AttestationResult, valid, invalid, Serde, signing_bytes,
}
use craftsec.Signing.Frost.{SigningCommitment, PartialSignature, aggregate, verify}
use craftsec.Client.Attest.{
  Round1Response, Round2Response, AttestedTransaction, NodeTransport, CraftSecClient, Collected,
  collected_nothing, collect_response, collect_one, collect, collect_partials, complete, attest,
}
use craftsec.Client.Attest.Sound.{IsCollected, collect-IsCollected, nothing-IsCollected}

-- A call of a node.
pub data Contact : Type 0 where
  first_round : ℕ → Contact
  second_round : ℕ → Contact

-- The calls of a client with a log that starts empty: round 1 of the nodes from the first on,
-- and after that round 2 of some of the nodes.
pub record IsOrderly (node_count threshold : ℕ) (contacts : List Contact) : Type 0 where
  pub asked : ℕ
  pub signers : List ℕ
  pub order : contacts ≡ map first_round (span 0 asked) ++ map second_round signers
  pub in_range : asked ≤ node_count
  pub known : Below node_count signers
  pub distinct : Distinct signers
  pub few : length signers ≤ max threshold 1

-- A transport that keeps a list of its calls.
pub record Logged (T : Type 0) : Type 0 where
  pub inner : T
  pub contacts : List Contact

abbrev pub noted : {T A : Type 0} → List Contact → Result A × T → Result A × Logged T
noted contacts (r, t) = (r, record { inner = t; contacts = contacts })

module _ ⦃c : Curve⦄ ⦃j : Json⦄ where
  length-collect_response :
      (acc : Collected) (i : ℕ) (resp : Round1Response) (result : AttestationResult)
      → length (collect_response acc i resp result).responses ≤ suc (length acc.responses)
  unfolding collect_response
  length-collect_response acc i resp (valid tx) =
      omega (arith, length-append acc.responses ((i, resp) ∷ []))
  length-collect_response acc i resp (invalid reason) = omega arith

module _ ⦃c : Curve⦄ ⦃j : Json⦄ {T : Type 0} ⦃y : NodeTransport T⦄ where
  instance abbrev pub logged : NodeTransport (Logged T)
  logged = record {
    round1 = λ i request l. noted (l.contacts ++ first_round i ∷ []) (y.round1 i request l.inner);
    round2 = λ i message commitments l.
        noted (l.contacts ++ second_round i ∷ []) (y.round2 i message commitments l.inner);
  }

  module _ (threshold : ℕ) (request : AttestationRequest) where
    -- Round 1 ended after calls of `n` nodes at most, from `lo` on, with enough responses at most.
    abbrev pub Ended : Result Collected × Logged T → ℕ → ℕ → Logged T → Type 0
    Ended r lo n l =
        (k : ℕ) × (k ≤ n)
        × (r.1.contacts ≡ l.contacts ++ map first_round (span lo k))
        × ((acc : Collected) → r.0 ≡ ok acc → length acc.responses ≤ max threshold 1)

    -- One more call before the others.
    shifted :
        (l l' : Logged T) (r : Result Collected × Logged T) (lo n : ℕ)
        → l'.contacts ≡ l.contacts ++ first_round lo ∷ []
        → Ended r (suc lo) n l'
        → Ended r lo (suc n) l
    shifted l l' r lo n e (k, within, log, few) = (
      suc k,
      omega arith,
      log
          ∙ ap (λ cs. cs ++ map first_round (span (suc lo) k)) e
          ∙ append_assoc l.contacts (first_round lo ∷ []) (map first_round (span (suc lo) k)),
      few,
    )

    collect_one-Ended :
        (lo n : ℕ) (acc : Collected) (l : Logged T) (rest : Collected → Action (Logged T) Collected)
        (answer : Result Round1Response × T)
        → length acc.responses < max threshold 1
        → ((a : Collected) (l' : Logged T)
            → length a.responses < max threshold 1
            → Ended (rest a l') (suc lo) n l')
        → Ended
            (collect_one threshold acc lo rest (noted (l.contacts ++ first_round lo ∷ []) answer))
            lo
            (suc n)
            l
    unfolding collect_one
    collect_one-Ended lo n acc l rest (ok resp, t') room ih =
        let acc' = collect_response acc lo resp resp.result in
        let grown = length-collect_response acc lo resp resp.result in
        let l' : Logged T = record { inner = t'; contacts = l.contacts ++ first_round lo ∷ [] } in
        elim (Bool-cases (leb threshold (length acc'.responses))) [
          | inl full ↦ rw full (
            1,
            omega arith,
            refl,
            λ end e. let same : end ≡ acc' = cc in rw same (omega (arith, grown, room)),
          )
          | inr more ↦
              rw more (shifted l l' (rest acc' l') lo n refl (ih acc' l' (ground (arith, more))))
        ]
    collect_one-Ended lo n acc l rest (err e, t') room ih =
        let l' : Logged T = record { inner = t'; contacts = l.contacts ++ first_round lo ∷ [] } in
        shifted l l' (rest acc l') lo n refl (ih acc l' room)
    collect_one-Ended lo n acc l rest (panic, t') room ih = (1, omega arith, refl, λ end e. cc)

    pub collect-Ended :
        (lo n : ℕ) (acc : Collected) (l : Logged T)
        → length acc.responses < max threshold 1
        → Ended (collect threshold request (span lo n) acc l) lo n l
    unfolding collect
    collect-Ended lo zero acc l room = (
      0,
      omega arith,
      sym (append-nil l.contacts),
      λ end e. let same : end ≡ acc = cc in rw same (omega arith),
    )
    collect-Ended lo (suc n) acc l room =
        collect_one-Ended lo n acc l (collect threshold request (span (suc lo) n))
          (y.round1 lo request l.inner) room (λ a l' h. collect-Ended (suc lo) n a l' h)

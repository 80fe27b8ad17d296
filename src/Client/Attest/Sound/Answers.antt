-- ===== src/Client/Attest/Sound/Answers.antt =====
-- The responses that round 1 of a client collects are the answers of the nodes that they are
-- labelled with.
use craftsec.Base.{
  ℕ, ◌≡◌, refl, List, [], ◌∷◌, ◌++◌, length, span, zero, suc, All, leb, Bool-cases, inl, inr, subst,
}
use craftsec.Curve.{Curve}
use craftsec.Core.External.{Json}
use craftsec.Core.Error.{Result, ok, err, panic}
use craftsec.Core.Action.{Action}
use craftsec.Core.Types.{AttestationRequest, AttestationResult, valid, invalid}
use craftsec.Client.Attest.{
  Round1Response, NodeTransport, Collected, collect_response, collect_one, collect,
}

pub All-snoc :
    {A : Type 0} (P : A → Type 0) (l : List A) (p : A) → All P l → P p → All P (l ++ p ∷ [])
All-snoc P [] p h a = (a, tt)
All-snoc P (q ∷ l) p h a = (h.0, All-snoc P l p h.1 a)

module _ ⦃c : Curve⦄ ⦃j : Json⦄ (T : Type 0) ⦃n : NodeTransport T⦄
    (request : AttestationRequest) where
  -- The response is the answer of the node with its number to the request, in some state of the
  -- transport.
  abbrev pub Answered : ℕ × Round1Response → Type 0
  Answered p = (before : T) × (after : T) × (n.round1 p.0 request before ≡ (ok p.1, after))

  collect_response-Answered :
      (i : ℕ) (acc : Collected) (resp : Round1Response) (result : AttestationResult)
      → All Answered acc.responses
      → Answered (i, resp)
      → All Answered (collect_response acc i resp result).responses
  unfolding collect_response
  collect_response-Answered i acc resp (valid tx) h a =
      All-snoc Answered acc.responses (i, resp) h a
  collect_response-Answered i acc resp (invalid reason) h a = h

  collect_one-Answered :
      (threshold i : ℕ) (rest : Collected → Action T Collected) (acc acc' : Collected) (before : T)
      (answer : Result Round1Response × T) (end : T)
      → n.round1 i request before ≡ answer
      → All Answered acc.responses
      → ((a : Collected) (t : T)
          → All Answered a.responses
          → rest a t ≡ (ok acc', end)
          → All Answered acc'.responses)
      → collect_one threshold acc i rest answer ≡ (ok acc', end)
      → All Answered acc'.responses
  unfolding collect_one
  collect_one-Answered threshold i rest acc acc' before (ok resp, t) end asked v ih h =
      let a = collect_response acc i resp resp.result in
      let w = collect_response-Answered i acc resp resp.result v (before, t, asked) in
      elim (Bool-cases (leb threshold (length a.responses))) [
        | inl enough ↦
            let same : a ≡ acc' = cc (rw enough at h) in
            subst (λ b. All Answered b.responses) same w
        | inr more ↦ ih a t w (rw more at h)
      ]
  collect_one-Answered threshold i rest acc acc' before (err e, t) end asked v ih h = ih acc t v h
  collect_one-Answered threshold i rest acc acc' before (panic, t) end asked v ih h = cc

  pub collect-Answered :
      (threshold lo k : ℕ) (acc acc' : Collected) (t end : T)
      → All Answered acc.responses
      → collect threshold request (span lo k) acc t ≡ (ok acc', end)
      → All Answered acc'.responses
  unfolding collect
  collect-Answered threshold lo zero acc acc' t end v h =
      let same : acc ≡ acc' = cc in subst (λ b. All Answered b.responses) same v
  collect-Answered threshold lo (suc k) acc acc' t end v h =
      collect_one-Answered threshold lo (collect threshold request (span (suc lo) k)) acc acc' t
        (n.round1 lo request t) end refl v
        (λ a t₁ w q. collect-Answered threshold (suc lo) k a acc' t₁ end w q) h

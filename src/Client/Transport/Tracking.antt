-- ===== src/Client/Transport/Tracking.antt =====
-- The responses that the client has collected, with the signers behind them.
use craftsec.Base.{
  ℕ, suc, ◌<◌, ◌≡◌, refl, ap, ◌∙◌, some, List, [], ◌∷◌, ◌++◌, length, get_elem?, arith,
}
use craftsec.Curve.{Curve, Scalar}
use craftsec.Core.External.{Digests, RngCore, Json}
use craftsec.Core.Error.{ok, unwrap, traverse}
use craftsec.Core.Types.{KeyShare}
use craftsec.Core.Error.Loops.{>>=-eq-ok}
use craftsec.Signing.Frost.{
  SigningNonce, SigningCommitment, PartialSignature, commitment_of, sign_partial,
}
use craftsec.Signing.Frost.Session.{Signer, commitments_of, Holds, AllHold}
use craftsec.Node.Node.{CraftSecNode, ProgramExecutor, sign}
use craftsec.Client.Attest.{Round1Response, collect_partials}
use craftsec.Client.Transport.{LocalTransport, local_round2, local_transport}
use craftsec.Client.Transport.Rounds.{Keeps}

module _ ⦃c : Curve⦄ ⦃d : Digests⦄ where
  sign_partial_total :
      (k : KeyShare) (nonce : SigningNonce) (message : List ℕ) (ms : List SigningCommitment)
      → (p : PartialSignature) × (sign_partial k nonce message ms ≡ ok p)
  unfolding sign_partial
  sign_partial_total k nonce message ms = (_, refl)

module _ ⦃c : Curve⦄ ⦃g : RngCore⦄ ⦃j : Json⦄ {E : Type 0} where
  -- A response of node `i` below `lo`: the node has the signer's share of `f`, number `i + 1`, and
  -- the transport holds the signer's nonce, of which the response carries the commitment.
  pub record Entry (f : List Scalar) (lo : ℕ) (t : LocalTransport E) (i : ℕ) (resp : Round1Response)
      (s : Signer) : Type 0 where
    pub node : CraftSecNode E
    pub at_node : get_elem? t.nodes i ≡ some node
    pub key : s.0 ≡ node.key_share
    pub stored : get_elem? t.nonces i ≡ some (some s.1)
    pub committed : resp.commitment ≡ some (commitment_of s.1)
    pub holds : Holds f s
    pub number : s.0.index ≡ suc i
    pub before : i < lo

  abbrev pub Tracks :
      List Scalar → ℕ → LocalTransport E → List (ℕ × Round1Response) → List Signer → Type 0
  Tracks f lo t [] [] = Unit
  Tracks f lo t [] (s ∷ signers) = ⊥
  Tracks f lo t ((i, resp) ∷ responses) [] = ⊥
  Tracks f lo t ((i, resp) ∷ responses) (s ∷ signers) =
      Entry f lo t i resp s × Tracks f lo t responses signers

  module _ (f : List Scalar) where
    -- Round 1 at the next node leaves the entries of the earlier ones.
    Entry-Keeps :
        (lo i : ℕ) (t t' : LocalTransport E) (resp : Round1Response) (s : Signer)
        → Keeps lo t t'
        → Entry f lo t i resp s
        → Entry f (suc lo) t' i resp s
    Entry-Keeps lo i t t' resp s k e = record {
      node = e.node;
      at_node = ap (λ l. get_elem? l i) k.nodes ∙ e.at_node;
      key = e.key;
      stored = k.others i (λ same. absurd (omega (arith, same, e.before))) ∙ e.stored;
      committed = e.committed;
      holds = e.holds;
      number = e.number;
      before = omega (arith, e.before);
    }

    pub Tracks-Keeps :
        (lo : ℕ) (t t' : LocalTransport E) (responses : List (ℕ × Round1Response))
        (signers : List Signer)
        → Keeps lo t t'
        → Tracks f lo t responses signers
        → Tracks f (suc lo) t' responses signers
    Tracks-Keeps lo t t' [] [] k h = tt
    Tracks-Keeps lo t t' [] (s ∷ signers) k h = h
    Tracks-Keeps lo t t' ((i, resp) ∷ responses) [] k h = h
    Tracks-Keeps lo t t' ((i, resp) ∷ responses) (s ∷ signers) k h =
        (Entry-Keeps lo i t t' resp s k h.0, Tracks-Keeps lo t t' responses signers k h.1)

    pub Tracks-snoc :
        (lo : ℕ) (t : LocalTransport E) (responses : List (ℕ × Round1Response))
        (signers : List Signer) (i : ℕ) (resp : Round1Response) (s : Signer)
        → Tracks f lo t responses signers
        → Entry f lo t i resp s
        → Tracks f lo t (responses ++ (i, resp) ∷ []) (signers ++ s ∷ [])
    Tracks-snoc lo t [] [] i resp s h e = (e, tt)
    Tracks-snoc lo t [] (x ∷ signers) i resp s h e = absurd h
    Tracks-snoc lo t ((k, r) ∷ responses) [] i resp s h e = absurd h
    Tracks-snoc lo t ((k, r) ∷ responses) (x ∷ signers) i resp s h e =
        (h.0, Tracks-snoc lo t responses signers i resp s h.1 e)

    pub Tracks-length :
        (lo : ℕ) (t : LocalTransport E) (responses : List (ℕ × Round1Response))
        (signers : List Signer)
        → Tracks f lo t responses signers
        → length signers ≡ length responses
    Tracks-length lo t [] [] h = refl
    Tracks-length lo t [] (x ∷ signers) h = absurd h
    Tracks-length lo t ((k, r) ∷ responses) [] h = absurd h
    Tracks-length lo t ((k, r) ∷ responses) (x ∷ signers) h =
        ap suc (Tracks-length lo t responses signers h.1)

    pub Tracks-AllHold :
        (lo : ℕ) (t : LocalTransport E) (responses : List (ℕ × Round1Response))
        (signers : List Signer)
        → Tracks f lo t responses signers
        → AllHold f signers
    Tracks-AllHold lo t [] [] h = tt
    Tracks-AllHold lo t [] (x ∷ signers) h = absurd h
    Tracks-AllHold lo t ((k, r) ∷ responses) [] h = absurd h
    Tracks-AllHold lo t ((k, r) ∷ responses) (x ∷ signers) h =
        (h.0.holds, Tracks-AllHold lo t responses signers h.1)

    -- The client finds a commitment in every response.
    pub Tracks-commitments :
        (lo : ℕ) (t : LocalTransport E) (responses : List (ℕ × Round1Response))
        (signers : List Signer)
        → Tracks f lo t responses signers
        → traverse (λ (p : ℕ × Round1Response). unwrap p.1.commitment) responses
          ≡ ok (commitments_of signers)
    unfolding traverse
    Tracks-commitments lo t [] [] h = refl
    Tracks-commitments lo t [] (x ∷ signers) h = absurd h
    Tracks-commitments lo t ((k, r) ∷ responses) [] h = absurd h
    Tracks-commitments lo t ((k, r) ∷ responses) (x ∷ signers) h =
        rw (h.0.committed, Tracks-commitments lo t responses signers h.1)

    module _ ⦃x : ProgramExecutor E⦄ ⦃d : Digests⦄ where
      -- A partial signature that a signer makes is the node's answer in round 2.
      Entry-round2 :
          (lo i : ℕ) (t : LocalTransport E) (resp : Round1Response) (s : Signer) (message : List ℕ)
          (ms : List SigningCommitment) (p : PartialSignature)
          → Entry f lo t i resp s
          → sign_partial s.0 s.1 message ms ≡ ok p
          → local_round2 i message ms t ≡ (ok (record { partial = p }), t)
      unfolding local_round2 sign
      Entry-round2 lo i t resp s message ms p e h = rw (e.stored, e.at_node, ← e.key, h)

      -- Round 2 collects the partial signatures of the signers.
      pub Tracks-partials :
          (lo : ℕ) (t : LocalTransport E) (message : List ℕ) (ms : List SigningCommitment)
          (responses : List (ℕ × Round1Response)) (signers : List Signer)
          (partials : List PartialSignature)
          → Tracks f lo t responses signers
          → traverse (λ (s : Signer). sign_partial s.0 s.1 message ms) signers ≡ ok partials
          → collect_partials message ms responses t ≡ (ok partials, t)
      unfolding collect_partials traverse
      Tracks-partials lo t message ms [] [] partials h e = cc
      Tracks-partials lo t message ms [] (s ∷ signers) partials h e = absurd h
      Tracks-partials lo t message ms ((i, resp) ∷ responses) [] partials h e = absurd h
      Tracks-partials lo t message ms ((i, resp) ∷ responses) (s ∷ signers) partials h e =
          let (p, signed) = sign_partial_total s.0 s.1 message ms in
          let (rest, others, whole) =
            >>=-eq-ok (traverse (λ (s : Signer). sign_partial s.0 s.1 message ms) signers)
              (λ ps. ok (p ∷ ps)) (rw signed at e) in
          rw
            (
              Entry-round2 lo i t resp s message ms p h.0 signed,
              Tracks-partials lo t message ms responses signers rest h.1 others,
            )
            (ap (λ r. (r, t)) whole)

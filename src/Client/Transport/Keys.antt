-- ===== src/Client/Transport/Keys.antt =====
-- Which key share round 2 of the local transport signs with.
use craftsec.Base.{
  ℕ, zero, suc, text, ◌≡◌, refl, Option, none, some, List, [], ◌∷◌, map, Text, get_elem?,
}
use craftsec.Curve.{Curve}
use craftsec.Core.External.{Digests, RngCore, Json}
use craftsec.Core.Error.{Result, ok, unwrap, ok_or, index, invalid_signature, ◌>>=◌}
use craftsec.Core.Types.{KeyShare}
use craftsec.Client.Attest.{Round2Response}
use craftsec.Signing.Frost.{SigningNonce, SigningCommitment}
use craftsec.Node.Node.{NodeSignature, ProgramExecutor, register_key, sign}
use craftsec.Client.Transport.{LocalTransport, local_round2}

-- A call that gives the same for `f a` as for `a` does so at a position of the list.
index-map :
    {A B : Type 0} (f : A → A) (call : A → Result B)
    → ((a : A) → call (f a) ≡ call a)
    → (l : List A) (i : ℕ) → (index (map f l) i >>= call) ≡ (index l i >>= call)
index-map f call h [] i = refl
index-map f call h (a ∷ l) zero = h a
index-map f call h (a ∷ l) (suc i) = index-map f call h l i

abbrev answer : ⦃c : Curve⦄ → NodeSignature → Result Round2Response
answer sig = ok (record { partial = sig.partial })

module _ ⦃c : Curve⦄ ⦃g : RngCore⦄ {E : Type 0} (cid : Text) (share : KeyShare) where
  -- Every node registers the share for the program.
  abbrev pub register_all : LocalTransport E → LocalTransport E
  register_all t = record t { nodes = map (λ node. register_key node cid share) t.nodes }

  module _ ⦃j : Json⦄ ⦃x : ProgramExecutor E⦄ ⦃d : Digests⦄ where
    -- Round 2 of the local transport gives the same answer whatever share the nodes register for a
    -- program.
    pub local_round2-register_all :
        (t : LocalTransport E) (i : ℕ) (message : List ℕ) (ms : List SigningCommitment)
        → (local_round2 i message ms (register_all t)).0 ≡ (local_round2 i message ms t).0
    unfolding local_round2 sign register_key
    local_round2-register_all t i message ms = go (get_elem? t.nonces i)
      where
        go :
            (o : Option (Option SigningNonce))
            → (unwrap o >>= λ entry. ok_or entry (invalid_signature (text "no nonce")) >>= λ nonce.
                index (register_all t).nodes i >>= λ node.
                sign node nonce message ms >>= λ sig. answer sig)
              ≡ (unwrap o >>= λ entry.
                  ok_or entry (invalid_signature (text "no nonce")) >>= λ nonce.
                  index t.nodes i >>= λ node. sign node nonce message ms >>= λ sig. answer sig)
        go none = refl
        go (some none) = refl
        go (some (some nonce)) =
            index-map (λ node. register_key node cid share) _ (λ node. refl) t.nodes i

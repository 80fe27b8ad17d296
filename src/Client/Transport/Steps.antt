-- ===== src/Client/Transport/Steps.antt =====
-- One step of round 1 over the local transport: a node that approves, and one that does not.
use Prim.Native.Nat.{◌+◌}
use craftsec.Base.{
  ℕ, ◌<◌, ◌≡◌, refl, ◌⊎◌, inl, inr, Option, none, some, Text, length, length-append, leb, arith,
  if◌then◌else◌,
}
use craftsec.Curve.{Curve}
use craftsec.Core.External.{Digests, RngCore, Json}
use craftsec.Core.Error.{CraftSecError, ok, err}
use craftsec.Core.Action.{Action}
use craftsec.Core.Types.{AttestationRequest, valid, invalid, Transaction}
use craftsec.Signing.Frost.{commitment_of}
use craftsec.Node.Node.{CraftSecNode, ProgramExecutor}
use craftsec.Client.Attest.{
  Round1Response, Collected, first_transaction, collect_response, collect_one,
}
use craftsec.Client.Transport.{LocalTransport, local_round1, local_transport}
use craftsec.Client.Transport.Rounds.{Approval, Refusal}

module _ ⦃c : Curve⦄ ⦃g : RngCore⦄ ⦃j : Json⦄ {E : Type 0} ⦃x : ProgramExecutor E⦄
    ⦃d : Digests⦄ where
  module _ (request : AttestationRequest) where
    -- The client's state after the node's approval.
    abbrev pub with_approval :
        Collected
        → (lo : ℕ) (t : LocalTransport E) (node : CraftSecNode E) → Approval t lo node request
        → Collected
    with_approval acc lo t node a =
        collect_response acc lo
          (record { result = valid a.tx; commitment = some (commitment_of a.nonce) }) (valid a.tx)

    pub length-with_approval :
        (acc : Collected) (lo : ℕ) (t : LocalTransport E) (node : CraftSecNode E)
        (a : Approval t lo node request)
        → length (with_approval acc lo t node a).responses ≡ length acc.responses + 1
    unfolding collect_response
    length-with_approval acc lo t node a = length-append acc.responses _

    pub transaction-with_approval :
        (acc : Collected) (lo : ℕ) (t : LocalTransport E) (node : CraftSecNode E)
        (a : Approval t lo node request)
        → (tx : Transaction) × ((with_approval acc lo t node a).transaction ≡ some tx)
    unfolding collect_response
    transaction-with_approval acc lo t node a = go acc.transaction
      where
        go : (o : Option Transaction) → (tx : Transaction) × (first_transaction o a.tx ≡ some tx)
        go none = (a.tx, refl)
        go (some tx) = (tx, refl)

    module _ (threshold : ℕ) where
      pub collect_one-refused :
          (acc : Collected) (lo : ℕ) (t : LocalTransport E)
          (rest : Collected → Action (LocalTransport E) Collected)
          → length acc.responses < threshold
          → (a : Refusal t lo request)
          → collect_one threshold acc lo rest (local_round1 lo request t) ≡ rest acc a.after
      unfolding collect_one collect_response
      collect_one-refused acc lo t rest few a = rw a.answer (go a.declines)
        where
          go :
              ((resp : Round1Response) × (reason : Text) × (a.result ≡ ok resp)
                  × (resp.result ≡ invalid reason))
                ⊎ ((e : CraftSecError) × (a.result ≡ err e))
              → collect_one threshold acc lo rest (a.result, a.after) ≡ rest acc a.after
          go (inl (resp, reason, e, r)) = rw (e, r) (ground arith)
          go (inr (e, h)) = rw h refl

      pub collect_one-approved :
          (acc : Collected) (lo : ℕ) (t : LocalTransport E) (node : CraftSecNode E)
          (rest : Collected → Action (LocalTransport E) Collected)
          → (a : Approval t lo node request)
          → collect_one threshold acc lo rest (local_round1 lo request t) ≡ (
              if leb threshold (length (with_approval acc lo t node a).responses)
              then (ok (with_approval acc lo t node a), a.after)
              else rest (with_approval acc lo t node a) a.after)
      unfolding collect_one
      collect_one-approved acc lo t node rest a = rw a.answer refl

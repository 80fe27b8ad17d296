-- ===== src/Client/Attest.antt =====
-- crates/client/src/lib.rs. A transport of type `T` is a state that the calls to the nodes change.
pub mod Sound
pub mod Contacts
use craftsec.Base.{
  ℕ, Option, none, some, List, [], ◌∷◌, ◌++◌, length, span, ltb, leb, if◌then◌else◌,
}
use craftsec.Curve.{Curve, Point}
use craftsec.Core.External.{Digests, Json}
use craftsec.Core.Error.{Result, ok, err, panic, insufficient_shares, unwrap, traverse}
use craftsec.Core.Action.{Action, ◌>>=◌, ◌>>◌, lift}
use craftsec.Core.Types.{
  AttestationRequest, AttestationResult, valid, invalid, Transaction, Serde, signing_bytes,
}
use craftsec.Signing.Frost.{
  SigningCommitment, PartialSignature, ThresholdSignature, aggregate, verify,
}

module _ ⦃c : Curve⦄ where
  pub record Round2Response : Type 0 where
    pub partial : PartialSignature

  module _ ⦃j : Json⦄ where
    pub record Round1Response : Type 0 where
      pub result : AttestationResult
      pub commitment : Option SigningCommitment

    pub record AttestedTransaction : Type 0 where
      pub transaction : Transaction
      pub signature : ThresholdSignature
      pub group_public_key : Point

    -- The trait `NodeTransport`.
    pub record NodeTransport (T : Type 0) : Type 0 where
      pub round1 : ℕ → AttestationRequest → Action T Round1Response
      pub round2 : ℕ → List ℕ → List SigningCommitment → Action T Round2Response

    pub record CraftSecClient (T : Type 0) : Type 0 where
      pub transport : T
      pub group_public_key : Point
      pub threshold : ℕ
      pub node_count : ℕ

    -- `CraftSecClient::new`.
    unfoldable pub new_client : {T : Type 0} → T → Point → ℕ → ℕ → CraftSecClient T
    new_client transport group_public_key threshold node_count = record {
      transport = transport;
      group_public_key = group_public_key;
      threshold = threshold;
      node_count = node_count;
    }

    -- `AttestedTransaction::verify`.
    unfoldable pub verify_attested :
        ⦃d : Digests⦄ → ⦃s : Serde⦄ → AttestedTransaction → Result (Unit {0})
    verify_attested a = verify a.signature a.group_public_key (signing_bytes a.transaction)

    -- The variables `valid_responses` and `transaction` of round 1.
    pub record Collected : Type 0 where
      pub responses : List (ℕ × Round1Response)
      pub transaction : Option Transaction

    abbrev pub collected_nothing : Collected
    collected_nothing = record { responses = []; transaction = none }

    -- `if transaction.is_none() { transaction = Some(tx.clone()) }`.
    abbrev pub first_transaction : Option Transaction → Transaction → Option Transaction
    first_transaction none tx = some tx
    first_transaction (some old) tx = some old

    -- One response: only a valid one is kept.
    unfoldable pub collect_response : Collected → ℕ → Round1Response → AttestationResult → Collected
    collect_response acc i resp (valid tx) = record {
      responses = acc.responses ++ (i, resp) ∷ [];
      transaction = first_transaction acc.transaction tx;
    }
    collect_response acc i resp (invalid reason) = acc

    module _ {T : Type 0} ⦃n : NodeTransport T⦄ where
      -- The body of the loop of round 1 at node `i`, given the rest of the loop and the node's
      -- answer. An error skips the node, and with it the test for enough responses.
      unfoldable pub collect_one :
          ℕ
          → Collected
          → ℕ
          → (Collected → Action T Collected)
          → Result Round1Response × T
          → Result Collected × T
      collect_one threshold acc i rest (ok resp, t') =
          let acc' = collect_response acc i resp resp.result in
          let continued = rest acc' t' in
          if leb threshold (length acc'.responses) then (ok acc', t') else continued
      collect_one threshold acc i rest (err e, t') = rest acc t'
      collect_one threshold acc i rest (panic, t') = (panic, t')

      -- The loop `for i in 0..self.node_count`.
      unfoldable pub collect : ℕ → AttestationRequest → List ℕ → Collected → Action T Collected
      collect threshold request [] acc t = (ok acc, t)
      collect threshold request (i ∷ is) acc t =
          collect_one threshold acc i (collect threshold request is) (n.round1 i request t)

      -- The loop of round 2. The first error is returned.
      unfoldable pub collect_partials :
          List ℕ
          → List SigningCommitment
          → List (ℕ × Round1Response)
          → Action T (List PartialSignature)
      collect_partials message commitments [] = lift (ok [])
      collect_partials message commitments ((i, resp) ∷ rest) = do
        r ← n.round2 i message commitments
        partials ← collect_partials message commitments rest
        lift (ok (r.partial ∷ partials))

      module _ ⦃d : Digests⦄ ⦃s : Serde⦄ where
        -- The second half of `attest`, once enough nodes have responded.
        unfoldable pub complete : Point → Collected → Action T AttestedTransaction
        complete group_public_key acc = do
          transaction ← lift (unwrap acc.transaction)
          let message = signing_bytes transaction
          commitments ←
              lift (traverse (λ (p : ℕ × Round1Response). unwrap p.1.commitment) acc.responses)
          partials ← collect_partials message commitments acc.responses
          let signature = aggregate message commitments partials
          lift (verify signature group_public_key message)
          lift (
              ok (record {
                transaction = transaction;
                signature = signature;
                group_public_key = group_public_key;
              }))

        unfoldable pub attest :
            CraftSecClient T → AttestationRequest → Result AttestedTransaction × T
        attest client request =
            (do
              acc ← collect client.threshold request (span 0 client.node_count) collected_nothing
              if ltb (length acc.responses) client.threshold
                  then lift (err (insufficient_shares (length acc.responses) client.threshold))
                  else complete client.group_public_key acc)
              client.transport

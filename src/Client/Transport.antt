-- ===== src/Client/Transport.antt =====
-- crates/client/src/transport.rs. The generator `OsRng` is part of the transport's state, and
-- `thread::sleep` takes time and nothing else.
pub mod Rounds
pub mod Tracking
pub mod Gathering
pub mod Steps
pub mod EndToEnd
pub mod Refusals
pub mod Latency
pub mod Keys
use craftsec.Base.{ℕ, Option, none, List, length, replicate, set, text, ltb, if◌then◌else◌}
use craftsec.Curve.{Curve}
use craftsec.Core.External.{Digests, RngCore, State, Json}
use craftsec.Core.Error.{Result, ok, err, panic, invalid_signature, index, ok_or, ◌>>=◌}
use craftsec.Core.Types.{AttestationRequest}
use craftsec.Core.Action.{Action}
use craftsec.Signing.Frost.{SigningNonce, SigningCommitment}
use craftsec.Node.Node.{CraftSecNode, NodeResponse, ProgramExecutor, process_request, sign}
use craftsec.Client.Attest.{Round1Response, Round2Response, NodeTransport}

module _ ⦃c : Curve⦄ ⦃g : RngCore⦄ where
  pub record LocalTransport (E : Type 0) : Type 0 where
    pub nodes : List (CraftSecNode E)
    pub nonces : List (Option SigningNonce)
    pub os_rng : State

  pub record P2pTransport (E : Type 0) : Type 0 where
    pub inner : LocalTransport E
    pub latency : ℕ

  module _ {E : Type 0} where
    -- `LocalTransport::new`.
    unfoldable pub new_local : List (CraftSecNode E) → State → LocalTransport E
    new_local nodes rng = record {
      nodes = nodes;
      nonces = replicate (length nodes) none;
      os_rng = rng;
    }

    unfoldable pub new_p2p : List (CraftSecNode E) → ℕ → State → P2pTransport E
    unfolding new_local
    new_p2p nodes latency rng = record { inner = new_local nodes rng; latency = latency }

    module _ ⦃j : Json⦄ ⦃x : ProgramExecutor E⦄ where
      -- `self.nonces.borrow_mut()[node_index] = resp.nonce`, out of range a panic.
      unfoldable pub store_nonce :
          LocalTransport E → ℕ → NodeResponse × State → Result Round1Response × LocalTransport E
      store_nonce t i (resp, rng) =
          if ltb i (length t.nonces)
          then (
            ok (record { result = resp.result; commitment = resp.commitment }),
            record t { nonces = set t.nonces i resp.nonce; os_rng = rng },
          )
          else (panic, record t { os_rng = rng })

      -- The nonce is stored if the node responds; an error is passed on.
      unfoldable pub finish_round1 :
          LocalTransport E
          → ℕ
          → Result (NodeResponse × State)
          → Result Round1Response × LocalTransport E
      finish_round1 t i (ok r) = store_nonce t i r
      finish_round1 t i (err e) = (err e, t)
      finish_round1 t i panic = (panic, t)

      unfoldable pub local_round1 :
          ℕ → AttestationRequest → Action (LocalTransport E) Round1Response
      local_round1 i request t =
          finish_round1 t i (index t.nodes i >>= λ node. process_request node request t.os_rng)

      unfoldable pub local_round2 :
          ⦃d : Digests⦄
          → ℕ
          → List ℕ
          → List SigningCommitment
          → Action (LocalTransport E) Round2Response
      local_round2 i message commitments t = (
        (do
          entry ← index t.nonces i
          nonce ← ok_or entry (invalid_signature (text "no nonce"))
          node ← index t.nodes i
          sig ← sign node nonce message commitments
          ok (record { partial = sig.partial })),
        t,
      )

      -- The inner transport's call, on the inner state.
      unfoldable pub in_p2p : {A : Type 0} → Action (LocalTransport E) A → Action (P2pTransport E) A
      in_p2p m t = let (r, inner) = m t.inner in (r, record t { inner = inner })

      module _ ⦃d : Digests⦄ where
        instance abbrev pub local_transport : NodeTransport (LocalTransport E)
        local_transport = record { round1 = local_round1; round2 = local_round2 }

        instance abbrev pub p2p_transport : NodeTransport (P2pTransport E)
        p2p_transport = record {
          round1 = λ i request. in_p2p (local_round1 i request);
          round2 = λ i message commitments. in_p2p (local_round2 i message commitments);
        }

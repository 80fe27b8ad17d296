-- ===== src/Node/Node.antt =====
-- crates/node/src/node.rs. The trait `ProgramExecutor` is an instance argument.
pub mod Lifecycle
pub mod Response
pub mod Usable
use craftsec.Base.{ℕ, Bool, Option, none, some, List, [], Text, if◌then◌else◌}
use craftsec.Base.Maps.{lookup, insert, contains, add}
use craftsec.Curve.{Curve}
use craftsec.Core.External.{Digests, RngCore, State, Json}
use craftsec.Core.Error.{Result, ok, err, program_frozen, ◌>>=◌}
use craftsec.Core.Types.{KeyShare, AttestationRequest, AttestationResult, valid, invalid}
use craftsec.Signing.Frost.{
  SigningNonce, SigningCommitment, PartialSignature, generate_nonces, sign_partial,
}
use craftsec.Node.Executor.{ProgramRegistry, execute, unwrap_or}

pub record ProgramExecutor ⦃j : Json⦄ (E : Type 0) : Type 0 where
  pub run : E → AttestationRequest → Result AttestationResult

instance abbrev pub registry_executor : ⦃j : Json⦄ → ProgramExecutor ProgramRegistry
registry_executor = record { run = execute }

module _ ⦃c : Curve⦄ where
  pub record CraftSecNode (E : Type 0) : Type 0 where
    pub key_shares : List (Text × KeyShare)
    pub key_share : KeyShare
    pub registry : E
    pub frozen_programs : List Text

  pub record NodeResponse ⦃j : Json⦄ : Type 0 where
    pub result : AttestationResult
    pub commitment : Option SigningCommitment
    pub nonce : Option SigningNonce

  pub record NodeSignature : Type 0 where
    pub partial : PartialSignature

  module _ {E : Type 0} where
    -- `CraftSecNode::new`.
    unfoldable pub new_node : KeyShare → E → CraftSecNode E
    new_node key_share registry = record {
      key_shares = [];
      key_share = key_share;
      registry = registry;
      frozen_programs = [];
    }

    unfoldable pub register_key : CraftSecNode E → Text → KeyShare → CraftSecNode E
    register_key node program_cid key_share = record node {
      key_shares = insert program_cid key_share node.key_shares;
    }

    unfoldable pub freeze_program : CraftSecNode E → Text → CraftSecNode E
    freeze_program node program_cid = record node {
      frozen_programs = add program_cid node.frozen_programs;
    }

    unfoldable pub is_frozen : CraftSecNode E → Text → Bool
    is_frozen node program_cid = contains program_cid node.frozen_programs

    unfoldable pub get_key_share : CraftSecNode E → Text → KeyShare
    get_key_share node program_cid = unwrap_or (lookup program_cid node.key_shares) node.key_share

    -- Round 2 with the default key share.
    unfoldable pub sign :
        ⦃d : Digests⦄
        → CraftSecNode E
        → SigningNonce
        → List ℕ
        → List SigningCommitment
        → Result NodeSignature
    sign node nonce message commitments = do
      partial ← sign_partial node.key_share nonce message commitments
      ok (record { partial = partial })

    -- Round 2 with a program's key share.
    unfoldable pub sign_for_program :
        ⦃d : Digests⦄
        → CraftSecNode E
        → Text
        → SigningNonce
        → List ℕ
        → List SigningCommitment
        → Result NodeSignature
    sign_for_program node program_cid nonce message commitments = do
      partial ← sign_partial (get_key_share node program_cid) nonce message commitments
      ok (record { partial = partial })

    unfoldable pub migrate_program : CraftSecNode E → Text → Text → CraftSecNode E
    migrate_program node old_cid new_cid =
        freeze_program (register_key node new_cid (get_key_share node old_cid)) old_cid

    module _ ⦃j : Json⦄ ⦃x : ProgramExecutor E⦄ ⦃g : RngCore⦄ where
      -- The response to a request that the program has judged.
      unfoldable pub respond :
          CraftSecNode E → AttestationRequest → AttestationResult → State → NodeResponse × State
      respond node request (valid tx) rng =
          let ((nonce, commitment), rng') =
            generate_nonces (get_key_share node request.program_cid).index rng in
          (record { result = valid tx; commitment = some commitment; nonce = some nonce }, rng')
      respond node request (invalid reason) rng =
          (record { result = invalid reason; commitment = none; nonce = none }, rng)

      -- Round 1.
      unfoldable pub process_request :
          CraftSecNode E → AttestationRequest → State → Result (NodeResponse × State)
      process_request node request rng =
          if is_frozen node request.program_cid
          then err (program_frozen request.program_cid)
          else (x.run node.registry request >>= λ result. ok (respond node request result rng))

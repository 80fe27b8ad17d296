-- ===== src/Node/Node/Usable.antt =====
-- Round 1 at a node: what a response means, and what its nonce is good for.
use craftsec.Base.{◌≡◌, none, some, List, ℕ}
use craftsec.Curve.{Curve, basepoint, ◌•◌}
use craftsec.Core.External.{Digests, Json, RngCore, State}
use craftsec.Core.Error.{ok}
use craftsec.Core.ScalarExt.{random_scalar}
use craftsec.Core.Types.{AttestationRequest, AttestationResult, valid, invalid}
use craftsec.Signing.Frost.{SigningNonce, SigningCommitment, commitment_of, verify_partial}
use craftsec.Node.Node.{
  CraftSecNode, NodeResponse, NodeSignature, ProgramExecutor, get_key_share, sign_for_program,
}

module _ ⦃c : Curve⦄ ⦃j : Json⦄ {E : Type 0} ⦃x : ProgramExecutor E⦄ ⦃g : RngCore⦄ ⦃d : Digests⦄
    (node : CraftSecNode E) (request : AttestationRequest) where
  -- Round 2 of the node for the requested program with this nonce: the partial signature is accepted
  -- against the nonce's commitment and the key share's verification share.
  abbrev pub IsUsable : SigningNonce → Type 0
  IsUsable nonce =
      let k = get_key_share node request.program_cid in
      (message : List ℕ) (ms : List SigningCommitment)
      → (sig : NodeSignature) × (sign_for_program node request.program_cid nonce message ms
          ≡ ok sig)
        × (verify_partial sig.partial (commitment_of nonce) (basepoint • k.secret) message ms
              k.group_public_key
            ≡ ok tt)

  -- A valid judgement comes with a usable nonce and its commitment. The two scalars of the nonce are
  -- the next two that the generator gives, and the generator has moved past both. A rejection comes
  -- with neither, and the generator stays.
  abbrev pub Carries : State → AttestationResult → NodeResponse → State → Type 0
  Carries rng (valid tx) resp rng' =
      (nonce : SigningNonce) × (between : State) × (resp.nonce ≡ some nonce)
      × (resp.commitment ≡ some (commitment_of nonce))
      × (random_scalar rng ≡ (nonce.d, between))
      × (random_scalar between ≡ (nonce.e, rng'))
      × IsUsable nonce
  Carries rng (invalid reason) resp rng' =
      (resp.nonce ≡ none) × (resp.commitment ≡ none) × (rng' ≡ rng)

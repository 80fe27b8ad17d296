-- ===== src/Node/Node/Response.antt =====
-- Round 1 at a node: what a response means, and when there is none.
use craftsec.Base.{◌≡◌, refl, true, false, none, some}
use craftsec.Curve.{Curve}
use craftsec.Core.External.{Json, RngCore, State}
use craftsec.Core.Error.{CraftSecError, ok, err, panic, program_frozen}
use craftsec.Core.Types.{AttestationRequest, AttestationResult, valid, invalid}
use craftsec.Signing.Frost.{SigningNonce, commitment_of, generate_nonces}
use craftsec.Node.Node.{
  CraftSecNode, NodeResponse, ProgramExecutor, is_frozen, get_key_share, respond, process_request,
}

module _ ⦃c : Curve⦄ ⦃j : Json⦄ {E : Type 0} ⦃x : ProgramExecutor E⦄ ⦃g : RngCore⦄ where
  -- A response to a valid judgement carries a nonce for the program's key share and its commitment;
  -- one to a rejection carries neither.
  abbrev pub Matches :
      CraftSecNode E → AttestationRequest → AttestationResult → NodeResponse → Type 0
  Matches node request (valid tx) resp =
      (nonce : SigningNonce) × (resp.nonce ≡ some nonce)
      × (resp.commitment ≡ some (commitment_of nonce))
      × (nonce.index ≡ (get_key_share node request.program_cid).index)
  Matches node request (invalid reason) resp = (resp.nonce ≡ none) × (resp.commitment ≡ none)

  pub respond-Matches :
      (node : CraftSecNode E) (request : AttestationRequest) (result : AttestationResult)
      (rng : State)
      → ((respond node request result rng).0.result ≡ result)
        × Matches node request result (respond node request result rng).0
  unfolding respond generate_nonces
  respond-Matches node request (valid tx) rng = (refl, (_, refl, refl, refl))
  respond-Matches node request (invalid reason) rng = (refl, (refl, refl))

  -- Round 1 on every branch. A frozen program is refused whatever the program says. Otherwise an
  -- error and a panic of the program are passed on, and a judgement is returned as it is, with a
  -- nonce and its commitment exactly when it is valid.
  pub process_request_cases :
      (node : CraftSecNode E) (request : AttestationRequest) (rng : State)
      → (is_frozen node request.program_cid ≡ true
          → process_request node request rng ≡ err (program_frozen request.program_cid))
        × ((e : CraftSecError)
            → is_frozen node request.program_cid ≡ false
            → x.run node.registry request ≡ err e
            → process_request node request rng ≡ err e)
        × ((result : AttestationResult)
            → is_frozen node request.program_cid ≡ false
            → x.run node.registry request ≡ ok result
            → (resp : NodeResponse) × (rng' : State) × (process_request node request rng
                ≡ ok (resp, rng'))
              × (resp.result ≡ result)
              × Matches node request result resp)
        × (is_frozen node request.program_cid ≡ false
            → x.run node.registry request ≡ panic
            → process_request node request rng ≡ panic)
  unfolding process_request
  process_request_cases node request rng = (
    λ f. rw f,
    λ e f r. rw (f, r),
    λ result f r.
        let (same, match) = respond-Matches node request result rng in
        (
          (respond node request result rng).0,
          (respond node request result rng).1,
          rw (f, r),
          same,
          match,
        ),
    λ f r. rw (f, r),
  )

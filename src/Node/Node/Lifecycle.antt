-- ===== src/Node/Node/Lifecycle.antt =====
-- The life of a program at a node: its keys, its freeze and its migration.
use craftsec.Base.{
  ℕ, ◌≡◌, refl, ap, ◌∙◌, Bool, true, false, ◌||◌, some, List, Text, text_eq, if◌then◌else◌,
}
use craftsec.Base.Maps.{lookup, lookup-insert, contains-add}
use craftsec.Curve.{Curve}
use craftsec.Core.External.{Json, RngCore, State, Digests}
use craftsec.Core.Error.{err, program_frozen}
use craftsec.Core.Types.{KeyShare, AttestationRequest}
use craftsec.Signing.Frost.{SigningNonce, SigningCommitment}
use craftsec.Node.Executor.{unwrap_or}
use craftsec.Node.Node.{
  CraftSecNode, ProgramExecutor, register_key, freeze_program, is_frozen, get_key_share,
  migrate_program, process_request, sign_for_program,
}
use craftsec.Node.Node.Response.{process_request_cases}

or_true : (a : Bool) {b : Bool} → b ≡ true → (a || b) ≡ true
or_true true h = refl
or_true false h = h

module _ ⦃c : Curve⦄ {E : Type 0} where
  pub get_key_share-register_key :
      (node : CraftSecNode E) (cid k : Text) (share : KeyShare)
      → get_key_share (register_key node cid share) k
        ≡ (if text_eq cid k then share else get_key_share node k)
  unfolding get_key_share register_key
  get_key_share-register_key node cid k share =
      rw (lookup-insert cid k share node.key_shares) (split (text_eq cid k))
    where
      split :
          (b : Bool)
          → unwrap_or (if b then some share else lookup k node.key_shares) node.key_share
            ≡ (if b then share else unwrap_or (lookup k node.key_shares) node.key_share)
      split true = refl
      split false = refl

  pub is_frozen-freeze_program :
      (node : CraftSecNode E) (cid k : Text)
      → is_frozen (freeze_program node cid) k ≡ (text_eq cid k || is_frozen node k)
  unfolding is_frozen freeze_program
  is_frozen-freeze_program node cid k = contains-add cid k node.frozen_programs

  pub get_key_share-freeze_program :
      (node : CraftSecNode E) (cid k : Text)
      → get_key_share (freeze_program node cid) k ≡ get_key_share node k
  unfolding get_key_share freeze_program
  get_key_share-freeze_program node cid k = refl

  pub is_frozen-register_key :
      (node : CraftSecNode E) (cid k : Text) (share : KeyShare)
      → is_frozen (register_key node cid share) k ≡ is_frozen node k
  unfolding is_frozen register_key
  is_frozen-register_key node cid k share = refl

  -- Migration gives the new program the key share of the old one and leaves the key shares of all
  -- other programs as they were. It freezes the old program and no other.
  pub migrate_program_lem :
      (node : CraftSecNode E) (old new k : Text)
      → (get_key_share (migrate_program node old new) k
          ≡ (if text_eq new k then get_key_share node old else get_key_share node k))
        × (is_frozen (migrate_program node old new) k ≡ (text_eq old k || is_frozen node k))
  unfolding migrate_program
  migrate_program_lem node old new k =
      let moved = register_key node new (get_key_share node old) in
      (
        get_key_share-freeze_program moved old k
            ∙ get_key_share-register_key node new k (get_key_share node old),
        is_frozen-freeze_program moved old k
            ∙ ap (λ b. text_eq old k || b)
                (is_frozen-register_key node new k (get_key_share node old)),
      )

  -- The operations on a node between requests.
  pub data NodeStep : CraftSecNode E → CraftSecNode E → Type 0 where
    registers :
        (node : CraftSecNode E) (cid : Text) (share : KeyShare)
        → NodeStep node (register_key node cid share)
    freezes : (node : CraftSecNode E) (cid : Text) → NodeStep node (freeze_program node cid)
    migrates :
        (node : CraftSecNode E) (old new : Text) → NodeStep node (migrate_program node old new)

  pub data Reach (node : CraftSecNode E) : CraftSecNode E → Type 0 where
    here : Reach node node
    next : {m m' : CraftSecNode E} → Reach node m → NodeStep m m' → Reach node m'

  is_frozen-NodeStep :
      (cid : Text) {m m' : CraftSecNode E}
      → NodeStep m m'
      → is_frozen m cid ≡ true
      → is_frozen m' cid ≡ true
  is_frozen-NodeStep cid (registers node k share) h = is_frozen-register_key node k cid share ∙ h
  is_frozen-NodeStep cid (freezes node k) h =
      is_frozen-freeze_program node k cid ∙ or_true (text_eq k cid) h
  is_frozen-NodeStep cid (migrates node old new) h =
      (migrate_program_lem node old new cid).1 ∙ or_true (text_eq old cid) h

  is_frozen-Reach :
      (cid : Text) {node m : CraftSecNode E}
      → Reach node m
      → is_frozen node cid ≡ true
      → is_frozen m cid ≡ true
  is_frozen-Reach cid here h = h
  is_frozen-Reach cid (next r st) h = is_frozen-NodeStep cid st (is_frozen-Reach cid r h)

  -- Freezing is for good: once a program is frozen, whatever keys are registered, programs frozen
  -- and programs migrated afterwards, in any order, round 1 for it is refused with `ProgramFrozen`,
  -- whatever the program would say.
  pub frozen-refuses :
      ⦃j : Json⦄
      → ⦃x : ProgramExecutor E⦄ → ⦃g : RngCore⦄
      → (node m : CraftSecNode E) (request : AttestationRequest) (rng : State)
      → is_frozen node request.program_cid ≡ true
      → Reach node m
      → process_request m request rng ≡ err (program_frozen request.program_cid)
  frozen-refuses node m request rng h r =
      (process_request_cases m request rng).0 (is_frozen-Reach request.program_cid r h)

  -- Round 2 does not look at the freeze: a commitment made before still gets its signature.
  pub sign_for_program-freeze_program :
      ⦃d : Digests⦄
      → (node : CraftSecNode E) (frozen cid : Text) (nonce : SigningNonce) (message : List ℕ)
        (ms : List SigningCommitment)
      → sign_for_program (freeze_program node frozen) cid nonce message ms
        ≡ sign_for_program node cid nonce message ms
  unfolding sign_for_program
  sign_for_program-freeze_program node frozen cid nonce message ms =
      rw (get_key_share-freeze_program node frozen cid)

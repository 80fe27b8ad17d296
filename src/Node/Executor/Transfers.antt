-- ===== src/Node/Executor/Transfers.antt =====
-- The registry of executor.rs, and what its transfer program lets through.
use craftsec.Base.{
  ◌≡◌, refl, Bool, true, false, none, some, Text, text, text_eq, ◌++◌, arith, if◌then◌else◌,
}
use craftsec.Base.Maps.{lookup, lookup-insert}
use craftsec.Core.External.{Json, Float}
use craftsec.Core.Error.{CraftSecError, ok, err, panic, program_error, ok_or, ◌>>=◌}
use craftsec.Core.Types.{AttestationRequest, valid, Transaction}
use craftsec.Node.Executor.{
  ProgramRegistry, ValidatorFn, register, execute, value_at, get_or, transfer_transaction,
  transfer_validator,
}

module _ ⦃j : Json⦄ where
  -- After a registration a request for that program goes to the new validator, and any other
  -- request goes where it went before.
  pub execute-register :
      (r : ProgramRegistry) (cid : Text) (validator : ValidatorFn) (request : AttestationRequest)
      → execute (register r cid validator) request
        ≡ (if text_eq cid request.program_cid then validator request else execute r request)
  unfolding execute register
  execute-register r cid validator request =
      rw (lookup-insert cid request.program_cid validator r.programs)
        (split (text_eq cid request.program_cid))
    where
      missing : CraftSecError
      missing = program_error (text "unknown program CID: " ++ request.program_cid)

      split :
          (b : Bool)
          → (ok_or (if b then some validator else lookup request.program_cid r.programs) missing
              >>= λ v. v request)
            ≡ (if b
                then validator request
                else (ok_or (lookup request.program_cid r.programs) missing >>= λ v. v request))
      split true = refl
      split false = refl

  -- The balance that a request states, 1000 by default.
  abbrev balance_of : AttestationRequest → Float
  balance_of request = get_or j.as_f64 request.args (text "balance") j.float_thousand

  -- Whatever the arguments are, the transfer program does not panic, and a transaction that it
  -- accepts is the requested one: the recipient and the amount are those of the arguments, the
  -- amount is positive and not above the stated balance, the sender is the requester, and the
  -- program is the requested one.
  pub transfer_validator_sound :
      (request : AttestationRequest)
      → (transfer_validator request ≡ panic → ⊥)
        × ((tx : Transaction)
            → transfer_validator request ≡ ok (valid tx)
            → (j.as_str (value_at request.args (text "recipient")) ≡ some tx.recipient)
              × (j.as_f64 (value_at request.args (text "amount")) ≡ some tx.amount)
              × (j.float_le tx.amount j.float_zero ≡ false)
              × (j.float_gt tx.amount (balance_of request) ≡ false)
              × (tx.sender ≡ request.requester)
              × (tx.program_cid ≡ request.program_cid))
  unfolding transfer_validator transfer_transaction
  transfer_validator_sound request = (ground arith, λ tx h. ground arith)

  -- A missing or ill-typed recipient or amount is an error and not a rejection.
  pub transfer_validator_errors :
      (request : AttestationRequest)
      → (j.get request.args (text "recipient") ≡ none
          → transfer_validator request ≡ err (program_error (text "missing recipient")))
        × ((recipient : Text)
            → j.as_str (value_at request.args (text "recipient")) ≡ some recipient
            → j.get request.args (text "amount") ≡ none
            → transfer_validator request ≡ err (program_error (text "missing amount")))
  unfolding transfer_validator value_at
  transfer_validator_errors request =
      (λ h. rw (h, j.as_str-null), λ recipient e h. rw (e, h, j.as_f64-null))

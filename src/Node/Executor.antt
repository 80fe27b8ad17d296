-- ===== src/Node/Executor.antt =====
-- crates/node/src/executor.rs.
pub mod Transfers
use craftsec.Base.{Option, none, some, List, [], ◌++◌, Text, text, if◌then◌else◌}
use craftsec.Base.Maps.{lookup, insert}
use craftsec.Core.External.{Json, Value, Float}
use craftsec.Core.Error.{Result, ok, program_error, ok_or, ◌>>=◌}
use craftsec.Core.Types.{AttestationRequest, AttestationResult, valid, invalid, Transaction}

-- `option.and_then(f)` and `option.unwrap_or(d)`.
abbrev pub and_then : {A B : Type 0} → Option A → (A → Option B) → Option B
and_then none f = none
and_then (some a) f = f a

abbrev pub unwrap_or : {A : Type 0} → Option A → A → A
unwrap_or none d = d
unwrap_or (some a) d = a

module _ ⦃j : Json⦄ where
  abbrev pub ValidatorFn : Type 0
  ValidatorFn = AttestationRequest → Result AttestationResult

  pub record ProgramRegistry : Type 0 where
    pub programs : List (Text × ValidatorFn)

  -- `ProgramRegistry::new`.
  unfoldable pub new_registry : ProgramRegistry
  new_registry = record { programs = [] }

  unfoldable pub register : ProgramRegistry → Text → ValidatorFn → ProgramRegistry
  register r cid validator = record { programs = insert cid validator r.programs }

  unfoldable pub execute : ProgramRegistry → AttestationRequest → Result AttestationResult
  execute r request = do
    validator ←
        ok_or (lookup request.program_cid r.programs)
          (program_error (text "unknown program CID: " ++ request.program_cid))
    validator request

  -- `args[key]`: null where the key is missing.
  unfoldable pub value_at : Value → Text → Value
  value_at args key = unwrap_or (j.get args key) j.null

  -- `args.get(key).and_then(as_kind).unwrap_or(default)`.
  unfoldable pub get_or : {A : Type 0} → (Value → Option A) → Value → Text → A → A
  get_or as_kind args key default = unwrap_or (and_then (j.get args key) as_kind) default

  -- The transaction of an accepted transfer.
  unfoldable pub transfer_transaction : AttestationRequest → Text → Float → Transaction
  transfer_transaction request recipient amount =
      let args = request.args in
      record {
        seq = get_or j.as_u64 args (text "seq") 1;
        prev_hash = get_or j.as_str args (text "prev_hash") (text "0000");
        sender = request.requester;
        recipient = recipient;
        amount = amount;
        asset = get_or j.as_str args (text "asset") (text "USDC");
        timestamp = get_or j.as_u64 args (text "timestamp") 0;
        program_cid = request.program_cid;
        user_sig = get_or j.as_str args (text "user_sig") (text "placeholder");
      }

  unfoldable pub transfer_validator : ValidatorFn
  transfer_validator request = do
    let args = request.args
    recipient ←
        ok_or (j.as_str (value_at args (text "recipient")))
          (program_error (text "missing recipient"))
    amount ←
        ok_or (j.as_f64 (value_at args (text "amount"))) (program_error (text "missing amount"))
    let balance = get_or j.as_f64 args (text "balance") j.float_thousand
    ok (
        if j.float_le amount j.float_zero
        then invalid (text "amount must be positive")
        else if j.float_gt amount balance
        then invalid (text "insufficient balance")
        else valid (transfer_transaction request recipient amount))

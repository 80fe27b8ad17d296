-- ===== src/Guest.antt =====
-- examples/transfer-validator/src/lib.rs: the transfer program that a node runs as a WASM guest.
-- The printing and parsing of JSON (serde_json and its derived code) is an interface, and so are the
-- imported host functions and the guest's own memory.
pub mod Results
pub mod Judgement
pub mod Cases
pub mod Memory
pub mod Hosted
pub mod Verdict
use craftsec.Base.{
  ℕ, Bool, true, false, Option, none, some, List, [], ◌∷◌, ◌++◌, ◌⊎◌, inl, inr, Text, text,
  get_elem?, if◌then◌else◌,
}
use craftsec.Core.External.{Json, Value, Float}
use craftsec.Node.Executor.{unwrap_or}
use craftsec.Node.Wasm.Memory.{returned, trapped}
use craftsec.Node.Wasm.Calls.{Call, pure, ◌>>=◌, ◌>>◌}

module _ ⦃j : Json⦄ where
  pub record TransferArgs : Type 0 where
    pub recipient : Text
    pub amount : Float
    pub seq : ℕ
    pub prev_hash : Text
    pub timestamp : ℕ
    pub asset : Text
    pub user_sig : Text

  pub record TransferRequest : Type 0 where
    pub requester : Text
    pub program_cid : Text
    pub args : TransferArgs

  pub record TxOutput : Type 0 where
    pub seq : ℕ
    pub prev_hash : Text
    pub sender : Text
    pub recipient : Text
    pub amount : Float
    pub asset : Text
    pub timestamp : ℕ
    pub program_cid : Text
    pub user_sig : Text

  pub record AttestResult : Type 0 where
    pub status : Text
    pub transaction : Option TxOutput
    pub reason : Option Text

  -- A request as the derived parser reads it: some fields may be missing.
  pub record RawRequest : Type 0 where
    pub requester : Text
    pub program_cid : Text
    pub recipient : Text
    pub amount : Float
    pub seq : Option ℕ
    pub prev_hash : Option Text
    pub timestamp : Option ℕ
    pub asset : Option Text
    pub user_sig : Option Text

  -- The defaults of the missing fields.
  unfoldable pub with_defaults : RawRequest → TransferRequest
  with_defaults raw = record {
    requester = raw.requester;
    program_cid = raw.program_cid;
    args = record {
      recipient = raw.recipient;
      amount = raw.amount;
      seq = unwrap_or raw.seq 1;
      prev_hash = unwrap_or raw.prev_hash (text "0000");
      timestamp = unwrap_or raw.timestamp 0;
      asset = unwrap_or raw.asset (text "USDC");
      user_sig = unwrap_or raw.user_sig (text "placeholder");
    };
  }

  -- The calls of serde_json: the fields of a request or the text of an error, the rows of an
  -- answer, and the printing of a result, of an array with one text, and of a number.
  pub record GuestJson : Type 0 where
    pub from_str : Text → RawRequest ⊎ Text
    pub rows : Text → Option (List (List Value))
    pub to_string : AttestResult → Text
    pub to_array : Text → Text
    pub display : Float → Text

  -- The functions `sql_query` and `log_info` over a state of the guest, and the text of the trap
  -- that a panic of the guest ends in.
  pub record Host (H : Type 0) : Type 0 where
    pub sql_query : Text → Text → Text → Call H Text
    pub log_info : Text → Call H (Unit {0})
    pub panic_text : Text

  -- `invalid`, before the printing.
  unfoldable pub invalid_result : Text → AttestResult
  invalid_result reason = record {
    status = text "invalid";
    transaction = none;
    reason = some reason;
  }

  unfoldable pub valid_result : TransferRequest → AttestResult
  valid_result req = record {
    status = text "valid";
    transaction = some (record {
      seq = req.args.seq;
      prev_hash = req.args.prev_hash;
      sender = req.requester;
      recipient = req.args.recipient;
      amount = req.args.amount;
      asset = req.args.asset;
      timestamp = req.args.timestamp;
      program_cid = req.program_cid;
      user_sig = req.args.user_sig;
    });
    reason = none;
  }

  first_number : Option Value → Option Float
  first_number none = none
  first_number (some value) = some (unwrap_or (j.as_f64 value) j.float_zero)

  -- `rows[0][0]` of a first row with no column is a panic, which is `none`.
  unfoldable pub balance_of_rows : Option (List (List Value)) → Option Float
  unfolding first_number
  balance_of_rows none = some j.float_zero
  balance_of_rows (some []) = some j.float_zero
  balance_of_rows (some (row ∷ rows)) = first_number (get_elem? row 0)

  unfoldable pub recipient_exists : Option (List (List Value)) → Bool
  recipient_exists none = false
  recipient_exists (some []) = false
  recipient_exists (some (row ∷ rows)) = true

  module _ ⦃s : GuestJson⦄ {H : Type 0} ⦃host : Host H⦄ where
    unfoldable pub or_panic : {A : Type 0} → Option A → Call H A
    or_panic none h = (trapped host.panic_text, h)
    or_panic (some a) h = (returned a, h)

    unfoldable pub log_transfer : TransferRequest → Call H (Unit {0})
    log_transfer req = host.log_info (
        text "Transfer "
        ++ (req.requester
            ++ (text " -> " ++ (req.args.recipient ++ (text ": " ++ s.display req.args.amount)))))

    unfoldable pub query_balance : TransferRequest → Call H Text
    query_balance req =
        host.sql_query (text "balances") (text "SELECT balance FROM accounts WHERE did = ?")
          (s.to_array req.requester)

    unfoldable pub query_recipient : TransferRequest → Call H Text
    query_recipient req =
        host.sql_query (text "balances") (text "SELECT 1 FROM accounts WHERE did = ?")
          (s.to_array req.args.recipient)

    -- From the second query on.
    unfoldable pub judge_recipient : TransferRequest → Call H AttestResult
    judge_recipient req = do
      recipient_json ← query_recipient req
      pure (
          if recipient_exists (s.rows recipient_json)
          then valid_result req
          else invalid_result (text "recipient does not exist"))

    -- From the first query on.
    unfoldable pub judge_balance : TransferRequest → Call H AttestResult
    judge_balance req = do
      balance_json ← query_balance req
      balance ← or_panic (balance_of_rows (s.rows balance_json))
      if j.float_gt req.args.amount balance
          then pure (invalid_result (text "insufficient balance"))
          else judge_recipient req

    -- The judgement of a request that has been parsed.
    unfoldable pub judge : TransferRequest → Call H AttestResult
    judge req = do
      log_transfer req
      if j.float_le req.args.amount j.float_zero
          then pure (invalid_result (text "amount must be positive"))
          else judge_balance req

    -- What `do_attest` prints: the judgement, or a rejection of what cannot be parsed.
    unfoldable pub judge_parsed : RawRequest ⊎ Text → Call H AttestResult
    judge_parsed (inl raw) = judge (with_defaults raw)
    judge_parsed (inr e) = pure (invalid_result (text "parse error: " ++ e))

    unfoldable pub do_attest : Text → Call H Text
    do_attest request_json = do r ← judge_parsed (s.from_str request_json); pure (s.to_string r)

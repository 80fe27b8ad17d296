-- ===== src/Guest/Results.antt =====
-- What the rows of an answer and the results of the transfer program say.
use craftsec.Base.{◌≡◌, refl, true, false, Option, none, some, List, [], ◌∷◌}
use craftsec.Core.External.{Json, Value, Float}
use craftsec.Node.Executor.{unwrap_or}
use craftsec.Node.Wasm.Memory.{returned}
use craftsec.Guest.{
  TransferRequest, TxOutput, AttestResult, valid_result, balance_of_rows, recipient_exists,
}

pub accepted : ⦃j : Json⦄ → {a b : AttestResult} → returned a ≡ returned b → b ≡ a
accepted e = cc

module _ ⦃j : Json⦄ where
  -- The transaction that a result carries, field by field the one of the request.
  pub record IsOfRequest (req : TransferRequest) (r : AttestResult) : Type 0 where
    pub tx : TxOutput
    pub carried : r.transaction ≡ some tx
    pub sender : tx.sender ≡ req.requester
    pub recipient : tx.recipient ≡ req.args.recipient
    pub amount : tx.amount ≡ req.args.amount
    pub seq : tx.seq ≡ req.args.seq
    pub prev_hash : tx.prev_hash ≡ req.args.prev_hash
    pub asset : tx.asset ≡ req.args.asset
    pub timestamp : tx.timestamp ≡ req.args.timestamp
    pub program_cid : tx.program_cid ≡ req.program_cid
    pub user_sig : tx.user_sig ≡ req.args.user_sig

  pub valid_result-IsOfRequest : (req : TransferRequest) → IsOfRequest req (valid_result req)
  unfolding valid_result
  valid_result-IsOfRequest req = record {
    tx = _;
    carried = refl;
    sender = refl;
    recipient = refl;
    amount = refl;
    seq = refl;
    prev_hash = refl;
    asset = refl;
    timestamp = refl;
    program_cid = refl;
    user_sig = refl;
  }

  -- Rows that name a recipient.
  pub recipient_rows :
      (rows : Option (List (List Value)))
      → recipient_exists rows ≡ true
      → (row : List Value) × (others : List (List Value)) × (rows ≡ some (row ∷ others))
  unfolding recipient_exists
  recipient_rows none e = cc
  recipient_rows (some []) e = cc
  recipient_rows (some (row ∷ others)) e = (row, others, refl)

  -- Rows with a balance other than the default.
  pub balance_rows :
      (rows : Option (List (List Value))) (amount balance : Float)
      → balance_of_rows rows ≡ some balance
      → j.float_gt amount balance ≡ false
      → j.float_gt amount j.float_zero ≡ true
      → (column : Value) × (columns : List Value) × (others : List (List Value)) × (rows
          ≡ some ((column ∷ columns) ∷ others))
        × (j.as_f64 column ≡ some balance)
  unfolding balance_of_rows
  balance_rows none amount balance e covered above = cc
  balance_rows (some []) amount balance e covered above = cc
  balance_rows (some ([] ∷ others)) amount balance e covered above = cc
  balance_rows (some ((column ∷ columns) ∷ others)) amount balance e covered above =
      (column, columns, others, refl, number (j.as_f64 column) e)
    where
      number :
          (f : Option Float) → some (unwrap_or f j.float_zero) ≡ some balance → f ≡ some balance
      number none e' = cc
      number (some b) e' = e'

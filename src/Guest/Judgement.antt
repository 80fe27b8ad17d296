-- ===== src/Guest/Judgement.antt =====
-- What the transfer program accepts.
use craftsec.Base.{
  ◌≡◌, sym, subst, true, false, Bool-cases, inl, inr, Option, none, some, List, ◌∷◌, Text, text,
}
use craftsec.Core.External.{Json, Value, Float}
use craftsec.Node.Wasm.Memory.{returned}
use craftsec.Node.Wasm.Calls.{continue-eq-returned}
use craftsec.Guest.Results.{
  accepted, IsOfRequest, valid_result-IsOfRequest, recipient_rows, balance_rows,
}
use craftsec.Guest.{
  TransferRequest, AttestResult, GuestJson, Host, invalid_result, valid_result, balance_of_rows,
  recipient_exists, or_panic, log_transfer, query_balance, query_recipient, judge_recipient,
  judge_balance, judge,
}

rejected :
    ⦃j : Json⦄
    → (reason : Text) (r : AttestResult) → returned (invalid_result reason) ≡ returned r
    → r.status ≡ text "valid"
    → ⊥
unfolding invalid_result
rejected reason r e v = cc

module _ ⦃j : Json⦄ ⦃s : GuestJson⦄ {H : Type 0} ⦃host : Host H⦄ where
  -- The host answers the query for the recipient with a row.
  pub record HasRecipient (req : TransferRequest) (h : H) : Type 0 where
    pub recipient_json : Text
    pub left : H
    pub row : List Value
    pub others : List (List Value)
    pub asked :
        host.sql_query
          (text "balances")
          (text "SELECT 1 FROM accounts WHERE did = ?")
          (s.to_array req.args.recipient)
          h
        ≡ (returned recipient_json, left)
    pub known : s.rows recipient_json ≡ some (row ∷ others)

  -- The host answers the query for the sender's balance with a row whose first column is a number
  -- that covers the amount, and then the query for the recipient with a row.
  pub record IsCovered (req : TransferRequest) (h : H) : Type 0 where
    pub balance_json : Text
    pub column : Value
    pub columns : List Value
    pub others : List (List Value)
    pub balance : Float
    pub left : H
    pub asked :
        host.sql_query
          (text "balances")
          (text "SELECT balance FROM accounts WHERE did = ?")
          (s.to_array req.requester)
          h
        ≡ (returned balance_json, left)
    pub answered : s.rows balance_json ≡ some ((column ∷ columns) ∷ others)
    pub read : j.as_f64 column ≡ some balance
    pub covered : j.float_gt req.args.amount balance ≡ false
    pub recipient : HasRecipient req left

  or_panic_returned :
      {A : Type 0} (r : Option A) (h : H) {h' : H} {a : A}
      → or_panic r h ≡ (returned a, h')
      → (r ≡ some a) × (h' ≡ h)
  unfolding or_panic
  or_panic_returned none h e = cc
  or_panic_returned (some b) h e = (cc, cc)

  recipient_sound :
      (req : TransferRequest) (h : H) (r : AttestResult)
      → (judge_recipient req h).0 ≡ returned r
      → r.status ≡ text "valid"
      → HasRecipient req h × (r ≡ valid_result req)
  unfolding judge_recipient query_recipient
  recipient_sound req h r e v =
      let (recipient_json, left, asked, rest) = continue-eq-returned _ (query_recipient req h) e in
      elim (Bool-cases (recipient_exists (s.rows recipient_json))) [
        | inl exists ↦
            let (row, others, known) = recipient_rows (s.rows recipient_json) exists in
            (
              record {
                recipient_json = recipient_json;
                left = left;
                row = row;
                others = others;
                asked = asked;
                known = known;
              },
              accepted (rw exists at rest),
            )
        | inr missing ↦ absurd (rejected _ r (rw missing at rest) v)
      ]

  balance_sound :
      (req : TransferRequest) (h : H) (r : AttestResult)
      → (judge_balance req h).0 ≡ returned r
      → r.status ≡ text "valid"
      → j.float_gt req.args.amount j.float_zero ≡ true
      → IsCovered req h × (r ≡ valid_result req)
  unfolding judge_balance query_balance
  balance_sound req h r e v above =
      let (balance_json, left, asked, rest) = continue-eq-returned _ (query_balance req h) e in
      let (balance, left', looked, rest') =
        continue-eq-returned _ (or_panic (balance_of_rows (s.rows balance_json)) left) rest in
      let (read, same) = or_panic_returned (balance_of_rows (s.rows balance_json)) left looked in
      elim (Bool-cases (j.float_gt req.args.amount balance)) [
        | inl more ↦ absurd (rejected _ r (rw more at rest') v)
        | inr covered ↦
            let (column, columns, others, answered, number) =
              balance_rows (s.rows balance_json) req.args.amount balance read covered above in
            let (recipient, result) = recipient_sound req left r (rw (covered, same) at rest') v in
            (
              record {
                balance_json = balance_json;
                column = column;
                columns = columns;
                others = others;
                balance = balance;
                left = left;
                asked = asked;
                answered = answered;
                read = number;
                covered = covered;
                recipient = recipient;
              },
              result,
            )
      ]

  -- If the result for a request has the status `valid`, and an amount that is not at most zero is
  -- above zero (it is not NaN), then the amount is not at most zero. After the log call, the host
  -- has answered the query for the sender's balance in `balances` with a row whose first column is
  -- a number that covers the amount, and then the query for the recipient with a row. The
  -- transaction of the result has the request's sender, recipient, amount and other fields.
  pub judge_sound :
      (req : TransferRequest) (h : H) (r : AttestResult)
      → (judge req h).0 ≡ returned r
      → r.status ≡ text "valid"
      → (j.float_le req.args.amount j.float_zero ≡ false
          → j.float_gt req.args.amount j.float_zero ≡ true)
      → (logged : H) × (log_transfer req h ≡ (returned tt, logged))
        × (j.float_le req.args.amount j.float_zero ≡ false)
        × IsCovered req logged
        × IsOfRequest req r
  unfolding judge
  judge_sound req h r e v number =
      let (done, logged, wrote, rest) = continue-eq-returned _ (log_transfer req h) e in
      elim (Bool-cases (j.float_le req.args.amount j.float_zero)) [
        | inl low ↦ absurd (rejected _ r (rw low at rest) v)
        | inr positive ↦
            let (covered, result) =
              balance_sound req logged r (rw positive at rest) v (number positive) in
            (
              logged,
              wrote,
              positive,
              covered,
              subst (IsOfRequest req) (sym result) (valid_result-IsOfRequest req),
            )
      ]

-- ===== src/Guest/Cases.antt =====
-- The two kinds of results of the transfer program.
use craftsec.Base.{◌≡◌, ◌⊎◌, Bool-cases, inl, inr, Text}
use craftsec.Core.External.{Json}
use craftsec.Node.Wasm.Memory.{returned}
use craftsec.Node.Wasm.Calls.{continue-eq-returned}
use craftsec.Guest.{
  TransferRequest, AttestResult, GuestJson, Host, invalid_result, valid_result, balance_of_rows,
  recipient_exists, or_panic, log_transfer, query_balance, query_recipient, judge_recipient,
  judge_balance, judge,
}
use craftsec.Guest.Results.{accepted}

module _ ⦃j : Json⦄ ⦃s : GuestJson⦄ {H : Type 0} ⦃host : Host H⦄ where
  recipient_cases :
      (req : TransferRequest) (h : H) (r : AttestResult)
      → (judge_recipient req h).0 ≡ returned r
      → (r ≡ valid_result req) ⊎ ((reason : Text) × (r ≡ invalid_result reason))
  unfolding judge_recipient
  recipient_cases req h r e =
      let (recipient_json, left, asked, rest) = continue-eq-returned _ (query_recipient req h) e in
      elim (Bool-cases (recipient_exists (s.rows recipient_json))) [
        | inl known ↦ inl (accepted (rw known at rest))
        | inr missing ↦ inr (_, accepted (rw missing at rest))
      ]

  balance_cases :
      (req : TransferRequest) (h : H) (r : AttestResult)
      → (judge_balance req h).0 ≡ returned r
      → (r ≡ valid_result req) ⊎ ((reason : Text) × (r ≡ invalid_result reason))
  unfolding judge_balance
  balance_cases req h r e =
      let (balance_json, left, asked, rest) = continue-eq-returned _ (query_balance req h) e in
      let (balance, left', looked, rest') =
        continue-eq-returned _ (or_panic (balance_of_rows (s.rows balance_json)) left) rest in
      elim (Bool-cases (j.float_gt req.args.amount balance)) [
        | inl more ↦ inr (_, accepted (rw more at rest'))
        | inr covered ↦ recipient_cases req left' r (rw covered at rest')
      ]

  -- A result is the transaction of the request or a rejection with a reason.
  pub judge_cases :
      (req : TransferRequest) (h : H) (r : AttestResult)
      → (judge req h).0 ≡ returned r
      → (r ≡ valid_result req) ⊎ ((reason : Text) × (r ≡ invalid_result reason))
  unfolding judge
  judge_cases req h r e =
      let (done, logged, wrote, rest) = continue-eq-returned _ (log_transfer req h) e in
      elim (Bool-cases (j.float_le req.args.amount j.float_zero)) [
        | inl low ↦ inr (_, accepted (rw low at rest))
        | inr positive ↦ balance_cases req logged r (rw positive at rest)
      ]

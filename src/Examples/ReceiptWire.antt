-- ===== src/Examples/ReceiptWire.antt =====
-- A printing of receipts with a parsing that reads it back: every text after its length.
use craftsec.Base.{ℕ, zero, suc, ◌≡◌, refl, ap, inl, List, [], ◌∷◌, ◌++◌, Text, length, take}
use craftsec.Node.Wasm.Memory.{drop}
use craftsec.Node.Wasm.Memory.Written.{take-append}
use craftsec.Core.Receipt.{AttestationReceipt, ReceiptJson}

write_text : Text → Text → Text
write_text t rest = length t ∷ (t ++ rest)

read_text : Text → Text × Text
read_text [] = ([], [])
read_text (n ∷ rest) = (take n rest, drop n rest)

drop_written : (t rest : Text) → drop (length t) (t ++ rest) ≡ rest
drop_written [] rest = refl
drop_written (c ∷ t) rest = drop_written t rest

read_text-write_text : (t rest : Text) → read_text (write_text t rest) ≡ (t, rest)
unfolding read_text write_text
read_text-write_text t rest = rw (take-append t rest, drop_written t rest) refl

write_signatures : List (ℕ × Text) → Text
write_signatures [] = []
write_signatures ((i, t) ∷ l) = i ∷ write_text t (write_signatures l)

read_signatures : ℕ → Text → List (ℕ × Text)
read_signatures zero bytes = []
read_signatures (suc n) [] = []
read_signatures (suc n) (i ∷ bytes) =
    (i, (read_text bytes).0) ∷ read_signatures n (read_text bytes).1

read_signatures-write_signatures :
    (l : List (ℕ × Text)) → read_signatures (length l) (write_signatures l) ≡ l
unfolding read_signatures write_signatures
read_signatures-write_signatures [] = refl
read_signatures-write_signatures ((i, t) ∷ l) =
    rw (read_text-write_text t (write_signatures l), read_signatures-write_signatures l) refl

pub write_receipt : AttestationReceipt → Text
write_receipt r =
    r.timestamp
    ∷ length r.node_signatures
    ∷ write_text r.program_cid
        (write_text r.args_hash (write_text r.result_hash (write_signatures r.node_signatures)))

empty_receipt : AttestationReceipt
empty_receipt = record {
  program_cid = [];
  args_hash = [];
  result_hash = [];
  timestamp = 0;
  node_signatures = [];
}

pub read_receipt : Text → AttestationReceipt
read_receipt [] = empty_receipt
read_receipt (timestamp ∷ []) = empty_receipt
read_receipt (timestamp ∷ n ∷ bytes) =
    let (program_cid, a) = read_text bytes in
    let (args_hash, b) = read_text a in
    let (result_hash, e) = read_text b in
    record {
      program_cid = program_cid;
      args_hash = args_hash;
      result_hash = result_hash;
      timestamp = timestamp;
      node_signatures = read_signatures n e;
    }

pub read_receipt-write_receipt : (r : AttestationReceipt) → read_receipt (write_receipt r) ≡ r
unfolding read_receipt write_receipt
read_receipt-write_receipt r = rw (
  read_text-write_text r.program_cid
      (write_text r.args_hash (write_text r.result_hash (write_signatures r.node_signatures))),
  read_text-write_text r.args_hash (write_text r.result_hash (write_signatures r.node_signatures)),
  read_text-write_text r.result_hash (write_signatures r.node_signatures),
  read_signatures-write_signatures r.node_signatures,
)

instance abbrev pub length_prefixed : ReceiptJson
length_prefixed = record {
  to_string = write_receipt;
  from_str = λ t. inl (read_receipt t);
  from_str-to_string = λ r. ap inl (read_receipt-write_receipt r);
}

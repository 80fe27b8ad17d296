-- ===== src/Core/Receipt.antt =====
-- crates/core/src/receipt.rs. The derived printing and parsing (serde_json) are an interface.
pub mod Binding
use craftsec.Base.{
  ℕ, Bool, true, false, not, List, [], ◌∷◌, ◌++◌, ◌⊎◌, inl, inr, ◌≡◌, Text, text, to_le_bytes,
}
use craftsec.Core.External.{Digests, sha256, hex_encode}
use craftsec.Core.Error.{Result, ok, err, serialization_error}

pub record AttestationReceipt : Type 0 where
  pub program_cid : Text
  pub args_hash : Text
  pub result_hash : Text
  pub timestamp : ℕ
  pub node_signatures : List (ℕ × Text)

-- `AttestationReceipt::new`.
unfoldable pub new_receipt : ⦃d : Digests⦄ → Text → List ℕ → List ℕ → ℕ → AttestationReceipt
new_receipt program_cid args result timestamp = record {
  program_cid = program_cid;
  args_hash = hex_encode (sha256 args);
  result_hash = hex_encode (sha256 result);
  timestamp = timestamp;
  node_signatures = [];
}

unfoldable pub signing_bytes : AttestationReceipt → List ℕ
signing_bytes r =
    text "CraftSEC-Receipt-v1"
    ++ (r.program_cid ++ (r.args_hash ++ (r.result_hash ++ to_le_bytes 8 r.timestamp)))

unfoldable pub add_signature : AttestationReceipt → ℕ → Text → AttestationReceipt
add_signature r node_index signature_hex = record r {
  node_signatures = r.node_signatures ++ (node_index, signature_hex) ∷ [];
}

-- `Vec::is_empty`.
abbrev pub is_empty : {A : Type 0} → List A → Bool
is_empty [] = true
is_empty (x ∷ xs) = false

unfoldable pub verify_signatures : AttestationReceipt → Bool
verify_signatures r = not (is_empty r.node_signatures)

-- `serde_json::to_string` and `from_str` of a receipt. What is printed is read back.
pub record ReceiptJson : Type 0 where
  pub to_string : AttestationReceipt → Text
  pub from_str : Text → AttestationReceipt ⊎ Text
  pub from_str-to_string : (r : AttestationReceipt) → from_str (to_string r) ≡ inl r

module _ ⦃p : ReceiptJson⦄ where
  unfoldable pub to_json : AttestationReceipt → Text
  to_json r = p.to_string r

  -- `result.map_err(|e| CraftSecError::SerializationError(e.to_string()))`.
  abbrev pub serialization : {A : Type 0} → A ⊎ Text → Result A
  serialization (inl a) = ok a
  serialization (inr e) = err (serialization_error e)

  unfoldable pub from_json : Text → Result AttestationReceipt
  from_json json = serialization (p.from_str json)

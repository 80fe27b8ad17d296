-- ===== src/Core/Receipt/Binding.antt =====
-- What the signing bytes of a receipt bind, and what its check of signatures accepts.
use Prim.Native.Nat.{◌^◌}
use craftsec.Base.{
  ℕ, ◌<◌, ◌≡◌, refl, true, not, List, [], ◌∷◌, ◌++◌, Text, text, length, length-append, to_le_bytes,
  arith,
}
use craftsec.Base.Append.{
  append_left_cancel, append-injective_right, append-injective_left, length-to_le_bytes,
  to_le_bytes-injective,
}
use craftsec.Core.External.{Digests, sha256, hex_encode}
use craftsec.Core.Receipt.{
  is_empty, AttestationReceipt, new_receipt, signing_bytes, add_signature, verify_signatures,
}

module _ ⦃d : Digests⦄ where
  length-hash : (bytes : List ℕ) → length (hex_encode (sha256 bytes)) ≡ 64
  length-hash bytes = omega (arith, d.length-hex_encode (sha256 bytes), d.length-sha256 bytes)

  -- Two new receipts with `u64` timestamps and the same signing bytes are for the same program, the
  -- same timestamp, and arguments and results with the same SHA-256 digests.
  pub signing_bytes-injective :
      (cid cid' : Text) (args args' result result' : List ℕ) (timestamp timestamp' : ℕ)
      → timestamp < 2 ^ 64
      → timestamp' < 2 ^ 64
      → signing_bytes (new_receipt cid args result timestamp)
        ≡ signing_bytes (new_receipt cid' args' result' timestamp')
      → (cid ≡ cid')
        × (sha256 args ≡ sha256 args')
        × (sha256 result ≡ sha256 result')
        × (timestamp ≡ timestamp')
  unfolding signing_bytes new_receipt
  signing_bytes-injective cid cid' args args' result result' t t' b b' e =
      let a = hex_encode (sha256 args) in
      let a' = hex_encode (sha256 args') in
      let r = hex_encode (sha256 result) in
      let r' = hex_encode (sha256 result') in
      let s = to_le_bytes 8 t in
      let s' = to_le_bytes 8 t' in
      let (same_cid, e₁) =
        append-injective_right cid (a ++ (r ++ s)) cid' (a' ++ (r' ++ s'))
          (omega (
            arith,
            length-append a (r ++ s),
            length-append a' (r' ++ s'),
            length-append r s,
            length-append r' s',
            length-to_le_bytes 8 t,
            length-to_le_bytes 8 t',
            length-hash args,
            length-hash args',
            length-hash result,
            length-hash result',
          ))
          (append_left_cancel (text "CraftSEC-Receipt-v1") _ _ e) in
      let (same_args, e₂) =
        append-injective_left a (r ++ s) a' (r' ++ s')
          (omega (arith, length-hash args, length-hash args')) e₁ in
      let (same_result, e₃) =
        append-injective_left r s r' s' (omega (arith, length-hash result, length-hash result'))
          e₂ in
      (
        same_cid,
        d.hex_encode-injective _ _ same_args,
        d.hex_encode-injective _ _ same_result,
        to_le_bytes-injective 8 t t' b b' e₃,
      )

-- The check accepts a receipt as soon as any text was added as a signature, and adding one leaves
-- the signing bytes alone.
pub add_signature-accepted :
    (r : AttestationReceipt) (node_index : ℕ) (signature_hex : Text)
    → (verify_signatures (add_signature r node_index signature_hex) ≡ true)
      × (signing_bytes (add_signature r node_index signature_hex) ≡ signing_bytes r)
unfolding verify_signatures add_signature signing_bytes
add_signature-accepted r node_index signature_hex = (accepted r.node_signatures, refl)
  where
    accepted : (l : List (ℕ × Text)) → not (is_empty (l ++ (node_index, signature_hex) ∷ [])) ≡ true
    accepted [] = refl
    accepted (x ∷ l) = refl

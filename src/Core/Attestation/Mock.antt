-- ===== src/Core/Attestation/Mock.antt =====
-- What an execution attestation binds, and what the mock provider returns.
use Prim.Native.Nat.{◌^◌}
use mathlib.Core.List.{append_assoc}
use craftsec.Base.{
  ℕ, ◌<◌, ◌≡◌, refl, ap, true, not, List, [], ◌∷◌, ◌++◌, Text, text, length, length-append,
  to_le_bytes, arith,
}
use craftsec.Base.Append.{
  append_left_cancel, append-injective_right, append-injective_left, length-to_le_bytes,
  to_le_bytes-injective,
}
use craftsec.Core.External.{Digests, sha256}
use craftsec.Core.Receipt.{is_empty}
use craftsec.Core.Attestation.{
  ExecutionAttestation, attestation_bytes, verify_structure, MockAttestationProvider, done,
  hash_bytes, attest_execution, ProgramSignature, sign_as_program,
}

-- The signing bytes of two attestations with digests of 32 bytes and `u64` timestamps are equal
-- only if program, input hash, output hash and timestamp are.
pub attestation_bytes-injective :
    (cid cid' : Text) (input input' output output' : List ℕ) (timestamp timestamp' : ℕ)
    → length input ≡ 32
    → length input' ≡ 32
    → length output ≡ 32
    → length output' ≡ 32
    → timestamp < 2 ^ 64
    → timestamp' < 2 ^ 64
    → attestation_bytes cid input output timestamp
      ≡ attestation_bytes cid' input' output' timestamp'
    → (cid ≡ cid') × (input ≡ input') × (output ≡ output') × (timestamp ≡ timestamp')
unfolding attestation_bytes
attestation_bytes-injective cid cid' i i' o o' t t' hi hi' ho ho' b b' e =
    let s = to_le_bytes 8 t in
    let s' = to_le_bytes 8 t' in
    let (same_cid, e₁) =
      append-injective_right cid (i ++ (o ++ s)) cid' (i' ++ (o' ++ s'))
        (omega (
          arith,
          length-append i (o ++ s),
          length-append i' (o' ++ s'),
          length-append o s,
          length-append o' s',
          length-to_le_bytes 8 t,
          length-to_le_bytes 8 t',
        ))
        (append_left_cancel (text "CraftSEC-ExecAttest-v1") _ _ e) in
    let (same_input, e₂) = append-injective_left i (o ++ s) i' (o' ++ s') (omega arith) e₁ in
    let (same_output, e₃) = append-injective_left o s o' s' (omega arith) e₂ in
    (same_cid, same_input, same_output, to_le_bytes-injective 8 t t' b b' e₃)

module _ ⦃d : Digests⦄ where
  digest_nonempty : (l : List ℕ) → length l ≡ 32 → not (is_empty l) ≡ true
  digest_nonempty [] h = absurd (omega arith)
  digest_nonempty (x ∷ l) h = refl

  -- The mock attestation never fails. It names the program and the digests of input and output, and
  -- passes the structural check.
  pub attest_execution-verify_structure :
      (provider : MockAttestationProvider) (now : ℕ) (cid : Text) (input output : List ℕ)
      → (a : ExecutionAttestation) × (attest_execution provider now cid input output ≡ done a)
        × (verify_structure a ≡ true)
        × (a.program_cid ≡ cid)
        × (a.input_hash ≡ hash_bytes input)
        × (a.output_hash ≡ hash_bytes output)
        × (a.timestamp_ms < 2 ^ 64)
  unfolding attest_execution verify_structure
  attest_execution-verify_structure provider now cid input output = (
    _,
    refl,
    rw (digest_nonempty _ (d.length-sha256 _), digest_nonempty _ (d.length-sha256 _)),
    refl,
    refl,
    refl,
    omega arith,
  )

  -- The mock signs CID and message with no separator: bytes moved from the end of the CID to the
  -- front of the message leave the signature unchanged.
  pub sign_as_program_ambiguous :
      (provider : MockAttestationProvider) (cid moved : Text) (message : List ℕ)
      → (a b : ProgramSignature) × (sign_as_program provider (cid ++ moved) message ≡ done a)
        × (sign_as_program provider cid (moved ++ message) ≡ done b)
        × (a.signature ≡ b.signature)
  unfolding sign_as_program
  sign_as_program_ambiguous provider cid moved message = (
    _,
    _,
    refl,
    refl,
    ap (λ l. sha256 (text "CraftSEC-ProgramSig-mock" ++ l)) (append_assoc cid moved message),
  )

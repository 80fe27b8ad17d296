-- ===== src/Core/Attestation.antt =====
-- crates/core/src/attestation.rs: execution attestations and the mock provider. The time is an
-- argument, in milliseconds.
pub mod Mock
use Prim.Native.Nat.{◌%◌, ◌^◌}
use craftsec.Base.{ℕ, Bool, not, ◌&&◌, List, ◌++◌, Text, text, decimal, to_le_bytes}
use craftsec.Core.External.{Digests, sha256}
use craftsec.Core.Receipt.{is_empty}

pub record ExecutionAttestation : Type 0 where
  pub program_cid : Text
  pub input_hash : List ℕ
  pub output_hash : List ℕ
  pub timestamp_ms : ℕ
  pub signature : List ℕ
  pub group_public_key : List ℕ

unfoldable pub attestation_bytes : Text → List ℕ → List ℕ → ℕ → List ℕ
attestation_bytes program_cid input_hash output_hash timestamp_ms =
    text "CraftSEC-ExecAttest-v1"
    ++ (program_cid ++ (input_hash ++ (output_hash ++ to_le_bytes 8 timestamp_ms)))

unfoldable pub verify_structure : ExecutionAttestation → Bool
verify_structure a = not (is_empty a.signature) && not (is_empty a.group_public_key)

pub record ProgramKey : Type 0 where
  pub program_cid : Text
  pub public_key : List ℕ

pub record ProgramSignature : Type 0 where
  pub program_cid : Text
  pub message : List ℕ
  pub signature : List ℕ

pub data AttestationError : Type 0 where
  -- `need` and `have`.
  threshold_not_met : ℕ → ℕ → AttestationError
  program_not_found : Text → AttestationError
  signing_failed : Text → AttestationError
  key_derivation_failed : Text → AttestationError

-- The texts of the errors.
unfoldable pub attestation_error_text : AttestationError → Text
attestation_error_text (threshold_not_met need have) =
    text "threshold not met: need " ++ (decimal need ++ (text ", have " ++ decimal have))
attestation_error_text (program_not_found e) = text "program not found: " ++ e
attestation_error_text (signing_failed e) = text "signing failed: " ++ e
attestation_error_text (key_derivation_failed e) = text "key derivation failed: " ++ e

-- `Result<A, AttestationError>`.
pub data Attested (A : Type 0) : Type 0 where
  done : A → Attested A
  failed : AttestationError → Attested A

-- The trait `AttestationProvider`. The first number of an attestation is the time.
pub record AttestationProvider (P : Type 0) : Type 0 where
  pub attest_execution : P → ℕ → Text → List ℕ → List ℕ → Attested ExecutionAttestation
  pub derive_program_key : P → Text → Attested ProgramKey
  pub sign_as_program : P → Text → List ℕ → Attested ProgramSignature

pub record MockAttestationProvider : Type 0 where
  pub threshold : ℕ
  pub total : ℕ

unfoldable pub new_mock : ℕ → ℕ → MockAttestationProvider
new_mock threshold total = record { threshold = threshold; total = total }

-- `Default::default`.
unfoldable pub default_mock : MockAttestationProvider
unfolding new_mock
default_mock = new_mock 2 3

module _ ⦃d : Digests⦄ where
  unfoldable pub hash_bytes : List ℕ → List ℕ
  hash_bytes input = sha256 input

  unfoldable pub attest_execution :
      MockAttestationProvider → ℕ → Text → List ℕ → List ℕ → Attested ExecutionAttestation
  unfolding hash_bytes
  attest_execution provider now_millis program_cid input output =
      let input_hash = hash_bytes input in
      let output_hash = hash_bytes output in
      let timestamp_ms = now_millis % 2 ^ 64 in
      let signing_bytes = attestation_bytes program_cid input_hash output_hash timestamp_ms in
      done (record {
        program_cid = program_cid;
        input_hash = input_hash;
        output_hash = output_hash;
        timestamp_ms = timestamp_ms;
        signature = sha256 (signing_bytes ++ text "mock-secret");
        group_public_key = sha256 program_cid;
      })

  unfoldable pub derive_program_key : MockAttestationProvider → Text → Attested ProgramKey
  derive_program_key provider program_cid = done (record {
    program_cid = program_cid;
    public_key = sha256 (text "CraftSEC-PDK-mock" ++ program_cid);
  })

  unfoldable pub sign_as_program :
      MockAttestationProvider → Text → List ℕ → Attested ProgramSignature
  sign_as_program provider program_cid message = done (record {
    program_cid = program_cid;
    message = message;
    signature = sha256 (text "CraftSEC-ProgramSig-mock" ++ (program_cid ++ message));
  })

  instance abbrev pub mock_provider : AttestationProvider MockAttestationProvider
  mock_provider = record {
    attest_execution = attest_execution;
    derive_program_key = derive_program_key;
    sign_as_program = sign_as_program;
  }

-- ===== src/Core/Error/Display.antt =====
-- crates/core/src/error.rs: the texts of the errors.
use craftsec.Base.{◌++◌, Text, text, decimal}
use craftsec.Core.Error.{
  CraftSecError, invalid_threshold, invalid_share, invalid_commitment, invalid_signature,
  insufficient_shares, attestation_failed, program_error, program_frozen, serialization_error,
}

unfoldable pub display : CraftSecError → Text
display (invalid_threshold t n) =
    text "invalid threshold: t=" ++ (decimal t ++ (text ", n=" ++ decimal n))
display (invalid_share e) = text "invalid share: " ++ e
display (invalid_commitment e) = text "invalid commitment: " ++ e
display (invalid_signature e) = text "invalid signature: " ++ e
display (insufficient_shares have need) =
    text "insufficient shares: have " ++ (decimal have ++ (text ", need " ++ decimal need))
display (attestation_failed e) = text "attestation failed: " ++ e
display (program_error e) = text "program error: " ++ e
display (program_frozen e) = text "program frozen: " ++ e
display (serialization_error e) = text "serialization error: " ++ e

-- ===== src/Client.antt =====
-- crates/client: the attestation flow and its transports.
pub mod Attest
pub mod Transport
pub mod Ceremony

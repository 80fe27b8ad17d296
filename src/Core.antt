-- ===== src/Core.antt =====
-- crates/core: the types, errors, receipts and attestations that the other crates share.
pub mod Error
pub mod Action
pub mod External
pub mod Types
pub mod ScalarExt
pub mod Receipt
pub mod Attestation

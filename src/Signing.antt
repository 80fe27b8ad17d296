-- ===== src/Signing.antt =====
-- crates/signing: Lagrange coefficients and the FROST protocol.
pub mod Lagrange
pub mod Frost

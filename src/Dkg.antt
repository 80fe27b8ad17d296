-- ===== src/Dkg.antt =====
-- crates/dkg: polynomials over the scalars, Feldman's verifiable secret sharing, key rotation and
-- program-derived keys.
pub mod Polynomial
pub mod Sharing
pub mod Feldman
pub mod Rotation
pub mod Pdk

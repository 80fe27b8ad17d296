-- ===== src/Scenario.antt =====
-- Whole runs of the system as the tests of the crates make them, for all parameters.
pub mod Signing
pub mod Nodes
pub mod Clients
pub mod Keys

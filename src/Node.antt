-- ===== src/Node.antt =====
-- crates/node: program execution and the threshold node.
pub mod Executor
pub mod Node
pub mod Wasm

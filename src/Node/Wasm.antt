-- ===== src/Node/Wasm.antt =====
-- crates/node/src/wasm_executor.rs: the registry of compiled modules, the databases, the host
-- functions and the execution of a request. The compiler and the run of a module (wasmtime), the
-- databases (rusqlite) and the parsing and printing (serde_json) are interfaces.
pub mod Memory
pub mod Calls
pub mod Sql
pub mod Host
pub mod Run
pub mod Answer
pub mod Registry
pub mod Execution

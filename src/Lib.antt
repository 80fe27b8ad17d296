-- ===== src/Lib.antt =====
-- Craftsec: threshold attestation. A group of nodes shares a signing key; each node runs a program on
-- a request, and a client that gets enough approvals combines the nodes' partial signatures into one
-- signature of the transaction under the group's key.
--
-- The parts, and the code that each file is about (paths from the repository's root):
--
--   Base            lists, texts as bytes, maps, tests on native numbers
--   Curve           the interface of curve25519-dalek: scalars are a field, points a module over them
--                   with an injective multiplication of the base point (the prime-order subgroup), and
--                   `u64` numbers below the group order are distinct scalars. Curve/Small is an
--                   instance, the integers modulo 7.
--   Core            crates/core/src: Error is error.rs (a Rust panic is a third result), Types is
--                   types.rs, ScalarExt is scalar_ext.rs, Receipt is receipt.rs, Attestation is
--                   attestation.rs. External holds the interfaces of sha2, hex, rand and serde_json.
--                   Action is for fallible calls that change a state.
--   Dkg             crates/dkg/src: Polynomial is polynomial.rs, Feldman is feldman.rs (`run_dkg`,
--                   `verify_share`), Rotation is rotation.rs (`rotate_shares`), Pdk is pdk.rs
--                   (`derive_key`). Sharing is the contract of all three: the key shares are the
--                   values of one polynomial.
--   Signing         crates/signing/src: Lagrange is lagrange.rs, Frost is frost.rs.
--   Node            crates/node/src: Executor is executor.rs, Node is node.rs. Wasm is
--                   wasm_executor.rs: Memory has the guest's memory with its pointers, Sql the
--                   databases, Host the functions `host_log` and `host_sql_query`, and Run the
--                   registry and `execute`, step by step. Calls is for calls inside of a guest.
--   Client          crates/client/src: Attest is lib.rs (`attest`), Transport is transport.rs, and
--                   Ceremony puts key generation, nodes and client together.
--   Cli             crates/cli/src/main.rs: what the commands compute, and in Output the lines that
--                   they print and their exit codes (`main` is `run_command`).
--   Guest           examples/transfer-validator/src/lib.rs: the judgement of `do_attest`; Memory has
--                   the exported functions and the calls of the host, on the instance's memory, and
--                   Hosted and Verdict put the program and the executor together.
--   Scenario        the runs that the tests make, with the thresholds, signers, messages,
--                   requests and default key shares as arguments: Signing of crates/signing/src/frost.rs and
--                   crates/dkg/src/rotation.rs, Keys of crates/dkg/src/feldman.rs and
--                   crates/dkg/src/pdk.rs, Nodes of crates/node/src/node.rs, and Clients of
--                   crates/client/src/lib.rs.
--   Examples        the theorems at concrete inputs, with small stand-ins for the other crates.
--
-- How the parts meet: a key generation makes one key share for each node. The client's `attest` calls
-- round 1 of the nodes in order until enough have approved. A node refuses a frozen program, runs the
-- program through the trait `ProgramExecutor` (an instance argument) and, if it approves, draws a
-- nonce, which the transport keeps. In round 2 each of these nodes makes its partial signature with
-- Lagrange coefficients for the signers; the client adds them up and verifies the sum.
--
-- State is passed explicitly: the generator's state through the calls that draw random bytes, and the
-- transport's state (nodes, stored nonces, generator) through the client. Loops over `1..=n` are
-- recursions on the list `span 1 n`; there is no fuel except in the decimal printing of numbers, where
-- `n + 1` steps are enough for a number `n`. Integers are natural numbers; a cast of `usize` to `u32`
-- is `as_u32`, the remainder modulo `2 ^ 32`. The subtraction `t - 1` at zero and an index out of
-- range are panics, and so is the failure of a debug assertion.
--
-- A WASM instance is its memory, a list of bytes, with the lines that it logged and whatever else it
-- keeps. A module is given by what it exports; `attest` gets the functions of the host as an argument,
-- as the linker passes them. A call of an exported function returns, traps, or ends in a panic of a
-- host function. The memory of the transfer program changes by its allocator and by the strings that
-- it places.
--
-- Not modelled: what rusqlite does with a statement, wasmtime's compiler and interpreter, the derived
-- parsing and printing of serde_json, the parsing of the command line by clap, and the arithmetic of
-- the curve: the interfaces `Rusqlite`, `Wasmtime`, `WireJson`, `GuestJson`, `ReceiptJson`, `CliJson`
-- and `Curve` stand for them. A statement that a guest runs as a query is taken to read only, and a
-- guest's allocator to call no function of the host. The transfer program places each text that it
-- passes, also its literals. Sleeping in the delayed transport has no effect in the model. The tests
-- that compare hashes of two fixed inputs are not modelled: that the digests differ is no documented
-- law.
pub mod Base
pub mod Curve
pub mod Core
pub mod Dkg
pub mod Signing
pub mod Node
pub mod Client
pub mod Cli
pub mod Guest
pub mod Scenario
pub mod Examples

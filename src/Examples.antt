-- ===== src/Examples.antt =====
-- The theorems at concrete inputs, over a small world.
mod World
mod Core
mod Dkg
mod Signing
mod Node
mod Client
mod Contacts
mod ReceiptWire
mod Cli
mod WasmWorld
mod Wasm
mod Hosted
mod Scenario

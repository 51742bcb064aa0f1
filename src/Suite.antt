-- ===== src/Suite.antt =====
-- The unit tests of the interface and of the client, as functions of the libraries that they call.
pub mod ExtraMetas
pub mod Onchain
pub mod Offchain
pub mod Instruction
pub mod Meta

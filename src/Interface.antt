-- ===== src/Interface.antt =====
-- The interface crate: interface/src.
pub mod Error
pub mod Address
pub mod Instruction
pub mod Onchain
pub mod Offchain
pub mod Agrees

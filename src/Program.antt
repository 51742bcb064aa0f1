-- ===== src/Program.antt =====
-- The example program: program/src.
pub mod TransferAccount
pub mod Execute
pub mod InitializeTransferAccount
pub mod MetaList
pub mod Process
pub mod History
pub mod State
pub mod Ledger

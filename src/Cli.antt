-- ===== src/Cli.antt =====
-- The command line client under clients/cli/src.
pub mod Arguments
pub mod Client
pub mod Commands
pub mod Clap
pub mod Main
pub mod Meta

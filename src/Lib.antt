-- ===== src/Lib.antt =====
-- A transfer hook of the Solana token program: an interface crate, an on-chain program that counts
-- what each user transfers, and a command line client.
--
-- The program keeps no state of its own. Its state is the accounts of the ledger: for each user a
-- transfer account of 40 bytes, and for the one mint that it serves a validation account with a list
-- of extra accounts. The token program calls `Execute` on each transfer; `InitializeTransferAccount`
-- makes a user's transfer account, and `InitializeExtraAccountMetaList` makes the list of the mint.
--
-- Files and what they model:
-- - Prelude: lists, bytes and little-endian numbers over the native numbers.
-- - Solana/Error, Account, Exec, Slice: the errors, account handles, data borrows and slices of the
--   SDK that the code uses. A handler is a function of a `World`: the accounts, and the borrow flags
--   of their data cells. `scoped` drops the guards of a block at its end.
-- - Solana/Sdk: the libraries that are called and are not in the repository, as records of functions
--   (`Runtime`, `Spl`, `Token`), with what is documented of them in records of their own.
-- - Interface/Error, Address, Instruction: interface/src/error.rs, lib.rs and instruction.rs.
-- - Interface/Onchain, Offchain: the helpers of interface/src/onchain.rs and offchain.rs.
-- - Program/TransferAccount, InitializeTransferAccount, Execute, MetaList, Process: the functions of
--   program/src/processor.rs under their own names, and `process_instruction` of
--   program/src/entrypoint.rs. Their child modules hold the theorems. Program/Process/Signed: the
--   program on a runtime that checks the seeds of each signature. Program/Process/Invoked: the program
--   behind `invoke_execute`. The modules named Total are about panics.
-- - Program/History: sequences of calls of the program, with changes by other programs between them.
-- - Program/Ledger: what the program promises, with the accounts left out: a count for each user,
--   which is opened, credited or left alone. Its child modules take each call of a run of the
--   program, with the accounts and the input that it had, as such a step.
-- - Interface/Agrees: the two helpers side by side. Interface/Onchain/Resolved, Offchain/Resolved: what
--   they add for a list of extra accounts that resolves.
-- - Program/State: program/src/state.rs.
-- - Suite: the unit tests of interface/src/onchain.rs, offchain.rs and instruction.rs and of
--   clients/cli/src/meta.rs. A test is the statement of its assertions, for all keys that
--   `Pubkey::new_unique` may give; Solana/Sdk/ExtraAccounts has what they call.
-- - Cli/Client: the RPC client, the signers and the transactions that the client calls, as a record of
--   functions, and the outcome of a command.
-- - Cli/Commands: the functions of clients/cli/src/main.rs above `main`.
-- - Cli/Arguments: the command line that `main` declares. Cli/Clap: clap, the look-up of keys and the
--   configuration file of solana-cli-config, as records of functions, with what is documented of them.
--   `get_matches` calls the parser of the account argument, and may panic in it.
-- - Cli/Main: the run of `main`, as steps on a session: the client's network, the wallet manager and
--   what was printed. A step goes on with a value or ends the process.
-- - Cli/Commands/Landed: the instruction of the client's first command in the program.
-- - Cli/Meta: clients/cli/src/meta.rs.
-- - Examples: concrete libraries and accounts, tests, and the theorems at concrete values.
--
-- Errors are values of `Result`, which has a third case for a panic. Lengths are exact; a slice out
-- of range panics, as in Rust. A `u64` is a number below 2 ^ 64, and the addition of `process_execute`
-- is taken modulo 2 ^ 64, as the release profile compiles it: no profile sets `overflow-checks`.
-- Nothing in the code loops without a list to walk, so no function runs on fuel. The feature
-- `forbid-additional-mints`, which is on by default, is on.
--
-- Not modelled: log messages (the error that the entrypoint prints is kept), compute budgets, the
-- rollback of a failed instruction by the runtime and the runtime's checks after a call, the layout
-- inside the list of extra accounts, which the libraries own, and the tests that
-- start a validator, the test of the system program's id and the scripts.
-- Of the command line, the texts of the help are left out.
pub mod Prelude
pub mod Solana
pub mod Interface
pub mod Program
pub mod Suite
pub mod Cli
mod Examples

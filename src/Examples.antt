-- ===== src/Examples.antt =====
-- The theorems at concrete accounts and instructions, over small concrete libraries.
mod Libraries
mod Laws
mod Accounts
mod Interface
mod Program
mod Calls
mod Helpers
mod CommandLine
mod Commands
mod Arguments
mod Landed
mod Ledger
mod Signed
mod Main
mod Ready
mod Invoked
mod Total
mod Encoding
mod Resolver
mod Completer
mod Suite
mod Served
mod Additions
mod Agrees

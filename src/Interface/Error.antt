-- ===== src/Interface/Error.antt =====
-- interface/src/error.rs: the errors of the interface and their codes.
use Prim.Native.String.{String}
use transfer_hook.Prelude.{ℕ, ◌+◌}
use transfer_hook.Solana.Error.{ProgramError, custom}

pub data TransferHookError : Type 0 where
  incorrect_account mint_has_no_mint_authority : TransferHookError
  incorrect_mint_authority program_called_outside_of_transfer : TransferHookError

-- `e as u32`: the first discriminant is written, the others count on.
abbrev pub code : TransferHookError → ℕ
code incorrect_account = 2_110_272_652
code mint_has_no_mint_authority = 2_110_272_652 + 1
code incorrect_mint_authority = 2_110_272_652 + 2
code program_called_outside_of_transfer = 2_110_272_652 + 3

-- `impl From<TransferHookError> for ProgramError`
abbrev pub to_program_error : TransferHookError → ProgramError
to_program_error e = custom (code e)

-- `impl ToStr for TransferHookError`
abbrev pub to_str : TransferHookError → String
to_str incorrect_account = "Incorrect account provided"
to_str mint_has_no_mint_authority = "Mint has no mint authority"
to_str incorrect_mint_authority = "Incorrect mint authority has signed the instruction"
to_str program_called_outside_of_transfer = "Program called outside of a token transfer"

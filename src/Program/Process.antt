-- ===== src/Program/Process.antt =====
-- The dispatcher `process` of program/src/processor.rs and the entrypoint in
-- program/src/entrypoint.rs.
pub mod Dispatch
pub mod Invoked
pub mod Signed
pub mod Total
use transfer_hook.Prelude.{⊤, ℕ, List, [], ◌∷◌, Bytes, ◌==◌, if◌then◌else◌}
use transfer_hook.Solana.Error.{ProgramError, Result, ok, err, panic}
use transfer_hook.Solana.Account.{Pubkey, AccountInfo}
use transfer_hook.Solana.Exec.{World, Exec, ◌>>=◌, pure, lift}
use transfer_hook.Solana.Sdk.{Runtime, Spl, Token}
use transfer_hook.Interface.Instruction.{
  TransferHookInstruction, execute_of, initialize_of, update_of, unpack,
}
use transfer_hook.Program.Execute.{process_execute}
use transfer_hook.Program.InitializeTransferAccount.{process_initialize_transfer_account}
use transfer_hook.Program.MetaList.{process_initialize_extra_account_meta_list}

-- `instruction_discriminator::INITIALIZE_TRANSFER_ACCOUNT`
abbrev pub initialize_transfer_account : ℕ
initialize_transfer_account = 255

module _ (R : Runtime) (S : Spl) (T : Token) where
  -- The `match` on the instruction. The arm of `UpdateExtraAccountMetaList` returns at once: the
  -- call of its handler is commented out.
  unfoldable pub process_instruction_of :
      Pubkey → List AccountInfo → TransferHookInstruction S.Meta → Exec ⊤
  process_instruction_of program_id accounts (execute_of amount) =
      process_execute R S T program_id accounts amount
  process_instruction_of program_id accounts (initialize_of metas) =
      process_initialize_extra_account_meta_list R S T program_id accounts metas
  process_instruction_of program_id accounts (update_of metas) = pure tt

  -- Not the custom instruction: parse as a `TransferHookInstruction`.
  unfoldable pub process_standard : Pubkey → List AccountInfo → Bytes → Exec ⊤
  unfolding process_instruction_of
  process_standard program_id accounts input = do
    instruction ← lift (unpack S input)
    process_instruction_of program_id accounts instruction

  unfoldable pub process : Pubkey → List AccountInfo → Bytes → Exec ⊤
  unfolding process_standard
  process program_id accounts [] = process_standard program_id accounts []
  process program_id accounts (first ∷ rest) =
      if first == initialize_transfer_account
      then process_initialize_transfer_account R program_id accounts
      else process_standard program_id accounts (first ∷ rest)

  -- The entrypoint prints an error and hands it on: the second part is what is printed.
  unfoldable pub process_instruction :
      Pubkey → List AccountInfo → Bytes → World → (Result ⊤ × World) × List ProgramError
  process_instruction program_id accounts instruction_data w =
      let (r, w') = process program_id accounts instruction_data w in
      elim r [
        | ok _ ↦ ((ok tt, w'), [])
        | err error ↦ ((err error, w'), error ∷ [])
        | panic ↦ ((panic, w'), [])
      ]

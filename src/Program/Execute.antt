-- ===== src/Program/Execute.antt =====
-- `process_execute` of program/src/processor.rs: the checks on the accounts of a transfer, and the
-- count that it adds the amount to.
pub mod Steps
pub mod Outcome
pub mod Total
use transfer_hook.Prelude.{
  ⊤, ℕ, ◌+◌, ◌%◌, ◌^◌, Bool, not, List, Bytes, bytes_eq, ◌==◌, if◌then◌else◌,
}
use transfer_hook.Solana.Error.{
  Result, ok, err, panic, unwrap, invalid_seeds, uninitialized_account, illegal_owner,
}
use transfer_hook.Solana.Account.{Pubkey, AccountInfo}
use transfer_hook.Solana.Exec.{
  World, Exec, ◌>>=◌, ◌>>◌, pure, raise, lift, gets, fail_if, next_account_info, lamports, owner,
  try_borrow_data, try_borrow_mut_data, write_data, scoped,
}
use transfer_hook.Solana.Sdk.{Runtime, Spl, Token}
use transfer_hook.Interface.Error.{to_program_error, program_called_outside_of_transfer}
use transfer_hook.Interface.Address.{get_extra_account_metas_address}
use transfer_hook.Interface.Instruction
use transfer_hook.Interface.Instruction.{execute_of}
use transfer_hook.Program.TransferAccount.{unpack, update_transfered}

-- `current_amount + amount` on `u64`: the release build wraps.
abbrev pub add_u64 : ℕ → ℕ → ℕ
add_u64 a b = (a + b) % 2 ^ 64

module _ (T : Token) where
  unfoldable pub check_token_account_is_transferring : AccountInfo → Exec ⊤
  check_token_account_is_transferring account_info = scoped (do
    account_data ← try_borrow_data account_info
    token_account ← lift (T.unpack_account account_data)
    transferring ← lift (T.transferring token_account)
    if transferring then pure tt else raise (to_program_error program_called_outside_of_transfer))

-- The end of `process_execute`, on the handle of the transfer account.
unfoldable pub track_transfer : Pubkey → AccountInfo → ℕ → Exec ⊤
track_transfer program_id transfer_account amount = do
  funds ← lamports transfer_account
  fail_if (funds == 0) uninitialized_account
  program ← owner transfer_account
  fail_if (not (bytes_eq program program_id)) illegal_owner
  transfer_account_data ← try_borrow_mut_data transfer_account
  (_, current_amount) ← lift (unpack transfer_account_data)
  updated ← lift (update_transfered transfer_account_data (add_u64 current_amount amount))
  write_data transfer_account updated

module _ (R : Runtime) (S : Spl) where
  -- The middle of `process_execute`, on the handles of the mint and the validation account.
  unfoldable pub check_extra_accounts :
      Pubkey → List AccountInfo → AccountInfo → AccountInfo → ℕ → Exec ⊤
  check_extra_accounts program_id accounts mint_info extra_account_metas_info amount = do
    fail_if
        (not (
          bytes_eq (get_extra_account_metas_address R mint_info.key program_id)
            extra_account_metas_info.key))
        invalid_seeds
    data_1 ← try_borrow_data extra_account_metas_info
    cells ← gets (λ w. w.accounts)
    lift (
        S.check_account_infos S.execute_discriminator cells accounts
          (Instruction.pack S (execute_of amount)) program_id data_1)
    data_2 ← try_borrow_data extra_account_metas_info
    state ← lift (unwrap (S.tlv_unpack data_2))
    lift (S.unpack_with_tlv_state S.execute_discriminator state)
    pure tt

module _ (R : Runtime) (S : Spl) (T : Token) where
  unfoldable pub process_execute : Pubkey → List AccountInfo → ℕ → Exec ⊤
  process_execute program_id accounts amount = scoped (do
    (source_account_info, iter_1) ← next_account_info accounts
    (mint_info, iter_2) ← next_account_info iter_1
    (destination_account_info, iter_3) ← next_account_info iter_2
    (_, iter_4) ← next_account_info iter_3
    (extra_account_metas_info, iter_5) ← next_account_info iter_4
    check_token_account_is_transferring T source_account_info
    check_token_account_is_transferring T destination_account_info
    check_extra_accounts R S program_id accounts mint_info extra_account_metas_info amount
    (transfer_account, _) ← next_account_info iter_5
    track_transfer program_id transfer_account amount)

-- ===== src/Program/InitializeTransferAccount.antt =====
-- `process_initialize_transfer_account` of program/src/processor.rs: it makes the account that
-- counts a user's transfers.
pub mod Outcome
pub mod Blocked
pub mod Ready
pub mod Total
use transfer_hook.Prelude.{⊤, ℕ, ◌≡◌, Bool, not, List, [], ◌∷◌, Bytes, bytes_eq, ltb, if◌then◌else◌}
use transfer_hook.Solana.Error.{missing_required_signature, invalid_seeds}
use transfer_hook.Solana.Account.{Pubkey, AccountInfo}
use transfer_hook.Solana.Exec.{
  World, Exec, ◌>>=◌, ◌>>◌, pure, raise, lift, gets, fail_if, next_account_info, lamports,
  try_borrow_mut_data, write_data, scoped,
}
use transfer_hook.Solana.Sdk.{Runtime}
use transfer_hook.Program.TransferAccount.{len, pack}

-- Initialize account data
unfoldable pub write_first_count : AccountInfo → AccountInfo → Exec ⊤
write_first_count owner_info transfer_account_info = do
  data_1 ← try_borrow_mut_data transfer_account_info
  data_2 ← lift (pack owner_info.key 0 data_1)
  write_data transfer_account_info data_2

module _ (R : Runtime) where
  -- The account does not exist: create it at its derived address and write the first count.
  unfoldable pub create_transfer_account : Pubkey → AccountInfo → AccountInfo → ℕ → Exec ⊤
  create_transfer_account program_id owner_info transfer_account_info bump_seed = do
    let required_lamports = R.minimum_balance len
    R.invoke_signed
        (R.create_account owner_info.key transfer_account_info.key required_lamports len program_id)
        (owner_info ∷ transfer_account_info ∷ []) ((owner_info.key ∷ (bump_seed ∷ []) ∷ []) ∷ [])
    write_first_count owner_info transfer_account_info

  unfoldable pub process_initialize_transfer_account : Pubkey → List AccountInfo → Exec ⊤
  process_initialize_transfer_account program_id accounts = scoped (do
    (owner_info, iter_1) ← next_account_info accounts
    (transfer_account_info, iter_2) ← next_account_info iter_1
    next_account_info iter_2
    fail_if (not owner_info.is_signer) missing_required_signature
    let derived = R.find_program_address (owner_info.key ∷ []) program_id
    fail_if (not (bytes_eq transfer_account_info.key derived.0)) invalid_seeds
    funds ← lamports transfer_account_info
    if ltb 0 funds
        then pure tt
        else create_transfer_account program_id owner_info transfer_account_info derived.1)

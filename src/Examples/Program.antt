-- ===== src/Examples/Program.antt =====
-- The theorems on the program at concrete calls.
use transfer_hook.Prelude.{
  ℕ, ◌<◌, ◌≡◌, ◌≢◌, refl, true, false, [], ◌∷◌, bytes_eq, bytes_eq_iff, arith, to_le_bytes,
  from_le_bytes,
}
use transfer_hook.Solana.Error.{ok}
use transfer_hook.Solana.Account.{system_program_id, Pubkey, Account, AccountInfo}
use transfer_hook.Solana.Exec.{IsFresh}
use transfer_hook.Solana.Exec.Atomic.{IsAtomic}
use transfer_hook.Interface.Address.{get_extra_account_metas_address}
use transfer_hook.Interface.Instruction
use transfer_hook.Interface.Instruction.{execute_of, initialize_of}
use transfer_hook.Program.TransferAccount
use transfer_hook.Program.Execute.{
  process_execute, check_token_account_is_transferring, check_extra_accounts, track_transfer,
}
use transfer_hook.Program.Execute.Steps.{IsCredited}
use transfer_hook.Program.Execute.Outcome.{
  Handles, listed, execute_returns_iff, execute_credits, execute-IsAtomic,
}
use transfer_hook.Program.InitializeTransferAccount.{
  process_initialize_transfer_account, create_transfer_account, write_first_count,
}
use transfer_hook.Program.InitializeTransferAccount.Outcome.{
  IsCreated, initialize, initialize_outcome,
}
use transfer_hook.Program.InitializeTransferAccount.Blocked.{prefunded_blocks}
use transfer_hook.Examples.Libraries.{runtime, spl, token}
use transfer_hook.Examples.Laws.{runtime-RunsSystemProgram}
use transfer_hook.Examples.Accounts.{
  handle, handles, program_key, user_key, metas_key, counter_key, ready_world, empty_world,
  funded_world, world,
}

world-IsFresh : (cells : Pubkey → Account) → IsFresh (world cells)
world-IsFresh cells = record { no_shared = refl; no_exclusive = refl }

pub ready-IsFresh : IsFresh ready_world
ready-IsFresh = world-IsFresh ready_world.accounts

funded-IsFresh : IsFresh funded_world
funded-IsFresh = world-IsFresh funded_world.accounts

pub empty-IsFresh : IsFresh empty_world
empty-IsFresh = world-IsFresh empty_world.accounts

pub execute_returns :
    (process_execute runtime spl token program_key (listed handles) 5 ready_world).0 ≡ ok tt
unfolding process_execute check_token_account_is_transferring check_extra_accounts track_transfer
    get_extra_account_metas_address bytes_eq Instruction.pack to_le_bytes from_le_bytes
    TransferAccount.unpack TransferAccount.update_transfered
execute_returns = refl

execute_returns_iff_example :
    (process_execute runtime spl token program_key (listed handles) 5 ready_world).0 ≡ ok tt
unfolding bytes_eq get_extra_account_metas_address to_le_bytes
execute_returns_iff_example =
    (execute_returns_iff runtime spl token program_key 5 ready_world ready-IsFresh
        (listed handles)).1
      (
        handles,
        refl,
        record {
          source_transferring = refl;
          destination_transferring = refl;
          resolved = record { address = refl; checked = refl; listed = tt };
          funded = omega arith;
          owned = refl;
          long = omega arith;
          distinct = λ e. ground (arith, bytes_eq_iff counter_key metas_key, e);
        },
      )

execute_credits_example :
    IsCredited counter_key 5 ready_world.accounts
      (process_execute runtime spl token program_key (listed handles) 5 ready_world).1.accounts
execute_credits_example =
    execute_credits runtime spl token program_key 5 ready_world ready-IsFresh handles
      execute_returns

execute-IsAtomic_example :
    IsAtomic (process_execute runtime spl token program_key (listed handles) 5)
execute-IsAtomic_example = execute-IsAtomic runtime spl token program_key (listed handles) 5

abbrev user_info : AccountInfo
user_info = handle user_key true

abbrev counter_info : AccountInfo
counter_info = handle counter_key false

abbrev system_info : AccountInfo
system_info = handle system_program_id false

initialize_returns :
    (initialize runtime program_key user_info counter_info system_info [] empty_world).0 ≡ ok tt
unfolding process_initialize_transfer_account create_transfer_account write_first_count bytes_eq
    TransferAccount.pack to_le_bytes
initialize_returns = refl

initialize_outcome_example :
    (true ≡ true)
    × (counter_key ≡ (runtime.find_program_address (user_key ∷ []) program_key).0)
    × ((empty_world.accounts counter_key).lamports ≡ 0
        → IsCreated runtime program_key user_key counter_key empty_world.accounts
            (initialize runtime program_key user_info counter_info system_info []
              empty_world).1.accounts)
    × (0 < (empty_world.accounts counter_key).lamports
        → (initialize runtime program_key user_info counter_info system_info [] empty_world).1
          ≡ empty_world)
initialize_outcome_example =
    initialize_outcome runtime program_key user_info counter_info system_info [] empty_world
      runtime-RunsSystemProgram empty-IsFresh refl initialize_returns

prefunded_blocks_example :
    (initialize runtime program_key user_info counter_info system_info [] funded_world
      ≡ (ok tt, funded_world))
    × ((h : Handles) (amount : ℕ)
        → h.transfer.key ≡ counter_key
        → (process_execute runtime spl token program_key (listed h) amount funded_world).0 ≢ ok tt)
unfolding bytes_eq
prefunded_blocks_example =
    prefunded_blocks runtime spl token program_key user_info counter_info system_info []
      funded_world refl refl (omega arith)
      (λ e. ground (arith, bytes_eq_iff system_program_id program_key, e))

-- ===== src/Examples/Ready.antt =====
-- An account is made and used at once, at concrete accounts.
use transfer_hook.Prelude.{◌≡◌, refl, true, false, [], bytes_eq, bytes_eq_iff, to_le_bytes, arith}
use transfer_hook.Solana.Error.{ok}
use transfer_hook.Solana.Account.{system_program_id}
use transfer_hook.Solana.Exec.{World, IsFresh, update}
use transfer_hook.Interface.Address.{get_extra_account_metas_address}
use transfer_hook.Program.Execute.{process_execute}
use transfer_hook.Program.Execute.Steps.{IsTransferring, IsResolved}
use transfer_hook.Program.Execute.Outcome.{listed}
use transfer_hook.Program.InitializeTransferAccount.{
  process_initialize_transfer_account, create_transfer_account, write_first_count,
}
use transfer_hook.Program.InitializeTransferAccount.Outcome.{initialize}
use transfer_hook.Program.InitializeTransferAccount.Ready.{initialize-process_execute}
use transfer_hook.Program.TransferAccount
use transfer_hook.Examples.Libraries.{runtime, spl, token}
use transfer_hook.Examples.Laws.{runtime-RunsSystemProgram}
use transfer_hook.Examples.Accounts.{
  account, handle, handles, program_key, user_key, metas_key, counter_key, tokens, list_bytes,
  world,
}

-- The list of the mint is there, and no account of the user's.
abbrev listed_world : World
listed_world = world (update metas_key (account 10 list_bytes program_key) tokens)

abbrev made_world : World
made_world =
    (initialize runtime program_key (handle user_key true) (handle counter_key false)
      (handle system_program_id false) [] listed_world).1

listed-IsFresh : IsFresh listed_world
listed-IsFresh = record { no_shared = refl; no_exclusive = refl }

made :
    (initialize runtime program_key
      (handle user_key true)
      (handle counter_key false)
      (handle system_program_id false)
      []
      listed_world).0
    ≡ ok tt
unfolding process_initialize_transfer_account create_transfer_account write_first_count bytes_eq
    TransferAccount.pack to_le_bytes
made = refl

source_transferring : IsTransferring token handles.source made_world
unfolding process_initialize_transfer_account create_transfer_account write_first_count bytes_eq
    TransferAccount.pack to_le_bytes
source_transferring = refl

destination_transferring : IsTransferring token handles.destination made_world
unfolding process_initialize_transfer_account create_transfer_account write_first_count bytes_eq
    TransferAccount.pack to_le_bytes
destination_transferring = refl

list_resolved :
    IsResolved runtime spl program_key (listed handles) handles.mint handles.metas 5 made_world
unfolding process_initialize_transfer_account create_transfer_account write_first_count bytes_eq
    TransferAccount.pack to_le_bytes get_extra_account_metas_address
list_resolved = record { address = refl; checked = refl; listed = tt }

initialize-process_execute_example :
    ((process_execute runtime spl token program_key (listed handles) 5 made_world).0 ≡ ok tt)
    × (TransferAccount.unpack
          ((process_execute runtime spl token program_key (listed handles) 5 made_world).1.accounts
            counter_key).contents
        ≡ ok (user_key, 5))
unfolding bytes_eq
initialize-process_execute_example =
    initialize-process_execute runtime spl token program_key (handle user_key true)
      (handle counter_key false) (handle system_program_id false) [] listed_world handles 5
      runtime-RunsSystemProgram (omega arith) listed-IsFresh refl refl made refl
      (λ e. ground (arith, bytes_eq_iff metas_key counter_key, e)) (omega arith) source_transferring
      destination_transferring list_resolved

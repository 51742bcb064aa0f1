-- ===== src/Examples/Calls.antt =====
-- The theorems on lists, on the dispatcher and on histories at concrete calls.
use transfer_hook.Prelude.{
  ℕ, length, ◌≤◌, ⊤, ◌≡◌, refl, true, false, List, [], ◌∷◌, ◌++◌, Bytes, bytes_eq, bytes_eq_iff,
  arith, to_le_bytes, from_le_bytes,
}
use transfer_hook.Solana.Error.{Result, ok}
use transfer_hook.Solana.Account.{system_program_id, AccountInfo}
use transfer_hook.Solana.Exec.{World}
use transfer_hook.Interface.Address.{
  get_extra_account_metas_address, get_extra_account_metas_address_and_bump_seed,
}
use transfer_hook.Interface.Instruction
use transfer_hook.Interface.Instruction.{execute_of, initialize_of}
use transfer_hook.Program.TransferAccount
use transfer_hook.Program.Execute.{
  process_execute, check_token_account_is_transferring, check_extra_accounts, track_transfer,
}
use transfer_hook.Program.Execute.Outcome.{listed}
use transfer_hook.Program.MetaList.{
  rewrite_meta_list, process_update_extra_account_meta_list, mint_id, check_mint_authority,
  create_meta_list, process_initialize_extra_account_meta_list,
}
use transfer_hook.Program.MetaList.Outcome.{
  HasAuthority, initialize_list, initialize_list_authorized,
}
use transfer_hook.Program.MetaList.Created.{HoldsList, initialize_list-HoldsList}
use transfer_hook.Solana.Sdk.{Resizes}
use transfer_hook.Program.MetaList.Rewritten.{HoldsUpdate}
use transfer_hook.Program.MetaList.Updated.{
  update_list-HoldsUpdate, update_list, update_list_authorized,
}
use transfer_hook.Program.State.{example_data}
use transfer_hook.Program.State.Matches.{initialize_list-example_data}
use transfer_hook.Program.Process.{process, process_standard, process_instruction_of}
use transfer_hook.Program.Process.Dispatch.{process-pack, process-update}
use transfer_hook.Program.History.{History, start, call, IsCounter, logged}
use transfer_hook.Program.History.Total.{History-total}
use transfer_hook.Examples.Program.{ready-IsFresh}
use transfer_hook.Examples.Libraries.{runtime, spl, token}
use transfer_hook.Examples.Laws.{runtime-RunsSystemProgram, spl-IsCodec, spl-IsApart}
use transfer_hook.Examples.Accounts.{
  handle, handles, program_key, user_key, authority_key, metas_key, counter_key, ready_world,
  empty_world,
}

abbrev listing : List AccountInfo
listing =
    handle metas_key false
    ∷ handle mint_id false
    ∷ handle authority_key true
    ∷ handle system_program_id false
    ∷ []

abbrev list_call : Result ⊤ × World
list_call =
    initialize_list runtime spl token program_key (handle metas_key false) (handle mint_id false)
      (handle authority_key true) (handle system_program_id false) [] (4 ∷ 6 ∷ []) empty_world

list_returns : list_call.0 ≡ ok tt
unfolding process_initialize_extra_account_meta_list check_mint_authority create_meta_list bytes_eq
    get_extra_account_metas_address_and_bump_seed to_le_bytes
list_returns = refl

initialize_list_authorized_example :
    (mint_id ≡ mint_id)
    × (true ≡ true)
    × HasAuthority token (empty_world.accounts mint_id).contents authority_key
    × (metas_key ≡ get_extra_account_metas_address runtime mint_id program_key)
initialize_list_authorized_example =
    initialize_list_authorized runtime spl token program_key (handle metas_key false)
      (handle mint_id false) (handle authority_key true) (handle system_program_id false) []
      (4 ∷ 6 ∷ []) empty_world list_returns

initialize_list-HoldsList_example :
    HoldsList spl program_key metas_key (4 ∷ 6 ∷ []) empty_world.accounts list_call.1.accounts
initialize_list-HoldsList_example =
    initialize_list-HoldsList runtime spl token program_key (handle metas_key false)
      (handle mint_id false) (handle authority_key true) (handle system_program_id false) []
      (4 ∷ 6 ∷ []) empty_world runtime-RunsSystemProgram list_returns

initialize_list-example_data_example :
    example_data spl (4 ∷ 6 ∷ []) ≡ ok (list_call.1.accounts metas_key).contents
initialize_list-example_data_example =
    initialize_list-example_data runtime spl token program_key (handle metas_key false)
      (handle mint_id false) (handle authority_key true) (handle system_program_id false) []
      (4 ∷ 6 ∷ []) empty_world runtime-RunsSystemProgram list_returns

abbrev update_call : Result ⊤ × World
update_call =
    update_list runtime spl token program_key (handle metas_key false) (handle mint_id false)
      (handle authority_key true) [] (4 ∷ 6 ∷ []) ready_world

update_returns : update_call.0 ≡ ok tt
unfolding process_update_extra_account_meta_list check_mint_authority rewrite_meta_list bytes_eq
    get_extra_account_metas_address to_le_bytes
update_returns = refl

update_list_authorized_example :
    (true ≡ true)
    × HasAuthority token (ready_world.accounts mint_id).contents authority_key
    × (metas_key ≡ get_extra_account_metas_address runtime mint_id program_key)
    × ((ready_world.accounts metas_key).owner ≡ program_key)
    × ((minimum : ℕ) × (spl.size_of 0 ≡ ok minimum)
        × (minimum ≤ length (ready_world.accounts metas_key).contents))
update_list_authorized_example =
    update_list_authorized runtime spl token program_key (handle metas_key false)
      (handle mint_id false) (handle authority_key true) [] (4 ∷ 6 ∷ []) ready_world update_returns

-- `Execute` with the amount 5
execute_5 : Bytes
execute_5 = Instruction.pack spl (execute_of 5)

process-pack_example :
    process runtime spl token program_key
      (listed handles)
      (Instruction.pack spl (execute_of 5))
      ready_world
    ≡ process_instruction_of runtime spl token program_key
        (listed handles)
        (execute_of 5)
        ready_world
process-pack_example =
    process-pack runtime spl token program_key (listed handles) ready_world spl-IsCodec spl-IsApart
      (execute_of 5) (omega arith)

process-update_example :
    process runtime spl token program_key listing
      (Instruction.update_extra_account_meta_list spl program_key metas_key mint_id authority_key
        (4 ∷ 6 ∷ [])).contents
      ready_world
    ≡ (ok tt, ready_world)
process-update_example =
    process-update runtime spl token program_key listing ready_world spl-IsCodec spl-IsApart
      metas_key mint_id authority_key (4 ∷ 6 ∷ []) (omega arith)

execute_5_returns :
    (process runtime spl token program_key (listed handles) execute_5 ready_world).0 ≡ ok tt
unfolding execute_5 process process_standard process_instruction_of process_execute
    Instruction.unpack check_token_account_is_transferring check_extra_accounts track_transfer
    get_extra_account_metas_address bytes_eq Instruction.pack to_le_bytes from_le_bytes
    TransferAccount.unpack TransferAccount.update_transfered
execute_5_returns = refl

-- A history of one call.
one_call :
    History runtime spl token program_key ready_world
      (logged spl (listed handles) execute_5 ++ [])
      (process runtime spl token program_key (listed handles) execute_5 ready_world).1
one_call =
    call start (listed handles) execute_5 (refl, (refl, (refl, (refl, (refl, (refl, tt))))))
      execute_5_returns

-- The counter of 7 counts 12.
History-total_example :
    IsCounter program_key counter_key user_key 12
      (process runtime spl token program_key (listed handles) execute_5 ready_world).1.accounts
unfolding execute_5 bytes_eq Instruction.pack Instruction.unpack to_le_bytes from_le_bytes
History-total_example =
    History-total runtime spl token program_key runtime-RunsSystemProgram
      (λ e. ground (arith, bytes_eq_iff program_key system_program_id, e)) counter_key user_key 7
      ready_world ready-IsFresh
      (unfold TransferAccount.unpack in record { program = refl; count = refl }) (omega arith)
      one_call

runtime-Resizes : Resizes runtime
runtime-Resizes = record { resize_accounts = λ a size w h. refl }

update_list-HoldsUpdate_example :
    HoldsUpdate spl metas_key (4 ∷ 6 ∷ []) ready_world.accounts update_call.1.accounts
update_list-HoldsUpdate_example =
    update_list-HoldsUpdate runtime spl token program_key (handle metas_key false)
      (handle mint_id false) (handle authority_key true) [] (4 ∷ 6 ∷ []) ready_world runtime-Resizes
      update_returns

-- ===== src/Examples/Served.antt =====
-- The list that the program made, in the helper for CPIs.
use transfer_hook.Prelude.{
  ⊤, ◌≡◌, refl, true, false, some, List, [], ◌∷◌, Bytes, bytes_eq, to_le_bytes,
}
use transfer_hook.Solana.Error.{Result, ok}
use transfer_hook.Solana.Account.{
  system_program_id, Pubkey, AccountInfo, new_writable, new_readonly,
}
use transfer_hook.Solana.Exec.{World}
use transfer_hook.Interface.Address.{
  get_extra_account_metas_address, get_extra_account_metas_address_and_bump_seed,
}
use transfer_hook.Interface.Onchain.{Call, find_key, add_extra_accounts_for_execute_cpi}
use transfer_hook.Program.MetaList.{
  mint_id, process_initialize_extra_account_meta_list, check_mint_authority, create_meta_list,
}
use transfer_hook.Program.MetaList.Outcome.{initialize_list}
use transfer_hook.Program.MetaList.Served.{initialize_list_served}
use transfer_hook.Suite.ExtraMetas.Built.{distinct}
use transfer_hook.Suite.Onchain.Found.{ten, all}
use transfer_hook.Suite.Onchain.Resolving
use transfer_hook.Examples.Libraries.{runtime, token}
use transfer_hook.Examples.Laws.{runtime-RunsSystemProgram}
use transfer_hook.Examples.Accounts.{
  key, handle, program_key, user_key, authority_key, metas_key, empty_world,
}
use transfer_hook.Examples.Resolver.{lists, extras, lists-IsCodec, lists-ResolvesInOrder}
use transfer_hook.Examples.Suite.{meta_1, meta_2, meta_3, meta_4}

abbrev metas : List Bytes
metas = meta_1 ∷ meta_2 ∷ meta_3 ∷ meta_4 ∷ []

abbrev made : Result ⊤ × World
made =
    initialize_list runtime lists token program_key (handle metas_key false) (handle mint_id false)
      (handle authority_key true) (handle system_program_id false) [] metas empty_world

made_returns : made.0 ≡ ok tt
unfolding process_initialize_extra_account_meta_list check_mint_authority create_meta_list bytes_eq
    get_extra_account_metas_address_and_bump_seed to_le_bytes
made_returns = refl

abbrev third : Pubkey
third =
    Resolving.e3 runtime lists extras lists-IsCodec (key 12) mint_id (key 13) user_key metas_key
      (key 2) (key 3) program_key

abbrev fourth : Pubkey
fourth =
    Resolving.e4 runtime lists extras lists-IsCodec (key 12) mint_id (key 13) user_key metas_key
      (key 2) (key 3) program_key

all_distinct :
    distinct
      (ten (key 12) mint_id (key 13) user_key metas_key (key 2) (key 3) third fourth program_key)
    ≡ true
unfolding bytes_eq to_le_bytes
all_distinct = refl

abbrev additional : List AccountInfo
additional =
    all (key 12) mint_id (key 13) user_key metas_key (key 2) (key 3) third fourth program_key

program_there : find_key program_key additional ≡ some (handle program_key false)
unfolding bytes_eq to_le_bytes
program_there = refl

list_there :
    find_key (get_extra_account_metas_address runtime mint_id program_key) additional
    ≡ some (handle metas_key false)
unfolding bytes_eq to_le_bytes get_extra_account_metas_address
list_there = refl

-- An instruction of another program, without accounts.
abbrev outer : Call
outer = (record { program_id = key 8; accounts = []; contents = 1 ∷ [] }, [])

initialize_list_served_example :
    add_extra_accounts_for_execute_cpi runtime lists program_key
      (handle (key 12) false)
      (handle mint_id false)
      (handle (key 13) false)
      (handle user_key false)
      additional
      100
      outer
      made.1
    ≡ (
      ok (
        record (outer.0) {
          accounts =
              new_readonly (key 2) true
              ∷ new_readonly (key 3) true
              ∷ new_writable third false
              ∷ new_writable fourth false
              ∷ new_readonly (get_extra_account_metas_address runtime mint_id program_key) false
              ∷ new_readonly program_key false
              ∷ [];
        },
        record { key = key 2; is_signer = true; is_writable = false }
            ∷ record { key = key 3; is_signer = true; is_writable = false }
            ∷ handle third false
            ∷ handle fourth false
            ∷ handle metas_key false
            ∷ handle program_key false
            ∷ [],
      ),
      made.1,
    )
unfolding get_extra_account_metas_address
initialize_list_served_example =
    initialize_list_served runtime lists token runtime-RunsSystemProgram extras program_key
      (handle metas_key false) (handle mint_id false) (handle authority_key true)
      (handle system_program_id false) [] metas empty_world made_returns lists-ResolvesInOrder
      (handle (key 12) false) (handle (key 13) false) (handle user_key false) additional 100 outer
      refl program_there list_there
      (Resolving.Resolves-all runtime lists extras lists-IsCodec (key 12) mint_id (key 13) user_key
        metas_key (key 2) (key 3) program_key all_distinct refl refl refl refl)

-- ===== src/Examples/Suite.antt =====
-- The repository's tests, and the theorems that they rest on, over the concrete lists.
use transfer_hook.Prelude.{
  ⊤, ◌≡◌, refl, sym, ap, true, false, some, List, [], ◌∷◌, ◌++◌, Bytes, bytes_eq, bytes_eq_self,
  to_le_bytes,
}
use transfer_hook.Solana.Error.{ok}
use transfer_hook.Solana.Account.{Pubkey, AccountInfo, Instruction, new_writable, new_readonly}
use transfer_hook.Interface.Address.{get_extra_account_metas_address}
use transfer_hook.Interface.Onchain.{Call, find_key, add_extra_accounts_for_execute_cpi}
use transfer_hook.Interface.Onchain.Resolved.{add_extra_accounts_resolved}
use transfer_hook.Solana.Exec.{World}
use transfer_hook.Interface.Offchain.{misses_any, add_extra_account_metas_for_execute, done, Fetch}
use transfer_hook.Interface.Offchain.Resolved.{add_extra_account_metas_resolved}
use transfer_hook.Suite.ExtraMetas.{extra_metas, setup_validation_data}
use transfer_hook.Suite.ExtraMetas.Built.{distinct}
use transfer_hook.Suite.Onchain
use transfer_hook.Suite.Offchain
use transfer_hook.Examples.Libraries.{runtime}
use transfer_hook.Examples.Accounts.{key}
use transfer_hook.Examples.Resolver.{lists, extras, lists-IsCodec, lists-ResolvesInOrder}
use transfer_hook.Examples.Encoding.{flatten}
use transfer_hook.Examples.Completer.{client, client-CompletesInOrder}

abbrev onchain_keys : Onchain.Fresh
onchain_keys = record {
  spl_token_2022_program_id = key 8;
  transfer_hook_program_id = key 9;
  source_pubkey = key 5;
  mint_pubkey = key 4;
  destination_pubkey = key 6;
  authority_pubkey = key 7;
  bpf_loader_upgradeable_id = key 10;
}

abbrev offchain_keys : Offchain.Fresh
offchain_keys = record { source = key 5; mint = key 4; destination = key 6; authority = key 7 }

onchain_distinct : distinct (Onchain.Passes.keys runtime lists extras onchain_keys) ≡ true
unfolding get_extra_account_metas_address bytes_eq to_le_bytes
onchain_distinct = refl

offchain_distinct : distinct (Offchain.Passes.keys runtime lists extras client offchain_keys) ≡ true
unfolding get_extra_account_metas_address bytes_eq to_le_bytes
offchain_distinct = refl

abbrev pub meta_1 : Bytes
meta_1 = 0 ∷ 1 ∷ 0 ∷ key 2

abbrev pub meta_2 : Bytes
meta_2 = 0 ∷ 1 ∷ 0 ∷ key 3

abbrev pub meta_3 : Bytes
meta_3 = 1 ∷ 0 ∷ 1 ∷ 3 ∷ 2 ∷ 0 ∷ 0 ∷ 2 ∷ 0 ∷ 2 ∷ 2 ∷ 0 ∷ 4 ∷ []

abbrev pub meta_4 : Bytes
meta_4 = 1 ∷ 0 ∷ 1 ∷ 4 ∷ 3 ∷ 1 ∷ 8 ∷ 8 ∷ 2 ∷ 0 ∷ 2 ∷ 2 ∷ 0 ∷ 5 ∷ 2 ∷ 0 ∷ 7 ∷ []

abbrev pub list_bytes : Bytes
list_bytes = 4 ∷ flatten (meta_1 ∷ meta_2 ∷ meta_3 ∷ meta_4 ∷ [])

list_built : setup_validation_data lists extras ≡ ok list_bytes
unfolding setup_validation_data extra_metas
list_built = refl

test_add_extra_accounts_passes_example :
    Onchain.TestAddExtraAccountsForExecuteCpi runtime lists extras onchain_keys
test_add_extra_accounts_passes_example =
    Onchain.Passes.test_add_extra_accounts_passes runtime lists extras onchain_keys lists-IsCodec
      lists-ResolvesInOrder onchain_distinct list_built

test_add_extra_account_metas_passes_example :
    Offchain.TestAddExtraAccountMetasForExecute runtime lists extras client offchain_keys
test_add_extra_account_metas_passes_example =
    Offchain.Passes.test_add_extra_account_metas_passes runtime lists extras client offchain_keys
      lists-IsCodec client-CompletesInOrder offchain_distinct list_built

abbrev pub cpi : Call
cpi = (Onchain.cpi_instruction onchain_keys, Onchain.cpi_account_infos onchain_keys)

abbrev pub validation : Pubkey
validation = Onchain.validate_state_pubkey runtime lists extras onchain_keys

abbrev pub additional : List AccountInfo
additional = Onchain.additional_account_infos runtime lists extras onchain_keys

abbrev pub test_world : World
test_world = record {
  accounts = Onchain.cells runtime lists extras onchain_keys list_bytes;
  shared = [];
  exclusive = [];
}

abbrev pub third : Pubkey
third = Onchain.extra_meta_3_pubkey runtime lists extras onchain_keys

abbrev pub fourth : Pubkey
fourth = Onchain.extra_meta_4_pubkey runtime lists extras onchain_keys

program_found : find_key (key 9) additional ≡ some (Onchain.handle (key 9))
unfolding get_extra_account_metas_address bytes_eq to_le_bytes
program_found = refl

pub validation_found : find_key validation additional ≡ some (Onchain.handle validation)
unfolding get_extra_account_metas_address bytes_eq to_le_bytes
validation_found = refl

pub list_there : (test_world.accounts validation).contents ≡ list_bytes
list_there = rw (bytes_eq_self validation) refl

add_extra_accounts_resolved_example :
    add_extra_accounts_for_execute_cpi runtime lists
      (key 9)
      (Onchain.handle (key 5))
      (Onchain.handle (key 4))
      (Onchain.handle (key 6))
      (Onchain.handle (key 7))
      additional
      100
      cpi
      test_world
    ≡ (
      ok (
        record (cpi.0) {
          accounts =
              cpi.0.accounts
              ++ (new_readonly (key 2) true
                  ∷ new_readonly (key 3) true
                  ∷ new_writable third false
                  ∷ new_writable fourth false
                  ∷ new_readonly validation false
                  ∷ new_readonly (key 9) false
                  ∷ []);
        },
        cpi.1
            ++ (Onchain.signer_handle (key 2)
                ∷ Onchain.signer_handle (key 3)
                ∷ Onchain.handle third
                ∷ Onchain.handle fourth
                ∷ Onchain.handle validation
                ∷ Onchain.handle (key 9)
                ∷ []),
      ),
      test_world,
    )
add_extra_accounts_resolved_example =
    add_extra_accounts_resolved runtime lists extras lists-ResolvesInOrder (key 9)
      (Onchain.handle (key 5)) (Onchain.handle (key 4)) (Onchain.handle (key 6))
      (Onchain.handle (key 7)) additional 100 cpi test_world (Onchain.handle validation)
      (Onchain.handle (key 9)) 20 (meta_1 ∷ meta_2 ∷ meta_3 ∷ meta_4 ∷ []) program_found
      validation_found refl (ap (λ bytes. (ok tt, bytes)) (sym list_there))
      (Onchain.Resolving.Resolves-all runtime lists extras lists-IsCodec (key 5) (key 4) (key 6)
        (key 7) validation (key 2) (key 3) (key 9) onchain_distinct refl refl refl refl)

abbrev pub fetch : Fetch ⊤
fetch key = done (some list_bytes)

abbrev transfer : Instruction
transfer = record {
  program_id = key 8;
  accounts =
      new_writable (key 5) false
      ∷ new_readonly (key 4) false
      ∷ new_writable (key 6) false
      ∷ new_readonly (key 7) true
      ∷ [];
  contents = 12 ∷ [];
}

abbrev client_validation : Pubkey
client_validation = Offchain.validate_state_pubkey runtime lists extras client offchain_keys

keys_listed : misses_any transfer.accounts (key 5 ∷ key 4 ∷ key 6 ∷ key 7 ∷ []) ≡ false
unfolding bytes_eq
keys_listed = refl

add_extra_account_metas_resolved_example :
    add_extra_account_metas_for_execute runtime lists client transfer
      (key 1)
      (key 5)
      (key 4)
      (key 6)
      (key 7)
      100
      fetch
    ≡ done (record transfer {
      accounts =
          transfer.accounts
          ++ ((new_readonly (key 2) true
                ∷ new_readonly (key 3) true
                ∷ new_writable
                    (Offchain.extra_meta_3_pubkey runtime lists extras client offchain_keys)
                    false
                ∷ new_writable
                    (Offchain.extra_meta_4_pubkey runtime lists extras client offchain_keys)
                    false
                ∷ [])
              ++ (new_readonly (key 1) false ∷ new_readonly client_validation false ∷ []));
    })
add_extra_account_metas_resolved_example =
    add_extra_account_metas_resolved runtime lists extras client client-CompletesInOrder transfer
      (key 1) (key 5) (key 4) (key 6) (key 7) 100 fetch list_bytes 20
      (meta_1 ∷ meta_2 ∷ meta_3 ∷ meta_4 ∷ []) keys_listed refl refl (λ key. (_, refl))
      (Offchain.Passes.Completes-all runtime lists extras lists-IsCodec (key 5) (key 4) (key 6)
        (key 7) client_validation (key 2) (key 3) (key 1) offchain_distinct refl refl refl refl)

-- ===== src/Examples/Agrees.antt =====
-- The two helpers on one concrete transfer, with libraries that read the list.
use transfer_hook.Prelude.{
  ⊤, true, false, ◌≡◌, ◌≢◌, refl, sym, ap, ◌∙◌, some, List, [], ◌∷◌, ◌++◌, bytes_eq, to_le_bytes,
}
use mathlib.Core.List.{Perm}
use transfer_hook.Solana.Error.{Result, ok, panic}
use transfer_hook.Solana.Account.{AccountInfo, AccountMeta, Instruction, new_readonly, new_writable}
use transfer_hook.Interface.Address.{get_extra_account_metas_address}
use transfer_hook.Interface.Instruction
use transfer_hook.Interface.Onchain.{
  Call, resolve, add_resolved, add_validation, add_extra_accounts_for_execute_cpi,
}
use transfer_hook.Interface.Offchain.{Fetched, done, panicked, add_extra_account_metas_for_execute}
use transfer_hook.Interface.Agrees.{ResolveAlike, add_extra_accounts-perm}
use transfer_hook.Suite.Onchain
use transfer_hook.Examples.Libraries.{runtime}
use transfer_hook.Examples.Accounts.{key}
use transfer_hook.Examples.Encoding.{metas_in}
use transfer_hook.Examples.Resolver.{lists}
use transfer_hook.Examples.Completer.{client}
use transfer_hook.Interface.Onchain.Total.{add_extra_accounts_total}
use transfer_hook.Interface.Offchain.Total.{add_extra_account_metas_total}
use transfer_hook.Examples.Additions.{
  lists-ResolvesAccounts, client-ExtendsInstructions, lists-ReturnsErrors, complete_all-ne-panicked,
}
use transfer_hook.Examples.Suite.{
  cpi, validation, additional, test_world, third, fourth, validation_found, list_there, fetch,
}

ok-injective : {a b : Call} → ◌≡◌ {A = Result Call} (ok a) (ok b) → a ≡ b
ok-injective h = cc

done-injective : {a b : Instruction} → ◌≡◌ {A = Fetched ⊤ Instruction} (done a) (done b) → a ≡ b
done-injective h = cc

resolve_alike :
    ResolveAlike runtime lists client
      (key 9)
      (Onchain.handle (key 5))
      (Onchain.handle (key 4))
      (Onchain.handle (key 6))
      (Onchain.handle (key 7))
      (Onchain.handle validation)
      additional
      100
      test_world
      fetch
unfolding resolve bytes_eq get_extra_account_metas_address Instruction.execute to_le_bytes
resolve_alike on off h k =
    sym (ap (λ (c : Call). c.0.accounts) (ok-injective h))
    ∙ ap (λ (i : Instruction). i.accounts) (done-injective k)

abbrev extra : List AccountMeta
extra =
    new_readonly (key 2) true
    ∷ new_readonly (key 3) true
    ∷ new_writable third false
    ∷ new_writable fourth false
    ∷ []

abbrev on_accounts : List AccountMeta
on_accounts =
    cpi.0.accounts ++ (extra ++ (new_readonly validation false ∷ new_readonly (key 9) false ∷ []))

abbrev off_accounts : List AccountMeta
off_accounts =
    cpi.0.accounts ++ (extra ++ (new_readonly (key 9) false ∷ new_readonly validation false ∷ []))

abbrev on_infos : List AccountInfo
on_infos =
    cpi.1
    ++ (Onchain.signer_handle (key 2)
        ∷ Onchain.signer_handle (key 3)
        ∷ Onchain.handle third
        ∷ Onchain.handle fourth
        ∷ Onchain.handle validation
        ∷ Onchain.handle (key 9)
        ∷ [])

on_returns :
    (add_extra_accounts_for_execute_cpi runtime lists
      (key 9)
      (Onchain.handle (key 5))
      (Onchain.handle (key 4))
      (Onchain.handle (key 6))
      (Onchain.handle (key 7))
      additional
      100
      cpi
      test_world).0
    ≡ ok (record (cpi.0) { accounts = on_accounts }, on_infos)
unfolding add_extra_accounts_for_execute_cpi add_validation add_resolved resolve bytes_eq
    get_extra_account_metas_address Instruction.execute to_le_bytes
on_returns = refl

off_returns :
    add_extra_account_metas_for_execute runtime lists client
      (cpi.0)
      (key 9)
      (key 5)
      (key 4)
      (key 6)
      (key 7)
      100
      fetch
    ≡ done (record (cpi.0) { accounts = off_accounts })
unfolding add_extra_account_metas_for_execute bytes_eq get_extra_account_metas_address
    Instruction.execute to_le_bytes
off_returns = refl

add_extra_accounts-perm_example : Perm on_accounts off_accounts
add_extra_accounts-perm_example =
    add_extra_accounts-perm runtime lists client (key 9) (Onchain.handle (key 5))
      (Onchain.handle (key 4)) (Onchain.handle (key 6)) (Onchain.handle (key 7))
      (Onchain.handle validation) additional 100 test_world fetch lists-ResolvesAccounts
      client-ExtendsInstructions resolve_alike validation_found
      (ap (λ bytes. done (some bytes)) (sym list_there)) cpi on_returns off_returns

add_extra_accounts_total_example :
    (add_extra_accounts_for_execute_cpi runtime lists
      (key 9)
      (Onchain.handle (key 5))
      (Onchain.handle (key 4))
      (Onchain.handle (key 6))
      (Onchain.handle (key 7))
      additional
      100
      cpi
      test_world).0
    ≢ panic
add_extra_accounts_total_example =
    add_extra_accounts_total runtime lists lists-ResolvesAccounts lists-ReturnsErrors (key 9)
      (Onchain.handle (key 5)) (Onchain.handle (key 4)) (Onchain.handle (key 6))
      (Onchain.handle (key 7)) additional 100 cpi test_world

add_extra_account_metas_total_example :
    add_extra_account_metas_for_execute runtime lists client
      (cpi.0)
      (key 9)
      (key 5)
      (key 4)
      (key 6)
      (key 7)
      100
      fetch
    ≢ panicked
unfolding get_extra_account_metas_address
add_extra_account_metas_total_example =
    add_extra_account_metas_total runtime lists client (cpi.0) (key 9) (key 5) (key 4) (key 6)
      (key 7) 100 fetch client-ExtendsInstructions (λ h. cc)
      (λ bytes. complete_all-ne-panicked (metas_in bytes) _)

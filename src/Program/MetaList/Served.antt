-- ===== src/Program/MetaList/Served.antt =====
-- The list that `InitializeExtraAccountMetaList` made is what the helpers of the interface add.
use transfer_hook.Prelude.{
  ℕ, ◌≡◌, refl, sym, ap, ◌∙◌, subst, false, some, List, [], ◌∷◌, ◌++◌, replicate,
}
use transfer_hook.Solana.Error.{Result, ok}
use transfer_hook.Solana.Account.{
  Pubkey, Account, AccountInfo, AccountMeta, Instruction, new_readonly,
}
use transfer_hook.Solana.Exec.{World}
use transfer_hook.Solana.Sdk.{Runtime, RunsSystemProgram, Spl, Token}
use transfer_hook.Solana.Sdk.ExtraAccounts.{ExtraAccounts}
use transfer_hook.Interface.Address.{get_extra_account_metas_address}
use transfer_hook.Interface.Instruction.{execute}
use transfer_hook.Interface.Onchain.{
  Call, find_key, push_account, add_extra_accounts_for_execute_cpi,
}
use transfer_hook.Interface.Onchain.Grown.{find_key-eq-some}
use transfer_hook.Interface.Onchain.Resolved.{
  Extras, Resolves, ResolvesInOrder, completed, validated, add_extra_accounts_resolved,
}
use transfer_hook.Interface.Offchain.{
  done, Fetch, Resolver, misses_any, add_extra_account_metas_for_execute,
}
use transfer_hook.Interface.Offchain.Resolved
use transfer_hook.Program.MetaList.{process_initialize_extra_account_meta_list}
use transfer_hook.Program.MetaList.Outcome.{initialize_list, initialize_list_authorized}
use transfer_hook.Program.MetaList.Created.{HoldsList, initialize_list-HoldsList}

init-held :
    (S : Spl) (program_id key : Pubkey) (metas : List S.Meta) (before after : Pubkey → Account)
    (H : HoldsList S program_id key metas before after)
    → S.init S.execute_discriminator (replicate H.size 0) metas ≡ (ok tt, (after key).contents)
init-held S program_id key metas before after H = rw H.held (
    ap (λ outcome. (outcome, (S.init S.execute_discriminator (replicate H.size 0) metas).1))
      H.accepted)

module _ (R : Runtime) (S : Spl) (T : Token) (L : RunsSystemProgram R) (X : ExtraAccounts S)
    (program_id : Pubkey) (list mint authority system : AccountInfo) (rest : List AccountInfo)
    (metas : List S.Meta) (w : World)
    (made : (initialize_list R S T program_id list mint authority system rest metas w).0
      ≡ ok tt) where
  abbrev pub after : World
  after = (initialize_list R S T program_id list mint authority system rest metas w).1

  holds : HoldsList S program_id list.key metas w.accounts after.accounts
  holds = initialize_list-HoldsList R S T program_id list mint authority system rest metas w L made

  address : get_extra_account_metas_address R mint.key program_id ≡ list.key
  address =
      let (_, _, _, at) =
        initialize_list_authorized R S T program_id list mint authority system rest metas w made in
      sym at

  same_borrows : after.exclusive ≡ w.exclusive
  unfolding process_initialize_extra_account_meta_list
  same_borrows = refl

  written :
      (key : Pubkey)
      → key ≡ list.key
      → S.init S.execute_discriminator (replicate holds.size 0) metas
        ≡ (ok tt, (after.accounts key).contents)
  written key same = rw same (init-held S program_id list.key metas w.accounts after.accounts holds)

  module _ (O : ResolvesInOrder R S X) (source destination transfer_authority : AccountInfo)
      (additional : List AccountInfo) (amount : ℕ) where
    -- Where calls of the system program do what is documented, the library resolves lists in order,
    -- an `InitializeExtraAccountMetaList` returned and no data is borrowed to be written: the helper
    -- for CPIs, with the program and the validation account of the mint among the additional
    -- accounts, adds to a transfer of the mint what the list of that instruction resolves to, then
    -- the validation account and the program, or ends with the error of the resolution; the list
    -- is of fixed and derived accounts that are new to the `Execute` instruction.
    pub initialize_list_served :
        (cpi : Call) {validation program_info : AccountInfo} {result : Result Extras}
        → w.exclusive ≡ []
        → find_key program_id additional ≡ some program_info
        → find_key (get_extra_account_metas_address R mint.key program_id) additional
          ≡ some validation
        → Resolves R S X additional metas
            (validated R S X O program_id source mint destination transfer_authority additional
              amount validation)
            result
        → add_extra_accounts_for_execute_cpi R S program_id source mint destination
            transfer_authority additional amount cpi after
          ≡ (
            completed R S X O program_id source mint destination transfer_authority additional
                amount cpi validation program_info result,
            after,
          )
    initialize_list_served cpi {validation} {program_info} free program_there validation_there
          there =
        add_extra_accounts_resolved R S X O program_id source mint destination transfer_authority
          additional amount cpi after validation program_info holds.size metas program_there
          validation_there (same_borrows ∙ free)
          (written validation.key (find_key-eq-some _ additional validation_there ∙ address)) there

  -- Likewise a client's helper, with an instruction that has the four keys of the transfer and a
  -- fetch that finds the data of the list.
  pub initialize_list_fetched :
      {Failure : Type 0} (C : Resolver Failure)
      → Resolved.CompletesInOrder R S X C
      → (instruction : Instruction) (source destination transfer_authority : Pubkey) (amount : ℕ)
        (fetch : Fetch Failure) (more : List AccountMeta)
      → misses_any instruction.accounts (source ∷ mint.key ∷ destination ∷ transfer_authority ∷ [])
        ≡ false
      → fetch list.key ≡ done (some (after.accounts list.key).contents)
      → Resolved.Fetches fetch
      → Resolved.Completes R S X metas
          (push_account
            (execute S program_id source mint.key destination transfer_authority amount)
            (new_readonly list.key false))
          more
      → add_extra_account_metas_for_execute R S C instruction program_id source mint.key destination
          transfer_authority amount fetch
        ≡ done (record instruction {
          accounts =
              instruction.accounts
              ++ (more ++ (new_readonly program_id false ∷ new_readonly list.key false ∷ []));
        })
  initialize_list_fetched C O instruction source destination transfer_authority amount fetch more
        listed found fetches there =
      rw (sym address) (
        Resolved.add_extra_account_metas_resolved R S X C O instruction program_id source mint.key
          destination transfer_authority amount fetch (after.accounts list.key).contents holds.size
          metas listed (written list.key refl) (ap fetch address ∙ found) fetches
          (subst
            (λ (key : Pubkey).
              Resolved.Completes R S X metas
                (push_account
                  (execute S program_id source mint.key destination transfer_authority amount)
                  (new_readonly key false))
                more)
            (sym address) there))

-- ===== src/Program/MetaList/Total.antt =====
-- `InitializeExtraAccountMetaList` ends with a value or an error: it never panics.
use transfer_hook.Prelude.{⊤, ℕ, ◌≡◌, ◌≢◌, Option, none, some, List, [], ◌∷◌, length, replicate}
use transfer_hook.Solana.Error.{ProgramError, ok, panic}
use transfer_hook.Solana.Account.{Pubkey, Account, AccountInfo}
use transfer_hook.Solana.Exec.{Exec, ◌>>◌}
use transfer_hook.Solana.Exec.Atomic.{ReadsOnly, reads_rules}
use transfer_hook.Solana.Exec.Total.{
  NeverPanics, NeverPanics-call, NeverPanics-borrow, NeverPanics-borrow_mut, bind_at, total_rules,
}
use transfer_hook.Solana.Sdk.{Runtime, Spl, Token, RunsSystemProgram}
use transfer_hook.Solana.Sdk.Errors.{ReturnsErrors}
use transfer_hook.Interface.Error.{to_program_error, mint_has_no_mint_authority}
use transfer_hook.Interface.Address.{collect_extra_account_metas_signer_seeds}
use transfer_hook.Interface.Instruction.{ok_or}
use transfer_hook.Program.MetaList.{
  check_mint_authority, write_through, create_meta_list, process_initialize_extra_account_meta_list,
}

pub ok_or-ne-panic : {A : Type 0} (o : Option A) (x : ProgramError) → ok_or o x ≢ panic
ok_or-ne-panic none x e = cc
ok_or-ne-panic (some a) x e = cc

authority-ReadsOnly :
    (T : Token) (mint authority : AccountInfo) → ReadsOnly (check_mint_authority T mint authority)
unfolding check_mint_authority
authority-ReadsOnly T mint authority = search reads_rules depth 9

module _ (R : Runtime) (S : Spl) (T : Token) (E : ReturnsErrors R S T)
    (L : RunsSystemProgram R) where
  module _ {I : (Pubkey → Account) → Type 0} where
    authority-NeverPanics :
        (mint authority : AccountInfo) → NeverPanics I (check_mint_authority T mint authority)
    unfolding check_mint_authority
    authority-NeverPanics mint authority = NeverPanics-borrow mint _ (λ w i.
        NeverPanics-call (T.unpack_mint (w.accounts mint.key).contents) _ (E.unpack_mint_lem _)
          (λ state _.
            NeverPanics-call
              (ok_or (T.mint_authority state) (to_program_error mint_has_no_mint_authority)) _
              (ok_or-ne-panic _ _) (λ key _. search (total_rules, reads_rules))))

  init-NeverPanics :
      (account : AccountInfo) (metas : List S.Meta) (size : ℕ)
      → S.size_of (length metas) ≡ ok size
      → NeverPanics
          (λ cells. (cells account.key).contents ≡ replicate size 0)
          (write_through S S.init account metas)
  init-NeverPanics account metas size sized =
      NeverPanics-borrow_mut account _
        (λ w zeros. record { at = λ w' i. rw zeros (E.init_lem _ metas size sized) })

  module _ {I : (Pubkey → Account) → Type 0} (program_id : Pubkey) where
    create-NeverPanics :
        (account mint : AccountInfo) (bump : ℕ) (metas : List S.Meta)
        → NeverPanics I (create_meta_list R S program_id account mint bump metas)
    unfolding create_meta_list
    create-NeverPanics account mint bump metas =
        let seeds = collect_extra_account_metas_signer_seeds mint.key (bump ∷ []) ∷ [] in
        NeverPanics-call (S.size_of (length metas)) _ (E.size_of_lem _) (λ size sized.
          let allocate : Exec ⊤ =
            R.invoke_signed (R.allocate account.key size) (account ∷ []) seeds in
          let assign : Exec ⊤ =
            R.invoke_signed (R.assign account.key program_id) (account ∷ []) seeds in
          record {
            at = λ w i.
                bind_at allocate (λ _. assign >> write_through S S.init account metas) w
                  (E.invoke_signed_lem _ _ _ w)
                  (λ _ allocated.
                    let w' = (allocate w).1 in
                    let made = L.allocate_lem account.key size (account ∷ []) seeds w allocated in
                    bind_at assign (λ _. write_through S S.init account metas) w'
                      (E.invoke_signed_lem _ _ _ w')
                      (λ _ assigned.
                        let owned =
                          L.assign_lem account.key program_id (account ∷ []) seeds w' assigned in
                        (init-NeverPanics account metas size sized).at (assign w').1
                          (rw (owned.assigned, made.allocated))));
          })

    pub initialize_list-NeverPanics :
        (accounts : List AccountInfo) (metas : List S.Meta)
        → NeverPanics I (process_initialize_extra_account_meta_list R S T program_id accounts metas)
    unfolding process_initialize_extra_account_meta_list
    initialize_list-NeverPanics accounts metas =
        search
          (total_rules, reads_rules, authority-ReadsOnly, authority-NeverPanics, create-NeverPanics)
          depth 20

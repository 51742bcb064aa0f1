-- ===== src/Interface/Onchain/Cases.antt =====
-- What the helpers do with and without the program and the validation account.
use transfer_hook.Prelude.{
  ⊤, ℕ, ◌≡◌, refl, sym, false, Option-cases, none, some, inl, inr, ◌⊎◌, List, [], ◌∷◌, ◌++◌,
}
use transfer_hook.Solana.Error.{Result, IsOk, ok, err, panic}
use transfer_hook.Solana.Account.{Pubkey, AccountInfo, new_readonly}
use transfer_hook.Solana.Exec.{World, Exec}
use transfer_hook.Solana.Sdk.{Runtime, Spl, ResolvesAccounts}
use transfer_hook.Interface.Error.{to_program_error, incorrect_account}
use transfer_hook.Interface.Onchain.{
  Call, find_key, push_account, execute_call, validation_pubkey, validated_call, build_execute,
  invoke_execute, add_validation, add_extra_accounts_for_execute_cpi,
}
use transfer_hook.Interface.Onchain.Added.{resolve-Extends, resolve_world}
use transfer_hook.Interface.Onchain.Grown.{
  Extends, find_key-eq-some, push-Extends, unchanged-Extends, Extends-trans,
}

module _ (R : Runtime) (S : Spl) (program_id : Pubkey)
    (source_info mint_info destination_info authority_info : AccountInfo)
    (additional : List AccountInfo) (amount : ℕ) where
  abbrev target : Pubkey
  target =
      validation_pubkey R S program_id source_info mint_info destination_info authority_info
        additional amount

  abbrev first : Call
  first =
      execute_call R S program_id source_info mint_info destination_info authority_info additional
        amount

  abbrev add_extra : Call → Exec Call
  add_extra =
      add_extra_accounts_for_execute_cpi R S program_id source_info mint_info destination_info
        authority_info additional amount

  abbrev invoke : Exec ⊤
  invoke =
      invoke_execute R S program_id source_info mint_info destination_info authority_info additional
        amount

  abbrev build : Exec Call
  build =
      build_execute R S program_id source_info mint_info destination_info authority_info additional
        amount

  -- Without the program among the additional accounts the call fails with `IncorrectAccount`.
  -- With it and without the validation account, the program alone is added, read only, and its
  -- handle.
  pub add_extra_accounts_cases :
      (cpi : Call) (w : World)
      → (find_key program_id additional ≡ none
          → add_extra cpi w ≡ (err (to_program_error incorrect_account), w))
        × ((program_info : AccountInfo)
            → find_key program_id additional ≡ some program_info
            → find_key target additional ≡ none
            → add_extra cpi w ≡ (
              ok (push_account cpi.0 (new_readonly program_id false), cpi.1 ++ (program_info ∷ [])),
              w,
            ))
  unfolding add_extra_accounts_for_execute_cpi add_validation
  add_extra_accounts_cases cpi w = (λ n. rw n, λ info e n. rw (add_validation, e, n))

  build_cases :
      ResolvesAccounts S
      → (w : World)
      → ((build w).1 ≡ w) × ((call : Call) → (build w).0 ≡ ok call → Extends first call)
  unfolding build_execute
  build_cases L w = elim (Option-cases (find_key target additional)) [
    | inl n ↦ (
      rw (build_execute, n),
      λ call h.
          let same : first ≡ call = cc (rw (build_execute, n) at h) in
          rw (sym same) (unchanged-Extends first),
    )
    | inr (validation, e) ↦
        let checked =
          validated_call R S program_id source_info mint_info destination_info authority_info
            additional amount validation in
        (
          rw (build_execute, e) (resolve_world R S validation additional checked w),
          λ call h.
              Extends-trans first checked call
                (push-Extends first first validation target (find_key-eq-some target additional e)
                  (unchanged-Extends first))
                (resolve-Extends R S L validation additional checked w
                  (rw (build_execute, e) at h)),
        )
  ]

  -- Where the library that resolves extra accounts adds them behind those that are there, with one
  -- handle for each, `invoke_execute` either builds a call and invokes it, or does not return `Ok`
  -- and leaves the accounts and the borrows as they were. The call that it builds is `Execute`
  -- with the amount, for the program: behind the four accounts of the transfer it has accounts
  -- that were added with one handle for each, in the same order. It is invoked in the world that
  -- was given, and the outcome is the call's.
  pub invoke_execute_lem :
      ResolvesAccounts S
      → (w : World)
      → ((call : Call) × Extends first call × (invoke w ≡ R.invoke call.0 call.1 w))
        ⊎ ((¬ IsOk (invoke w).0) × ((invoke w).1 ≡ w))
  unfolding invoke_execute
  invoke_execute_lem L w = by_outcome (build w).0 refl
    where
      by_outcome :
          (r : Result Call)
          → (build w).0 ≡ r
          → ((call : Call) × Extends first call × (invoke w ≡ R.invoke call.0 call.1 w))
            ⊎ ((¬ IsOk (invoke w).0) × ((invoke w).1 ≡ w))
      by_outcome (ok call) e = inl (call, (build_cases L w).1 call e, rw (e, (build_cases L w).0))
      by_outcome (err x) e = inr (λ k. rw e at k, rw e ((build_cases L w).0))
      by_outcome panic e = inr (λ k. rw e at k, rw e ((build_cases L w).0))

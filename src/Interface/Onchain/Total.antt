-- ===== src/Interface/Onchain/Total.antt =====
-- The helper for a CPI returns or ends with an error.
use transfer_hook.Prelude.{
  ℕ, ◌≢◌, refl, Bool-cases, inl, inr, Option, none, some, Option-cases, ⊤, List, Bytes,
}
use transfer_hook.Solana.Error.{ProgramError, Result, ok, err, panic}
use transfer_hook.Solana.Account.{Pubkey, AccountInfo, Instruction}
use transfer_hook.Solana.Exec.{World, contains, lift}
use transfer_hook.Solana.Exec.Total.{bind_at}
use transfer_hook.Solana.Sdk.{Runtime, Spl, ResolvesAccounts}
use transfer_hook.Interface.Error.{to_program_error, incorrect_account}
use transfer_hook.Interface.Instruction.{execute, ok_or}
use transfer_hook.Interface.Onchain.{
  Call, find_key, finished, resolve, validation_pubkey, validated_call, add_resolved,
  add_validation, add_extra_accounts_for_execute_cpi,
}
use transfer_hook.Interface.Onchain.Added.{resolve-Extends}
use transfer_hook.Interface.Onchain.Grown.{slice_from_5}

-- The library returns an error in place of a panic.
abbrev pub ReturnsErrors : Spl → Type 0
ReturnsErrors S =
    (discriminator : Bytes) (w : World) (instruction : Instruction) (infos : List AccountInfo)
    (bytes : Bytes) (additional : List AccountInfo)
    → (S.add_to_cpi_instruction discriminator w instruction infos bytes additional).0 ≢ panic

ok_or-ne-panic : {A : Type 0} (found : Option A) (e : ProgramError) → ok_or found e ≢ panic
ok_or-ne-panic none e h = cc
ok_or-ne-panic (some a) e h = cc

finished-ne-panic : (r : Result ⊤ × Call) → r.0 ≢ panic → finished r ≢ panic
finished-ne-panic (ok _, call) h q = cc
finished-ne-panic (err e, call) h q = cc
finished-ne-panic (panic, call) h q = h refl

module _ (R : Runtime) (S : Spl) (L : ResolvesAccounts S) (N : ReturnsErrors S) where
  resolve-ne-panic :
      (validation : AccountInfo) (additional : List AccountInfo) (call : Call) (w : World)
      → (resolve R S validation additional call w).0 ≢ panic
  unfolding resolve
  resolve-ne-panic validation additional call w =
      elim (Bool-cases (contains w.exclusive validation.key)) [
        | inl e ↦ rw e (λ q. cc)
        | inr n ↦ rw n (
            finished-ne-panic _ (
              N S.execute_discriminator _ call.0 call.1 (w.accounts validation.key).contents
                additional))
      ]

  module _ (program_id : Pubkey)
      (source_info mint_info destination_info authority_info : AccountInfo)
      (additional : List AccountInfo) (amount : ℕ) (cpi : Call) (w : World) where
    abbrev target : Pubkey
    target =
        validation_pubkey R S program_id source_info mint_info destination_info authority_info
          additional amount

    add_resolved-ne-panic :
        (validation : AccountInfo)
        → (add_resolved R S program_id source_info mint_info destination_info authority_info
            additional amount validation cpi w).0
          ≢ panic
    unfolding add_resolved execute
    add_resolved-ne-panic validation =
        let call =
          validated_call R S program_id source_info mint_info destination_info authority_info
            additional amount validation in
        bind_at (resolve R S validation additional call) _ w
          (resolve-ne-panic validation additional call w)
          (λ mid e.
            let E = resolve-Extends R S L validation additional call w e in
            let metas = slice_from_5 call.0.accounts E.extra_metas refl in
            let infos = slice_from_5 call.1 E.extra_infos refl in
            rw (E.metas_added, E.infos_added, metas, infos) (λ q. cc))

    add_validation-ne-panic :
        (add_validation R S program_id source_info mint_info destination_info authority_info
          additional amount cpi w).0
        ≢ panic
    unfolding add_validation
    add_validation-ne-panic = elim (Option-cases (find_key target additional)) [
      | inl n ↦ rw (add_validation, n) (λ q. cc)
      | inr (validation, e) ↦ rw (add_validation, e) (add_resolved-ne-panic validation)
    ]

    -- Where the library that resolves extra accounts adds them behind those that are there, with
    -- one handle for each, and returns an error in place of a panic:
    -- `add_extra_accounts_for_execute_cpi` does not panic, whatever accounts it is given. Its
    -- slices of the accounts and of the handles from the fifth on are in range.
    pub add_extra_accounts_total :
        (add_extra_accounts_for_execute_cpi R S program_id source_info mint_info destination_info
          authority_info additional amount cpi w).0
        ≢ panic
    unfolding add_extra_accounts_for_execute_cpi
    add_extra_accounts_total =
        let error = to_program_error incorrect_account in
        let program_info = ok_or (find_key program_id additional) error in
        bind_at (lift program_info) _ w (ok_or-ne-panic (find_key program_id additional) error)
          (λ info _.
            bind_at
              (add_validation R S program_id source_info mint_info destination_info authority_info
                additional amount cpi)
              _ w add_validation-ne-panic (λ mid e q. cc))

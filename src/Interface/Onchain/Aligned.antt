-- ===== src/Interface/Onchain/Aligned.antt =====
-- The helpers keep an instruction's accounts and the handles for them in step.
use transfer_hook.Prelude.{
  ℕ, ◌≡◌, refl, sym, inl, inr, false, Option-cases, some, List, [], ◌∷◌, ◌++◌,
}
use transfer_hook.Solana.Error.{ok}
use transfer_hook.Solana.Account.{Pubkey, AccountInfo, new_readonly}
use transfer_hook.Solana.Exec.{World}
use transfer_hook.Solana.Exec.Atomic.{>>=-eq-ok}
use transfer_hook.Solana.Sdk.{Runtime, Spl, ResolvesAccounts}
use transfer_hook.Interface.Instruction.{execute}
use transfer_hook.Interface.Onchain.{
  Call, find_key, push_account, resolve, add_resolved, add_validation,
  add_extra_accounts_for_execute_cpi,
}
use transfer_hook.Interface.Onchain.Added
use transfer_hook.Interface.Onchain.Added.{behind, resolve-Extends, Completed}
use transfer_hook.Interface.Onchain.Grown.{
  Extends, find_key-eq-some, push-Extends, slice_from_5, extended, extended-Extends,
  unchanged-Extends,
}

module _ (R : Runtime) (S : Spl) (L : ResolvesAccounts S) where
  module _ (program_id : Pubkey)
      (source_info mint_info destination_info authority_info : AccountInfo)
      (additional : List AccountInfo) (amount : ℕ) where
    abbrev target : Pubkey
    target =
        Added.target R S program_id source_info mint_info destination_info authority_info additional
          amount

    abbrev validated : AccountInfo → Call
    validated =
        Added.validated R S program_id source_info mint_info destination_info authority_info
          additional amount

    abbrev pub added_to :
        (cpi : Call) (validation : AccountInfo) {mid : Call}
        → Extends (validated validation) mid
        → Call
    added_to cpi validation E =
        let added = extended cpi E.extra_metas E.extra_infos in
        (push_account added.0 (new_readonly target false), added.1 ++ (validation ∷ []))

    -- What was resolved, and that it is what was added, with the validation account behind it.
    pub add_resolved_steps :
        (validation : AccountInfo) (cpi : Call) (w : World) {after : Call}
        → (add_resolved R S program_id source_info mint_info destination_info authority_info
            additional amount validation cpi w).0
          ≡ ok after
        → (mid : Call) × ((resolve R S validation additional (validated validation) w).0 ≡ ok mid)
          × ((E : Extends (validated validation) mid) × (added_to cpi validation E ≡ after))
    unfolding add_resolved execute
    add_resolved_steps validation cpi w {after} h =
        let call = validated validation in
        let (mid, e, rest) = >>=-eq-ok (resolve R S validation additional call) _ w h in
        let E = resolve-Extends R S L validation additional call w e in
        let metas = slice_from_5 call.0.accounts E.extra_metas refl in
        let infos = slice_from_5 call.1 E.extra_infos refl in
        (mid, e, (E, cc (rw (E.metas_added, E.infos_added, metas, infos) at rest)))

    add_resolved-Extends :
        (validation : AccountInfo) (cpi : Call) (w : World) {after : Call}
        → validation.key ≡ target
        → (add_resolved R S program_id source_info mint_info destination_info authority_info
            additional amount validation cpi w).0
          ≡ ok after
        → Extends cpi after
    add_resolved-Extends validation cpi w same h =
        let (_, _, (E, made)) = add_resolved_steps validation cpi w h in
        rw (sym made) (
          push-Extends cpi (extended cpi E.extra_metas E.extra_infos) validation target same
            (extended-Extends cpi E.extra_metas E.extra_infos E.same_keys))

    add_validation-Extends :
        (cpi : Call) (w : World) {after : Call}
        → (add_validation R S program_id source_info mint_info destination_info authority_info
            additional amount cpi w).0
          ≡ ok after
        → Extends cpi after
    unfolding add_validation
    add_validation-Extends cpi w {after} h = elim (Option-cases (find_key target additional)) [
      | inl n ↦
          let same : cpi ≡ after = cc (rw (add_validation, n) at h) in
          rw (sym same) (unchanged-Extends cpi)
      | inr (validation, e) ↦
          add_resolved-Extends validation cpi w (find_key-eq-some target additional e)
            (rw (add_validation, e) at h)
    ]

    add_validation-Completed :
        (cpi : Call) (w : World) (program_info : AccountInfo) {mid : Call}
        → (add_validation R S program_id source_info mint_info destination_info authority_info
            additional amount cpi w).0
          ≡ ok mid
        → Completed R S program_id source_info mint_info destination_info authority_info additional
            amount cpi w program_info
            (find_key target additional)
            (push_account mid.0 (new_readonly program_id false), mid.1 ++ (program_info ∷ []))
    unfolding add_validation
    add_validation-Completed cpi w program_info {mid} h =
        elim (Option-cases (find_key target additional)) [
          | inl n ↦
              let same : cpi ≡ mid = cc (rw (add_validation, n) at h) in rw (n) (rw (sym same) refl)
          | inr (validation, e) ↦
              let (resolved, returned, (E, made)) =
                add_resolved_steps validation cpi w (rw (add_validation, e) at h) in
              rw (e) (
                resolved,
                returned,
                (
                  E,
                  rw (sym made) (
                      rw
                        (
                          behind cpi.0.accounts E.extra_metas (new_readonly target false)
                              (new_readonly program_id false),
                          behind cpi.1 E.extra_infos validation program_info,
                        )
                        refl),
                ),
              )
        ]

    -- Where the library that resolves extra accounts adds them behind those that are there, with
    -- one handle for each, and `add_extra_accounts_for_execute_cpi` returns: the program was among
    -- the additional accounts. Where the validation account was too, the library has resolved the
    -- extra accounts for the `Execute` call with the validation account, and exactly the accounts
    -- that it added there were added to the instruction, in their order, then the validation
    -- account and the program, both read only and without a signature, with their handles in the
    -- same order; where it was not, the program alone was added. The handles that were added have
    -- the keys of the accounts that were added, and the program and the data of the instruction are
    -- as they were.
    pub add_extra_accounts-Extends :
        (cpi : Call) (w : World) {after : Call}
        → (add_extra_accounts_for_execute_cpi R S program_id source_info mint_info destination_info
            authority_info additional amount cpi w).0
          ≡ ok after
        → Extends cpi after
          × ((program_info : AccountInfo) × (find_key program_id additional ≡ some program_info)
              × Completed R S program_id source_info mint_info destination_info authority_info
                  additional amount cpi w program_info
                  (find_key target additional)
                  after)
    unfolding add_extra_accounts_for_execute_cpi
    add_extra_accounts-Extends cpi w {after} h =
        elim (Option-cases (find_key program_id additional)) [
          | inl n ↦ cc (rw n at h)
          | inr (info, e) ↦
              let (mid, read, rest) =
                >>=-eq-ok
                  (add_validation R S program_id source_info mint_info destination_info
                    authority_info additional amount cpi)
                  _ w (rw e at h) in
              let made : (push_account mid.0 (new_readonly program_id false), mid.1 ++ (info ∷ []))
                  ≡ after =
                cc in
              (
                rw (sym made) (
                    push-Extends cpi mid info program_id (find_key-eq-some program_id additional e)
                      (add_validation-Extends cpi w read)),
                (info, e, rw (sym made) (add_validation-Completed cpi w info read)),
              )
        ]

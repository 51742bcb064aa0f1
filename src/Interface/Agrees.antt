-- ===== src/Interface/Agrees.antt =====
-- The two helpers of the interface, on-chain and for a client, add the same accounts.
use transfer_hook.Prelude.{
  ℕ, ◌≡◌, refl, sym, ap, ◌∙◌, false, some, List, [], ◌∷◌, ◌++◌, drop, drop-append,
}
use mathlib.Core.List.{Perm}
use mathlib.Core.List.Perm
use transfer_hook.Solana.Error.{ok}
use transfer_hook.Solana.Account.{Pubkey, AccountInfo, AccountMeta, Instruction, new_readonly}
use transfer_hook.Solana.Exec.{World}
use transfer_hook.Solana.Sdk.{Runtime, Spl, ResolvesAccounts}
use transfer_hook.Interface.Instruction
use transfer_hook.Interface.Onchain.{
  Call, find_key, resolve, validation_pubkey, validated_call, add_extra_accounts_for_execute_cpi,
}
use transfer_hook.Interface.Onchain.Aligned.{add_extra_accounts-Extends}
use transfer_hook.Interface.Offchain.{Fetch, done, Resolver, add_extra_account_metas_for_execute}
use transfer_hook.Interface.Offchain.Outcome.{
  ExtendsInstructions, finish_accounts, add_extra_account_metas_steps,
}

module _ (R : Runtime) (S : Spl) {Failure : Type 0} (C : Resolver Failure) (program_id : Pubkey)
    (source mint destination authority validation : AccountInfo) (additional : List AccountInfo)
    (amount : ℕ) (w : World) (fetch : Fetch Failure) where
  -- The call that both resolvers complete: `Execute` with the validation account.
  abbrev pub checked : Call
  checked =
      validated_call R S program_id source mint destination authority additional amount validation

  abbrev pub address : Pubkey
  address = validation_pubkey R S program_id source mint destination authority additional amount

  -- The two resolvers of the library read the list in the validation account alike: where both
  -- return on the `Execute` instruction, they leave the same accounts in it.
  abbrev pub ResolveAlike : Type 0
  ResolveAlike =
      (on : Call) (off : Instruction)
      → (resolve R S validation additional checked w).0 ≡ ok on
      → C.add_to_instruction S.execute_discriminator checked.0 fetch
          (w.accounts validation.key).contents
        ≡ done off
      → on.0.accounts ≡ off.accounts

  -- Where the two resolvers add accounts behind those that are there and read the list in the
  -- validation account alike, the additional accounts hold that account, and the client fetches the
  -- data that is there on the chain: an instruction that the on-chain helper completes and that the
  -- client's helper completes has the same accounts after both, in another order at the end.
  pub add_extra_accounts-perm :
      ResolvesAccounts S
      → ExtendsInstructions C
      → ResolveAlike
      → find_key address additional ≡ some validation
      → fetch address ≡ done (some (w.accounts validation.key).contents)
      → (cpi : Call) {on : Call} {off : Instruction}
      → (add_extra_accounts_for_execute_cpi R S program_id source mint destination authority
          additional amount cpi w).0
        ≡ ok on
      → add_extra_account_metas_for_execute R S C cpi.0 program_id source.key mint.key
          destination.key authority.key amount fetch
        ≡ done off
      → Perm on.0.accounts off.accounts
  unfolding Instruction.execute
  add_extra_accounts-perm L M alike found fetched cpi {on} {off} on_returns off_returns =
      let (_, (_, _, made)) =
        add_extra_accounts-Extends R S L program_id source mint destination authority additional
          amount cpi w on_returns in
      let (mid, resolved, (E, on_made)) = rw found at made in
      let (_, (bytes, mid', extra, there, added, grown, same)) =
        add_extra_account_metas_steps R S C cpi.0 program_id source.key mint.key destination.key
          authority.key amount fetch M off_returns in
      let read : bytes ≡ (w.accounts validation.key).contents = cc in
      let five = checked.0.accounts in
      let both : five ++ E.extra_metas ≡ five ++ extra =
        sym E.metas_added ∙ alike mid mid' resolved (rw read at added) ∙ grown in
      let metas : E.extra_metas ≡ extra =
        sym (drop-append 5 five E.extra_metas refl)
        ∙ ap (drop 5) both
        ∙ drop-append 5 five extra refl in
      let v = new_readonly address false in
      let p = new_readonly program_id false in
      let on_eq : on.0.accounts ≡ cpi.0.accounts ++ (extra ++ (v ∷ p ∷ [])) =
        ap (λ (c : Call). c.0.accounts) on_made
        ∙ ap (λ (l : List AccountMeta). cpi.0.accounts ++ (l ++ (v ∷ p ∷ []))) metas in
      let off_eq : off.accounts ≡ cpi.0.accounts ++ (extra ++ (p ∷ v ∷ [])) =
        ap (λ i. i.accounts) (sym same)
        ∙ finish_accounts R S C cpi.0 program_id source.key mint.key destination.key authority.key
            amount fetch extra in
      rw (on_eq, off_eq)
        (Perm.append_left cpi.0.accounts (Perm.append_left extra (Perm.swap p v [])))

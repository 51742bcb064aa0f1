-- ===== src/Interface/Onchain/Added.antt =====
-- What the library and the on-chain helper add to a call.
use transfer_hook.Prelude.{
  ℕ, ◌≡◌, sym, ◌∙◌, Bool-cases, inl, inr, false, Option, none, some, append_assoc, List, [], ◌∷◌,
  ◌++◌,
}
use transfer_hook.Solana.Error.{ok}
use transfer_hook.Solana.Account.{Pubkey, AccountInfo, new_readonly}
use transfer_hook.Solana.Exec.{World, contains}
use transfer_hook.Solana.Sdk.{Runtime, Spl, ResolvesAccounts}
use transfer_hook.Interface.Onchain.{Call, push_account, resolve, validation_pubkey, validated_call}
use transfer_hook.Interface.Onchain.Grown.{Extends, finished-eq-ok}

pub behind :
    {A : Type 0} (first extra : List A) (v p : A)
    → ((first ++ extra) ++ (v ∷ [])) ++ (p ∷ []) ≡ first ++ (extra ++ (v ∷ p ∷ []))
behind first extra v p =
    append_assoc (first ++ extra) (v ∷ []) (p ∷ []) ∙ append_assoc first extra (v ∷ p ∷ [])

module _ (R : Runtime) (S : Spl) where
  pub resolve_world :
      (validation : AccountInfo) (additional : List AccountInfo) (call : Call) (w : World)
      → (resolve R S validation additional call w).1 ≡ w
  unfolding resolve
  resolve_world validation additional call w =
      elim (Bool-cases (contains w.exclusive validation.key)) [ inl e ↦ rw e | inr n ↦ rw n ]

module _ (R : Runtime) (S : Spl) (L : ResolvesAccounts S) where
  pub resolve-Extends :
      (validation : AccountInfo) (additional : List AccountInfo) (call : Call) (w : World)
      {after : Call}
      → (resolve R S validation additional call w).0 ≡ ok after
      → Extends call after
  unfolding resolve
  resolve-Extends validation additional call w {after} h =
      elim (Bool-cases (contains w.exclusive validation.key)) [
        | inl e ↦ cc
        | inr n ↦
            let held = record w { shared = validation.key ∷ w.shared } in
            let bytes = (w.accounts validation.key).contents in
            let (returned, same) =
              finished-eq-ok
                (S.add_to_cpi_instruction S.execute_discriminator held call.0 call.1 bytes
                  additional)
                (rw n at h) in
            rw (sym same) (
              L.add_to_cpi_instruction_lem S.execute_discriminator held call.0 call.1 bytes
                additional returned)
      ]

module _ (R : Runtime) (S : Spl) (program_id : Pubkey)
    (source_info mint_info destination_info authority_info : AccountInfo)
    (additional : List AccountInfo) (amount : ℕ) where
  abbrev pub target : Pubkey
  target =
      validation_pubkey R S program_id source_info mint_info destination_info authority_info
        additional amount

  abbrev pub validated : AccountInfo → Call
  validated =
      validated_call R S program_id source_info mint_info destination_info authority_info additional
        amount

  -- What a call of the helper left, with the handle of the program and that of the validation
  -- account, where it was found: the accounts that `resolve` added to the `Execute` call, then the
  -- validation account and the program, with the handles in the same order.
  abbrev pub Completed : Call → World → AccountInfo → Option AccountInfo → Call → Type 0
  Completed cpi w program_info none after =
      after ≡ (push_account cpi.0 (new_readonly program_id false), cpi.1 ++ (program_info ∷ []))
  Completed cpi w program_info (some validation) after =
      (mid : Call) × ((resolve R S validation additional (validated validation) w).0 ≡ ok mid)
      × ((E : Extends (validated validation) mid) × (after ≡ (
        record (cpi.0) {
          accounts =
              cpi.0.accounts
              ++ (E.extra_metas
                  ++ (new_readonly target false ∷ new_readonly program_id false ∷ []));
        },
        cpi.1 ++ (E.extra_infos ++ (validation ∷ program_info ∷ [])),
      )))

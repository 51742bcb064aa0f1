-- ===== src/Interface/Offchain/Outcome.antt =====
-- What the client's helper returns.
use transfer_hook.Prelude.{
  ℕ, ◌≡◌, refl, sym, ap, ◌∙◌, Bool-cases, inl, inr, true, false, Option, none, some, List, [], ◌∷◌,
  ◌++◌, Bytes, length, length-append, drop-append, append_assoc, le→ltb, arith,
}
use transfer_hook.Solana.Error.{ProgramError, invalid_account_data}
use transfer_hook.Solana.Account.{Pubkey, AccountMeta, Instruction, new_readonly}
use transfer_hook.Solana.Sdk.{Runtime, Spl}
use transfer_hook.Interface.Error.{incorrect_account}
use transfer_hook.Interface.Address.{get_extra_account_metas_address}
use transfer_hook.Interface.Instruction
use transfer_hook.Interface.Onchain.{push_account}
use transfer_hook.Interface.Offchain.{
  Fetched, done, failed, panicked, of_program, of_hook, Fetch, Resolver, present, misses_any,
  metas_from, add_extra_account_metas_for_execute, ◌>>=◌,
}

-- Where `add_to_instruction` returns, it has added metas behind those that were there.
pub record ExtendsInstructions {Failure : Type 0} (C : Resolver Failure) : Type 0 where
  pub add_to_instruction_lem :
      (discriminator : Bytes) (before : Instruction) (fetch : Fetch Failure) (bytes : Bytes)
      {after : Instruction}
      → C.add_to_instruction discriminator before fetch bytes ≡ done after
      → (extra : List AccountMeta) × (after.accounts ≡ before.accounts ++ extra)

module _ {Failure : Type 0} where
  >>=-eq-done :
      {A B : Type 0} (m : Fetched Failure A) (f : A → Fetched Failure B) {b : B}
      → (m >>= f) ≡ done b
      → (a : A) × (m ≡ done a) × (f a ≡ done b)
  >>=-eq-done (done a) f h = (a, refl, h)
  >>=-eq-done (failed e) f h = cc
  >>=-eq-done panicked f h = cc

  present-eq-done :
      {A : Type 0} (found : Option A) (e : ProgramError) {a : A}
      → present {Failure = Failure} found e ≡ done a
      → found ≡ some a
  present-eq-done none e h = cc
  present-eq-done (some a) e h = cc

  pub metas_from_5 :
      (first extra : List AccountMeta)
      → length first ≡ 5
      → metas_from {Failure = Failure} 5 (first ++ extra) ≡ done extra
  metas_from_5 first extra h =
      rw (le→ltb (length (first ++ extra)) 5 (omega (arith, length-append first extra)))
        (rw (drop-append 5 first extra h))

module _ (R : Runtime) (S : Spl) {Failure : Type 0} (C : Resolver Failure)
    (instruction : Instruction) (program_id source mint destination authority : Pubkey) (amount : ℕ)
    (fetch : Fetch Failure) where
  abbrev completed : Fetched Failure Instruction
  completed =
      add_extra_account_metas_for_execute R S C instruction program_id source mint destination
        authority amount fetch

  abbrev validation : Pubkey
  validation = get_extra_account_metas_address R mint program_id

  abbrev transfer_keys : List Pubkey
  transfer_keys = source ∷ mint ∷ destination ∷ authority ∷ []

  abbrev pub validated : Instruction
  validated =
      push_account (Instruction.execute S program_id source mint destination authority amount)
        (new_readonly validation false)

  abbrev pub finish : List AccountMeta → Instruction
  finish metas =
      push_account
        (push_account (record instruction { accounts = instruction.accounts ++ metas })
          (new_readonly program_id false))
        (new_readonly validation false)

  pub finish_accounts :
      (extra : List AccountMeta)
      → (finish extra).accounts
        ≡ instruction.accounts
          ++ (extra ++ (new_readonly program_id false ∷ new_readonly validation false ∷ []))
  finish_accounts extra = rw (
    append_assoc (instruction.accounts ++ extra) (new_readonly program_id false ∷ [])
        (new_readonly validation false ∷ []),
    append_assoc instruction.accounts extra
        (new_readonly program_id false ∷ new_readonly validation false ∷ []),
  )

  -- A client that finds no validation account gets `InvalidAccountData`, one that finds it and
  -- gives an instruction that misses one of the four keys of the transfer gets `IncorrectAccount`,
  -- and a failure of the fetch is passed on.
  pub add_extra_account_metas_errors :
      (fetch validation ≡ done none → completed ≡ failed (of_program invalid_account_data))
      × ((bytes : Bytes)
          → fetch validation ≡ done (some bytes)
          → misses_any instruction.accounts transfer_keys ≡ true
          → completed ≡ failed (of_hook incorrect_account))
      × ((e : _) → fetch validation ≡ failed e → completed ≡ failed e)
  unfolding add_extra_account_metas_for_execute
  add_extra_account_metas_errors = (λ h. rw h, λ bytes h m. rw (h, m), λ e h. rw h)

  -- The steps of a helper that returned: what was resolved is what was added.
  pub add_extra_account_metas_steps :
      ExtendsInstructions C
      → {after : Instruction} → completed ≡ done after
      → (misses_any instruction.accounts transfer_keys ≡ false)
        × ((bytes : Bytes) × (mid : Instruction) × (extra : List AccountMeta) × (fetch validation
              ≡ done (some bytes))
            × (C.add_to_instruction S.execute_discriminator validated fetch bytes ≡ done mid)
            × (mid.accounts ≡ validated.accounts ++ extra)
            × (finish extra ≡ after))
  unfolding add_extra_account_metas_for_execute Instruction.execute
  add_extra_account_metas_steps L {after} h =
      let (fetched, e_1, r_1) = >>=-eq-done (fetch validation) _ h in
      let (bytes, e_2, r_2) = >>=-eq-done (present fetched invalid_account_data) _ r_1 in
      elim (Bool-cases (misses_any instruction.accounts transfer_keys)) [
        | inl m ↦ cc (rw m at r_2)
        | inr n ↦
            let (mid, added, r_3) =
              >>=-eq-done (C.add_to_instruction S.execute_discriminator validated fetch bytes) _
                (rw n at r_2) in
            let (extra, grown) =
              L.add_to_instruction_lem S.execute_discriminator validated fetch bytes added in
            (
              n,
              (
                bytes,
                mid,
                extra,
                e_1 ∙ ap done (present-eq-done fetched invalid_account_data e_2),
                added,
                grown,
                cc (rw (grown, metas_from_5 validated.accounts extra refl) at r_3),
              ),
            )
      ]

  -- Where the client's resolver adds accounts behind those that are there and the helper returns,
  -- the instruction has the four keys of the transfer, the validation account was fetched, and the
  -- resolver has completed the `Execute` instruction with the validation account from its data.
  -- The instruction keeps its program, its data and its accounts; exactly the accounts that the
  -- resolver added there follow, in their order, then the program and the validation account, both
  -- read only and without a signature.
  pub add_extra_account_metas_lem :
      ExtendsInstructions C
      → {after : Instruction} → completed ≡ done after
      → (misses_any instruction.accounts transfer_keys ≡ false)
        × (after.program_id ≡ instruction.program_id)
        × (after.contents ≡ instruction.contents)
        × ((bytes : Bytes) × (mid : Instruction) × (extra : List AccountMeta) × (fetch validation
              ≡ done (some bytes))
            × (C.add_to_instruction S.execute_discriminator validated fetch bytes ≡ done mid)
            × (mid.accounts ≡ validated.accounts ++ extra)
            × (after.accounts
                ≡ instruction.accounts
                  ++ (extra
                      ++ (new_readonly program_id false ∷ new_readonly validation false ∷ []))))
  add_extra_account_metas_lem L h =
      let (listed, (bytes, mid, extra, fetched, added, grown, same)) =
        add_extra_account_metas_steps L h in
      (
        listed,
        ap (λ i. i.program_id) (sym same),
        ap (λ i. i.contents) (sym same),
        (
          bytes,
          mid,
          extra,
          fetched,
          added,
          grown,
          ap (λ i. i.accounts) (sym same) ∙ finish_accounts extra,
        ),
      )

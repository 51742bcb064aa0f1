-- ===== src/Interface/Offchain/Total.antt =====
-- The client's helper ends with an instruction or an error.
use transfer_hook.Prelude.{
  ℕ, ◌≡◌, ◌≢◌, refl, Bool-cases, inl, inr, Option, none, some, [], ◌∷◌, Bytes,
}
use transfer_hook.Solana.Error.{ProgramError, invalid_account_data}
use transfer_hook.Solana.Account.{Pubkey, Instruction}
use transfer_hook.Solana.Sdk.{Runtime, Spl}
use transfer_hook.Interface.Address.{get_extra_account_metas_address}
use transfer_hook.Interface.Instruction
use transfer_hook.Interface.Offchain.{
  Fetched, done, failed, panicked, Fetch, Resolver, present, misses_any,
  add_extra_account_metas_for_execute, ◌>>=◌,
}
use transfer_hook.Interface.Offchain.Outcome.{ExtendsInstructions, metas_from_5, validated}

module _ {Failure : Type 0} where
  >>=-ne-panicked :
      {A B : Type 0} (m : Fetched Failure A) (f : A → Fetched Failure B)
      → m ≢ panicked
      → ((a : A) → m ≡ done a → f a ≢ panicked)
      → (m >>= f) ≢ panicked
  >>=-ne-panicked (done a) f h k = k a refl
  >>=-ne-panicked (failed e) f h k = λ q. cc
  >>=-ne-panicked panicked f h k = absurd (h refl)

  present-ne-panicked :
      {A : Type 0} (found : Option A) (e : ProgramError)
      → present {Failure = Failure} found e ≢ panicked
  present-ne-panicked none e h = cc
  present-ne-panicked (some a) e h = cc

module _ (R : Runtime) (S : Spl) {Failure : Type 0} (C : Resolver Failure)
    (instruction : Instruction) (program_id source mint destination authority : Pubkey) (amount : ℕ)
    (fetch : Fetch Failure) where
  -- The `Execute` instruction with the validation account.
  abbrev checked : Instruction
  checked = validated R S C instruction program_id source mint destination authority amount fetch

  -- Where neither the fetch of the validation account nor the client's resolver panics, and the
  -- resolver adds accounts behind those that are there, the helper does not panic: its slice of the
  -- completed instruction from the fifth account on is in range.
  pub add_extra_account_metas_total :
      ExtendsInstructions C
      → fetch (get_extra_account_metas_address R mint program_id) ≢ panicked
      → ((bytes : Bytes)
          → C.add_to_instruction S.execute_discriminator checked fetch bytes ≢ panicked)
      → add_extra_account_metas_for_execute R S C instruction program_id source mint destination
          authority amount fetch
        ≢ panicked
  unfolding add_extra_account_metas_for_execute Instruction.execute
  add_extra_account_metas_total L fetches resolves =
      >>=-ne-panicked (fetch (get_extra_account_metas_address R mint program_id)) _ fetches
        (λ fetched _.
          >>=-ne-panicked (present fetched invalid_account_data) _
            (present-ne-panicked fetched invalid_account_data)
            (λ bytes _.
              elim (Bool-cases
                (misses_any instruction.accounts (source ∷ mint ∷ destination ∷ authority ∷ []))) [
                  | inl m ↦ rw m (λ q. cc)
                  | inr n ↦ rw n (
                      >>=-ne-panicked
                        (C.add_to_instruction S.execute_discriminator checked fetch bytes) _
                        (resolves bytes)
                        (λ mid added.
                          let (extra, grown) =
                            L.add_to_instruction_lem S.execute_discriminator checked fetch bytes
                              added in
                          rw (grown, metas_from_5 checked.accounts extra refl) (λ q. cc)))
                ]))

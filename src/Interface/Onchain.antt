-- ===== src/Interface/Onchain.antt =====
-- interface/src/onchain.rs: the helpers with which a program calls a transfer hook.
pub mod Added
pub mod Aligned
pub mod Cases
pub mod Grown
pub mod Resolved
pub mod Total
use transfer_hook.Prelude.{
  ⊤, ℕ, ◌≡◌, Bool, false, Option, none, some, List, [], ◌∷◌, ◌++◌, Bytes, bytes_eq, length, drop,
  ltb, if◌then◌else◌,
}
use transfer_hook.Solana.Error.{ProgramError, Result, ok, err, panic}
use transfer_hook.Solana.Account.{Pubkey, AccountInfo, AccountMeta, Instruction, new_readonly}
use transfer_hook.Solana.Exec.{World, Exec, ◌>>=◌, pure, gets, lift, try_borrow_data, scoped}
use transfer_hook.Solana.Sdk.{Runtime, Spl}
use transfer_hook.Interface.Error.{to_program_error, incorrect_account}
use transfer_hook.Interface.Address.{get_extra_account_metas_address}
use transfer_hook.Interface.Instruction
use transfer_hook.Interface.Instruction.{ok_or}

-- `.iter().find(|&x| *x.key == key)`
abbrev pub find_key : Pubkey → List AccountInfo → Option AccountInfo
find_key key [] = none
find_key key (x ∷ xs) = if bytes_eq x.key key then some x else find_key key xs

-- `&items[n..]`
abbrev pub slice_from {ℓ} : {A : Type ℓ} → ℕ → List A → Result (List A)
slice_from n items = if ltb (length items) n then panic else ok (drop n items)

abbrev pub push_account : Instruction → AccountMeta → Instruction
push_account instruction meta = record instruction {
  accounts = instruction.accounts ++ (meta ∷ []);
}

-- An instruction and the handles for its accounts, which the helpers extend together.
abbrev pub Call : Type 0
Call = Instruction × List AccountInfo

-- What a call left in its `&mut` arguments, where it returned.
abbrev pub finished : Result ⊤ × Call → Result Call
finished (ok _, call) = ok call
finished (err e, call) = err e
finished (panic, call) = panic

module _ (R : Runtime) (S : Spl) where
  -- `ExtraAccountMetaList::add_to_cpi_instruction` on the data of the validation account, which is
  -- borrowed while it runs.
  unfoldable pub resolve : AccountInfo → List AccountInfo → Call → Exec Call
  resolve validation_info additional_accounts (instruction, infos) = scoped (do
    bytes ← try_borrow_data validation_info
    w ← gets (λ w. w)
    lift (
        finished (
          S.add_to_cpi_instruction S.execute_discriminator w instruction infos bytes
            additional_accounts)))

  module _ (program_id : Pubkey)
      (source_info mint_info destination_info authority_info : AccountInfo)
      (additional_accounts : List AccountInfo) (amount : ℕ) where
    abbrev pub execute_call : Call
    execute_call = (
      Instruction.execute S program_id source_info.key mint_info.key destination_info.key
          authority_info.key amount,
      source_info ∷ mint_info ∷ destination_info ∷ authority_info ∷ [],
    )

    abbrev pub validation_pubkey : Pubkey
    validation_pubkey = get_extra_account_metas_address R mint_info.key program_id

    -- The call with the validation account behind its four accounts.
    abbrev pub validated_call : AccountInfo → Call
    validated_call validation_info = (
      push_account execute_call.0 (new_readonly validation_pubkey false),
      execute_call.1 ++ (validation_info ∷ []),
    )

    -- The instruction and the handles that `invoke_execute` invokes.
    unfoldable pub build_execute : Exec Call
    unfolding resolve
    build_execute = elim (find_key validation_pubkey additional_accounts) [
      | none ↦ pure execute_call
      | some validation_info ↦
          resolve validation_info additional_accounts (validated_call validation_info)
    ]

    unfoldable pub invoke_execute : Exec ⊤
    unfolding build_execute
    invoke_execute = do
      (cpi_instruction, cpi_account_infos) ← build_execute
      R.invoke cpi_instruction cpi_account_infos

    -- What `add_extra_accounts_for_execute_cpi` adds for the validation account.
    unfoldable pub add_resolved : AccountInfo → Call → Exec Call
    unfolding resolve
    add_resolved validate_state_info (cpi_instruction, cpi_account_infos) = do
      (execute_instruction, execute_account_infos) ←
          resolve validate_state_info additional_accounts (validated_call validate_state_info)
      metas ← lift (slice_from 5 execute_instruction.accounts)
      infos ← lift (slice_from 5 execute_account_infos)
      pure (
        push_account (record cpi_instruction { accounts = cpi_instruction.accounts ++ metas })
            (new_readonly validation_pubkey false),
        (cpi_account_infos ++ infos) ++ (validate_state_info ∷ []),
      )

    unfoldable pub add_validation : Call → Exec Call
    unfolding add_resolved
    add_validation cpi = elim (find_key validation_pubkey additional_accounts) [
      | none ↦ pure cpi
      | some validate_state_info ↦ add_resolved validate_state_info cpi
    ]

    -- `cpi_instruction` and `cpi_account_infos` as they are left where the call returns. Nothing is
    -- written to them before the last step that may fail.
    unfoldable pub add_extra_accounts_for_execute_cpi : Call → Exec Call
    unfolding add_validation
    add_extra_accounts_for_execute_cpi cpi = do
      program_info ←
          lift
            (ok_or (find_key program_id additional_accounts) (to_program_error incorrect_account))
      (cpi_instruction, cpi_account_infos) ← add_validation cpi
      pure (
        push_account cpi_instruction (new_readonly program_id false),
        cpi_account_infos ++ (program_info ∷ []),
      )

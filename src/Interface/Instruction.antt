-- ===== src/Interface/Instruction.antt =====
-- interface/src/instruction.rs: the instructions, their bytes, and the builders of the SDK
-- instructions that carry them.
pub mod RoundTrip
use transfer_hook.Prelude.{
  ℕ, ◌%◌, ◌^◌, Bool, true, false, Option, none, some, List, [], ◌∷◌, ◌++◌, Bytes, bytes_eq, length,
  take, drop, ltb, leb, if◌then◌else◌, to_le_bytes, from_le_bytes,
}
use transfer_hook.Solana.Error.{ProgramError, Result, ok, err, ◌>>=◌, invalid_instruction_data}
use transfer_hook.Solana.Account.{
  system_program_id, Pubkey, AccountMeta, Instruction, new_writable, new_readonly,
}
use transfer_hook.Solana.Sdk.{Spl}

pub data TransferHookInstruction (Meta : Type 0) : Type 0 where
  execute_of : ℕ → TransferHookInstruction Meta
  initialize_of : List Meta → TransferHookInstruction Meta
  update_of : List Meta → TransferHookInstruction Meta

-- `ArrayDiscriminator::LENGTH`
abbrev pub discriminator_length : ℕ
discriminator_length = 8

-- `rest.get(..8)`
abbrev pub get_first8 : Bytes → Option Bytes
get_first8 rest = if leb 8 (length rest) then some (take 8 rest) else none

abbrev pub ok_or {ℓ} : {A : Type ℓ} → Option A → ProgramError → Result A
ok_or none e = err e
ok_or (some a) e = ok a

module _ (S : Spl) where
  unfoldable pub unpack : Bytes → Result (TransferHookInstruction S.Meta)
  unpack input =
      if ltb (length input) discriminator_length
      then err invalid_instruction_data
      else (let discriminator = take discriminator_length input in
          let rest = drop discriminator_length input in
          if bytes_eq discriminator S.execute_discriminator
          then (do
            bytes ← ok_or (get_first8 rest) invalid_instruction_data
            ok (execute_of (from_le_bytes bytes)))
          else if bytes_eq discriminator S.initialize_discriminator
          then (do
            extra_account_metas ← S.list_view_unpack rest
            ok (initialize_of extra_account_metas))
          else if bytes_eq discriminator S.update_discriminator
          then (do
            extra_account_metas ← S.list_view_unpack rest
            ok (update_of extra_account_metas))
          else err invalid_instruction_data)

  -- `(extra_account_metas.len() as u32).to_le_bytes()` and the items
  abbrev pub pack_metas : List S.Meta → Bytes
  pack_metas metas = to_le_bytes 4 (length metas % 2 ^ 32) ++ S.pod_slice_to_bytes metas

  unfoldable pub pack : TransferHookInstruction S.Meta → Bytes
  pack (execute_of amount) = S.execute_discriminator ++ to_le_bytes 8 amount
  pack (initialize_of metas) = S.initialize_discriminator ++ pack_metas metas
  pack (update_of metas) = S.update_discriminator ++ pack_metas metas

  unfoldable pub execute : Pubkey → Pubkey → Pubkey → Pubkey → Pubkey → ℕ → Instruction
  unfolding pack
  execute program_id source mint destination authority amount = record {
    program_id = program_id;
    accounts =
        new_readonly source false
        ∷ new_readonly mint false
        ∷ new_readonly destination false
        ∷ new_readonly authority false
        ∷ [];
    contents = pack (execute_of amount);
  }

  unfoldable pub execute_with_extra_account_metas :
      Pubkey → Pubkey → Pubkey → Pubkey → Pubkey → Pubkey → List AccountMeta → ℕ → Instruction
  unfolding execute
  execute_with_extra_account_metas program_id source mint destination authority validate_state
        additional_accounts amount =
      let instruction = execute program_id source mint destination authority amount in
      record instruction {
        accounts =
            (instruction.accounts ++ (new_readonly validate_state false ∷ []))
            ++ additional_accounts;
      }

  unfoldable pub initialize_extra_account_meta_list :
      Pubkey → Pubkey → Pubkey → Pubkey → List S.Meta → Instruction
  unfolding pack
  initialize_extra_account_meta_list program_id extra_account_metas mint authority metas = record {
    program_id = program_id;
    accounts =
        new_writable extra_account_metas false
        ∷ new_readonly mint false
        ∷ new_readonly authority true
        ∷ new_readonly system_program_id false
        ∷ [];
    contents = pack (initialize_of metas);
  }

  unfoldable pub update_extra_account_meta_list :
      Pubkey → Pubkey → Pubkey → Pubkey → List S.Meta → Instruction
  unfolding pack
  update_extra_account_meta_list program_id extra_account_metas mint authority metas = record {
    program_id = program_id;
    accounts =
        new_writable extra_account_metas false
        ∷ new_readonly mint false
        ∷ new_readonly authority true
        ∷ [];
    contents = pack (update_of metas);
  }

-- ===== src/Program/Process/Dispatch.antt =====
-- Which handler an instruction reaches.
use transfer_hook.Prelude.{
  ℕ, ◌^◌, ◌<◌, ◌≡◌, ◌≢◌, refl, ◌∙◌, ◌⊎◌, bytes_eq_iff, List, [], ◌∷◌, ◌++◌, arith, Bytes, length,
  take,
}
use transfer_hook.Solana.Error.{ProgramError, IsOk, ok, err, invalid_instruction_data}
use transfer_hook.Solana.Account.{Pubkey, AccountInfo}
use transfer_hook.Solana.Exec.{World}
use transfer_hook.Solana.Sdk.{Runtime, Spl, Token, IsCodec}
use transfer_hook.Interface.Instruction.{
  TransferHookInstruction, execute_of, initialize_of, update_of, unpack, pack, execute,
  update_extra_account_meta_list,
}
use transfer_hook.Interface.Instruction.RoundTrip.{IsEncodable, unpack-pack_instruction}
use transfer_hook.Program.Execute.{process_execute}
use transfer_hook.Program.InitializeTransferAccount.{process_initialize_transfer_account}
use transfer_hook.Program.Process.{
  process_instruction_of, process_standard, process, process_instruction,
}

-- The bytes do not begin with the byte of the custom instruction.
abbrev pub BeginsApart : Bytes → Type 0
BeginsApart [] = ⊥
BeginsApart (b ∷ _) = b ≢ 255

-- The input is empty or begins with another byte than that of the custom instruction.
abbrev pub IsStandard : Bytes → Type 0
IsStandard [] = Unit
IsStandard (b ∷ _) = b ≢ 255

-- No discriminator of the interface begins with the custom byte.
pub record IsApart (S : Spl) : Type 0 where
  pub execute_apart : BeginsApart S.execute_discriminator
  pub initialize_apart : BeginsApart S.initialize_discriminator
  pub update_apart : BeginsApart S.update_discriminator

BeginsApart-append : (xs ys : Bytes) → BeginsApart xs → BeginsApart (xs ++ ys)
BeginsApart-append [] ys h = absurd h
BeginsApart-append (x ∷ xs) ys h = h

pack-BeginsApart :
    (S : Spl) → IsApart S → (i : TransferHookInstruction S.Meta) → BeginsApart (pack S i)
unfolding pack
pack-BeginsApart S A (execute_of amount) = BeginsApart-append _ _ A.execute_apart
pack-BeginsApart S A (initialize_of metas) = BeginsApart-append _ _ A.initialize_apart
pack-BeginsApart S A (update_of metas) = BeginsApart-append _ _ A.update_apart

module _ (R : Runtime) (S : Spl) (T : Token) (program_id : Pubkey) (accounts : List AccountInfo)
    (w : World) where
  process_apart :
      (input : Bytes)
      → BeginsApart input
      → process R S T program_id accounts input w
        ≡ process_standard R S T program_id accounts input w
  unfolding process
  process_apart [] h = refl
  process_apart (x ∷ xs) h = ground arith

  -- The bytes of an instruction reach its arm of the `match`, where the discriminators are apart
  -- from one another and from the custom byte and the instruction's number or list fits its field.
  pub process-pack :
      IsCodec S
      → IsApart S
      → (i : TransferHookInstruction S.Meta) → IsEncodable S i
      → process R S T program_id accounts (pack S i) w
        ≡ process_instruction_of R S T program_id accounts i w
  unfolding process_standard
  process-pack L A i h =
      process_apart (pack S i) (pack-BeginsApart S A i) ∙ rw (unpack-pack_instruction S L i h)

  -- The instruction that `execute` builds runs `process_execute` on the accounts and its amount.
  pub process-execute :
      IsCodec S
      → IsApart S
      → (source mint destination authority : Pubkey) (amount : ℕ) → amount < 2 ^ 64
      → process R S T program_id accounts
          (execute S program_id source mint destination authority amount).contents
          w
        ≡ process_execute R S T program_id accounts amount w
  unfolding execute process_instruction_of
  process-execute L A source mint destination authority amount h =
      process-pack L A (execute_of amount) h

  -- Where the discriminators are apart from one another and from the custom byte and a `u32`
  -- counts the list, the instruction that `update_extra_account_meta_list` builds does nothing,
  -- whatever accounts and list it carries: the program returns without an error and changes
  -- nothing.
  pub process-update :
      IsCodec S
      → IsApart S
      → (metas_key mint authority : Pubkey) (metas : List S.Meta) → length metas < 2 ^ 32
      → process R S T program_id accounts
          (update_extra_account_meta_list S program_id metas_key mint authority metas).contents
          w
        ≡ (ok tt, w)
  unfolding update_extra_account_meta_list process_instruction_of
  process-update L A metas_key mint authority metas h = process-pack L A (update_of metas) h

  -- Input that begins with the custom byte runs the custom handler; what stands behind that byte
  -- is not read.
  pub process_custom :
      (rest : Bytes)
      → process R S T program_id accounts (255 ∷ rest) w
        ≡ process_initialize_transfer_account R program_id accounts w
  unfolding process
  process_custom rest = refl

  -- Input that does not begin with the custom byte, and is too short or does not begin with a
  -- discriminator, is refused with `InvalidInstructionData`, and nothing is changed.
  pub process_rejects :
      (input : Bytes)
      → IsStandard input
      → (length input < 8)
        ⊎ ((take 8 input ≢ S.execute_discriminator)
            × (take 8 input ≢ S.initialize_discriminator)
            × (take 8 input ≢ S.update_discriminator))
      → process R S T program_id accounts input w ≡ (err invalid_instruction_data, w)
  unfolding process process_standard unpack
  process_rejects [] apart unknown = refl
  process_rejects (x ∷ xs) apart unknown = ground (
    arith,
    bytes_eq_iff (take 8 (x ∷ xs)) S.execute_discriminator,
    bytes_eq_iff (take 8 (x ∷ xs)) S.initialize_discriminator,
    bytes_eq_iff (take 8 (x ∷ xs)) S.update_discriminator,
  )

  -- The entrypoint has the outcome of `process`, and prints its error and nothing else.
  pub process_instruction_lem :
      (input : Bytes)
      → let run = process R S T program_id accounts input w in
        let (outcome, printed) = process_instruction R S T program_id accounts input w in
        (outcome ≡ run)
        × ((e : ProgramError) → run.0 ≡ err e → printed ≡ e ∷ [])
        × (IsOk run.0 → printed ≡ [])
  unfolding process_instruction
  process_instruction_lem input = ground arith

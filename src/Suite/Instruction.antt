-- ===== src/Suite/Instruction.antt =====
-- The tests of interface/src/instruction.rs on the bytes of two instructions.
--
-- A test is the statement of its assertions. `unwrap` asks for a value.
pub mod Passes
use Prim.Native.String.{String}
use transfer_hook.Prelude.{ℕ, ◌≡◌, List, [], ◌∷◌, ◌++◌, Bytes, take, replicate, to_le_bytes}
use transfer_hook.Solana.Error.{Result, ok}
use transfer_hook.Solana.Sdk.{Spl}
use transfer_hook.Interface.Instruction
use transfer_hook.Interface.Instruction.{execute_of, initialize_of, discriminator_length}

-- `hash::hashv` on the bytes of one text, and `pod_from_bytes::<ExtraAccountMeta>`.
pub record Crates (S : Spl) : Type 0 where
  pub hashv : String → Bytes
  pub pod_from_bytes : Bytes → Result S.Meta

module _ (S : Spl) (C : Crates S) where
  abbrev pub discriminator : String → Bytes
  discriminator text = take discriminator_length (C.hashv text)

  abbrev pub ValidatePacking : Type 0
  ValidatePacking =
      let expect =
        discriminator "spl-transfer-hook-interface:execute" ++ to_le_bytes 8 111_111_111 in
      (Instruction.pack S (execute_of 111_111_111) ≡ expect)
      × (Instruction.unpack S expect ≡ ok (execute_of 111_111_111))

  -- `1u32`
  abbrev pub extra_meta_len_bytes : Bytes
  extra_meta_len_bytes = 1 ∷ 0 ∷ 0 ∷ 0 ∷ []

  -- `AccountMeta`, pubkey, is_signer, is_writable
  abbrev pub extra_meta_bytes : Bytes
  extra_meta_bytes = 0 ∷ (replicate 32 1 ++ (0 ∷ 0 ∷ []))

  abbrev pub InitializeValidationPubkeysPacking : Type 0
  InitializeValidationPubkeysPacking =
      let expect =
        discriminator "spl-transfer-hook-interface:initialize-extra-account-metas"
        ++ (extra_meta_len_bytes ++ extra_meta_bytes) in
      (extra_account_meta : S.Meta) × (C.pod_from_bytes extra_meta_bytes ≡ ok extra_account_meta)
      × (Instruction.pack S (initialize_of (extra_account_meta ∷ [])) ≡ expect)
      × (Instruction.unpack S expect ≡ ok (initialize_of (extra_account_meta ∷ [])))

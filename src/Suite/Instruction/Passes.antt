-- ===== src/Suite/Instruction/Passes.antt =====
-- The tests of interface/src/instruction.rs pass.
use transfer_hook.Prelude.{◌≡◌, refl, sym, ap, [], ◌∷◌, ◌++◌, Bytes, take, arith, to_le_bytes}
use transfer_hook.Solana.Error.{ok}
use transfer_hook.Solana.Sdk.{Spl, IsCodec}
use transfer_hook.Interface.Instruction
use transfer_hook.Interface.Instruction.{execute_of, initialize_of, discriminator_length}
use transfer_hook.Interface.Instruction.RoundTrip.{unpack-pack_instruction}
use transfer_hook.Suite.Instruction.{
  Crates, extra_meta_len_bytes, extra_meta_bytes, ValidatePacking,
  InitializeValidationPubkeysPacking,
}

-- The discriminators that are derived from the hash inputs, and an extra account that is read from
-- its bytes and written as them.
pub record ReadsBytes (S : Spl) (C : Crates S) : Type 0 where
  pub execute_lem :
      S.execute_discriminator
      ≡ take discriminator_length (C.hashv "spl-transfer-hook-interface:execute")
  pub initialize_lem :
      S.initialize_discriminator
      ≡ take discriminator_length
          (C.hashv "spl-transfer-hook-interface:initialize-extra-account-metas")
  pub pod_slice-pod_from :
      (bytes : Bytes) (meta : S.Meta)
      → C.pod_from_bytes bytes ≡ ok meta
      → S.pod_slice_to_bytes (meta ∷ []) ≡ bytes

len_bytes : to_le_bytes 4 1 ≡ 1 ∷ 0 ∷ 0 ∷ 0 ∷ []
unfolding to_le_bytes
len_bytes = refl

module _ (S : Spl) (C : Crates S) (codec : IsCodec S) (B : ReadsBytes S C) where
  packed_execute :
      Instruction.pack S (execute_of 111_111_111)
      ≡ take discriminator_length (C.hashv "spl-transfer-hook-interface:execute")
        ++ to_le_bytes 8 111_111_111
  unfolding Instruction.pack
  packed_execute = ap (λ first. first ++ to_le_bytes 8 111_111_111) B.execute_lem

  packed_initialize :
      (meta : S.Meta)
      → C.pod_from_bytes (extra_meta_bytes S C) ≡ ok meta
      → Instruction.pack S (initialize_of (meta ∷ []))
        ≡ take discriminator_length
            (C.hashv "spl-transfer-hook-interface:initialize-extra-account-metas")
          ++ (extra_meta_len_bytes S C ++ extra_meta_bytes S C)
  unfolding Instruction.pack
  packed_initialize meta read =
      rw (B.initialize_lem, B.pod_slice-pod_from _ meta read, len_bytes) refl

  -- Where the discriminators are derived from their hash inputs, the library reads back what it
  -- wrote and the bytes of the test are those of an extra account, `validate_packing` and
  -- `initialize_validation_pubkeys_packing` pass: each of their assertions holds.
  pub packing_tests_pass :
      {meta : S.Meta}
      → C.pod_from_bytes (extra_meta_bytes S C) ≡ ok meta
      → ValidatePacking S C × InitializeValidationPubkeysPacking S C
  packing_tests_pass {meta} read =
      let first = packed_execute in
      let second = packed_initialize meta read in
      (
        (
          first,
          rw (sym first) (unpack-pack_instruction S codec (execute_of 111_111_111) (omega arith)),
        ),
        (
          meta,
          read,
          second,
          rw (sym second)
              (unpack-pack_instruction S codec (initialize_of (meta ∷ [])) (omega arith)),
        ),
      )

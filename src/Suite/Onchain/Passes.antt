-- ===== src/Suite/Onchain/Passes.antt =====
-- The test of interface/src/onchain.rs passes.
use transfer_hook.Prelude.{
  ◌≡◌, refl, sym, ap, ◌∙◌, true, some, List, [], ◌∷◌, ◌++◌, Bytes, bytes_eq_self,
}
use transfer_hook.Solana.Error.{Result, ok}
use transfer_hook.Solana.Account.{Pubkey, AccountInfo}
use transfer_hook.Solana.Exec.{World}
use transfer_hook.Solana.Sdk.{Runtime, Spl, IsCodec}
use transfer_hook.Solana.Sdk.ExtraAccounts.{ExtraAccounts}
use transfer_hook.Interface.Onchain.{Call, find_key}
use transfer_hook.Interface.Onchain.Cases.{add_extra_accounts_cases}
use transfer_hook.Interface.Onchain.Resolved.{
  Extras, Resolves, ResolvesInOrder, completed, validated, add_extra_accounts_resolved,
}
use transfer_hook.Suite.ExtraMetas.{extra_meta_1, extra_meta_2, setup_validation_data}
use transfer_hook.Suite.ExtraMetas.Built.{distinct, IsBuilt, setup-IsBuilt}
use transfer_hook.Suite.Onchain
use transfer_hook.Suite.Onchain.Found.{
  all, without_validation, without_program, without_third, ten, found_all, found_without_validation,
  found_without_program, found_without_third,
}
use transfer_hook.Suite.Onchain.Resolving.{Resolves-all, Resolves-without_third}

same_self : (infos : List AccountInfo) → Onchain.SameInfos infos infos
same_self [] = tt
same_self (a ∷ infos) = (refl, refl, refl, same_self infos)

module _ (R : Runtime) (S : Spl) (X : ExtraAccounts S) (K : Onchain.Fresh) where
  abbrev e3 : Pubkey
  e3 = Onchain.extra_meta_3_pubkey R S X K

  abbrev e4 : Pubkey
  e4 = Onchain.extra_meta_4_pubkey R S X K

  abbrev v : Pubkey
  v = Onchain.validate_state_pubkey R S X K

  -- The keys of the test: those of the transfer, of the extra accounts and of the program.
  abbrev pub keys : List Pubkey
  keys =
      ten K.source_pubkey K.mint_pubkey K.destination_pubkey K.authority_pubkey v extra_meta_1
        extra_meta_2 e3 e4 K.transfer_hook_program_id

  module _ (codec : IsCodec S) (O : ResolvesInOrder R S X) (D : distinct keys ≡ true)
      {bytes : Bytes} (built : setup_validation_data S X ≡ ok bytes) where
    abbrev w : World
    w = record { accounts = Onchain.cells R S X K bytes; shared = []; exclusive = [] }

    abbrev cpi : Call
    cpi = (Onchain.cpi_instruction K, Onchain.cpi_account_infos K)

    B : IsBuilt S X bytes
    B = setup-IsBuilt S X built

    validation_data : (w.accounts v).contents ≡ bytes
    validation_data = rw (bytes_eq_self v) refl

    added_lem :
        (additional : List AccountInfo) {result : Result Extras}
        → find_key K.transfer_hook_program_id additional
          ≡ some (Onchain.handle K.transfer_hook_program_id)
        → find_key v additional ≡ some (Onchain.handle v)
        → Resolves R S X additional
            (B.meta_1 ∷ B.meta_2 ∷ B.meta_3 ∷ B.meta_4 ∷ [])
            (validated R S X O K.transfer_hook_program_id
              (Onchain.handle K.source_pubkey)
              (Onchain.handle K.mint_pubkey)
              (Onchain.handle K.destination_pubkey)
              (Onchain.handle K.authority_pubkey)
              additional
              100
              (Onchain.handle v))
            result
        → Onchain.added R S X K bytes additional
          ≡ completed R S X O K.transfer_hook_program_id
              (Onchain.handle K.source_pubkey)
              (Onchain.handle K.mint_pubkey)
              (Onchain.handle K.destination_pubkey)
              (Onchain.handle K.authority_pubkey)
              additional
              100
              cpi
              (Onchain.handle v)
              (Onchain.handle K.transfer_hook_program_id)
              result
    added_lem additional {result} program_there validation_there there =
        ap (λ end. end.0)
          (add_extra_accounts_resolved R S X O K.transfer_hook_program_id
            (Onchain.handle K.source_pubkey) (Onchain.handle K.mint_pubkey)
            (Onchain.handle K.destination_pubkey) (Onchain.handle K.authority_pubkey) additional 100
            cpi w (Onchain.handle v) (Onchain.handle K.transfer_hook_program_id) B.size
            (B.meta_1 ∷ B.meta_2 ∷ B.meta_3 ∷ B.meta_4 ∷ []) program_there validation_there refl
            (B.written ∙ ap (λ data_1. (ok tt, data_1)) (sym validation_data)) there)

    abbrev program : AccountInfo
    program = Onchain.handle K.transfer_hook_program_id

    without_validation_passes : Onchain.AllowsMissingValidation R S X K bytes
    without_validation_passes =
        let additional =
          without_validation K.source_pubkey K.mint_pubkey K.destination_pubkey K.authority_pubkey v
            extra_meta_1 extra_meta_2 e3 e4 K.transfer_hook_program_id in
        let (there, gone) =
          found_without_validation K.source_pubkey K.mint_pubkey K.destination_pubkey
            K.authority_pubkey v extra_meta_1 extra_meta_2 e3 e4 K.transfer_hook_program_id D in
        let ran =
          (add_extra_accounts_cases R S K.transfer_hook_program_id (Onchain.handle K.source_pubkey)
              (Onchain.handle K.mint_pubkey) (Onchain.handle K.destination_pubkey)
              (Onchain.handle K.authority_pubkey) additional 100 cpi w).1
            program there gone in
        (_, ap (λ end. end.0) ran, refl, same_self (cpi.1 ++ (program ∷ [])))

    without_program_passes : Onchain.FailsMissingProgram R S X K bytes
    without_program_passes =
        let additional =
          without_program K.source_pubkey K.mint_pubkey K.destination_pubkey K.authority_pubkey v
            extra_meta_1 extra_meta_2 e3 e4 K.transfer_hook_program_id in
        let absent =
          found_without_program K.source_pubkey K.mint_pubkey K.destination_pubkey
            K.authority_pubkey v extra_meta_1 extra_meta_2 e3 e4 K.transfer_hook_program_id D in
        ap (λ end. end.0)
          ((add_extra_accounts_cases R S K.transfer_hook_program_id (Onchain.handle K.source_pubkey)
              (Onchain.handle K.mint_pubkey) (Onchain.handle K.destination_pubkey)
              (Onchain.handle K.authority_pubkey) additional 100 cpi w).0
            absent)

    without_third_passes : Onchain.FailsMissingExtraMeta R S X K bytes
    without_third_passes =
        let (_, _, _, program_there, validation_there) =
          found_without_third K.source_pubkey K.mint_pubkey K.destination_pubkey K.authority_pubkey
            v extra_meta_1 extra_meta_2 e3 e4 K.transfer_hook_program_id D in
        added_lem
          (without_third K.source_pubkey K.mint_pubkey K.destination_pubkey K.authority_pubkey v
            extra_meta_1 extra_meta_2 e3 e4 K.transfer_hook_program_id)
          program_there validation_there
          (Resolves-without_third R S X codec K.source_pubkey K.mint_pubkey K.destination_pubkey
            K.authority_pubkey v extra_meta_1 extra_meta_2 K.transfer_hook_program_id D B.made_1
            B.made_2 B.made_3 B.made_4)

    all_passes : Onchain.Succeeds R S X K bytes
    all_passes =
        let (_, _, _, _, program_there, validation_there) =
          found_all K.source_pubkey K.mint_pubkey K.destination_pubkey K.authority_pubkey v
            extra_meta_1 extra_meta_2 e3 e4 K.transfer_hook_program_id D in
        (
          _,
          added_lem
              (all K.source_pubkey K.mint_pubkey K.destination_pubkey K.authority_pubkey v
                extra_meta_1 extra_meta_2 e3 e4 K.transfer_hook_program_id)
              program_there validation_there
              (Resolves-all R S X codec K.source_pubkey K.mint_pubkey K.destination_pubkey
                K.authority_pubkey v extra_meta_1 extra_meta_2 K.transfer_hook_program_id D B.made_1
                B.made_2 B.made_3 B.made_4),
          refl,
          same_self (
              cpi.1
              ++ (Onchain.signer_handle extra_meta_1
                  ∷ Onchain.signer_handle extra_meta_2
                  ∷ Onchain.handle e3
                  ∷ Onchain.handle e4
                  ∷ Onchain.handle v
                  ∷ program
                  ∷ [])),
        )

    -- Where the discriminators have eight bytes each and differ, a list view reads back what it
    -- holds, the libraries build the list of the test, a list that was written is resolved in order
    -- and the ten keys are all different, `test_add_extra_accounts_for_execute_cpi` passes: each of
    -- its assertions holds.
    pub test_add_extra_accounts_passes : Onchain.TestAddExtraAccountsForExecuteCpi R S X K
    test_add_extra_accounts_passes = (
      bytes, built, without_validation_passes, without_program_passes, without_third_passes,
      all_passes,
    )

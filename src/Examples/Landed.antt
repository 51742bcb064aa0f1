-- ===== src/Examples/Landed.antt =====
-- The client's instruction in the program, at concrete accounts.
use transfer_hook.Prelude.{⊤, ◌≡◌, refl, true, false, List, [], ◌∷◌, bytes_eq, to_le_bytes, arith}
use transfer_hook.Solana.Error.{Result, ok}
use transfer_hook.Solana.Account.{system_program_id, AccountInfo}
use transfer_hook.Solana.Exec.{World}
use transfer_hook.Interface.Address.{
  get_extra_account_metas_address, get_extra_account_metas_address_and_bump_seed,
}
use transfer_hook.Interface.Instruction.{initialize_extra_account_meta_list}
use transfer_hook.Cli.Commands.Landed.{made, Loads, process-create_instruction}
use transfer_hook.Program.MetaList.{mint_id}
use transfer_hook.Program.MetaList.Outcome.{HasAuthority}
use transfer_hook.Program.MetaList.Created.{HoldsList}
use transfer_hook.Program.Process.{process}
use transfer_hook.Examples.Libraries.{runtime, spl, token}
use transfer_hook.Examples.Laws.{runtime-RunsSystemProgram, spl-IsCodec, spl-IsApart}
use transfer_hook.Examples.Accounts.{handle, program_key, authority_key, metas_key, empty_world}

abbrev listing : List AccountInfo
listing =
    handle metas_key false
    ∷ handle mint_id false
    ∷ handle authority_key true
    ∷ handle system_program_id false
    ∷ []

mint-HasAuthority : HasAuthority token (empty_world.accounts mint_id).contents authority_key
unfolding bytes_eq
mint-HasAuthority = refl

listing-Loads :
    Loads listing
      (initialize_extra_account_meta_list spl program_key
        (get_extra_account_metas_address runtime mint_id program_key)
        mint_id
        authority_key
        (4 ∷ 6 ∷ [])).accounts
unfolding initialize_extra_account_meta_list get_extra_account_metas_address
    get_extra_account_metas_address_and_bump_seed bytes_eq to_le_bytes
listing-Loads = (refl, refl, (refl, refl, (refl, refl, (refl, refl, tt))))

abbrev run : Result ⊤ × World
run =
    process runtime spl token program_key listing
      (initialize_extra_account_meta_list spl program_key
        (get_extra_account_metas_address runtime mint_id program_key) mint_id authority_key
        (4 ∷ 6 ∷ [])).contents
      empty_world

process-create_instruction_example :
    (run.0
      ≡ (made runtime spl token program_key
          (handle metas_key false)
          (handle mint_id false)
          (handle authority_key true)
          (handle system_program_id false)
          (4 ∷ 6 ∷ [])
          empty_world).0)
    × (run.0 ≡ ok tt
        → HoldsList spl program_key
            (get_extra_account_metas_address runtime mint_id program_key)
            (4 ∷ 6 ∷ [])
            empty_world.accounts
            run.1.accounts)
process-create_instruction_example =
    process-create_instruction runtime spl token program_key mint_id authority_key
      (handle metas_key false) (handle mint_id false) (handle authority_key true)
      (handle system_program_id false) (4 ∷ 6 ∷ []) empty_world runtime-RunsSystemProgram
      spl-IsCodec spl-IsApart (omega arith) (record { no_shared = refl; no_exclusive = refl }) refl
      mint-HasAuthority listing-Loads

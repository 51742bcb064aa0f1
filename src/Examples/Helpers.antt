-- ===== src/Examples/Helpers.antt =====
-- The theorems on the two helpers of the interface at concrete calls.
use transfer_hook.Prelude.{
  ⊤, ◌≡◌, refl, ap, true, false, some, List, [], ◌∷◌, ◌++◌, map, Bytes, bytes_eq,
}
use transfer_hook.Solana.Error.{ok}
use transfer_hook.Solana.Account.{Pubkey, AccountInfo, AccountMeta, Instruction, new_readonly}
use transfer_hook.Solana.Sdk.{ResolvesAccounts}
use transfer_hook.Interface.Address.{get_extra_account_metas_address}
use transfer_hook.Interface.Instruction
use transfer_hook.Interface.Onchain.{
  Call, find_key, push_account, resolve, execute_call, add_resolved, add_validation,
  add_extra_accounts_for_execute_cpi,
}
use transfer_hook.Interface.Onchain.Added.{Completed}
use transfer_hook.Interface.Onchain.Aligned.{add_extra_accounts-Extends}
use transfer_hook.Interface.Onchain.Grown.{Extends}
use transfer_hook.Interface.Offchain.{
  done, Fetch, Resolver, misses_any, add_extra_account_metas_for_execute,
}
use transfer_hook.Interface.Offchain.Outcome.{ExtendsInstructions, add_extra_account_metas_lem}
use transfer_hook.Program.MetaList.{mint_id}
use transfer_hook.Examples.Libraries.{runtime, spl}
use transfer_hook.Examples.Accounts.{key, handle, program_key, user_key, metas_key, ready_world}

readonly_keys :
    (infos : List AccountInfo)
    → map (λ m. m.pubkey) (map (λ a. new_readonly a.key false) infos) ≡ map (λ a. a.key) infos
readonly_keys [] = refl
readonly_keys (a ∷ infos) = ap (λ keys. a.key ∷ keys) (readonly_keys infos)

pub spl-ResolvesAccounts : ResolvesAccounts spl
spl-ResolvesAccounts = record {
  add_to_cpi_instruction_lem = λ discriminator w before infos bytes additional h. record {
    extra_metas = map (λ a. new_readonly a.key false) additional;
    extra_infos = additional;
    metas_added = refl;
    infos_added = refl;
    same_keys = readonly_keys additional;
    same_program = refl;
    same_contents = refl;
  };
}

abbrev pub additional : List AccountInfo
additional = handle program_key false ∷ handle metas_key false ∷ []

-- An instruction of another program, without accounts.
abbrev outer : Instruction
outer = record { program_id = key 8; accounts = []; contents = 1 ∷ [] }

abbrev outer_after : Call
outer_after = (
  record outer {
    accounts =
        new_readonly program_key false
        ∷ new_readonly metas_key false
        ∷ new_readonly metas_key false
        ∷ new_readonly program_key false
        ∷ [];
  },
  handle program_key false
      ∷ handle metas_key false
      ∷ handle metas_key false
      ∷ handle program_key false
      ∷ [],
)

outer_returns :
    (add_extra_accounts_for_execute_cpi runtime spl program_key
      (handle (key 2) false)
      (handle mint_id false)
      (handle (key 3) false)
      (handle user_key true)
      additional
      5
      (outer, [])
      ready_world).0
    ≡ ok outer_after
unfolding add_extra_accounts_for_execute_cpi add_validation add_resolved resolve bytes_eq
    get_extra_account_metas_address Instruction.execute
outer_returns = refl

abbrev address : Pubkey
address = get_extra_account_metas_address runtime mint_id program_key

add_extra_accounts-Extends_example :
    Extends (outer, []) outer_after
    × ((program_info : AccountInfo) × (find_key program_key additional ≡ some program_info)
        × Completed runtime spl program_key
            (handle (key 2) false)
            (handle mint_id false)
            (handle (key 3) false)
            (handle user_key true)
            additional
            5
            (outer, [])
            ready_world
            program_info
            (find_key address additional)
            outer_after)
add_extra_accounts-Extends_example =
    add_extra_accounts-Extends runtime spl spl-ResolvesAccounts program_key (handle (key 2) false)
      (handle mint_id false) (handle (key 3) false) (handle user_key true) additional 5 (outer, [])
      ready_world outer_returns

abbrev only_program : List AccountInfo
only_program = handle program_key false ∷ []

abbrev transfer_call : Call
transfer_call =
    execute_call runtime spl program_key (handle (key 2) false) (handle mint_id false)
      (handle (key 3) false) (handle user_key true) additional 5

-- A client that finds every account empty, and adds one account for a list.
abbrev pub fetch : Fetch ⊤
fetch asked = done (some [])

abbrev resolver : Resolver ⊤
resolver = record {
  add_to_instruction = λ discriminator instruction fetch bytes.
      done (push_account instruction (new_readonly (key 6) false));
}

resolver-ExtendsInstructions : ExtendsInstructions resolver
resolver-ExtendsInstructions = record {
  add_to_instruction_lem =
      λ discriminator before fetch bytes h. (new_readonly (key 6) false ∷ [], cc);
}

abbrev pub transfer : Instruction
transfer = record {
  program_id = key 7;
  accounts =
      new_readonly (key 2) false
      ∷ new_readonly mint_id false
      ∷ new_readonly (key 3) false
      ∷ new_readonly user_key true
      ∷ [];
  contents = 1 ∷ [];
}

abbrev transfer_after : Instruction
transfer_after = record transfer {
  accounts =
      transfer.accounts
      ++ (new_readonly (key 6) false
          ∷ new_readonly program_key false
          ∷ new_readonly metas_key false
          ∷ []);
}

transfer_completes :
    add_extra_account_metas_for_execute runtime spl resolver transfer program_key
      (key 2)
      mint_id
      (key 3)
      user_key
      5
      fetch
    ≡ done transfer_after
unfolding add_extra_account_metas_for_execute bytes_eq get_extra_account_metas_address
    Instruction.execute
transfer_completes = refl

-- The `Execute` instruction with the validation account.
abbrev checked : Instruction
checked =
    push_account (Instruction.execute spl program_key (key 2) mint_id (key 3) user_key 5)
      (new_readonly address false)

add_extra_account_metas_lem_example :
    (misses_any transfer.accounts (key 2 ∷ mint_id ∷ key 3 ∷ user_key ∷ []) ≡ false)
    × (transfer_after.program_id ≡ transfer.program_id)
    × (transfer_after.contents ≡ transfer.contents)
    × ((bytes : Bytes) × (mid : Instruction) × (extra : List AccountMeta) × (fetch address
          ≡ done (some bytes))
        × (resolver.add_to_instruction spl.execute_discriminator checked fetch bytes ≡ done mid)
        × (mid.accounts ≡ checked.accounts ++ extra)
        × (transfer_after.accounts
            ≡ transfer.accounts
              ++ (extra ++ (new_readonly program_key false ∷ new_readonly address false ∷ []))))
add_extra_account_metas_lem_example =
    add_extra_account_metas_lem runtime spl resolver transfer program_key (key 2) mint_id (key 3)
      user_key 5 fetch resolver-ExtendsInstructions transfer_completes

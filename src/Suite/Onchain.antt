-- ===== src/Suite/Onchain.antt =====
-- The test of interface/src/onchain.rs: the extra accounts of a CPI.
--
-- A test is the statement of its assertions. `unwrap` asks for a value, and `unwrap_err` for an
-- error.
pub mod Found
pub mod Resolving
pub mod Passes
use transfer_hook.Prelude.{⊤, ℕ, ◌≡◌, true, false, List, [], ◌∷◌, Bytes, replicate, to_le_bytes}
use transfer_hook.Solana.Error.{Result, ok, err}
use transfer_hook.Solana.Account.{
  Pubkey, Account, AccountInfo, AccountMeta, Instruction, new_writable, new_readonly,
  system_program_id,
}
use transfer_hook.Solana.Exec.{World, update}
use transfer_hook.Solana.Sdk.{Runtime, Spl}
use transfer_hook.Solana.Sdk.ExtraAccounts.{ExtraAccounts}
use transfer_hook.Interface.Error.{to_program_error, incorrect_account}
use transfer_hook.Interface.Address.{get_extra_account_metas_address}
use transfer_hook.Interface.Onchain.{Call, add_extra_accounts_for_execute_cpi}
use transfer_hook.Suite.ExtraMetas.{extra_meta_1, extra_meta_2, setup_validation_data}

-- The keys that `Pubkey::new_unique` gives, and the id of the upgradeable loader.
pub record Fresh : Type 0 where
  pub spl_token_2022_program_id : Pubkey
  pub transfer_hook_program_id : Pubkey
  pub source_pubkey : Pubkey
  pub mint_pubkey : Pubkey
  pub destination_pubkey : Pubkey
  pub authority_pubkey : Pubkey
  pub bpf_loader_upgradeable_id : Pubkey

-- `zip`, and the assertions on each pair: what is behind the shorter list is not compared.
abbrev pub SameInfos : List AccountInfo → List AccountInfo → Type 0
SameInfos [] check = Unit
SameInfos (a ∷ infos) [] = Unit
SameInfos (a ∷ infos) (b ∷ check) =
    (a.key ≡ b.key)
    × (a.is_signer ≡ b.is_signer)
    × (a.is_writable ≡ b.is_writable)
    × SameInfos infos check

-- `AccountInfo::new`: the handle.
abbrev pub handle : Pubkey → AccountInfo
handle key = record { key = key; is_signer = false; is_writable = true }

abbrev pub signer_handle : Pubkey → AccountInfo
signer_handle key = record { key = key; is_signer = true; is_writable = false }

abbrev pub amount : ℕ
amount = 100

module _ (K : Fresh) where
  abbrev pub cpi_instruction : Instruction
  cpi_instruction = record {
    program_id = K.spl_token_2022_program_id;
    accounts =
        new_writable K.source_pubkey false
        ∷ new_readonly K.mint_pubkey false
        ∷ new_writable K.destination_pubkey false
        ∷ new_readonly K.authority_pubkey true
        ∷ [];
    contents = [];
  }

  abbrev pub cpi_account_infos : List AccountInfo
  cpi_account_infos =
      handle K.source_pubkey
      ∷ handle K.mint_pubkey
      ∷ handle K.destination_pubkey
      ∷ handle K.authority_pubkey
      ∷ []

module _ (R : Runtime) (S : Spl) (X : ExtraAccounts S) (K : Fresh) where
  abbrev pub validate_state_pubkey : Pubkey
  validate_state_pubkey = get_extra_account_metas_address R K.mint_pubkey K.transfer_hook_program_id

  abbrev pub extra_meta_3_pubkey : Pubkey
  extra_meta_3_pubkey =
      (R.find_program_address (K.source_pubkey ∷ K.destination_pubkey ∷ validate_state_pubkey ∷ [])
        K.transfer_hook_program_id).0

  abbrev pub extra_meta_4_pubkey : Pubkey
  extra_meta_4_pubkey =
      (R.find_program_address
        (to_le_bytes 8 amount ∷ K.destination_pubkey ∷ extra_meta_1 ∷ extra_meta_3_pubkey ∷ [])
        K.transfer_hook_program_id).0

  abbrev pub additional_account_infos : List AccountInfo
  additional_account_infos =
      signer_handle extra_meta_1
      ∷ signer_handle extra_meta_2
      ∷ handle extra_meta_3_pubkey
      ∷ handle extra_meta_4_pubkey
      ∷ handle K.transfer_hook_program_id
      ∷ handle validate_state_pubkey
      ∷ []

  -- The accounts with the data that the test gives them: 165 zeros for a mock of the token program,
  -- the list for the validation account, none for the others.
  abbrev mock : Pubkey → Bytes → Account
  mock owner bytes = record { lamports = 0; contents = bytes; owner = owner }

  abbrev pub cells : Bytes → Pubkey → Account
  cells validate_state_data =
      update validate_state_pubkey (mock K.transfer_hook_program_id validate_state_data) (
        update K.source_pubkey (mock K.spl_token_2022_program_id (replicate 165 0)) (
          update K.mint_pubkey (mock K.spl_token_2022_program_id (replicate 165 0)) (
            update K.destination_pubkey (mock K.spl_token_2022_program_id (replicate 165 0)) (
              update extra_meta_3_pubkey (mock K.transfer_hook_program_id []) (
                update extra_meta_4_pubkey (mock K.transfer_hook_program_id []) (
                  update K.transfer_hook_program_id (mock K.bpf_loader_upgradeable_id [])
                    (λ key. mock system_program_id [])))))))

  -- A call of the helper: a call that fails leaves its `&mut` arguments as they were.
  abbrev pub added : Bytes → List AccountInfo → Result Call
  added validate_state_data additional =
      (add_extra_accounts_for_execute_cpi R S K.transfer_hook_program_id (handle K.source_pubkey)
        (handle K.mint_pubkey) (handle K.destination_pubkey) (handle K.authority_pubkey) additional
        amount (cpi_instruction K, cpi_account_infos K)
        (record { accounts = cells validate_state_data; shared = []; exclusive = [] })).0

  -- Allow missing validation info from additional account infos
  abbrev pub AllowsMissingValidation : Bytes → Type 0
  AllowsMissingValidation validate_state_data =
      (call : Call) × (added validate_state_data (
          signer_handle extra_meta_1
          ∷ signer_handle extra_meta_2
          ∷ handle extra_meta_3_pubkey
          ∷ handle extra_meta_4_pubkey
          ∷ handle K.transfer_hook_program_id
          ∷ [])
        ≡ ok call)
      × (call.0.accounts
          ≡ new_writable K.source_pubkey false
            ∷ new_readonly K.mint_pubkey false
            ∷ new_writable K.destination_pubkey false
            ∷ new_readonly K.authority_pubkey true
            ∷ new_readonly K.transfer_hook_program_id false
            ∷ [])
      × SameInfos call.1 (
          handle K.source_pubkey
          ∷ handle K.mint_pubkey
          ∷ handle K.destination_pubkey
          ∷ handle K.authority_pubkey
          ∷ handle K.transfer_hook_program_id
          ∷ [])

  -- Fail missing program info from additional account infos
  abbrev pub FailsMissingProgram : Bytes → Type 0
  FailsMissingProgram validate_state_data =
      added validate_state_data (
        signer_handle extra_meta_1
        ∷ signer_handle extra_meta_2
        ∷ handle extra_meta_3_pubkey
        ∷ handle extra_meta_4_pubkey
        ∷ handle validate_state_pubkey
        ∷ [])
      ≡ err (to_program_error incorrect_account)

  -- Fail missing extra meta info from additional account infos
  abbrev pub FailsMissingExtraMeta : Bytes → Type 0
  FailsMissingExtraMeta validate_state_data =
      added validate_state_data (
        signer_handle extra_meta_1
        ∷ signer_handle extra_meta_2
        ∷ handle extra_meta_4_pubkey
        ∷ handle validate_state_pubkey
        ∷ handle K.transfer_hook_program_id
        ∷ [])
      ≡ err X.incorrect_account

  abbrev pub Succeeds : Bytes → Type 0
  Succeeds validate_state_data =
      (call : Call) × (added validate_state_data additional_account_infos ≡ ok call)
      × (call.0.accounts
          ≡ new_writable K.source_pubkey false
            ∷ new_readonly K.mint_pubkey false
            ∷ new_writable K.destination_pubkey false
            ∷ new_readonly K.authority_pubkey true
            ∷ new_readonly extra_meta_1 true
            ∷ new_readonly extra_meta_2 true
            ∷ new_writable extra_meta_3_pubkey false
            ∷ new_writable extra_meta_4_pubkey false
            ∷ new_readonly validate_state_pubkey false
            ∷ new_readonly K.transfer_hook_program_id false
            ∷ [])
      × SameInfos call.1 (
          handle K.source_pubkey
          ∷ handle K.mint_pubkey
          ∷ handle K.destination_pubkey
          ∷ handle K.authority_pubkey
          ∷ signer_handle extra_meta_1
          ∷ signer_handle extra_meta_2
          ∷ handle extra_meta_3_pubkey
          ∷ handle extra_meta_4_pubkey
          ∷ handle validate_state_pubkey
          ∷ handle K.transfer_hook_program_id
          ∷ [])

  abbrev pub TestAddExtraAccountsForExecuteCpi : Type 0
  TestAddExtraAccountsForExecuteCpi =
      (validate_state_data : Bytes) × (setup_validation_data S X ≡ ok validate_state_data)
      × AllowsMissingValidation validate_state_data
      × FailsMissingProgram validate_state_data
      × FailsMissingExtraMeta validate_state_data
      × Succeeds validate_state_data

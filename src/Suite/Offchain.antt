-- ===== src/Suite/Offchain.antt =====
-- The test of interface/src/offchain.rs: the extra accounts of a client's instruction.
--
-- A test is the statement of its assertions. `unwrap` asks for a value, and `unwrap_err` for an
-- error.
pub mod Passes
use transfer_hook.Prelude.{
  ⊤, ℕ, ◌≡◌, false, true, Option, some, List, [], ◌∷◌, Bytes, length, replicate, to_le_bytes,
}
use transfer_hook.Solana.Error.{Result, ok, err, panic, ◌>>=◌, unwrap}
use transfer_hook.Solana.Account.{Pubkey, AccountMeta, Instruction, new_writable, new_readonly}
use transfer_hook.Solana.Sdk.{Runtime, Spl}
use transfer_hook.Solana.Sdk.ExtraAccounts.{ExtraAccounts}
use transfer_hook.Interface.Error.{incorrect_account}
use transfer_hook.Interface.Address.{get_extra_account_metas_address}
use transfer_hook.Interface.Offchain.{
  Fetched, done, failed, panicked, of_program, of_hook, Fetch, Resolver,
  add_extra_account_metas_for_execute,
}
use transfer_hook.Suite.ExtraMetas.{extra_meta_1, extra_meta_2, left, extra_metas}

abbrev pub program_id : Pubkey
program_id = replicate 32 1

abbrev pub amount : ℕ
amount = 100

-- The keys that `Pubkey::new_unique` gives.
pub record Fresh : Type 0 where
  pub source : Pubkey
  pub mint : Pubkey
  pub destination : Pubkey
  pub authority : Pubkey

-- The `?` on a `ProgramError`, and the `Some` around what came through it.
abbrev pub fetched_of : {Failure : Type 0} → Result Bytes → Fetched Failure (Option Bytes)
fetched_of (ok bytes) = done (some bytes)
fetched_of (err e) = failed (of_program e)
fetched_of panic = panicked

module _ (S : Spl) (X : ExtraAccounts S) where
  -- Mock to return the validation state account data
  unfoldable pub mock_fetch_account_data_fn : {Failure : Type 0} → Fetch Failure
  unfolding extra_metas
  mock_fetch_account_data_fn _address = fetched_of (do
    metas ← extra_metas S X
    account_size ← unwrap (S.size_of (length metas))
    left (S.init S.execute_discriminator (replicate account_size 0) metas))

module _ (R : Runtime) (S : Spl) (X : ExtraAccounts S) {Failure : Type 0} (C : Resolver Failure)
    (K : Fresh) where
  abbrev pub validate_state_pubkey : Pubkey
  validate_state_pubkey = get_extra_account_metas_address R K.mint program_id

  abbrev pub extra_meta_3_pubkey : Pubkey
  extra_meta_3_pubkey =
      (R.find_program_address (K.source ∷ K.destination ∷ validate_state_pubkey ∷ []) program_id).0

  abbrev pub extra_meta_4_pubkey : Pubkey
  extra_meta_4_pubkey =
      (R.find_program_address
        (to_le_bytes 8 amount ∷ K.destination ∷ extra_meta_1 ∷ extra_meta_3_pubkey ∷ [])
        program_id).0

  abbrev pub instruction_with : List AccountMeta → Instruction
  instruction_with accounts = record { program_id = program_id; accounts = accounts; contents = [] }

  abbrev pub completed : List AccountMeta → Fetched Failure Instruction
  completed accounts =
      add_extra_account_metas_for_execute R S C (instruction_with accounts) program_id K.source
        K.mint K.destination K.authority amount (mock_fetch_account_data_fn S X)

  -- Fail missing key
  abbrev pub FailsMissingKey : Type 0
  FailsMissingKey =
      completed (
        new_readonly K.mint false
        ∷ new_writable K.destination false
        ∷ new_readonly K.authority true
        ∷ [])
      ≡ failed (of_hook incorrect_account)

  abbrev pub Succeeds : Type 0
  Succeeds =
      (instruction : Instruction) × (completed (
          new_writable K.source false
          ∷ new_readonly K.mint false
          ∷ new_writable K.destination false
          ∷ new_readonly K.authority true
          ∷ [])
        ≡ done instruction)
      × (instruction.accounts
          ≡ new_writable K.source false
            ∷ new_readonly K.mint false
            ∷ new_writable K.destination false
            ∷ new_readonly K.authority true
            ∷ new_readonly extra_meta_1 true
            ∷ new_readonly extra_meta_2 true
            ∷ new_writable extra_meta_3_pubkey false
            ∷ new_writable extra_meta_4_pubkey false
            ∷ new_readonly program_id false
            ∷ new_readonly validate_state_pubkey false
            ∷ [])

  abbrev pub TestAddExtraAccountMetasForExecute : Type 0
  TestAddExtraAccountMetasForExecute = FailsMissingKey × Succeeds

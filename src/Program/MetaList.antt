-- ===== src/Program/MetaList.antt =====
-- The handlers of program/src/processor.rs that write the validation account of a mint.
-- `process_update_extra_account_meta_list` is called by no other code of the program.
pub mod Outcome
pub mod Created
pub mod Updated
pub mod Rewritten
pub mod Served
pub mod Total
use transfer_hook.Prelude.{
  ⊤, ℕ, ◌≡◌, Bool, not, ◌||◌, List, [], ◌∷◌, Bytes, bytes_eq, length, leb, ltb, if◌then◌else◌,
}
use transfer_hook.Solana.Error.{
  Result, invalid_argument, missing_required_signature, invalid_seeds, uninitialized_account,
}
use transfer_hook.Solana.Account.{Pubkey, AccountInfo}
use transfer_hook.Solana.Exec.{
  World, Exec, ◌>>=◌, ◌>>◌, pure, raise, lift, gets, fail_if, next_account_info, owner, data_len,
  try_borrow_data, try_borrow_mut_data, write_data, scoped,
}
use transfer_hook.Solana.Sdk.{Runtime, Spl, Token}
use transfer_hook.Interface.Error.{
  to_program_error, mint_has_no_mint_authority, incorrect_mint_authority,
}
use transfer_hook.Interface.Address.{
  collect_extra_account_metas_signer_seeds, get_extra_account_metas_address_and_bump_seed,
  get_extra_account_metas_address,
}
use transfer_hook.Interface.Instruction.{ok_or}

-- `mint::id()`: 4GFAx7e1QWXWyCPX7HJ2C8u4TpXbKZsDdbP6hnM1hcjy in base 58. The feature
-- `forbid-additional-mints`, which is on by default, compiles it and its check in.
abbrev pub mint_id : Pubkey
mint_id =
    48 ∷ 122 ∷ 203 ∷ 247 ∷ 117 ∷ 60 ∷ 41 ∷ 146 ∷ 131 ∷ 79 ∷ 101 ∷ 108 ∷ 56 ∷ 25 ∷ 224 ∷ 183 ∷ 154
    ∷ 205 ∷ 112 ∷ 166 ∷ 22 ∷ 206 ∷ 33 ∷ 170 ∷ 226 ∷ 102 ∷ 15 ∷ 84 ∷ 254 ∷ 90 ∷ 130 ∷ 168 ∷ []

module _ (T : Token) where
  -- check that the mint authority is valid without fully deserializing, and the signers
  unfoldable pub check_mint_authority : AccountInfo → AccountInfo → Exec ⊤
  check_mint_authority mint_info authority_info = do
    mint_data ← try_borrow_data mint_info
    mint ← lift (T.unpack_mint mint_data)
    mint_authority ←
        lift (ok_or (T.mint_authority mint) (to_program_error mint_has_no_mint_authority))
    fail_if (not authority_info.is_signer) missing_required_signature
    fail_if (not (bytes_eq authority_info.key mint_authority))
        (to_program_error incorrect_mint_authority)

-- `ExtraAccountMetaList::init` or `update` through a mutable borrow of the account's data.
module _ (S : Spl) where
  abbrev pub write_through :
      (Bytes → Bytes → List S.Meta → Result ⊤ × Bytes) → AccountInfo → List S.Meta → Exec ⊤
  write_through call account metas = do
    data_1 ← try_borrow_mut_data account
    let left = call S.execute_discriminator data_1 metas
    write_data account left.1
    lift left.0

module _ (R : Runtime) (S : Spl) where
  -- Create the account and write the data
  unfoldable pub create_meta_list : Pubkey → AccountInfo → AccountInfo → ℕ → List S.Meta → Exec ⊤
  create_meta_list program_id extra_account_metas_info mint_info bump_seed metas = do
    let signer_seeds = collect_extra_account_metas_signer_seeds mint_info.key (bump_seed ∷ [])
    account_size ← lift (S.size_of (length metas))
    R.invoke_signed (R.allocate extra_account_metas_info.key account_size)
        (extra_account_metas_info ∷ []) (signer_seeds ∷ [])
    R.invoke_signed (R.assign extra_account_metas_info.key program_id)
        (extra_account_metas_info ∷ []) (signer_seeds ∷ [])
    write_through S S.init extra_account_metas_info metas

  -- If the new extra_account_metas length is different, resize the account and update
  unfoldable pub rewrite_meta_list : AccountInfo → ℕ → List S.Meta → Exec ⊤
  rewrite_meta_list extra_account_metas_info original_account_size metas = do
    account_size ← lift (S.size_of (length metas))
    if leb original_account_size account_size
        then (do
          R.resize extra_account_metas_info account_size
          write_through S S.update extra_account_metas_info metas)
        else (do
          scoped (write_through S S.update extra_account_metas_info metas)
          R.resize extra_account_metas_info account_size)

module _ (R : Runtime) (S : Spl) (T : Token) where
  unfoldable pub process_initialize_extra_account_meta_list :
      Pubkey → List AccountInfo → List S.Meta → Exec ⊤
  process_initialize_extra_account_meta_list program_id accounts extra_account_metas = scoped (do
    (extra_account_metas_info, iter_1) ← next_account_info accounts
    (mint_info, iter_2) ← next_account_info iter_1
    (authority_info, iter_3) ← next_account_info iter_2
    next_account_info iter_3
    fail_if (not (bytes_eq mint_info.key mint_id)) invalid_argument
    check_mint_authority T mint_info authority_info
    let expected = get_extra_account_metas_address_and_bump_seed R mint_info.key program_id
    fail_if (not (bytes_eq expected.0 extra_account_metas_info.key)) invalid_seeds
    create_meta_list R S program_id extra_account_metas_info mint_info expected.1
        extra_account_metas)

  unfoldable pub process_update_extra_account_meta_list :
      Pubkey → List AccountInfo → List S.Meta → Exec ⊤
  process_update_extra_account_meta_list program_id accounts extra_account_metas = scoped (do
    (extra_account_metas_info, iter_1) ← next_account_info accounts
    (mint_info, iter_2) ← next_account_info iter_1
    (authority_info, _) ← next_account_info iter_2
    check_mint_authority T mint_info authority_info
    let expected = get_extra_account_metas_address R mint_info.key program_id
    fail_if (not (bytes_eq expected extra_account_metas_info.key)) invalid_seeds
    min_account_size ← lift (S.size_of 0)
    original_account_size ← data_len extra_account_metas_info
    program ← owner extra_account_metas_info
    fail_if (not (bytes_eq program_id program) || ltb original_account_size min_account_size)
        uninitialized_account
    rewrite_meta_list R S extra_account_metas_info original_account_size extra_account_metas)

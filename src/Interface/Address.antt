-- ===== src/Interface/Address.antt =====
-- interface/src/lib.rs: the address of the validation account and the seeds that sign for it.
use transfer_hook.Prelude.{ℕ, ◌≡◌, refl, some, List, [], ◌∷◌, Bytes}
use transfer_hook.Solana.Account.{Pubkey}
use transfer_hook.Solana.Sdk.{Runtime, DerivesAddresses}

-- b"extra-account-metas"
abbrev pub extra_account_metas_seed : Bytes
extra_account_metas_seed =
    b'e' ∷ b'x' ∷ b't' ∷ b'r' ∷ b'a' ∷ b'-' ∷ b'a' ∷ b'c' ∷ b'c' ∷ b'o' ∷ b'u' ∷ b'n' ∷ b't' ∷ b'-'
    ∷ b'm' ∷ b'e' ∷ b't' ∷ b'a' ∷ b's' ∷ []

abbrev pub collect_extra_account_metas_seeds : Pubkey → List Bytes
collect_extra_account_metas_seeds mint = extra_account_metas_seed ∷ mint ∷ []

abbrev pub collect_extra_account_metas_signer_seeds : Pubkey → Bytes → List Bytes
collect_extra_account_metas_signer_seeds mint bump_seed =
    extra_account_metas_seed ∷ mint ∷ bump_seed ∷ []

module _ (R : Runtime) where
  unfoldable pub get_extra_account_metas_address_and_bump_seed : Pubkey → Pubkey → Pubkey × ℕ
  get_extra_account_metas_address_and_bump_seed mint program_id =
      R.find_program_address (collect_extra_account_metas_seeds mint) program_id

  unfoldable pub get_extra_account_metas_address : Pubkey → Pubkey → Pubkey
  unfolding get_extra_account_metas_address_and_bump_seed
  get_extra_account_metas_address mint program_id =
      (get_extra_account_metas_address_and_bump_seed mint program_id).0

  -- The signer seeds of a mint, with the bump seed that was found, sign for exactly the address
  -- that `get_extra_account_metas_address` gives, where derived addresses are what their seeds
  -- with the bump seed sign for.
  pub signer_seeds-address :
      DerivesAddresses R
      → (mint program_id : Pubkey)
      → let (address, bump) = get_extra_account_metas_address_and_bump_seed mint program_id in
        (R.create_program_address
            (collect_extra_account_metas_signer_seeds mint (bump ∷ []))
            program_id
          ≡ some address)
        × (get_extra_account_metas_address mint program_id ≡ address)
  unfolding get_extra_account_metas_address
  signer_seeds-address L mint program_id =
      (L.create-find (collect_extra_account_metas_seeds mint) program_id, refl)

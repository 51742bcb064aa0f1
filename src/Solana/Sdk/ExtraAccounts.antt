-- ===== src/Solana/Sdk/ExtraAccounts.antt =====
-- The extra accounts of spl-tlv-account-resolution: how they are made, and what is documented of
-- the two kinds that need no data of an account.
use transfer_hook.Prelude.{
  ℕ, ◌+◌, ◌≤◌, ◌≡◌, Bool, some, List, [], ◌∷◌, Bytes, length, take, drop, get_elem?,
}
use transfer_hook.Solana.Error.{ProgramError, Result, ok}
use transfer_hook.Solana.Account.{Pubkey, AccountMeta, Instruction}
use transfer_hook.Solana.Sdk.{Runtime, Spl}

-- `Seed`, with the constructors that are used, `ExtraAccountMeta`, and the code of
-- `AccountResolutionError::IncorrectAccount`.
pub record ExtraAccounts (S : Spl) : Type 1 where
  pub Seed : Type 0
  pub literal : Bytes → Seed
  pub instruction_data : ℕ → ℕ → Seed
  pub account_key : ℕ → Seed
  pub account_data : ℕ → ℕ → ℕ → Seed
  pub new_with_pubkey : Pubkey → Bool → Bool → Result S.Meta
  pub new_with_seeds : List Seed → Bool → Bool → Result S.Meta
  pub incorrect_account : ProgramError

module _ (R : Runtime) (S : Spl) (X : ExtraAccounts S) where
  -- The bytes of a seed, for an instruction's data and the keys of its accounts.
  pub data SeedBytes (contents : Bytes) (keys : List Pubkey) : X.Seed → Bytes → Type 0 where
    of_data :
        (index count : ℕ)
        → index + count ≤ length contents
        → SeedBytes contents keys
            (X.instruction_data index count)
            (take count (drop index contents))
    of_key :
        (index : ℕ) {key : Pubkey}
        → get_elem? keys index ≡ some key
        → SeedBytes contents keys (X.account_key index) key

  pub data SeedsBytes (contents : Bytes) (keys : List Pubkey)
      : List X.Seed → List Bytes → Type 0 where
    no_seeds : SeedsBytes contents keys [] []
    seed_of :
        {seed : X.Seed} {bytes : Bytes} {seeds : List X.Seed} {more : List Bytes}
        → SeedBytes contents keys seed bytes
        → SeedsBytes contents keys seeds more
        → SeedsBytes contents keys (seed ∷ seeds) (bytes ∷ more)

  -- The account that an extra account stands for in an instruction with the keys of its accounts:
  -- a fixed one, or the address that the program derives from the seeds.
  pub data StandsFor (instruction : Instruction) (keys : List Pubkey)
      : S.Meta → AccountMeta → Type 0 where
    fixed :
        (key : Pubkey) (signer writable : Bool) {meta : S.Meta}
        → X.new_with_pubkey key signer writable ≡ ok meta
        → StandsFor instruction keys meta
            (record { pubkey = key; is_signer = signer; is_writable = writable })
    derived :
        (seeds : List X.Seed) (signer writable : Bool) {meta : S.Meta} {bytes : List Bytes}
        → X.new_with_seeds seeds signer writable ≡ ok meta
        → SeedsBytes instruction.contents keys seeds bytes
        → StandsFor instruction keys meta (record {
          pubkey = (R.find_program_address bytes instruction.program_id).0;
          is_signer = signer;
          is_writable = writable;
        })

-- ===== src/Program/Ledger.antt =====
-- What the program promises, with the accounts left out: for each user a count, or none. The
-- accounts of a world are read as such a ledger, and a call of the program is one of three steps.
pub mod Steps
pub mod Calls
pub mod Process
pub mod Runs
pub mod Traces
use transfer_hook.Prelude.{
  ℕ, ◌≡◌, ◌≢◌, true, Option, none, some, List, ◌∷◌, [], Bytes, get_elem?, bytes_eq, if◌then◌else◌,
}
use transfer_hook.Solana.Error.{Result, ok, err, panic}
use transfer_hook.Solana.Account.{Pubkey, Account, AccountInfo}
use transfer_hook.Solana.Sdk.{Runtime, Spl}
use transfer_hook.Interface.Address.{get_extra_account_metas_address}
use transfer_hook.Interface.Instruction
use transfer_hook.Interface.Instruction.{execute_of}
use transfer_hook.Program.Execute.{add_u64}
use transfer_hook.Program.Process.{initialize_transfer_account}
use transfer_hook.Program.TransferAccount

abbrev pub Ledger : Type 0
Ledger = Pubkey → Option ℕ

abbrev pub put : Pubkey → ℕ → Ledger → Ledger
put user n l v = if bytes_eq v user then some n else l v

abbrev pub count_of : Result (Pubkey × ℕ) → Option ℕ
count_of (ok (_, n)) = some n
count_of (err _) = none
count_of panic = none

-- The address of a user's transfer account.
abbrev pub transfer_key : Runtime → Pubkey → Pubkey → Pubkey
transfer_key R program_id user = (R.find_program_address (user ∷ []) program_id).0

-- A call with these accounts and this input, seen on the ledger. A count is opened by its user, who
-- signed, and is credited by an `Execute` with the user's transfer account as the sixth account.
pub data Performs (R : Runtime) (S : Spl) (program_id : Pubkey) (accounts : List AccountInfo)
    (input : Bytes) (before after : Ledger) : Type 0 where
  opens :
      (user : AccountInfo) (rest : List AccountInfo) (tail : Bytes)
      → accounts ≡ user ∷ rest
      → user.is_signer ≡ true
      → input ≡ initialize_transfer_account ∷ tail
      → before user.key ≡ none
      → after ≡ put user.key 0 before
      → Performs R S program_id accounts input before after
  credits :
      (user : Pubkey) (transfer : AccountInfo) (amount total : ℕ)
      → Instruction.unpack S input ≡ ok (execute_of amount)
      → get_elem? accounts 5 ≡ some transfer
      → transfer.key ≡ transfer_key R program_id user
      → before user ≡ some total
      → after ≡ put user (add_u64 total amount) before
      → Performs R S program_id accounts input before after
  idles : after ≡ before → Performs R S program_id accounts input before after

module _ (R : Runtime) (program_id : Pubkey) where
  -- The counts of the transfer accounts that are the program's.
  abbrev pub ledger : (Pubkey → Account) → Ledger
  ledger cells user =
      if bytes_eq (cells (transfer_key R program_id user)).owner program_id
      then count_of (TransferAccount.unpack (cells (transfer_key R program_id user)).contents)
      else none

  -- A derived address is a hash of its seeds: two users, or a user and a mint, have two.
  pub record DistinctAddresses : Type 0 where
    pub users : (u v : Pubkey) → transfer_key R program_id u ≡ transfer_key R program_id v → u ≡ v
    pub lists :
        (user mint : Pubkey)
        → transfer_key R program_id user ≢ get_extra_account_metas_address R mint program_id

  -- Each transfer account that is the program's counts for the user that it is derived from.
  abbrev pub IsLedger : (Pubkey → Account) → Type 0
  IsLedger cells =
      (user : Pubkey)
      → (cells (transfer_key R program_id user)).owner ≡ program_id
      → (total : ℕ) × (TransferAccount.unpack (cells (transfer_key R program_id user)).contents
          ≡ ok (user, total))

-- ===== src/Program/History.antt =====
-- Many calls of the program, with changes by other programs between them, and what they add up to
-- for one transfer account.
pub mod Calls
pub mod Total
use transfer_hook.Prelude.{
  ℕ, ◌+◌, ◌≡◌, List, [], ◌∷◌, ◌++◌, Bytes, bytes_eq, length, ◌==◌, if◌then◌else◌,
}
use transfer_hook.Solana.Error.{Result, ok, err, panic}
use transfer_hook.Solana.Account.{Pubkey, Account, AccountInfo}
use transfer_hook.Solana.Exec.{World, IsFresh}
use transfer_hook.Solana.Sdk.{Runtime, Spl, Token}
use transfer_hook.Interface.Instruction.{
  TransferHookInstruction, execute_of, initialize_of, update_of, unpack,
}
use transfer_hook.Program.TransferAccount
use transfer_hook.Program.Process.{initialize_transfer_account, process}

-- The amounts that were credited, with the accounts that they were credited to, the last in front.
abbrev pub Log : Type 0
Log = List (Pubkey × ℕ)

abbrev pub sum_for : Pubkey → Log → ℕ
sum_for k [] = 0
sum_for k ((j, amount) ∷ log) = (if bytes_eq j k then amount else 0) + sum_for k log

abbrev pub credit_sixth : List AccountInfo → ℕ → Log
credit_sixth (_ ∷ _ ∷ _ ∷ _ ∷ _ ∷ f ∷ _) amount = (f.key, amount) ∷ []
credit_sixth _ amount = []

abbrev pub HasKeys : List AccountInfo → Type 0
HasKeys [] = Unit
HasKeys (a ∷ rest) = (length a.key ≡ 32) × HasKeys rest

-- The account at `k` is the program's and counts `total` for the user.
pub record IsCounter (program_id k user : Pubkey) (total : ℕ) (cells : Pubkey → Account)
    : Type 0 where
  pub program : (cells k).owner ≡ program_id
  pub count : TransferAccount.unpack (cells k).contents ≡ ok (user, total)

-- Other programs may do anything to the accounts but change the data or the owner of an account
-- of this program: the runtime lets only an account's owner do that.
abbrev pub IsForeign : Pubkey → World → World → Type 0
IsForeign program_id w w' =
    (k : Pubkey)
    → (w.accounts k).owner ≡ program_id
    → ((w'.accounts k).owner ≡ program_id) × ((w'.accounts k).contents ≡ (w.accounts k).contents)

module _ (S : Spl) where
  abbrev pub logged_of : List AccountInfo → Result (TransferHookInstruction S.Meta) → Log
  logged_of accounts (ok (execute_of amount)) = credit_sixth accounts amount
  logged_of accounts (ok (initialize_of _)) = []
  logged_of accounts (ok (update_of _)) = []
  logged_of accounts (err _) = []
  logged_of accounts panic = []

  -- What a call that returned has credited: the amount of an `Execute`.
  abbrev pub logged : List AccountInfo → Bytes → Log
  logged accounts [] = logged_of accounts (unpack S [])
  logged accounts (first ∷ rest) =
      if first == initialize_transfer_account
      then []
      else logged_of accounts (unpack S (first ∷ rest))

module _ (R : Runtime) (S : Spl) (T : Token) (program_id : Pubkey) (w : World) where
  -- Calls that returned, with changes from outside between them. A call that failed is rolled
  -- back by the runtime, so it has no step.
  pub data History : Log → World → Type 0 where
    start : History [] w
    call :
        {log : Log} {v : World}
        → History log v
        → (accounts : List AccountInfo) (input : Bytes) → HasKeys accounts
        → (process R S T program_id accounts input v).0 ≡ ok tt
        → History (logged S accounts input ++ log) (process R S T program_id accounts input v).1
    outside :
        {log : Log} {v : World}
        → History log v
        → (u : World) → IsFresh u
        → IsForeign program_id v u
        → History log u

-- ===== src/Solana/Exec.antt =====
-- The state that a handler runs on, and the monad of its steps.
--
-- `World` is the set of accounts with the borrow flags of their data cells, which are `RefCell`s.
-- A handler's write stays in the world also when a later step fails: undoing it is the runtime's
-- work, not the program's.
pub mod Atomic
pub mod Total
use transfer_hook.Prelude.{
  ◌≡◌, ⊤, ℕ, Bool, true, false, ◌||◌, List, [], ◌∷◌, length, Bytes, bytes_eq, if◌then◌else◌,
}
use transfer_hook.Solana.Error.{
  ProgramError, Result, ok, err, panic, account_borrow_failed, not_enough_account_keys,
}
use transfer_hook.Solana.Account.{Pubkey, Account, AccountInfo}

pub record World : Type 0 where
  pub accounts : Pubkey → Account
  pub shared : List Pubkey
  pub exclusive : List Pubkey

-- No data cell is borrowed, as when the runtime enters a program.
pub record IsFresh (w : World) : Type 0 where
  pub no_shared : w.shared ≡ []
  pub no_exclusive : w.exclusive ≡ []

abbrev pub Exec : Type 0 → Type 0
Exec A = World → Result A × World

abbrev pub continue : {A B : Type 0} → Result A → (A → Exec B) → Exec B
continue (ok a) f w = f a w
continue (err e) f w = (err e, w)
continue panic f w = (panic, w)

infixl 5 ◌>>=◌ ◌>>◌
abbrev pub ◌>>=◌ : {A B : Type 0} → Exec A → (A → Exec B) → Exec B
◌>>=◌ m f w = continue (m w).0 f (m w).1

abbrev pub ◌>>◌ : {A B : Type 0} → Exec A → Exec B → Exec B
m >> k = m >>= λ _. k

module _ {A : Type 0} where
  abbrev pub pure : A → Exec A
  pure a w = (ok a, w)

  abbrev pub raise : ProgramError → Exec A
  raise e w = (err e, w)

  abbrev pub lift : Result A → Exec A
  lift r w = (r, w)

  abbrev pub gets : (World → A) → Exec A
  gets f w = (ok (f w), w)

-- `if test { return Err(error); }`
abbrev pub fail_if : Bool → ProgramError → Exec ⊤
fail_if true e = raise e
fail_if false e = pure tt

abbrev pub contains : List Pubkey → Pubkey → Bool
contains [] k = false
contains (x ∷ xs) k = bytes_eq x k || contains xs k

-- `next_account_info`: the handle, and the iterator after it.
abbrev pub next_account_info : List AccountInfo → Exec (AccountInfo × List AccountInfo)
next_account_info [] = raise not_enough_account_keys
next_account_info (a ∷ rest) = pure (a, rest)

module _ (a : AccountInfo) where
  abbrev pub lamports : Exec ℕ
  lamports = gets (λ w. (w.accounts a.key).lamports)

  abbrev pub owner : Exec Pubkey
  owner = gets (λ w. (w.accounts a.key).owner)

  -- `try_borrow_data`: a shared borrow, which the guard holds until it is dropped.
  abbrev pub try_borrow_data : Exec Bytes
  try_borrow_data w =
      if contains w.exclusive a.key
      then (err account_borrow_failed, w)
      else (ok (w.accounts a.key).contents, record w { shared = a.key ∷ w.shared })

  -- `try_borrow_mut_data`
  abbrev pub try_borrow_mut_data : Exec Bytes
  try_borrow_mut_data w =
      if contains w.exclusive a.key || contains w.shared a.key
      then (err account_borrow_failed, w)
      else (ok (w.accounts a.key).contents, record w { exclusive = a.key ∷ w.exclusive })

-- `data_len`, which borrows and panics where `try_borrow_data` fails.
abbrev pub data_len : AccountInfo → Exec ℕ
data_len a w =
    if contains w.exclusive a.key then (panic, w) else (ok (length (w.accounts a.key).contents), w)

abbrev pub update : Pubkey → Account → (Pubkey → Account) → Pubkey → Account
update k a m j = if bytes_eq j k then a else m j

-- A write through the guard that `try_borrow_mut_data` gave.
abbrev pub write_data : AccountInfo → Bytes → Exec ⊤
write_data a bytes w = (
  ok tt,
  record w { accounts = update a.key (record (w.accounts a.key) { contents = bytes }) w.accounts },
)

-- A block: the guards that it took are dropped at its end, however it ends.
abbrev pub scoped : {A : Type 0} → Exec A → Exec A
scoped m w = ((m w).0, record (m w).1 { shared = w.shared; exclusive = w.exclusive })

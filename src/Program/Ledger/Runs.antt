-- ===== src/Program/Ledger/Runs.antt =====
-- Any number of calls of the program, with changes by other programs between them, each as a step of
-- the ledger.
use transfer_hook.Prelude.{
  ◌≡◌, ◌≢◌, List, Bytes, bytes_eq, bytes_eq_iff, bytes_eq_ne, bytes_eq_self, inl, inr, Bool-cases,
  arith,
}
use mathlib.Core.Path.{fun_ext}
use transfer_hook.Solana.Error.{ok}
use transfer_hook.Solana.Account.{system_program_id, Pubkey, AccountInfo}
use transfer_hook.Solana.Exec.{World, IsFresh}
use transfer_hook.Solana.Sdk.{Runtime, RunsSystemProgram, Spl, Token}
use transfer_hook.Program.Process.{process}
use transfer_hook.Program.History.{HasKeys, IsForeign}
use transfer_hook.Program.History.Calls.{process-IsFresh}
use transfer_hook.Program.Ledger.{Performs, transfer_key, ledger, DistinctAddresses, IsLedger}
use transfer_hook.Program.Ledger.Process.{process-Refines}

-- The runtime lets nobody but the program sign for an address derived from it, so nobody else makes
-- an account there the program's.
abbrev pub KeepsVacant : Runtime → Pubkey → World → World → Type 0
KeepsVacant R program_id v u =
    (user : Pubkey)
    → (v.accounts (transfer_key R program_id user)).owner ≢ program_id
    → (u.accounts (transfer_key R program_id user)).owner ≢ program_id

-- Calls that returned, with changes from outside between them.
pub data Run (R : Runtime) (S : Spl) (T : Token) (program_id : Pubkey) (w : World)
    : World → Type 0 where
  start : Run R S T program_id w w
  call :
      {v : World}
      → Run R S T program_id w v
      → (accounts : List AccountInfo) (input : Bytes) → HasKeys accounts
      → (process R S T program_id accounts input v).0 ≡ ok tt
      → Run R S T program_id w (process R S T program_id accounts input v).1
  outside :
      {v : World}
      → Run R S T program_id w v
      → (u : World) → IsFresh u
      → IsForeign program_id v u
      → KeepsVacant R program_id v u
      → Run R S T program_id w u

-- Each call of the run, with its own accounts and input, is a step of the ledger from the one
-- before it to the one behind it; what is done from outside leaves the ledger alone.
abbrev pub Trace :
    {R : Runtime} {S : Spl} {T : Token} {program_id : Pubkey} {w u : World}
    → Run R S T program_id w u
    → Type 0
Trace start = Unit
Trace {R} {S} {T} {program_id} (call {v} r accounts input keys returned) =
    Trace r
    × Performs R S program_id accounts input (ledger R program_id v.accounts)
        (ledger R program_id (process R S T program_id accounts input v).1.accounts)
Trace {R} {program_id = program_id} (outside {v} r u fresh foreign vacant) =
    Trace r × (ledger R program_id u.accounts ≡ ledger R program_id v.accounts)

module _ (R : Runtime) (program_id : Pubkey) (v u : World) (foreign : IsForeign program_id v u)
    (vacant : KeepsVacant R program_id v u) where
  outside_owned :
      (user : Pubkey)
      → (u.accounts (transfer_key R program_id user)).owner ≡ program_id
      → (v.accounts (transfer_key R program_id user)).owner ≡ program_id
  outside_owned user owned =
      let owner = (v.accounts (transfer_key R program_id user)).owner in
      elim (Bool-cases (bytes_eq owner program_id)) [
        | inl e ↦ (bytes_eq_iff owner program_id).0 e
        | inr e ↦ absurd (vacant user (λ p. ground (arith, bytes_eq_iff owner program_id, p)) owned)
      ]

  outside_ledger : ledger R program_id u.accounts ≡ ledger R program_id v.accounts
  outside_ledger = fun_ext λ user.
      let k = transfer_key R program_id user in
      elim (Bool-cases (bytes_eq (v.accounts k).owner program_id)) [
        | inl e ↦
            let (owned, kept) = foreign k ((bytes_eq_iff (v.accounts k).owner program_id).0 e) in
            rw (e, owned, bytes_eq_self program_id, kept)
        | inr e ↦
            let other : (v.accounts k).owner ≢ program_id =
              λ p. ground (arith, bytes_eq_iff (v.accounts k).owner program_id, p) in
            rw (e, bytes_eq_ne (u.accounts k).owner program_id (vacant user other))
      ]

  outside-IsLedger : IsLedger R program_id v.accounts → IsLedger R program_id u.accounts
  outside-IsLedger h user owned =
      let before = outside_owned user owned in
      let (total, read) = h user before in
      let (_, kept) = foreign (transfer_key R program_id user) before in (total, rw kept read)

module _ (R : Runtime) (S : Spl) (T : Token) (program_id : Pubkey)
    (D : DistinctAddresses R program_id) (L : RunsSystemProgram R)
    (apart : program_id ≢ system_program_id) (w : World) where
  -- Where calls of the system program do what is documented, the program is not the system program,
  -- derived addresses are distinct, and at the start no borrow is open and each transfer account of
  -- the program counts for its user: after any calls of the program that returned, and any changes
  -- that other programs may make, all of this still holds. Each of these calls, with its accounts
  -- and its input, took the counts as they were before it to those behind it by one step: it is
  -- a call of the custom instruction that opens a count for its first account, which signed, or an
  -- `Execute` that credits with its amount the count of the user whose transfer account is its sixth
  -- account, or it leaves the counts alone. The changes from
  -- outside leave them alone.
  pub Run-Trace :
      {u : World}
      → IsFresh w
      → IsLedger R program_id w.accounts
      → (r : Run R S T program_id w u) → IsFresh u × IsLedger R program_id u.accounts × Trace r
  Run-Trace fresh h start = (fresh, h, tt)
  Run-Trace fresh h (call {v} r accounts input keys returned) =
      let (fresh_v, before, trace) = Run-Trace fresh h r in
      let (after, performed) =
        process-Refines R S T program_id D L apart v fresh_v before accounts input keys returned in
      (process-IsFresh R S T program_id accounts v fresh_v input, after, (trace, performed))
  Run-Trace fresh h (outside {v} r u fresh_u foreign vacant) =
      let (_, before, trace) = Run-Trace fresh h r in
      (
        fresh_u,
        outside-IsLedger R program_id v u foreign vacant before,
        (trace, outside_ledger R program_id v u foreign vacant),
      )

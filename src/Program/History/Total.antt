-- ===== src/Program/History/Total.antt =====
-- The count of a transfer account after any number of calls.
use transfer_hook.Prelude.{ℕ, ◌+◌, ◌^◌, ◌<◌, ◌≡◌, ◌≢◌, subst, [], ◌∷◌, ◌++◌, arith}
use transfer_hook.Solana.Account.{system_program_id, Pubkey}
use transfer_hook.Solana.Exec.{World, IsFresh}
use transfer_hook.Solana.Sdk.{Runtime, RunsSystemProgram, Spl, Token}
use transfer_hook.Program.Execute.{add_u64}
use transfer_hook.Program.Process.{process}
use transfer_hook.Program.History.{Log, sum_for, IsCounter, logged, History, start, call, outside}
use transfer_hook.Program.History.Calls.{process-Grown, process-IsFresh}

sum_for-append : (k : Pubkey) (xs ys : Log) → sum_for k (xs ++ ys) ≡ sum_for k xs + sum_for k ys
sum_for-append k [] ys = omega arith
sum_for-append k ((j, n) ∷ xs) ys = omega (arith, sum_for-append k xs ys)

module _ (R : Runtime) (S : Spl) (T : Token) (program_id : Pubkey) (L : RunsSystemProgram R)
    (apart : program_id ≢ system_program_id) (k user : Pubkey) (total : ℕ) (w : World) where
  History-IsFresh :
      {log : Log} {u : World} → IsFresh w → History R S T program_id w log u → IsFresh u
  History-IsFresh f start = f
  History-IsFresh f (call {v} h accounts input keys r) =
      process-IsFresh R S T program_id accounts v (History-IsFresh f h) input
  History-IsFresh f (outside h u fresh foreign) = fresh

  -- Where calls of the system program do what is documented, the program is not the system
  -- program, and at the start no borrow is open and the count fits a `u64`: after any calls of the
  -- program that returned, and any changes that other programs may make, a transfer account that
  -- counted `total` counts `total` and the sum of the amounts of all `Execute`s that named it as
  -- their sixth account, modulo 2 ^ 64, for the same user; and it is still the program's.
  pub History-total :
      {log : Log} {u : World}
      → IsFresh w
      → IsCounter program_id k user total w.accounts
      → total < 2 ^ 64
      → History R S T program_id w log u
      → IsCounter program_id k user (add_u64 total (sum_for k log)) u.accounts
  History-total f c fits start =
      subst (λ (n : ℕ). IsCounter program_id k user n w.accounts) (omega arith) c
  History-total f c fits (call {log} {v} h accounts input keys r) =
      let before = History-total f c fits h in
      let after =
        process-Grown R S T program_id k user (add_u64 total (sum_for k log)) v
          (History-IsFresh f h) before (omega arith) L apart accounts input keys r in
      subst
        (λ (n : ℕ).
          IsCounter program_id k user n (process R S T program_id accounts input v).1.accounts)
        (omega (arith, sum_for-append k (logged S accounts input) log)) after
  History-total f c fits (outside {v} h u fresh foreign) =
      let before = History-total f c fits h in
      let (owned, kept) = foreign k before.program in
      record { program = owned; count = rw kept before.count }

-- ===== src/Program/Ledger/Traces.antt =====
-- Which call of a run opened a count.
use transfer_hook.Prelude.{
  ℕ, ◌≡◌, ◌≢◌, ◌⊎◌, sym, ap, ◌∙◌, Option-cases, none, some, List, Bytes, bytes_eq, bytes_eq_iff,
  bytes_eq_ne, inl, inr, Bool-cases,
}
use transfer_hook.Solana.Account.{system_program_id, Pubkey, AccountInfo}
use transfer_hook.Solana.Sdk.{Runtime, RunsSystemProgram, Spl, Token}
use transfer_hook.Program.Execute.{add_u64}
use transfer_hook.Solana.Exec.{World, IsFresh}
use transfer_hook.Program.Ledger.Steps.{ledger_at}
use transfer_hook.Program.Ledger.{
  transfer_key, ledger, DistinctAddresses, IsLedger, Ledger, Performs, opens, credits, idles, put,
}
use transfer_hook.Program.Ledger.Runs.{Run, start, call, outside, Trace, Run-Trace}

module _ (R : Runtime) (S : Spl) (program_id : Pubkey) where
  -- The step opens the user's count. Such a step is a call that the user signed.
  abbrev pub IsOpening :
      (user : Pubkey) {accounts : List AccountInfo} {input : Bytes} {a b : Ledger}
      → Performs R S program_id accounts input a b
      → Type 0
  IsOpening user (opens info _ _ _ _ _ _ _) = info.key ≡ user
  IsOpening user (credits _ _ _ _ _ _ _ _ _) = ⊥
  IsOpening user (idles _) = ⊥

  put-none :
      (user v : Pubkey) (n : ℕ) (a : Ledger) {m : ℕ}
      → a v ≡ none
      → put user n a v ≡ some m
      → v ≡ user
  put-none user v n a h k = elim (Bool-cases (bytes_eq v user)) [
    | inl e ↦ (bytes_eq_iff v user).0 e
    | inr e ↦ cc (rw e at k)
  ]

  Performs-IsOpening :
      (user : Pubkey) {accounts : List AccountInfo} {input : Bytes} {a b : Ledger} {n : ℕ}
      → (p : Performs R S program_id accounts input a b) → a user ≡ none
      → b user ≡ some n
      → IsOpening user p
  Performs-IsOpening user {a} {n} (opens info _ _ _ _ _ _ e) h k =
      sym (put-none info.key user 0 a h (rw e at k))
  Performs-IsOpening user {a} {n} (credits u transfer amount total _ _ _ before e) h k =
      let same : user ≡ u = put-none u user (add_u64 total amount) a h (rw e at k) in
      let closed : a u ≡ none = rw same at h in cc
  Performs-IsOpening user (idles e) h k = cc

-- One of the calls of the run opened the user's count.
abbrev pub IsOpened :
    (user : Pubkey) {R : Runtime} {S : Spl} {T : Token} {program_id : Pubkey} {w u : World}
    (r : Run R S T program_id w u)
    → Trace r
    → Type 0
IsOpened user start trace = ⊥
IsOpened user {R} {S} {program_id = program_id} (call r accounts input keys returned)
      (trace, performed) =
    IsOpened user r trace ⊎ IsOpening R S program_id user performed
IsOpened user (outside r u fresh foreign vacant) (trace, kept) = IsOpened user r trace

module _ (R : Runtime) (S : Spl) (T : Token) (program_id : Pubkey) (w : World) where
  -- A count that was not open at the start of a run and is at its end was opened in it.
  Trace-IsOpened :
      (user : Pubkey) {u : World} {n : ℕ}
      → (r : Run R S T program_id w u) → (trace : Trace r)
      → ledger R program_id w.accounts user ≡ none
      → ledger R program_id u.accounts user ≡ some n
      → IsOpened user r trace
  Trace-IsOpened user start trace h k = cc
  Trace-IsOpened user (call {v} r accounts input keys returned) (trace, performed) h k =
      elim (Option-cases (ledger R program_id v.accounts user)) [
        | inl closed ↦ inr (Performs-IsOpening R S program_id user performed closed k)
        | inr (m, counted) ↦ inl (Trace-IsOpened user r trace h counted)
      ]
  Trace-IsOpened user (outside {v} r u fresh foreign vacant) (trace, kept) h k =
      Trace-IsOpened user r trace h (ap (λ (l : Ledger). l user) (sym kept) ∙ k)

module _ (R : Runtime) (S : Spl) (T : Token) (program_id : Pubkey)
    (D : DistinctAddresses R program_id) (L : RunsSystemProgram R)
    (apart : program_id ≢ system_program_id) (w : World) where
  -- Where calls of the system program do what is documented, the program is not the system program,
  -- derived addresses are distinct, and at the start no borrow is open and each transfer account of
  -- the program counts for its user: where a user's transfer account was not the program's and is
  -- after any calls of the program and changes by other programs, one of these calls opened it. It
  -- was a call of the custom instruction with this user as the first account, who signed it.
  pub Run-IsOpened :
      {u : World} (user : Pubkey)
      → IsFresh w
      → IsLedger R program_id w.accounts
      → (r : Run R S T program_id w u)
      → (w.accounts (transfer_key R program_id user)).owner ≢ program_id
      → (u.accounts (transfer_key R program_id user)).owner ≡ program_id
      → (trace : Trace r) × IsOpened user r trace
  Run-IsOpened {u} user fresh h r closed owned =
      let (_, after, trace) = Run-Trace R S T program_id D L apart w fresh h r in
      let (total, read) = after user owned in
      (
        trace,
        Trace-IsOpened R S T program_id w user r trace
            (rw (bytes_eq_ne (w.accounts (transfer_key R program_id user)).owner program_id closed))
            (ledger_at R program_id w.accounts u.accounts user owned read),
      )

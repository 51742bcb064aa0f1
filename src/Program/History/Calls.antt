-- ===== src/Program/History/Calls.antt =====
-- One call that returned, seen from one transfer account: an `Execute` on it adds its amount, and
-- anything else leaves it alone.
use transfer_hook.Prelude.{
  ℕ, ◌^◌, ◌<◌, ◌≡◌, ◌≢◌, sym, ◌∙◌, ap, subst, inl, inr, List, [], ◌∷◌, Bytes, bytes_eq,
  bytes_eq_iff, Bool-cases, arith, ◌==◌,
}
use native.Mathlib.Nat.{add-zero}
use native.Mathlib.Decide.{dec_lt}
use transfer_hook.Solana.Error.{Result, ok, err, panic}
use transfer_hook.Solana.Account.{system_program_id, Pubkey, Account, AccountInfo}
use transfer_hook.Solana.Exec.{World, IsFresh, continue}
use transfer_hook.Solana.Sdk.{Runtime, RunsSystemProgram, Spl, Token}
use transfer_hook.Interface.Instruction.{
  TransferHookInstruction, execute_of, initialize_of, update_of, unpack,
}
use transfer_hook.Program.Execute.{add_u64, process_execute}
use transfer_hook.Program.Execute.Steps.{IsCredited}
use transfer_hook.Program.Execute.Outcome.{execute_returns_iff, execute_credits}
use transfer_hook.Program.InitializeTransferAccount.{process_initialize_transfer_account}
use transfer_hook.Program.InitializeTransferAccount.Outcome.{IsCreated, initialize_outcome}
use transfer_hook.Program.MetaList.{process_initialize_extra_account_meta_list}
use transfer_hook.Program.MetaList.Created.{initialize_list-HoldsList}
use transfer_hook.Program.Process.{process_instruction_of, process}
use transfer_hook.Program.History.{
  Log, sum_for, credit_sixth, HasKeys, IsCounter, logged, logged_of,
}

-- An account with the same owner and data counts the same.
IsCounter-same :
    {program_id k user : Pubkey} {total : ℕ} {before after : Pubkey → Account}
    → IsCounter program_id k user total before
    → (after k).owner ≡ (before k).owner
    → (after k).contents ≡ (before k).contents
    → IsCounter program_id k user total after
IsCounter-same c o d = record { program = o ∙ c.program; count = rw d c.count }

IsCounter-eq :
    {program_id k user : Pubkey} {total : ℕ} {before after : Pubkey → Account}
    → IsCounter program_id k user total before
    → after k ≡ before k
    → IsCounter program_id k user total after
IsCounter-eq c e =
    IsCounter-same c (ap (λ (a : Account). a.owner) e) (ap (λ (a : Account). a.contents) e)

module _ (R : Runtime) (S : Spl) (T : Token) (program_id k user : Pubkey) (total : ℕ) (w : World)
    (fresh : IsFresh w) (counter : IsCounter program_id k user total w.accounts)
    (fits : total < 2 ^ 64) where
  abbrev Grown : Log → (Pubkey → Account) → Type 0
  Grown log after = IsCounter program_id k user (add_u64 total (sum_for k log)) after

  Grown-none : {after : Pubkey → Account} → IsCounter program_id k user total after → Grown [] after
  Grown-none {after} c = subst (λ (n : ℕ). IsCounter program_id k user n after) (omega arith) c

  credited-Grown :
      (key : Pubkey) (amount : ℕ) {after : Pubkey → Account}
      → IsCredited key amount w.accounts after
      → Grown ((key, amount) ∷ []) after
  credited-Grown key amount {after} c = elim (Bool-cases (bytes_eq key k)) [
    | inl e ↦
        let same : key ≡ k = (bytes_eq_iff key k).0 e in
        let at_key : IsCredited k amount w.accounts after =
          subst (λ (j : Pubkey). IsCredited j amount w.accounts after) same c in
        rw e (
          rw (add-zero amount) (record {
            program = at_key.program ∙ counter.program;
            count = at_key.count user total counter.count;
          }))
    | inr e ↦
        rw e
          (Grown-none (IsCounter-eq counter (c.others k (λ p. ground (arith, bytes_eq_iff key k)))))
  ]

  execute-Grown :
      (accounts : List AccountInfo) (amount : ℕ)
      → (process_execute R S T program_id accounts amount w).0 ≡ ok tt
      → Grown
          (credit_sixth accounts amount)
          (process_execute R S T program_id accounts amount w).1.accounts
  execute-Grown accounts amount h =
      let (handles, e, _) = (execute_returns_iff R S T program_id amount w fresh accounts).0 h in
      rw e (
        credited-Grown handles.transfer.key amount
          (execute_credits R S T program_id amount w fresh handles (rw e at h)))

  module _ (L : RunsSystemProgram R) (apart : program_id ≢ system_program_id) where
    -- An account of the program is not one that the system program could hand out.
    not_vacant : (key : Pubkey) → (w.accounts key).owner ≡ system_program_id → k ≢ key
    not_vacant key vacant e =
        apart (sym counter.program ∙ ap (λ (j : Pubkey). (w.accounts j).owner) e ∙ vacant)

    created_same :
        (payer key : Pubkey) {after : Pubkey → Account}
        → IsCreated R program_id payer key w.accounts after
        → IsCounter program_id k user total after
    created_same payer key {after} c = elim (Bool-cases (bytes_eq k payer)) [
      | inl e ↦
          let same : k ≡ payer = (bytes_eq_iff k payer).0 e in
          let (kept, owned) =
            c.payer (subst (λ (j : Pubkey). j ≢ key) same (not_vacant key c.vacant)) in
          IsCounter-same counter
            (subst (λ (j : Pubkey). (after j).owner ≡ (w.accounts j).owner) (sym same) owned)
            (subst (λ (j : Pubkey). (after j).contents ≡ (w.accounts j).contents) (sym same) kept)
      | inr e ↦
          IsCounter-eq counter
            (c.others k (λ p. ground (arith, bytes_eq_iff k payer)) (not_vacant key c.vacant))
    ]

    initialize_same :
        (accounts : List AccountInfo)
        → HasKeys accounts
        → (process_initialize_transfer_account R program_id accounts w).0 ≡ ok tt
        → IsCounter program_id k user total
            (process_initialize_transfer_account R program_id accounts w).1.accounts
    initialize_same (payer ∷ account ∷ system ∷ rest) keys h =
        let (_, _, creates, keeps) =
          initialize_outcome R program_id payer account system rest w L fresh keys.0 h in
        elim (dec_lt 0 (w.accounts account.key).lamports) [
          | yes l ↦ rw (keeps l) counter
          | no l ↦ created_same payer.key account.key (creates (omega arith))
        ]
    initialize_same accounts keys h = unfold process_initialize_transfer_account in cc

    list_same :
        (accounts : List AccountInfo) (metas : List S.Meta)
        → (process_initialize_extra_account_meta_list R S T program_id accounts metas w).0 ≡ ok tt
        → IsCounter program_id k user total
            (process_initialize_extra_account_meta_list R S T program_id accounts metas
              w).1.accounts
    list_same (list ∷ mint ∷ authority ∷ system ∷ rest) metas h =
        let holds =
          initialize_list-HoldsList R S T program_id list mint authority system rest metas w L h in
        IsCounter-eq counter (holds.others k (not_vacant list.key holds.vacant))
    list_same accounts metas h = unfold process_initialize_extra_account_meta_list in cc

    arm-Grown :
        (accounts : List AccountInfo) (r : Result (TransferHookInstruction S.Meta))
        → let run = continue r (process_instruction_of R S T program_id accounts) w in
          run.0 ≡ ok tt → Grown (logged_of S accounts r) run.1.accounts
    unfolding process_instruction_of
    arm-Grown accounts (ok (execute_of amount)) h = execute-Grown accounts amount h
    arm-Grown accounts (ok (initialize_of metas)) h = Grown-none (list_same accounts metas h)
    arm-Grown accounts (ok (update_of metas)) h = Grown-none counter
    arm-Grown accounts (err e) h = cc
    arm-Grown accounts panic h = cc

    -- A call of the program that returned has added to the count what it logged for the account.
    pub process-Grown :
        (accounts : List AccountInfo) (input : Bytes)
        → HasKeys accounts
        → (process R S T program_id accounts input w).0 ≡ ok tt
        → Grown (logged S accounts input) (process R S T program_id accounts input w).1.accounts
    unfolding process
    process-Grown accounts [] keys h = arm-Grown accounts (unpack S []) h
    process-Grown accounts (first ∷ rest) keys h = elim (Bool-cases (first == 255)) [
      | inl e ↦ rw e (Grown-none (initialize_same accounts keys (rw e at h)))
      | inr e ↦ rw e (arm-Grown accounts (unpack S (first ∷ rest)) (rw e at h))
    ]

module _ (R : Runtime) (S : Spl) (T : Token) (program_id : Pubkey) (accounts : List AccountInfo)
    (w : World) (fresh : IsFresh w) where
  arm-IsFresh :
      (r : Result (TransferHookInstruction S.Meta))
      → IsFresh (continue r (process_instruction_of R S T program_id accounts) w).1
  unfolding process_instruction_of process_execute process_initialize_extra_account_meta_list
  arm-IsFresh (ok (execute_of amount)) = record {
    no_shared = fresh.no_shared;
    no_exclusive = fresh.no_exclusive;
  }
  arm-IsFresh (ok (initialize_of metas)) = record {
    no_shared = fresh.no_shared;
    no_exclusive = fresh.no_exclusive;
  }
  arm-IsFresh (ok (update_of metas)) = fresh
  arm-IsFresh (err e) = fresh
  arm-IsFresh panic = fresh

  -- A call leaves the borrows as it found them.
  pub process-IsFresh : (input : Bytes) → IsFresh (process R S T program_id accounts input w).1
  unfolding process process_initialize_transfer_account
  process-IsFresh [] = arm-IsFresh (unpack S [])
  process-IsFresh (first ∷ rest) = elim (Bool-cases (first == 255)) [
    | inl e ↦ rw e (record { no_shared = fresh.no_shared; no_exclusive = fresh.no_exclusive })
    | inr e ↦ rw e (arm-IsFresh (unpack S (first ∷ rest)))
  ]

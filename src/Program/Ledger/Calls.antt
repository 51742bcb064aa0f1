-- ===== src/Program/Ledger/Calls.antt =====
-- One call of the program that returned, as a step of the ledger.
use transfer_hook.Prelude.{
  ℕ, ◌≡◌, ◌≢◌, refl, sym, ◌∙◌, ap, subst, some, List, ◌∷◌, get_elem?, Bytes, bytes_eq, bytes_eq_iff,
  bytes_eq_ne, inl, inr, Bool-cases, false, true, arith,
}
use transfer_hook.Solana.Error.{ok}
use transfer_hook.Solana.Account.{system_program_id, Pubkey, Account, AccountInfo}
use transfer_hook.Solana.Exec.{World, IsFresh}
use transfer_hook.Solana.Sdk.{Runtime, RunsSystemProgram, Spl, Token}
use transfer_hook.Interface.Instruction
use transfer_hook.Interface.Instruction.{
  TransferHookInstruction, execute_of, initialize_of, update_of,
}
use transfer_hook.Program.Execute.{add_u64, process_execute}
use transfer_hook.Program.Execute.Steps.{IsCredited}
use transfer_hook.Program.Execute.Outcome.{execute_returns_iff, execute_credits}
use transfer_hook.Program.InitializeTransferAccount.Outcome.{IsCreated}
use transfer_hook.Program.MetaList.{process_initialize_extra_account_meta_list}
use transfer_hook.Program.MetaList.Outcome.{initialize_list_authorized}
use transfer_hook.Program.MetaList.Created.{initialize_list-HoldsList}
use transfer_hook.Program.TransferAccount.{unpack}
use transfer_hook.Program.TransferAccount.Laws.{unpack_cases}
use transfer_hook.Program.Ledger.{
  Performs, opens, credits, idles, transfer_key, ledger, DistinctAddresses, IsLedger,
}
use transfer_hook.Program.Ledger.Steps.{
  IsKept, IsKept-eq, ledger_idle, IsLedger-idle, ledger_at, ledger-put, IsLedger-put,
}

module _ (R : Runtime) (S : Spl) (program_id : Pubkey) (D : DistinctAddresses R program_id)
    (accounts : List AccountInfo) (input : Bytes) (before : Pubkey → Account)
    (h : IsLedger R program_id before) where
  -- After the call the accounts are a ledger still, and it went through one of the steps.
  abbrev pub Refines : (Pubkey → Account) → Type 0
  Refines after =
      IsLedger R program_id after
      × Performs R S program_id accounts input (ledger R program_id before)
          (ledger R program_id after)

  Refines-idle :
      (after : Pubkey → Account)
      → ((user : Pubkey) → IsKept (transfer_key R program_id user) before after)
      → Refines after
  Refines-idle after kept = (
    IsLedger-idle R program_id before after kept h,
    idles (ledger_idle R program_id before after kept),
  )

  Refines-others :
      (after : Pubkey → Account)
      → ((user : Pubkey)
          → after (transfer_key R program_id user) ≡ before (transfer_key R program_id user))
      → Refines after
  Refines-others after others =
      Refines-idle after
        (λ user. IsKept-eq (transfer_key R program_id user) before after (others user))

  pub Refines-same : (after : Pubkey → Account) → after ≡ before → Refines after
  Refines-same after e =
      Refines-others after
        (λ user. ap (λ (f : Pubkey → Account). f (transfer_key R program_id user)) e)

  -- An `Execute` credits the user of the sixth account, where that is the user's transfer account,
  -- and leaves the ledger alone otherwise.
  Refines-credited :
      (transfer : AccountInfo) (amount : ℕ) (after : Pubkey → Account) {user : Pubkey} {total : ℕ}
      → Instruction.unpack S input ≡ ok (execute_of amount)
      → get_elem? accounts 5 ≡ some transfer
      → IsCredited transfer.key amount before after
      → (before transfer.key).owner ≡ program_id
      → unpack (before transfer.key).contents ≡ ok (user, total)
      → Refines after
  Refines-credited transfer amount after {user} {total} decoded sixth c owned read =
      elim (Bool-cases (bytes_eq (transfer_key R program_id user) transfer.key)) [
        | inl e ↦
            let same : transfer_key R program_id user ≡ transfer.key =
              (bytes_eq_iff (transfer_key R program_id user) transfer.key).0 e in
            let kept : (v : Pubkey) → v ≢ user → IsKept (transfer_key R program_id v) before after =
              λ v ne. IsKept-eq (transfer_key R program_id v) before after (
                c.others (transfer_key R program_id v) (λ p. ne (D.users v user (p ∙ sym same)))) in
            let total' = add_u64 total amount in
            let owned' : (after (transfer_key R program_id user)).owner ≡ program_id =
              rw same (c.program ∙ owned) in
            let read' : unpack (after (transfer_key R program_id user)).contents
                ≡ ok (user, total') =
              rw same (c.count user total read) in
            let counted : ledger R program_id before user ≡ some total =
              ledger_at R program_id before before user (rw same owned) (rw same read) in
            (
              IsLedger-put R program_id before after D user total' kept owned' read' h,
              credits user transfer amount total decoded sixth (sym same) counted
                  (ledger-put R program_id before after D user total' kept owned' read'),
            )
        | inr e ↦ Refines-others after (λ v. c.others (transfer_key R program_id v) (no_user v e))
      ]
    where
      no_user :
          (v : Pubkey)
          → bytes_eq (transfer_key R program_id user) transfer.key ≡ false
          → transfer_key R program_id v ≢ transfer.key
      no_user v e p =
          let (n, r) = h v (ap (λ (k : Pubkey). (before k).owner) p ∙ owned) in
          let at_key : unpack (before transfer.key).contents ≡ ok (v, n) =
            subst (λ (k : Pubkey). unpack (before k).contents ≡ ok (v, n)) p r in
          let same : v ≡ user = cc in
          ground (arith, bytes_eq_iff (transfer_key R program_id user) transfer.key, p, same)

module _ (R : Runtime) (S : Spl) (T : Token) (program_id : Pubkey)
    (D : DistinctAddresses R program_id) (L : RunsSystemProgram R)
    (apart : program_id ≢ system_program_id) (w : World) (fresh : IsFresh w)
    (h : IsLedger R program_id w.accounts) where
  pub execute-Refines :
      (accounts : List AccountInfo) (input : Bytes) (amount : ℕ)
      → Instruction.unpack S input ≡ ok (execute_of amount)
      → (process_execute R S T program_id accounts amount w).0 ≡ ok tt
      → Refines R S program_id D accounts input w.accounts h
          (process_execute R S T program_id accounts amount w).1.accounts
  execute-Refines accounts input amount decoded r =
      let (handles, same, accepted) =
        (execute_returns_iff R S T program_id amount w fresh accounts).0 r in
      let c = (w.accounts handles.transfer.key).contents in
      Refines-credited R S program_id D accounts input w.accounts h handles.transfer amount
        (process_execute R S T program_id accounts amount w).1.accounts decoded (rw same refl)
        (rw same (execute_credits R S T program_id amount w fresh handles (rw same at r)))
        accepted.owned ((unpack_cases c).1 accepted.long)

  pub list-Refines :
      (accounts : List AccountInfo) (input : Bytes) (metas : List S.Meta)
      → (process_initialize_extra_account_meta_list R S T program_id accounts metas w).0 ≡ ok tt
      → Refines R S program_id D accounts input w.accounts h
          (process_initialize_extra_account_meta_list R S T program_id accounts metas w).1.accounts
  list-Refines (list ∷ mint ∷ authority ∷ system ∷ rest) input metas r =
      let holds =
        initialize_list-HoldsList R S T program_id list mint authority system rest metas w L r in
      let (_, _, _, address) =
        initialize_list_authorized R S T program_id list mint authority system rest metas w r in
      let after =
        (process_initialize_extra_account_meta_list R S T program_id
          (list ∷ mint ∷ authority ∷ system ∷ rest) metas w).1.accounts in
      Refines-others R S program_id D (list ∷ mint ∷ authority ∷ system ∷ rest) input w.accounts h
        after
        (λ user.
          holds.others (transfer_key R program_id user) (λ p. D.lists user mint.key (p ∙ address)))
  list-Refines accounts input metas r = unfold process_initialize_extra_account_meta_list in cc

  vacant_transfer :
      (user key : Pubkey)
      → key ≡ transfer_key R program_id user
      → (w.accounts key).owner ≡ system_program_id
      → (w.accounts (transfer_key R program_id user)).owner ≢ program_id
  vacant_transfer user key address vacant owned =
      apart (sym owned ∙ ap (λ (k : Pubkey). (w.accounts k).owner) (sym address) ∙ vacant)

  created-IsKept :
      (user key : Pubkey)
      → key ≡ transfer_key R program_id user
      → (after : Pubkey → Account) → IsCreated R program_id user key w.accounts after
      → (v : Pubkey) → v ≢ user
      → IsKept (transfer_key R program_id v) w.accounts after
  created-IsKept user key address after c v ne =
      let k = transfer_key R program_id v in
      let other : k ≢ key = λ p. ne (D.users v user (p ∙ address)) in
      elim (Bool-cases (bytes_eq k user)) [
        | inl e ↦
            let same : k ≡ user = (bytes_eq_iff k user).0 e in
            subst (λ (j : Pubkey). IsKept j w.accounts after) (sym same)
              (let (kept, owner) = c.payer (λ p. other (same ∙ p)) in (owner, kept))
        | inr e ↦
            IsKept-eq k w.accounts after
              (c.others k (λ p. ground (arith, bytes_eq_iff k user, p)) other)
      ]

  pub created-Refines :
      (user account : AccountInfo) (rest : List AccountInfo) (tail : Bytes)
      (after : Pubkey → Account)
      → user.is_signer ≡ true
      → account.key ≡ transfer_key R program_id user.key
      → IsCreated R program_id user.key account.key w.accounts after
      → Refines R S program_id D (user ∷ account ∷ rest) (255 ∷ tail) w.accounts h after
  created-Refines user account rest tail after signed address c =
      let kept = created-IsKept user.key account.key address after c in
      let owned : (after (transfer_key R program_id user.key)).owner ≡ program_id =
        rw (sym address) c.program in
      let read : unpack (after (transfer_key R program_id user.key)).contents ≡ ok (user.key, 0) =
        rw (sym address) c.count in
      (
        IsLedger-put R program_id w.accounts after D user.key 0 kept owned read h,
        opens user (account ∷ rest) tail refl signed refl
            (rw (
              bytes_eq_ne (w.accounts (transfer_key R program_id user.key)).owner program_id
                (vacant_transfer user.key account.key address c.vacant)))
            (ledger-put R program_id w.accounts after D user.key 0 kept owned read),
      )

-- ===== src/Program/InitializeTransferAccount/Total.antt =====
-- `InitializeTransferAccount` ends with a value or an error: it never panics.
use transfer_hook.Prelude.{⊤, ℕ, ◌≤◌, ◌≡◌, ◌≢◌, List, [], ◌∷◌, Bytes, length, arith}
use transfer_hook.Solana.Error.{ok, panic}
use transfer_hook.Solana.Account.{Pubkey, Account, AccountInfo}
use transfer_hook.Solana.Exec.{World, Exec, next_account_info}
use transfer_hook.Solana.Exec.Atomic.{reads_rules}
use transfer_hook.Solana.Exec.Total.{
  NeverPanics, NeverPanics-call, NeverPanics-borrow_mut, NeverPanics-from, NeverPanics-scoped,
  bind_at, total_rules,
}
use transfer_hook.Solana.Sdk.{Runtime, Spl, Token, RunsSystemProgram}
use transfer_hook.Solana.Sdk.Errors.{ReturnsErrors}
use transfer_hook.Program.History.{HasKeys}
use transfer_hook.Program.TransferAccount.{len, pack}
use transfer_hook.Program.TransferAccount.Laws.{pack_parts}
use transfer_hook.Program.InitializeTransferAccount.{
  write_first_count, create_transfer_account, process_initialize_transfer_account,
}

pack-ne-panic :
    (owner : Pubkey) (bytes : Bytes)
    → length owner ≡ 32
    → 40 ≤ length bytes
    → pack owner 0 bytes ≢ panic
pack-ne-panic owner bytes long size e = cc (pack_parts owner 0 bytes long size)

write-NeverPanics :
    (user account : AccountInfo)
    → length user.key ≡ 32
    → NeverPanics
        (λ cells. 40 ≤ length (cells account.key).contents)
        (write_first_count user account)
unfolding write_first_count
write-NeverPanics user account long = NeverPanics-borrow_mut account _ (λ w size.
    NeverPanics-call (pack user.key 0 (w.accounts account.key).contents) _
      (pack-ne-panic user.key _ long size) (λ packed _. search total_rules))

first_key :
    (accounts : List AccountInfo)
    → HasKeys accounts
    → (w : World) {first : AccountInfo × List AccountInfo}
    → (next_account_info accounts w).0 ≡ ok first
    → length first.0.key ≡ 32
first_key [] keys w e = cc
first_key (a ∷ rest) (long, keys) w e = cc

module _ (R : Runtime) (S : Spl) (T : Token) (E : ReturnsErrors R S T) (L : RunsSystemProgram R)
    (program_id : Pubkey) where
  abbrev system_call : AccountInfo → AccountInfo → ℕ → Exec ⊤
  system_call user account bump =
      R.invoke_signed (R.create_account user.key account.key (R.minimum_balance len) len program_id)
        (user ∷ account ∷ []) ((user.key ∷ (bump ∷ []) ∷ []) ∷ [])

  module _ {I : (Pubkey → Account) → Type 0} where
    create-NeverPanics :
        (user account : AccountInfo) (bump : ℕ)
        → length user.key ≡ 32
        → NeverPanics I (create_transfer_account R program_id user account bump)
    unfolding create_transfer_account
    create-NeverPanics user account bump long = record {
      at = λ w i.
          bind_at (system_call user account bump) (λ _. write_first_count user account) w
            (E.invoke_signed_lem _ _ _ w)
            (λ _ called.
              let law =
                L.create_account_lem user.key account.key program_id (R.minimum_balance 40) 40
                  (user ∷ account ∷ []) ((user.key ∷ (bump ∷ []) ∷ []) ∷ []) w called in
              (write-NeverPanics user account long).at (system_call user account bump w).1
                (rw law.made (omega arith)));
    }

    pub initialize-NeverPanics :
        (accounts : List AccountInfo)
        → HasKeys accounts
        → NeverPanics I (process_initialize_transfer_account R program_id accounts)
    unfolding process_initialize_transfer_account
    initialize-NeverPanics accounts keys = NeverPanics-scoped _ (
        NeverPanics-from (next_account_info accounts) _ (search reads_rules) (search total_rules)
          (λ first w i e.
            let long : length first.0.key ≡ 32 = first_key accounts keys w e in
            search (total_rules, reads_rules, create-NeverPanics) depth 30))

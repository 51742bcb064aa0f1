-- ===== src/Program/Execute/Total.antt =====
-- `Execute` ends with a value or an error: it never panics.
use native.Mathlib.Decide.{dec_le}
use transfer_hook.Prelude.{
  ⊤, ℕ, ◌≤◌, ◌≡◌, ◌≢◌, sym, not, List, Bytes, bytes_eq, bytes_eq_iff, length, arith,
}
use transfer_hook.Solana.Error.{Result, IsOk, ok, err, panic, invalid_seeds}
use transfer_hook.Solana.Account.{Pubkey, Account, AccountInfo}
use transfer_hook.Solana.Exec.{Exec, ◌>>=◌, ◌>>◌, pure, gets, lift, write_data, try_borrow_data}
use transfer_hook.Solana.Exec.Atomic.{reads_rules}
use transfer_hook.Solana.Exec.Total.{
  NeverPanics, NeverPanics-bind, NeverPanics-check, NeverPanics-call, NeverPanics-borrow,
  NeverPanics-pure, NeverPanics-scoped, total_rules,
}
use transfer_hook.Solana.Sdk.{Runtime, Spl, Token}
use transfer_hook.Solana.Sdk.Errors.{ReturnsErrors}
use transfer_hook.Interface.Address.{get_extra_account_metas_address}
use transfer_hook.Program.TransferAccount.{unpack, update_transfered}
use transfer_hook.Program.TransferAccount.Laws.{unpack_cases, unpack-eq-ok, update_parts}
use transfer_hook.Program.Execute.{
  add_u64, unwrap, check_token_account_is_transferring, track_transfer, check_extra_accounts,
  process_execute,
}
use transfer_hook.Program.Execute.Outcome.{check_transferring-ReadsOnly, check_extra-ReadsOnly}

-- The end of `track_transfer`, on the bytes that it borrowed.
abbrev recount : Bytes → AccountInfo → ℕ → Exec ⊤
recount bytes account amount = do
  (_, current_amount) ← lift (unpack bytes)
  updated ← lift (update_transfered bytes (add_u64 current_amount amount))
  write_data account updated

unpack-ne-panic : (src : Bytes) → unpack src ≢ panic
unpack-ne-panic src e = elim (dec_le 40 (length src)) [
  | yes h ↦ cc ((unpack_cases src).1 h)
  | no h ↦ cc ((unpack_cases src).0 (omega arith))
]

update-ne-panic : (src : Bytes) (n : ℕ) → 40 ≤ length src → update_transfered src n ≢ panic
update-ne-panic src n long e = cc (update_parts src n long)

module _ {I : (Pubkey → Account) → Type 0} where
  recount-NeverPanics :
      (bytes : Bytes) (account : AccountInfo) (amount : ℕ)
      → NeverPanics I (recount bytes account amount)
  recount-NeverPanics bytes account amount =
      NeverPanics-call (unpack bytes) _ (unpack-ne-panic bytes) (λ entry read.
        NeverPanics-call (update_transfered bytes (add_u64 entry.1 amount)) _
          (update-ne-panic bytes _ (unpack-eq-ok bytes read).0) (λ updated _. search total_rules))

  track-NeverPanics :
      (program_id : Pubkey) (account : AccountInfo) (amount : ℕ)
      → NeverPanics I (track_transfer program_id account amount)
  unfolding track_transfer
  track-NeverPanics program_id account amount =
      search (recount-NeverPanics, total_rules, reads_rules) depth 9

unwrap-ne-panic : {A : Type 0} (r : Result A) → IsOk r → unwrap r ≢ panic
unwrap-ne-panic (ok a) h e = cc
unwrap-ne-panic (err x) h e = h
unwrap-ne-panic panic h e = h

module _ (R : Runtime) (S : Spl) (program_id : Pubkey) where
  -- The data at the address of each mint's validation account unpacks.
  abbrev pub Unpacks : (Pubkey → Account) → Type 0
  Unpacks cells =
      (mint : Pubkey)
      → IsOk (S.tlv_unpack (cells (get_extra_account_metas_address R mint program_id)).contents)

module _ (R : Runtime) (S : Spl) (T : Token) (E : ReturnsErrors R S T) (program_id : Pubkey) where
  abbrev Good : (Pubkey → Account) → Type 0
  Good = Unpacks R S program_id

  transferring-NeverPanics :
      (a : AccountInfo) → NeverPanics Good (check_token_account_is_transferring T a)
  unfolding check_token_account_is_transferring
  transferring-NeverPanics a = NeverPanics-scoped _ (
      NeverPanics-borrow a _ (λ w i.
        NeverPanics-call (T.unpack_account (w.accounts a.key).contents) _ (E.unpack_account_lem _)
          (λ account _.
            NeverPanics-call (T.transferring account) _ (E.transferring_lem account)
              (λ flag _. search total_rules))))

  -- The steps of `check_extra_accounts` behind the check of the address.
  abbrev check_list : List AccountInfo → AccountInfo → Bytes → Exec ⊤
  check_list accounts metas input = do
    data_1 ← try_borrow_data metas
    cells ← gets (λ w. w.accounts)
    lift (S.check_account_infos S.execute_discriminator cells accounts input program_id data_1)
    data_2 ← try_borrow_data metas
    state ← lift (unwrap (S.tlv_unpack data_2))
    lift (S.unpack_with_tlv_state S.execute_discriminator state)
    pure tt

  check_list-NeverPanics :
      (accounts : List AccountInfo) (mint : Pubkey) (metas : AccountInfo) (input : Bytes)
      → get_extra_account_metas_address R mint program_id ≡ metas.key
      → NeverPanics Good (check_list accounts metas input)
  check_list-NeverPanics accounts mint metas input at = NeverPanics-borrow metas _ (λ w i.
      NeverPanics-bind (gets (λ w. w.accounts)) _ (search reads_rules) (search total_rules)
        (λ cells.
          NeverPanics-call
            (S.check_account_infos S.execute_discriminator cells accounts input program_id
              (w.accounts metas.key).contents)
            _ (E.check_account_infos_lem _ _ _ _ _ _ (rw (sym at) (i mint)))
            (λ _ _. NeverPanics-borrow metas _ (λ w i.
              NeverPanics-call (unwrap (S.tlv_unpack (w.accounts metas.key).contents)) _
                (unwrap-ne-panic _ (rw (sym at) (i mint)))
                (λ state _.
                  NeverPanics-call (S.unpack_with_tlv_state S.execute_discriminator state) _
                    (E.unpack_with_tlv_state_lem _ _) (λ _ _. NeverPanics-pure tt))))))

  check_extra-NeverPanics :
      (accounts : List AccountInfo) (mint metas : AccountInfo) (amount : ℕ)
      → NeverPanics Good (check_extra_accounts R S program_id accounts mint metas amount)
  unfolding check_extra_accounts
  check_extra-NeverPanics accounts mint metas amount =
      NeverPanics-check
        (not (bytes_eq (get_extra_account_metas_address R mint.key program_id) metas.key))
        invalid_seeds _
        (λ same.
          check_list-NeverPanics accounts mint.key metas _ ((bytes_eq_iff _ _).0 (ground arith)))

  pub execute-NeverPanics :
      (accounts : List AccountInfo) (amount : ℕ)
      → NeverPanics (Unpacks R S program_id) (process_execute R S T program_id accounts amount)
  unfolding process_execute
  execute-NeverPanics accounts amount =
      search
        (
          total_rules, reads_rules, check_transferring-ReadsOnly, check_extra-ReadsOnly,
          track-NeverPanics, transferring-NeverPanics, check_extra-NeverPanics,
        )
        depth 24

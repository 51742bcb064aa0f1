-- ===== src/Program/Ledger/Steps.antt =====
-- What changes to the accounts do to the ledger.
use transfer_hook.Prelude.{
  ℕ, ◌≡◌, ◌≢◌, sym, ◌∙◌, ap, subst, some, bytes_eq, bytes_eq_iff, bytes_eq_self, inl, inr,
  Bool-cases, arith,
}
use mathlib.Core.Path.{fun_ext}
use transfer_hook.Solana.Error.{ok}
use transfer_hook.Solana.Account.{Pubkey, Account}
use transfer_hook.Solana.Sdk.{Runtime}
use transfer_hook.Program.TransferAccount.{unpack}
use transfer_hook.Program.Ledger.{put, transfer_key, ledger, DistinctAddresses, IsLedger}

-- An account has kept its owner and its data.
abbrev pub IsKept : Pubkey → (Pubkey → Account) → (Pubkey → Account) → Type 0
IsKept k before after =
    ((after k).owner ≡ (before k).owner) × ((after k).contents ≡ (before k).contents)

pub IsKept-eq :
    (k : Pubkey) (before after : Pubkey → Account) → after k ≡ before k → IsKept k before after
IsKept-eq k before after e = (ap (λ (a : Account). a.owner) e, ap (λ (a : Account). a.contents) e)

module _ (R : Runtime) (program_id : Pubkey) (before after : Pubkey → Account) where
  pub ledger_at :
      (user : Pubkey) {total : ℕ}
      → (after (transfer_key R program_id user)).owner ≡ program_id
      → unpack (after (transfer_key R program_id user)).contents ≡ ok (user, total)
      → ledger R program_id after user ≡ some total
  ledger_at user owned read = rw (owned, bytes_eq_self program_id, read)

  ledger_kept :
      (user : Pubkey)
      → IsKept (transfer_key R program_id user) before after
      → ledger R program_id after user ≡ ledger R program_id before user
  ledger_kept user (owned, kept) = rw (owned, kept)

  -- Where every transfer account is kept, so is the ledger.
  pub ledger_idle :
      ((user : Pubkey) → IsKept (transfer_key R program_id user) before after)
      → ledger R program_id after ≡ ledger R program_id before
  ledger_idle kept = fun_ext λ user. ledger_kept user (kept user)

  pub IsLedger-idle :
      ((user : Pubkey) → IsKept (transfer_key R program_id user) before after)
      → IsLedger R program_id before
      → IsLedger R program_id after
  IsLedger-idle kept h user owned =
      let (same, data_same) = kept user in
      let (total, read) = h user (sym same ∙ owned) in (total, rw data_same read)

  module _ (D : DistinctAddresses R program_id) (user : Pubkey) (total : ℕ)
      (kept : (v : Pubkey) → v ≢ user → IsKept (transfer_key R program_id v) before after)
      (owned : (after (transfer_key R program_id user)).owner ≡ program_id)
      (read : unpack (after (transfer_key R program_id user)).contents ≡ ok (user, total)) where
    -- Where one user's account reads `total` and the others' are kept, the ledger has changed there.
    pub ledger-put : ledger R program_id after ≡ put user total (ledger R program_id before)
    ledger-put = fun_ext λ v. elim (Bool-cases (bytes_eq v user)) [
      | inl e ↦
          let same : v ≡ user = (bytes_eq_iff v user).0 e in
          rw e (
            subst (λ (u : Pubkey). ledger R program_id after u ≡ some total) (sym same)
              (ledger_at user owned read))
      | inr e ↦ rw e (ledger_kept v (kept v (λ p. ground (arith, bytes_eq_iff v user))))
    ]

    pub IsLedger-put : IsLedger R program_id before → IsLedger R program_id after
    IsLedger-put h v mine = elim (Bool-cases (bytes_eq v user)) [
      | inl e ↦ let same : v ≡ user = (bytes_eq_iff v user).0 e in (total, rw same read)
      | inr e ↦
          let (owner_same, data_same) = kept v (λ p. ground (arith, bytes_eq_iff v user)) in
          let (n, r) = h v (sym owner_same ∙ mine) in (n, rw data_same r)
    ]

-- ===== src/Program/Execute/Outcome.antt =====
-- What an `Execute` does, from the accounts that it is given.
use transfer_hook.Prelude.{
  ⊤, ℕ, ◌<◌, ◌≤◌, ◌≡◌, ◌≢◌, ◌↔◌, refl, sym, subst, ap, List, [], ◌∷◌, bytes_eq_iff, bytes_eq_ne,
  length, arith,
}
use transfer_hook.Solana.Error.{Result, ok}
use transfer_hook.Solana.Account.{Pubkey, Account, AccountInfo}
use transfer_hook.Solana.Exec.{World, IsFresh, contains}
use transfer_hook.Solana.Exec.Atomic.{IsAtomic, atomic_rules, ReadsOnly, >>-eq-ok}
use transfer_hook.Solana.Sdk.{Runtime, Spl, Token}
use transfer_hook.Program.Execute.{
  process_execute, check_token_account_is_transferring, check_extra_accounts, track_transfer,
}
use transfer_hook.Program.Execute.Steps.{
  IsTransferring, check_transferring-same, check_transferring-sound, check_transferring_complete,
  IsResolved, check_extra-accounts, check_extra-shared, check_extra-sound, check_extra_complete,
  IsTracked, IsCredited, track-unchanged, track-sound, track_complete,
}

-- The handles in the order in which the handler takes them.
pub record Handles : Type 0 where
  pub source : AccountInfo
  pub mint : AccountInfo
  pub destination : AccountInfo
  pub authority : AccountInfo
  pub metas : AccountInfo
  pub transfer : AccountInfo
  pub others : List AccountInfo

abbrev pub listed : Handles → List AccountInfo
listed h = h.source ∷ h.mint ∷ h.destination ∷ h.authority ∷ h.metas ∷ h.transfer ∷ h.others

module _ (R : Runtime) (S : Spl) (T : Token) (program_id : Pubkey) (amount : ℕ) (w : World) where
  -- All that `process_execute` asks of the accounts.
  pub record IsAccepted (h : Handles) : Type 0 where
    pub source_transferring : IsTransferring T h.source w
    pub destination_transferring : IsTransferring T h.destination w
    pub resolved : IsResolved R S program_id (listed h) h.mint h.metas amount w
    pub funded : 0 < (w.accounts h.transfer.key).lamports
    pub owned : (w.accounts h.transfer.key).owner ≡ program_id
    pub long : 40 ≤ length (w.accounts h.transfer.key).contents
    pub distinct : h.transfer.key ≢ h.metas.key

  abbrev run : List AccountInfo → Result ⊤ × World
  run accounts = process_execute R S T program_id accounts amount w

  pub execute_complete :
      IsFresh w
      → (h : Handles) → IsAccepted h
      → ((run (listed h)).0 ≡ ok tt)
        × IsCredited h.transfer.key amount w.accounts (run (listed h)).1.accounts
  unfolding process_execute
  execute_complete fresh h acc =
      let w' = record w { shared = h.metas.key ∷ h.metas.key ∷ w.shared } in
      rw
        (
          check_transferring_complete T h.source w fresh.no_exclusive acc.source_transferring,
          check_transferring_complete T h.destination w fresh.no_exclusive
              acc.destination_transferring,
          check_extra_complete R S program_id (listed h) h.mint h.metas amount w fresh.no_exclusive
              acc.resolved,
        )
        (track_complete program_id h.transfer amount w' (record {
          funded = acc.funded;
          owned = acc.owned;
          free = (
            rw fresh.no_exclusive,
            rw (
              fresh.no_shared,
              bytes_eq_ne h.metas.key h.transfer.key (λ e. acc.distinct (sym e)),
            ),
          );
          long = acc.long;
        }))

  -- What the last step asks, read back at the world in which the handler began.
  tracked_accepted :
      (h : Handles) (w' : World)
      → w'.accounts ≡ w.accounts
      → w'.shared ≡ h.metas.key ∷ h.metas.key ∷ w.shared
      → IsTracked program_id h.transfer amount w'
      → (0 < (w.accounts h.transfer.key).lamports)
        × ((w.accounts h.transfer.key).owner ≡ program_id)
        × (40 ≤ length (w.accounts h.transfer.key).contents)
        × (h.transfer.key ≢ h.metas.key)
  tracked_accepted h w' cells guards t = (
    subst (λ (m : Pubkey → Account). 0 < (m h.transfer.key).lamports) cells t.funded,
    subst (λ (m : Pubkey → Account). (m h.transfer.key).owner ≡ program_id) cells t.owned,
    subst (λ (m : Pubkey → Account). 40 ≤ length (m h.transfer.key).contents) cells t.long,
    λ e. ground (
      arith,
      t.free.1,
      ap (λ (l : List Pubkey). contains l h.transfer.key) guards,
      bytes_eq_iff h.metas.key h.transfer.key,
    ),
  )

  pub execute-IsAccepted : (h : Handles) → (run (listed h)).0 ≡ ok tt → IsAccepted h
  unfolding process_execute
  execute-IsAccepted h returned =
      let extra = check_extra_accounts R S program_id (listed h) h.mint h.metas amount in
      let (e₁, r₁) = >>-eq-ok (check_token_account_is_transferring T h.source) _ w returned in
      let s₁ = rw (check_transferring-same T h.source w) at r₁ in
      let (e₂, r₂) = >>-eq-ok (check_token_account_is_transferring T h.destination) _ w s₁ in
      let s₂ = rw (check_transferring-same T h.destination w) at r₂ in
      let (e₃, r₃) = >>-eq-ok extra _ w s₂ in
      let (funded, owned, long, distinct) =
        tracked_accepted h (extra w).1
          (check_extra-accounts R S program_id (listed h) h.mint h.metas amount w)
          (check_extra-shared R S program_id (listed h) h.mint h.metas amount w e₃)
          (track-sound program_id h.transfer amount (extra w).1 r₃) in
      record {
        source_transferring = check_transferring-sound T h.source w e₁;
        destination_transferring = check_transferring-sound T h.destination w e₂;
        resolved = check_extra-sound R S program_id (listed h) h.mint h.metas amount w e₃;
        funded = funded;
        owned = owned;
        long = long;
        distinct = distinct;
      }

  execute_sound :
      (accounts : List AccountInfo)
      → (run accounts).0 ≡ ok tt
      → (h : Handles) × (accounts ≡ listed h) × IsAccepted h
  unfolding process_execute
  execute_sound [] r = cc
  execute_sound (a ∷ []) r = cc
  execute_sound (a ∷ b ∷ []) r = cc
  execute_sound (a ∷ b ∷ c ∷ []) r = cc
  execute_sound (a ∷ b ∷ c ∷ d ∷ []) r = cc
  execute_sound (a ∷ b ∷ c ∷ d ∷ e ∷ []) r =
      let (_, r₁) = >>-eq-ok (check_token_account_is_transferring T a) _ w r in
      let (_, r₂) = >>-eq-ok (check_token_account_is_transferring T c) _ _ r₁ in
      let (_, r₃) =
        >>-eq-ok (check_extra_accounts R S program_id (a ∷ b ∷ c ∷ d ∷ e ∷ []) b e amount) _ _ r₂ in
      cc r₃
  execute_sound (a ∷ b ∷ c ∷ d ∷ e ∷ f ∷ rest) r =
      let h : Handles = record {
        source = a;
        mint = b;
        destination = c;
        authority = d;
        metas = e;
        transfer = f;
        others = rest;
      } in
      (h, refl, execute-IsAccepted h r)

  -- On accounts with no borrow open, `Execute` returns exactly when the list of accounts is
  -- accepted: six accounts or more, both token accounts in a transfer, the validation account at
  -- its derived address with a list that resolves, and a transfer account that is funded, owned
  -- by the program, 40 bytes or longer and not the validation account itself.
  pub execute_returns_iff :
      IsFresh w
      → (accounts : List AccountInfo)
      → ((process_execute R S T program_id accounts amount w).0 ≡ ok tt)
        ↔ ((h : Handles) × (accounts ≡ listed h) × IsAccepted h)
  execute_returns_iff fresh accounts =
      (execute_sound accounts, λ (h, e, acc). rw e (execute_complete fresh h acc).0)

  -- On accounts with no borrow open, an `Execute` that returned has added its amount, modulo 2 ^
  -- 64, to the count of the sixth account and changed nothing else: not that account's lamports,
  -- owner, size or user, and no other account.
  pub execute_credits :
      IsFresh w
      → (h : Handles) → (process_execute R S T program_id (listed h) amount w).0 ≡ ok tt
      → IsCredited h.transfer.key amount w.accounts
          (process_execute R S T program_id (listed h) amount w).1.accounts
  execute_credits fresh h r = (execute_complete fresh h (execute-IsAccepted h r)).1

module _ (R : Runtime) (S : Spl) (T : Token) where
  pub check_transferring-ReadsOnly :
      (a : AccountInfo) → ReadsOnly (check_token_account_is_transferring T a)
  check_transferring-ReadsOnly a = record { at = λ w. rw check_transferring-same }

  pub check_extra-ReadsOnly :
      (program_id : Pubkey) (accounts : List AccountInfo) (mint metas : AccountInfo) (amount : ℕ)
      → ReadsOnly (check_extra_accounts R S program_id accounts mint metas amount)
  check_extra-ReadsOnly program_id accounts mint metas amount = record {
    at = λ w. check_extra-accounts R S program_id accounts mint metas amount w;
  }

  track-IsAtomic :
      (program_id : Pubkey) (a : AccountInfo) (amount : ℕ)
      → IsAtomic (track_transfer program_id a amount)
  track-IsAtomic program_id a amount = record {
    at = λ w h. track-unchanged program_id a amount w h;
  }

  -- An `Execute` that fails, or panics, has written no account.
  pub execute-IsAtomic :
      (program_id : Pubkey) (accounts : List AccountInfo) (amount : ℕ)
      → IsAtomic (process_execute R S T program_id accounts amount)
  unfolding process_execute
  execute-IsAtomic program_id accounts amount =
      search (atomic_rules, check_transferring-ReadsOnly, check_extra-ReadsOnly, track-IsAtomic)
        depth 16

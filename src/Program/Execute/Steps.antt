-- ===== src/Program/Execute/Steps.antt =====
-- The three parts of `process_execute`: when each goes through, and what it leaves.
use transfer_hook.Prelude.{
  ⊤, ℕ, ◌<◌, ◌≤◌, ◌≡◌, ◌≢◌, refl, true, false, List, [], ◌∷◌, Bytes, bytes_eq_iff, bytes_eq_self,
  bytes_eq_ne, length, arith, slice, from_le_bytes,
}
use transfer_hook.Solana.Error.{ok, ◌>>=◌, IsOk}
use transfer_hook.Solana.Account.{Pubkey, Account, AccountInfo}
use transfer_hook.Solana.Exec.{World, Exec, contains, update}
use transfer_hook.Solana.Sdk.{Runtime, Spl, Token}
use transfer_hook.Interface.Address.{get_extra_account_metas_address}
use transfer_hook.Interface.Instruction
use transfer_hook.Interface.Instruction.{execute_of}
use transfer_hook.Program.TransferAccount.{unpack, update_transfered}
use transfer_hook.Program.TransferAccount.Laws.{unpack-update_transfered, unpack_cases}
use transfer_hook.Program.Execute.{
  add_u64, check_token_account_is_transferring, check_extra_accounts, track_transfer,
}

module _ (T : Token) (a : AccountInfo) (w : World) where
  abbrev pub IsTransferring : Type 0
  IsTransferring = (T.unpack_account (w.accounts a.key).contents >>= T.transferring) ≡ ok true

  pub check_transferring-same : (check_token_account_is_transferring T a w).1 ≡ w
  unfolding check_token_account_is_transferring
  check_transferring-same = ground arith

  pub check_transferring-sound :
      (check_token_account_is_transferring T a w).0 ≡ ok tt → IsTransferring
  unfolding check_token_account_is_transferring
  check_transferring-sound h = ground arith

  pub check_transferring_complete :
      w.exclusive ≡ [] → IsTransferring → check_token_account_is_transferring T a w ≡ (ok tt, w)
  unfolding check_token_account_is_transferring
  check_transferring_complete h k = ground arith

module _ (R : Runtime) (S : Spl) (program_id : Pubkey) (accounts : List AccountInfo)
    (mint_info metas_info : AccountInfo) (amount : ℕ) (w : World) where
  -- The validation account is the mint's, and its list resolves to the accounts that were given.
  pub record IsResolved : Type 0 where
    pub address : get_extra_account_metas_address R mint_info.key program_id ≡ metas_info.key
    pub checked :
        S.check_account_infos S.execute_discriminator w.accounts accounts
          (Instruction.pack S (execute_of amount))
          program_id
          (w.accounts metas_info.key).contents
        ≡ ok tt
    pub listed : IsOk (
        S.tlv_unpack (w.accounts metas_info.key).contents
        >>= S.unpack_with_tlv_state S.execute_discriminator)

  abbrev pub checked_extra : Exec ⊤
  checked_extra = check_extra_accounts R S program_id accounts mint_info metas_info amount

  pub check_extra-accounts : (checked_extra w).1.accounts ≡ w.accounts
  unfolding check_extra_accounts
  check_extra-accounts = ground arith

  pub check_extra-sound : (checked_extra w).0 ≡ ok tt → IsResolved
  unfolding check_extra_accounts
  check_extra-sound h = ground (
    arith,
    bytes_eq_iff (get_extra_account_metas_address R mint_info.key program_id) metas_info.key,
  )

  pub check_extra-shared :
      (checked_extra w).0 ≡ ok tt
      → (checked_extra w).1.shared ≡ metas_info.key ∷ metas_info.key ∷ w.shared
  unfolding check_extra_accounts
  check_extra-shared h = ground arith

  pub check_extra_complete :
      w.exclusive ≡ []
      → IsResolved
      → checked_extra w ≡ (ok tt, record w { shared = metas_info.key ∷ metas_info.key ∷ w.shared })
  unfolding check_extra_accounts
  check_extra_complete h k = ground (
    arith,
    bytes_eq_iff (get_extra_account_metas_address R mint_info.key program_id) metas_info.key,
  )

-- The accounts `after` differ from those `before` in the count of the transfer account alone,
-- which has grown by the amount.
pub record IsCredited (key : Pubkey) (amount : ℕ) (before after : Pubkey → Account) : Type 0 where
  pub others : (k : Pubkey) → k ≢ key → after k ≡ before k
  pub lamports : (after key).lamports ≡ (before key).lamports
  pub program : (after key).owner ≡ (before key).owner
  pub size : length (after key).contents ≡ length (before key).contents
  pub count :
      (user : Pubkey) (total : ℕ)
      → unpack (before key).contents ≡ ok (user, total)
      → unpack (after key).contents ≡ ok (user, add_u64 total amount)

module _ (program_id : Pubkey) (a : AccountInfo) (amount : ℕ) (w : World) where
  -- The transfer account exists, is the program's, is not borrowed and can be unpacked.
  pub record IsTracked : Type 0 where
    pub funded : 0 < (w.accounts a.key).lamports
    pub owned : (w.accounts a.key).owner ≡ program_id
    pub free : (contains w.exclusive a.key ≡ false) × (contains w.shared a.key ≡ false)
    pub long : 40 ≤ length (w.accounts a.key).contents

  pub track-unchanged :
      (track_transfer program_id a amount w).0 ≢ ok tt
      → (track_transfer program_id a amount w).1.accounts ≡ w.accounts
  unfolding track_transfer
  track-unchanged h = ground arith

  pub track-sound : (track_transfer program_id a amount w).0 ≡ ok tt → IsTracked
  unfolding track_transfer
  track-sound h = ground (
    arith,
    bytes_eq_iff (w.accounts a.key).owner program_id,
    (unpack_cases (w.accounts a.key).contents).0,
  )

  abbrev written : Bytes → World
  written bytes = record w {
    accounts = update a.key (record (w.accounts a.key) { contents = bytes }) w.accounts;
    exclusive = a.key ∷ w.exclusive;
  }

  track-written :
      (user : Pubkey) (total : ℕ) (bytes : Bytes)
      → IsTracked
      → unpack (w.accounts a.key).contents ≡ ok (user, total)
      → update_transfered (w.accounts a.key).contents (add_u64 total amount) ≡ ok bytes
      → track_transfer program_id a amount w ≡ (ok tt, written bytes)
  unfolding track_transfer
  track-written user total bytes h read write =
      ground (arith, bytes_eq_iff (w.accounts a.key).owner program_id)

  written-IsCredited :
      (user : Pubkey) (total : ℕ) (bytes : Bytes)
      → unpack (w.accounts a.key).contents ≡ ok (user, total)
      → unpack bytes ≡ ok (user, add_u64 total amount)
      → length bytes ≡ length (w.accounts a.key).contents
      → IsCredited a.key amount w.accounts (written bytes).accounts
  written-IsCredited user total bytes read back size = record {
    others = λ k ne. rw (bytes_eq_ne k a.key ne);
    lamports = rw (bytes_eq_self a.key);
    program = rw (bytes_eq_self a.key);
    size = rw (bytes_eq_self a.key) size;
    count = λ u n e. rw (bytes_eq_self a.key) (ground arith);
  }

  pub track_complete :
      IsTracked
      → ((track_transfer program_id a amount w).0 ≡ ok tt)
        × IsCredited a.key amount w.accounts (track_transfer program_id a amount w).1.accounts
  track_complete h =
      let c = (w.accounts a.key).contents in
      let user = slice 0 32 c in
      let total = from_le_bytes (slice 32 40 c) in
      let read : unpack c ≡ ok (user, total) = (unpack_cases c).1 h.long in
      let (bytes, write, back, size, _) =
        unpack-update_transfered c (add_u64 total amount) read (omega arith) in
      rw (track-written user total bytes h read write)
        (refl, written-IsCredited user total bytes read back size)

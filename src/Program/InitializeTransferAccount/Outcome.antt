-- ===== src/Program/InitializeTransferAccount/Outcome.antt =====
-- What `InitializeTransferAccount` makes, and what it leaves alone.
use native.Mathlib.Decide.{dec_lt}
use transfer_hook.Prelude.{
  ⊤, ℕ, ◌<◌, ◌≤◌, ◌≡◌, ◌≢◌, ◌∙◌, true, List, [], ◌∷◌, Bytes, bytes_eq_iff, bytes_eq_self,
  bytes_eq_ne, length, arith,
}
use transfer_hook.Solana.Error.{Result, ok}
use transfer_hook.Solana.Account.{system_program_id, Pubkey, Account, AccountInfo}
use transfer_hook.Solana.Exec.{World, Exec, IsFresh, update}
use transfer_hook.Solana.Exec.Atomic.{>>-eq-ok}
use transfer_hook.Solana.Sdk.{Runtime, RunsSystemProgram}
use transfer_hook.Program.TransferAccount.{pack, unpack}
use transfer_hook.Program.TransferAccount.Laws.{unpack-pack_account}
use transfer_hook.Program.InitializeTransferAccount.{
  write_first_count, create_transfer_account, process_initialize_transfer_account,
}

-- The account `key`, as it is made for a user: rent paid, owned by the program, 40 bytes that
-- unpack to the user and the count 0. No account changed but it and the payer's.
pub record IsCreated (R : Runtime) (program_id user key : Pubkey) (before after : Pubkey → Account)
    : Type 0 where
  pub others : (k : Pubkey) → k ≢ user → k ≢ key → after k ≡ before k
  pub payer :
      user ≢ key
      → ((after user).contents ≡ (before user).contents)
        × ((after user).owner ≡ (before user).owner)
  pub vacant : (before key).owner ≡ system_program_id
  pub lamports : (after key).lamports ≡ R.minimum_balance 40
  pub program : (after key).owner ≡ program_id
  pub size : length (after key).contents ≡ 40
  pub count : unpack (after key).contents ≡ ok (user, 0)

module _ (user account : AccountInfo) (w : World) where
  abbrev filled : Bytes → World
  filled bytes = record w {
    accounts = update account.key (record (w.accounts account.key) { contents = bytes }) w.accounts;
    exclusive = account.key ∷ w.exclusive;
  }

  write_first_count_lem :
      (bytes : Bytes)
      → IsFresh w
      → pack user.key 0 (w.accounts account.key).contents ≡ ok bytes
      → write_first_count user account w ≡ (ok tt, filled bytes)
  unfolding write_first_count
  write_first_count_lem bytes fresh e = ground arith

module _ (R : Runtime) (L : RunsSystemProgram R) (program_id : Pubkey) (user account : AccountInfo)
    (bump : ℕ) (w : World) where
  abbrev system_call : Exec ⊤
  system_call =
      R.invoke_signed (R.create_account user.key account.key (R.minimum_balance 40) 40 program_id)
        (user ∷ account ∷ []) ((user.key ∷ (bump ∷ []) ∷ []) ∷ [])

  create-IsCreated :
      IsFresh w
      → length user.key ≡ 32
      → (create_transfer_account R program_id user account bump w).0 ≡ ok tt
      → IsCreated R program_id user.key account.key w.accounts
          (create_transfer_account R program_id user account bump w).1.accounts
  unfolding create_transfer_account
  create-IsCreated fresh long h =
      let (called, _) = >>-eq-ok system_call (write_first_count user account) w h in
      let law =
        L.create_account_lem user.key account.key program_id (R.minimum_balance 40) 40
          (user ∷ account ∷ []) ((user.key ∷ (bump ∷ []) ∷ []) ∷ []) w called in
      let w' = (system_call w).1 in
      let fresh' : IsFresh w' = record {
        no_shared = law.confined.same_shared ∙ fresh.no_shared;
        no_exclusive = law.confined.same_exclusive ∙ fresh.no_exclusive;
      } in
      let space : 40 ≤ length (w'.accounts account.key).contents = rw law.made (omega arith) in
      let (bytes, packed, back, size, _) =
        unpack-pack_account user.key 0 (w'.accounts account.key).contents long (omega arith)
          space in
      rw (called, write_first_count_lem user account w' bytes fresh' packed)
        (record {
          others = λ k n m. rw (bytes_eq_ne k account.key m) (law.confined.others k n m);
          payer = λ ne. rw (bytes_eq_ne user.key account.key ne) (law.payer ne);
          vacant = law.vacant;
          lamports = rw (bytes_eq_self account.key, law.made);
          program = rw (bytes_eq_self account.key, law.made);
          size = rw (bytes_eq_self account.key) (size ∙ rw law.made);
          count = rw (bytes_eq_self account.key) back;
        })

module _ (R : Runtime) (program_id : Pubkey) (user account system : AccountInfo)
    (rest : List AccountInfo) (w : World) where
  abbrev derived : Pubkey × ℕ
  derived = R.find_program_address (user.key ∷ []) program_id

  abbrev pub initialize : Result ⊤ × World
  initialize = process_initialize_transfer_account R program_id (user ∷ account ∷ system ∷ rest) w

  initialize_checks : initialize.0 ≡ ok tt → (user.is_signer ≡ true) × (account.key ≡ derived.0)
  unfolding process_initialize_transfer_account
  initialize_checks h = ground (arith, bytes_eq_iff account.key derived.0)

  pub initialize_existing :
      user.is_signer ≡ true
      → account.key ≡ derived.0
      → 0 < (w.accounts account.key).lamports
      → initialize ≡ (ok tt, w)
  unfolding process_initialize_transfer_account
  initialize_existing h k l = ground (arith, bytes_eq_iff account.key derived.0)

  initialize_missing :
      user.is_signer ≡ true
      → account.key ≡ derived.0
      → (w.accounts account.key).lamports ≡ 0
      → initialize ≡ (
        (create_transfer_account R program_id user account derived.1 w).0,
        record (create_transfer_account R program_id user account derived.1 w).1 {
          shared = w.shared;
          exclusive = w.exclusive;
        },
      )
  unfolding process_initialize_transfer_account
  initialize_missing h k l = rw (h, (bytes_eq_iff account.key derived.0).1 k, l)

  -- Where calls of the system program do what is documented, no borrow is open and the user's key
  -- has 32 bytes: where the account at the derived address has no lamports, an
  -- `InitializeTransferAccount` that returned has made it; where it has, the call returns at once
  -- and changes nothing. Either way the user signed and the account is at the address derived from
  -- the user's key.
  pub initialize_outcome :
      RunsSystemProgram R
      → IsFresh w
      → length user.key ≡ 32
      → initialize.0 ≡ ok tt
      → (user.is_signer ≡ true)
        × (account.key ≡ derived.0)
        × ((w.accounts account.key).lamports ≡ 0
            → IsCreated R program_id user.key account.key w.accounts initialize.1.accounts)
        × (0 < (w.accounts account.key).lamports → initialize.1 ≡ w)
  initialize_outcome L fresh long h =
      let (signed, address) = initialize_checks h in
      (
        signed,
        address,
        λ l.
            let made = initialize_missing signed address l in
            rw made
              (create-IsCreated R L program_id user account derived.1 w fresh long (rw made at h)),
        λ l. rw (initialize_existing signed address l),
      )

-- Where calls of the system program do what is documented, no borrow is open, the user's key has
-- 32 bytes and rent for 40 bytes is not 0: a second `InitializeTransferAccount` after one that
-- returned returns too and changes nothing.
pub initialize_twice :
    (R : Runtime) (program_id : Pubkey) (user account system : AccountInfo)
    (rest : List AccountInfo) (w : World)
    → RunsSystemProgram R
    → 0 < R.minimum_balance 40
    → IsFresh w
    → length user.key ≡ 32
    → (initialize R program_id user account system rest w).0 ≡ ok tt
    → let w' = (initialize R program_id user account system rest w).1 in
      initialize R program_id user account system rest w' ≡ (ok tt, w')
initialize_twice R program_id user account system rest w L rent fresh long h =
    let (signed, address, creates, keeps) =
      initialize_outcome R program_id user account system rest w L fresh long h in
    let w' = (initialize R program_id user account system rest w).1 in
    initialize_existing R program_id user account system rest w' signed address
      (elim (dec_lt 0 (w.accounts account.key).lamports) [
        | yes l ↦ rw (keeps l) l
        | no l ↦ rw ((creates (omega arith)).lamports) rent
      ])

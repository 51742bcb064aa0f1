-- ===== src/Program/MetaList/Created.antt =====
-- What `InitializeExtraAccountMetaList` leaves at the address of the list.
use transfer_hook.Prelude.{
  ⊤, Bool-cases, inl, inr, ◌||◌, ℕ, ◌≡◌, ◌≢◌, ◌∙◌, List, [], ◌∷◌, Bytes, bytes_eq_self, bytes_eq_ne,
  length, replicate,
}
use transfer_hook.Solana.Error.{Result, ok}
use transfer_hook.Solana.Account.{system_program_id, Pubkey, Account, AccountInfo}
use transfer_hook.Solana.Exec.{World, Exec, contains, update, ◌>>◌, lift}
use transfer_hook.Solana.Exec.Atomic.{>>=-eq-ok, >>-eq-ok}
use transfer_hook.Solana.Sdk.{Runtime, RunsSystemProgram, Spl, Token}
use transfer_hook.Interface.Address.{collect_extra_account_metas_signer_seeds}
use transfer_hook.Program.MetaList.{write_through, create_meta_list}
use transfer_hook.Program.MetaList.Outcome.{derived, initialize_list, initialize_list_steps}

-- The account `key` holds the list: it was vacant, keeps its lamports, belongs to the program, and
-- its bytes are what `init` made of a zeroed account of the list's size. No other changed.
pub record HoldsList (S : Spl) (program_id key : Pubkey) (metas : List S.Meta)
    (before after : Pubkey → Account) : Type 0 where
  pub size : ℕ
  pub sized : S.size_of (length metas) ≡ ok size
  pub accepted : (S.init S.execute_discriminator (replicate size 0) metas).0 ≡ ok tt
  pub held : after key ≡ record {
    lamports = (before key).lamports;
    contents = (S.init S.execute_discriminator (replicate size 0) metas).1;
    owner = program_id;
  }
  pub vacant : (before key).owner ≡ system_program_id
  pub others : (k : Pubkey) → k ≢ key → after k ≡ before k

module _ (S : Spl) (call : Bytes → Bytes → List S.Meta → Result ⊤ × Bytes) (a : AccountInfo)
    (metas : List S.Meta) (w : World) where
  abbrev left : Result ⊤ × Bytes
  left = call S.execute_discriminator (w.accounts a.key).contents metas

  pub write_through-ok :
      (write_through S call a metas w).0 ≡ ok tt
      → (left.0 ≡ ok tt)
        × ((write_through S call a metas w).1.accounts
            ≡ update a.key (record (w.accounts a.key) { contents = left.1 }) w.accounts)
  write_through-ok h = elim (Bool-cases (contains w.exclusive a.key || contains w.shared a.key)) [
    | inl e ↦ cc (rw e at h)
    | inr e ↦ (rw e at h, rw e)
  ]

module _ (R : Runtime) (L : RunsSystemProgram R) (S : Spl) (program_id : Pubkey)
    (list mint : AccountInfo) (bump : ℕ) (metas : List S.Meta) (w : World) where
  abbrev signer : List (List Bytes)
  signer = collect_extra_account_metas_signer_seeds mint.key (bump ∷ []) ∷ []

  abbrev assigns : Exec ⊤
  assigns =
      R.invoke_signed (R.assign list.key program_id) (list ∷ []) signer
      >> write_through S S.init list metas

  abbrev allocates : ℕ → Exec ⊤
  allocates size = R.invoke_signed (R.allocate list.key size) (list ∷ []) signer >> assigns

  create-HoldsList :
      (create_meta_list R S program_id list mint bump metas w).0 ≡ ok tt
      → HoldsList S program_id list.key metas w.accounts
          (create_meta_list R S program_id list mint bump metas w).1.accounts
  unfolding create_meta_list
  create-HoldsList h =
      let (size, sized, r₁) = >>=-eq-ok (lift (S.size_of (length metas))) allocates w h in
      let allocate = R.invoke_signed (R.allocate list.key size) (list ∷ []) signer in
      let w₁ = (allocate w).1 in
      let (called₁, r₂) = >>-eq-ok allocate assigns w r₁ in
      let assign = R.invoke_signed (R.assign list.key program_id) (list ∷ []) signer in
      let w₂ = (assign w₁).1 in
      let (called₂, r₃) = >>-eq-ok assign (write_through S S.init list metas) w₁ r₂ in
      let law₁ = L.allocate_lem list.key size (list ∷ []) signer w called₁ in
      let law₂ = L.assign_lem list.key program_id (list ∷ []) signer w₁ called₂ in
      let cell : w₂.accounts list.key ≡ record {
        lamports = (w.accounts list.key).lamports;
        contents = replicate size 0;
        owner = program_id;
      } =
        rw (law₂.assigned, law₁.allocated) in
      let (accepted, after) = write_through-ok S S.init list metas w₂ r₃ in
      rw (sized, called₁, called₂, after)
        (record {
          size = size;
          sized = sized;
          accepted = rw (left, cell) at accepted;
          held = rw (bytes_eq_self list.key, left, cell);
          vacant = law₁.vacant;
          others = λ k n.
              rw (bytes_eq_ne k list.key n)
                (law₂.confined.others k n n ∙ law₁.confined.others k n n);
        })

-- Where calls of the system program do what is documented: the list that a call which returned has
-- made is what `init` writes into a zeroed account of the list's size, at an address that was
-- vacant; no other account changed.
pub initialize_list-HoldsList :
    (R : Runtime) (S : Spl) (T : Token) (program_id : Pubkey)
    (list mint authority system : AccountInfo) (rest : List AccountInfo) (metas : List S.Meta)
    (w : World)
    → RunsSystemProgram R
    → (initialize_list R S T program_id list mint authority system rest metas w).0 ≡ ok tt
    → HoldsList S program_id list.key metas w.accounts
        (initialize_list R S T program_id list mint authority system rest metas w).1.accounts
initialize_list-HoldsList R S T program_id list mint authority system rest metas w L h =
    let (_, _, _, made, same) =
      initialize_list_steps R S T program_id list mint authority system rest metas w h in
    rw same (
      create-HoldsList R L S program_id list mint
        (derived R S T program_id list mint authority system rest metas w).1 metas
        (record w { shared = mint.key ∷ w.shared }) made)

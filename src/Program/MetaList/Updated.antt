-- ===== src/Program/MetaList/Updated.antt =====
-- Who may rewrite the list of a mint, were the program to call its handler.
use transfer_hook.Prelude.{
  ⊤, ℕ, ◌≤◌, ◌≡◌, sym, true, ◌||◌, not, List, ◌∷◌, bytes_eq, bytes_eq_iff, length, ltb, arith,
}
use transfer_hook.Solana.Error.{Result, ok, invalid_seeds, uninitialized_account}
use transfer_hook.Solana.Account.{Pubkey, AccountInfo}
use transfer_hook.Solana.Exec.{World, Exec, data_len, owner, lift, fail_if, ◌>>=◌, ◌>>◌}
use transfer_hook.Solana.Exec.Atomic.{>>=-eq-ok, fail_if-eq-ok}
use transfer_hook.Solana.Sdk.{Runtime, Resizes, Spl, Token}
use transfer_hook.Interface.Address.{get_extra_account_metas_address}
use transfer_hook.Program.MetaList.{rewrite_meta_list, process_update_extra_account_meta_list}
use transfer_hook.Program.MetaList.Outcome.{
  HasAuthority, check_mint_authority_sound, authority_steps,
}
use transfer_hook.Program.MetaList.Rewritten.{HoldsUpdate, rewrite-HoldsUpdate}

module _ (R : Runtime) (S : Spl) (T : Token) (program_id : Pubkey)
    (list mint authority : AccountInfo) (rest : List AccountInfo) (metas : List S.Meta)
    (w : World) where
  abbrev pub update_list : Result ⊤ × World
  update_list =
      process_update_extra_account_meta_list R S T program_id (list ∷ mint ∷ authority ∷ rest) metas
        w

  abbrev expected : Pubkey
  expected = get_extra_account_metas_address R mint.key program_id

  abbrev after_size : ℕ → Exec ⊤
  after_size minimum = do
    size ← data_len list
    program ← owner list
    fail_if (not (bytes_eq program_id program) || ltb size minimum) uninitialized_account
    rewrite_meta_list R S list size metas

  abbrev after_authority : Exec ⊤
  after_authority =
      fail_if (not (bytes_eq expected list.key)) invalid_seeds
      >> (lift (S.size_of 0) >>= after_size)

  -- The guard on the account's owner and size, on any borrows.
  after_size-guard :
      (minimum : ℕ) (u : World)
      → (after_size minimum u).0 ≡ ok tt
      → (program_id ≡ (u.accounts list.key).owner)
        × (minimum ≤ length (u.accounts list.key).contents)
  after_size-guard minimum u h = ground (arith, bytes_eq_iff program_id (u.accounts list.key).owner)

  after_size-rewrites :
      (minimum : ℕ) (u : World)
      → (after_size minimum u).0 ≡ ok tt
      → after_size minimum u
        ≡ rewrite_meta_list R S list (length (u.accounts list.key).contents) metas u
  after_size-rewrites minimum u h = ground arith

  -- The updating handler returns only where the mint's authority signed, and the account is the one
  -- derived from the mint, belongs to the program, and is as long as an empty list at least.
  pub update_list_authorized :
      update_list.0 ≡ ok tt
      → (authority.is_signer ≡ true)
        × HasAuthority T (w.accounts mint.key).contents authority.key
        × (list.key ≡ expected)
        × ((w.accounts list.key).owner ≡ program_id)
        × ((minimum : ℕ) × (S.size_of 0 ≡ ok minimum)
            × (minimum ≤ length (w.accounts list.key).contents))
  unfolding process_update_extra_account_meta_list
  update_list_authorized h =
      let (checked, same) = authority_steps T mint authority w after_authority h in
      let (signed, authorized, _) = check_mint_authority_sound T mint authority w checked in
      let held = record w { shared = mint.key ∷ w.shared } in
      let (address, passed) =
        fail_if-eq-ok (not (bytes_eq expected list.key)) invalid_seeds
          (lift (S.size_of 0) >>= after_size) held (rw same at h) in
      let (minimum, sized, guarded) = >>=-eq-ok (lift (S.size_of 0)) after_size held passed in
      let (owned, long) = after_size-guard minimum held guarded in
      (
        signed,
        authorized,
        ground (arith, bytes_eq_iff expected list.key, address),
        sym owned,
        (minimum, sized, long),
      )

  abbrev guarded : World
  guarded = record w { shared = mint.key ∷ w.shared }

  abbrev rewritten : Result ⊤ × World
  rewritten = rewrite_meta_list R S list (length (w.accounts list.key).contents) metas guarded

  -- A call that returned ended with rewriting the list, which returned too.
  pub update_list-rewrites :
      update_list.0 ≡ ok tt
      → (rewritten.0 ≡ ok tt) × (update_list.1.accounts ≡ rewritten.1.accounts)
  unfolding process_update_extra_account_meta_list
  update_list-rewrites h =
      let (_, same) = authority_steps T mint authority w after_authority h in
      let after_address = lift (S.size_of 0) >>= after_size in
      let (address, passed) =
        fail_if-eq-ok (not (bytes_eq expected list.key)) invalid_seeds after_address guarded
          (rw same at h) in
      let (minimum, sized, ran) = >>=-eq-ok (lift (S.size_of 0)) after_size guarded passed in
      let run = after_size-rewrites minimum guarded ran in
      (rw run at ran, rw (same, address, sized, run))

-- Where `resize` does what is documented: a call of the updating handler that returned has left at
-- the list's address what `update` makes of its bytes, at the size of the new list (the account
-- grows before the list is written, or shrinks after), its lamports and its owner as they were, and
-- every other account unchanged.
pub update_list-HoldsUpdate :
    (R : Runtime) (S : Spl) (T : Token) (program_id : Pubkey) (list mint authority : AccountInfo)
    (rest : List AccountInfo) (metas : List S.Meta) (w : World)
    → Resizes R
    → (update_list R S T program_id list mint authority rest metas w).0 ≡ ok tt
    → HoldsUpdate S list.key metas w.accounts
        (update_list R S T program_id list mint authority rest metas w).1.accounts
update_list-HoldsUpdate R S T program_id list mint authority rest metas w Z h =
    let (ran, same) = update_list-rewrites R S T program_id list mint authority rest metas w h in
    rw same (rewrite-HoldsUpdate R Z S list metas (record w { shared = mint.key ∷ w.shared }) ran)

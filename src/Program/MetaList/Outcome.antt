-- ===== src/Program/MetaList/Outcome.antt =====
-- Who may write the list of a mint, and what `InitializeExtraAccountMetaList` leaves.
use transfer_hook.Prelude.{
  ⊤, ℕ, ◌≡◌, sym, true, some, List, ◌∷◌, Bytes, inl, inr, not, Bool-cases, bytes_eq, bytes_eq_iff,
  arith,
}
use transfer_hook.Solana.Error.{
  ProgramError, invalid_argument, invalid_seeds, Result, ok, err, ◌>>=◌,
}
use transfer_hook.Solana.Account.{Pubkey, AccountInfo}
use transfer_hook.Solana.Exec.{World, Exec, fail_if, ◌>>◌}
use transfer_hook.Solana.Exec.Atomic.{>>-eq-ok}
use transfer_hook.Solana.Sdk.{Runtime, Spl, Token}
use transfer_hook.Interface.Address.{
  get_extra_account_metas_address_and_bump_seed, get_extra_account_metas_address,
}
use transfer_hook.Program.MetaList.{
  mint_id, check_mint_authority, create_meta_list, process_initialize_extra_account_meta_list,
}

-- The mint's data unpacks to a mint with this authority.
abbrev pub HasAuthority : Token → Bytes → Pubkey → Type 0
HasAuthority T contents key =
    (T.unpack_mint contents >>= λ mint. ok (T.mint_authority mint)) ≡ ok (some key)

err-ne-ok : (e : ProgramError) → ¬ (◌≡◌ {A = Result ⊤} (err e) (ok tt))
err-ne-ok e h = cc

module _ (T : Token) (mint authority : AccountInfo) (w : World) where
  pub check_mint_authority_sound :
      (check_mint_authority T mint authority w).0 ≡ ok tt
      → (authority.is_signer ≡ true)
        × HasAuthority T (w.accounts mint.key).contents authority.key
        × ((check_mint_authority T mint authority w).1 ≡ record w { shared = mint.key ∷ w.shared })
  unfolding check_mint_authority
  check_mint_authority_sound h = grind (arith, bytes_eq_iff)

  -- The check of the authority, and what runs after it.
  pub authority_steps :
      (k : Exec ⊤)
      → ((check_mint_authority T mint authority >> k) w).0 ≡ ok tt
      → ((check_mint_authority T mint authority w).0 ≡ ok tt)
        × ((check_mint_authority T mint authority >> k) w
            ≡ k (record w { shared = mint.key ∷ w.shared }))
  authority_steps k h =
      let (e, _) = >>-eq-ok (check_mint_authority T mint authority) k w h in
      let (_, _, left) = check_mint_authority_sound e in (e, rw (e, left))

module _ (R : Runtime) (S : Spl) (T : Token) (program_id : Pubkey)
    (list mint authority system : AccountInfo) (rest : List AccountInfo) (metas : List S.Meta)
    (w : World) where
  abbrev pub derived : Pubkey × ℕ
  derived = get_extra_account_metas_address_and_bump_seed R mint.key program_id

  abbrev pub initialize_list : Result ⊤ × World
  initialize_list =
      process_initialize_extra_account_meta_list R S T program_id
        (list ∷ mint ∷ authority ∷ system ∷ rest) metas w

  abbrev after_authority : Exec ⊤
  after_authority =
      fail_if (not (bytes_eq derived.0 list.key)) invalid_seeds
      >> create_meta_list R S program_id list mint derived.1 metas

  abbrev pub guarded : World
  guarded = record w { shared = mint.key ∷ w.shared }

  -- The checks of a call that returned, and the world in which the list was made.
  pub initialize_list_steps :
      initialize_list.0 ≡ ok tt
      → (mint.key ≡ mint_id)
        × ((check_mint_authority T mint authority w).0 ≡ ok tt)
        × (derived.0 ≡ list.key)
        × ((create_meta_list R S program_id list mint derived.1 metas guarded).0 ≡ ok tt)
        × (initialize_list.1.accounts
            ≡ (create_meta_list R S program_id list mint derived.1 metas guarded).1.accounts)
  unfolding process_initialize_extra_account_meta_list
  initialize_list_steps h = elim (Bool-cases (bytes_eq mint.key mint_id)) [
    | inl e ↦
        let (checked, same) = authority_steps T mint authority w after_authority (rw e at h) in
        elim (Bool-cases (bytes_eq derived.0 list.key)) [
          | inl d ↦ (
            (bytes_eq_iff mint.key mint_id).0 e,
            checked,
            (bytes_eq_iff derived.0 list.key).0 d,
            rw (e, same, d) at h,
            rw (e, same, d),
          )
          | inr d ↦ absurd (err-ne-ok invalid_seeds (rw (e, same, d) at h))
        ]
    | inr n ↦ absurd (err-ne-ok invalid_argument (rw n at h))
  ]

  -- Where `InitializeExtraAccountMetaList` returned, the mint is the one of the program, the
  -- account with the authority's key signed and is the mint's authority, and the account of the
  -- list is the one derived from the mint.
  pub initialize_list_authorized :
      initialize_list.0 ≡ ok tt
      → (mint.key ≡ mint_id)
        × (authority.is_signer ≡ true)
        × HasAuthority T (w.accounts mint.key).contents authority.key
        × (list.key ≡ get_extra_account_metas_address R mint.key program_id)
  unfolding get_extra_account_metas_address
  initialize_list_authorized h =
      let (target, checked, address, _, _) = initialize_list_steps h in
      let (signed, authorized, _) = check_mint_authority_sound T mint authority w checked in
      (target, signed, authorized, sym address)

-- ===== src/Cli/Commands/Landed.antt =====
-- What the instruction of the client's first command does where the program runs it.
use transfer_hook.Prelude.{
  ⊤, ◌^◌, ◌<◌, ◌≡◌, refl, sym, ap, ◌∙◌, true, some, List, [], ◌∷◌, bytes_eq_iff, bytes_eq_self,
  length,
}
use transfer_hook.Solana.Error
use transfer_hook.Solana.Error.{Result, ok, invalid_seeds}
use transfer_hook.Solana.Account.{Pubkey, AccountInfo, AccountMeta}
use transfer_hook.Solana.Exec.{World, IsFresh}
use transfer_hook.Solana.Sdk.{Runtime, RunsSystemProgram, Spl, Token, IsCodec}
use transfer_hook.Interface.Address.{
  get_extra_account_metas_address, get_extra_account_metas_address_and_bump_seed,
}
use transfer_hook.Interface.Instruction.{initialize_of, initialize_extra_account_meta_list}
use transfer_hook.Program.MetaList.{
  mint_id, check_mint_authority, create_meta_list, process_initialize_extra_account_meta_list,
}
use transfer_hook.Program.MetaList.Outcome.{HasAuthority}
use transfer_hook.Program.MetaList.Created.{HoldsList, initialize_list-HoldsList}
use transfer_hook.Program.Process.{process, process_instruction_of}
use transfer_hook.Program.Process.Dispatch.{IsApart, process-pack}

-- The accounts that the runtime passes for an instruction: the keys and the signatures it lists.
abbrev pub Loads : List AccountInfo → List AccountMeta → Type 0
Loads [] [] = Unit
Loads (a ∷ infos) (m ∷ metas) = (a.key ≡ m.pubkey) × (a.is_signer ≡ m.is_signer) × Loads infos metas
Loads _ _ = ⊥

has_authority-cases :
    (T : Token) (r : Result T.Mint) {key : Pubkey}
    → (Error.◌>>=◌ r (λ mint. ok (T.mint_authority mint))) ≡ ok (some key)
    → (mint : T.Mint) × (r ≡ ok mint) × (T.mint_authority mint ≡ some key)
has_authority-cases T (ok mint) h = (mint, refl, cc)
has_authority-cases T (Error.err e) h = cc
has_authority-cases T Error.panic h = cc

-- The check of the authority passes for a mint that has it, where no data is borrowed.
check_mint_authority_complete :
    (T : Token) (mint authority : AccountInfo) (w : World)
    → IsFresh w
    → authority.is_signer ≡ true
    → HasAuthority T (w.accounts mint.key).contents authority.key
    → check_mint_authority T mint authority w ≡ (ok tt, record w { shared = mint.key ∷ w.shared })
unfolding check_mint_authority
check_mint_authority_complete T mint authority w fresh signed has =
    let (unpacked, e₁, e₂) =
      has_authority-cases T (T.unpack_mint (w.accounts mint.key).contents) has in
    rw (fresh.no_exclusive, e₁, e₂, signed, bytes_eq_self authority.key)

module _ (R : Runtime) (S : Spl) (T : Token) (program_id : Pubkey)
    (list mint authority system : AccountInfo) (metas : List S.Meta) (w : World) where
  abbrev pub made : Result ⊤ × World
  made =
      create_meta_list R S program_id list mint
        (get_extra_account_metas_address_and_bump_seed R mint.key program_id).1 metas
        (record w { shared = mint.key ∷ w.shared })

  initialize_list_complete :
      IsFresh w
      → mint.key ≡ mint_id
      → authority.is_signer ≡ true
      → HasAuthority T (w.accounts mint.key).contents authority.key
      → list.key ≡ get_extra_account_metas_address R mint.key program_id
      → let run =
          process_initialize_extra_account_meta_list R S T program_id
            (list ∷ mint ∷ authority ∷ system ∷ [])
            metas
            w in
        (run.0 ≡ made.0) × (run.1.accounts ≡ made.1.accounts)
  unfolding process_initialize_extra_account_meta_list get_extra_account_metas_address
  initialize_list_complete fresh target signed has address =
      let checked = check_mint_authority_complete T mint authority w fresh signed has in
      let same = (bytes_eq_iff mint.key mint_id).1 target in
      let derived = (bytes_eq_iff _ list.key).1 (sym address) in
      (rw (same, checked, derived), rw (same, checked, derived))

-- Where calls of the system program do what is documented, the discriminators are apart, a `u32`
-- counts the list, no borrow is open, and the token is the program's mint with the authority that
-- the client signs with: the program runs the instruction of the client's first command on the
-- accounts that it lists as far as making the account of the list. It ends as that step ends, and
-- where it returns, the address that the client has derived holds the client's list.
pub process-create_instruction :
    (R : Runtime) (S : Spl) (T : Token) (program_id token signer : Pubkey)
    (list mint authority system : AccountInfo) (metas : List S.Meta) (w : World)
    → RunsSystemProgram R
    → IsCodec S
    → IsApart S
    → length metas < 2 ^ 32
    → IsFresh w
    → token ≡ mint_id
    → HasAuthority T (w.accounts token).contents signer
    → let address = get_extra_account_metas_address R token program_id in
      let sent = initialize_extra_account_meta_list S program_id address token signer metas in
      let infos = list ∷ mint ∷ authority ∷ system ∷ [] in
      let run = process R S T program_id infos sent.contents w in
      Loads infos sent.accounts
      → (run.0 ≡ (made R S T program_id list mint authority system metas w).0)
        × (run.0 ≡ ok tt → HoldsList S program_id address metas w.accounts run.1.accounts)
unfolding initialize_extra_account_meta_list process_instruction_of
process-create_instruction R S T program_id token signer list mint authority system metas w L codec
      apart fits fresh target has (at_list, _, (at_mint, _, (at_authority, signed, _))) =
    let infos = list ∷ mint ∷ authority ∷ system ∷ [] in
    let same = process-pack R S T program_id infos w codec apart (initialize_of metas) fits in
    let has_here : HasAuthority T (w.accounts mint.key).contents authority.key =
      rw (at_mint, at_authority, has) in
    let address : list.key ≡ get_extra_account_metas_address R mint.key program_id =
      rw (at_list, at_mint) in
    let (ends, _) =
      initialize_list_complete R S T program_id list mint authority system metas w fresh
        (at_mint ∙ target) signed has_here address in
    (
      ap (λ end. end.0) same ∙ ends,
      λ returned.
          rw (same, sym at_list)
            (initialize_list-HoldsList R S T program_id list mint authority system [] metas w L
              (rw (same) at returned)),
    )

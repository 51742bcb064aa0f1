-- ===== src/Program/Process/Signed.antt =====
-- The seeds that the program signs with are those of accounts that it passes.
use transfer_hook.Prelude.{
  ⊤, ◌≡◌, refl, ap, Bool, true, false, ◌&&◌, ◌||◌, not, Option, none, some, List, [], ◌∷◌, Bytes,
  bytes_eq, bytes_eq_iff, bytes_eq_self, ltb, if◌then◌else◌, arith, ℕ,
}
use transfer_hook.Solana.Error.{
  ProgramError, invalid_argument, missing_required_signature, invalid_seeds, err,
}
use transfer_hook.Solana.Account.{Pubkey, AccountInfo}
use transfer_hook.Solana.Exec.{Exec, scoped, lamports, fail_if, lift, pure, ◌>>=◌, ◌>>◌}
use transfer_hook.Solana.Sdk.{Runtime, DerivesAddresses, Spl, Token}
use transfer_hook.Interface.Address.{
  collect_extra_account_metas_signer_seeds, get_extra_account_metas_address,
  get_extra_account_metas_address_and_bump_seed, signer_seeds-address,
}
use transfer_hook.Interface.Instruction
use transfer_hook.Interface.Instruction.{
  TransferHookInstruction, execute_of, initialize_of, update_of,
}
use transfer_hook.Program.Execute.{process_execute, check_extra_accounts, track_transfer}
use transfer_hook.Program.InitializeTransferAccount.{
  create_transfer_account, process_initialize_transfer_account,
}
use transfer_hook.Program.MetaList.{
  mint_id, check_mint_authority, create_meta_list, process_initialize_extra_account_meta_list,
}
use transfer_hook.Program.Process.{process_instruction_of, process_standard, process}

-- An address that is one of the accounts.
abbrev signs_one : Option Pubkey → List AccountInfo → Bool
signs_one none infos = false
signs_one (some key) [] = false
signs_one (some key) (a ∷ infos) = bytes_eq a.key key || signs_one (some key) infos

module _ (R : Runtime) (program_id : Pubkey) where
  -- Each of the seeds signs for one of the accounts.
  abbrev signs_all : List (List Bytes) → List AccountInfo → Bool
  signs_all [] infos = true
  signs_all (seeds ∷ rest) infos =
      signs_one (R.create_program_address seeds program_id) infos && signs_all rest infos

  -- A runtime that refuses a call with seeds that sign for no account of the call.
  abbrev pub strict : Runtime
  strict = record R {
    invoke_signed = λ instruction infos seeds.
        if signs_all seeds infos
        then R.invoke_signed instruction infos seeds
        else (λ w. (err invalid_seeds, w));
  }

-- What stands behind a check is run where the check passes.
guarded :
    (test : Bool) (e : ProgramError) (first second : Exec ⊤)
    → (test ≡ true → first ≡ second)
    → (fail_if (not test) e >> first) ≡ (fail_if (not test) e >> second)
guarded true e first second h = ap (λ k. fail_if false e >> k) (h refl)
guarded false e first second h = refl

module _ (R : Runtime) (L : DerivesAddresses R) (program_id : Pubkey) where
  create-strict :
      (owner account : AccountInfo)
      → let derived = R.find_program_address (owner.key ∷ []) program_id in
        bytes_eq account.key derived.0 ≡ true
        → create_transfer_account (strict R program_id) program_id owner account derived.1
          ≡ create_transfer_account R program_id owner account derived.1
  unfolding create_transfer_account
  create-strict owner account h =
      let (address, bump) = R.find_program_address (owner.key ∷ []) program_id in
      let passes : signs_all R program_id ((owner.key ∷ (bump ∷ []) ∷ []) ∷ [])
            (owner ∷ account ∷ [])
          ≡ true =
        rw (L.create-find (owner.key ∷ []) program_id, h) (ground arith) in
      rw (passes)

  initialize-strict :
      (accounts : List AccountInfo)
      → process_initialize_transfer_account (strict R program_id) program_id accounts
        ≡ process_initialize_transfer_account R program_id accounts
  unfolding process_initialize_transfer_account
  initialize-strict [] = refl
  initialize-strict (o ∷ []) = refl
  initialize-strict (o ∷ t ∷ []) = refl
  initialize-strict (o ∷ t ∷ s ∷ rest) =
      ap (λ k. scoped (fail_if (not o.is_signer) missing_required_signature >> k))
        (guarded (bytes_eq t.key (R.find_program_address (o.key ∷ []) program_id).0) invalid_seeds _
          _
          (λ same.
            ap (λ k. lamports t >>= λ funds. if ltb 0 funds then pure tt else k)
              (create-strict o t same)))

  list-strict :
      (S : Spl) (list mint : AccountInfo) (metas : List S.Meta)
      → let derived = get_extra_account_metas_address_and_bump_seed R mint.key program_id in
        bytes_eq derived.0 list.key ≡ true
        → create_meta_list (strict R program_id) S program_id list mint derived.1 metas
          ≡ create_meta_list R S program_id list mint derived.1 metas
  unfolding create_meta_list
  list-strict S list mint metas h =
      let (address, bump) = get_extra_account_metas_address_and_bump_seed R mint.key program_id in
      let (signs, _) = signer_seeds-address R L mint.key program_id in
      let same : address ≡ list.key = (bytes_eq_iff address list.key).0 h in
      let seeds = collect_extra_account_metas_signer_seeds mint.key (bump ∷ []) in
      let passes : signs_all R program_id (seeds ∷ []) (list ∷ []) ≡ true =
        rw (signs, same, bytes_eq_self list.key) in
      rw (passes)

  initialize_list-strict :
      (S : Spl) (T : Token) (accounts : List AccountInfo) (metas : List S.Meta)
      → process_initialize_extra_account_meta_list
          (strict R program_id)
          S
          T
          program_id
          accounts
          metas
        ≡ process_initialize_extra_account_meta_list R S T program_id accounts metas
  unfolding process_initialize_extra_account_meta_list get_extra_account_metas_address_and_bump_seed
  initialize_list-strict S T [] metas = refl
  initialize_list-strict S T (l ∷ []) metas = refl
  initialize_list-strict S T (l ∷ m ∷ []) metas = refl
  initialize_list-strict S T (l ∷ m ∷ a ∷ []) metas = refl
  initialize_list-strict S T (l ∷ m ∷ a ∷ s ∷ rest) metas =
      ap
        (λ k. scoped (
          fail_if (not (bytes_eq m.key mint_id)) invalid_argument
          >> (check_mint_authority T m a >> k)))
        (guarded
          (bytes_eq (get_extra_account_metas_address_and_bump_seed R m.key program_id).0 l.key)
          invalid_seeds _ _ (list-strict S l m metas))

  execute-strict :
      (S : Spl) (T : Token) (accounts : List AccountInfo) (amount : ℕ)
      → process_execute (strict R program_id) S T program_id accounts amount
        ≡ process_execute R S T program_id accounts amount
  unfolding process_execute check_extra_accounts get_extra_account_metas_address
      get_extra_account_metas_address_and_bump_seed track_transfer
  execute-strict S T accounts amount = refl

  instruction-strict :
      (S : Spl) (T : Token) (accounts : List AccountInfo) (i : TransferHookInstruction S.Meta)
      → process_instruction_of (strict R program_id) S T program_id accounts i
        ≡ process_instruction_of R S T program_id accounts i
  unfolding process_instruction_of
  instruction-strict S T accounts (execute_of amount) = execute-strict S T accounts amount
  instruction-strict S T accounts (initialize_of metas) = initialize_list-strict S T accounts metas
  instruction-strict S T accounts (update_of metas) = refl

  standard-strict :
      (S : Spl) (T : Token) (accounts : List AccountInfo) (input : Bytes)
      → process_standard (strict R program_id) S T program_id accounts input
        ≡ process_standard R S T program_id accounts input
  unfolding process_standard
  standard-strict S T accounts input =
      λ j. lift (Instruction.unpack S input) >>= (λ i. instruction-strict S T accounts i j)

  -- Where a derived address is the one that its seeds with the bump seed sign for: every call of the
  -- program runs the same on a runtime that refuses to sign with seeds that derive none of the
  -- accounts that are passed on. So the seeds that the program signs with are the right ones.
  pub process-strict :
      (S : Spl) (T : Token) (accounts : List AccountInfo) (input : Bytes)
      → process (strict R program_id) S T program_id accounts input
        ≡ process R S T program_id accounts input
  unfolding process
  process-strict S T accounts [] = standard-strict S T accounts []
  process-strict S T accounts (first ∷ rest) =
      rw (initialize-strict accounts, standard-strict S T accounts (first ∷ rest))

-- ===== src/Interface/Onchain/Resolved.antt =====
-- What the helper adds for a list of extra accounts that the library can resolve.
use transfer_hook.Prelude.{
  ℕ, ◌≡◌, refl, ap, false, none, some, List, [], ◌∷◌, ◌++◌, map, Bytes, replicate,
}
use transfer_hook.Solana.Error.{Result, ok, err, panic}
use transfer_hook.Solana.Account.{Pubkey, AccountInfo, AccountMeta, new_readonly}
use transfer_hook.Solana.Exec.{World, contains, continue, pure}
use transfer_hook.Solana.Exec.Atomic.{run_from}
use transfer_hook.Solana.Sdk.{Runtime, Spl}
use transfer_hook.Solana.Sdk.ExtraAccounts.{ExtraAccounts, StandsFor}
use transfer_hook.Interface.Instruction.{execute}
use transfer_hook.Interface.Onchain.{
  Call, find_key, finished, push_account, resolve, validation_pubkey, validated_call, add_resolved,
  add_validation, add_extra_accounts_for_execute_cpi,
}
use transfer_hook.Interface.Onchain.Added.{behind}
use transfer_hook.Interface.Onchain.Grown.{extended, slice_from_5}

abbrev pub Extras : Type 0
Extras = List AccountMeta × List AccountInfo

abbrev pub onto : AccountMeta → AccountInfo → Result Extras → Result Extras
onto meta info (ok (metas, infos)) = ok (meta ∷ metas, info ∷ infos)
onto meta info (err e) = err e
onto meta info panic = panic

abbrev pub keys_of : List AccountMeta → List Pubkey
keys_of metas = map (λ m. m.pubkey) metas

-- A list of extra accounts, each of which is new to the instruction, in order: the handle of each
-- is taken from the additional ones, and the first that has none there ends it.
pub data Resolves (R : Runtime) (S : Spl) (X : ExtraAccounts S) (additional : List AccountInfo)
    : List S.Meta → Call → Result Extras → Type 0 where
  none_left : {call : Call} → Resolves R S X additional [] call (ok ([], []))
  next :
      {meta : S.Meta} {metas : List S.Meta} {call : Call} {account : AccountMeta}
      {info : AccountInfo} {result : Result Extras}
      → StandsFor R S X call.0 (map (λ a. a.key) call.1) meta account
      → contains (keys_of call.0.accounts) account.pubkey ≡ false
      → find_key account.pubkey additional ≡ some info
      → Resolves R S X additional metas (push_account call.0 account, call.1 ++ (info ∷ [])) result
      → Resolves R S X additional (meta ∷ metas) call (onto account info result)
  missing :
      {meta : S.Meta} {metas : List S.Meta} {call : Call} {account : AccountMeta}
      → StandsFor R S X call.0 (map (λ a. a.key) call.1) meta account
      → contains (keys_of call.0.accounts) account.pubkey ≡ false
      → find_key account.pubkey additional ≡ none
      → Resolves R S X additional (meta ∷ metas) call (err X.incorrect_account)

abbrev pub grown : Call → Result Extras → Result Call
grown call (ok (metas, infos)) = ok (extended call metas infos)
grown call (err e) = err e
grown call panic = panic

-- `add_to_cpi_instruction` on data that `init` wrote, where no data is borrowed to be written.
pub record ResolvesInOrder (R : Runtime) (S : Spl) (X : ExtraAccounts S) : Type 0 where
  pub in_order_lem :
      (discriminator bytes : Bytes) (size : ℕ) (metas : List S.Meta) (w : World) (call : Call)
      (additional : List AccountInfo) {result : Result Extras}
      → S.init discriminator (replicate size 0) metas ≡ (ok tt, bytes)
      → w.exclusive ≡ []
      → Resolves R S X additional metas call result
      → finished (S.add_to_cpi_instruction discriminator w call.0 call.1 bytes additional)
        ≡ grown call result

module _ (R : Runtime) (S : Spl) (X : ExtraAccounts S) (O : ResolvesInOrder R S X)
    (program_id : Pubkey) (source mint destination authority : AccountInfo)
    (additional : List AccountInfo) (amount : ℕ) where
  abbrev pub validated : AccountInfo → Call
  validated = validated_call R S program_id source mint destination authority additional amount

  abbrev pub target : Pubkey
  target = validation_pubkey R S program_id source mint destination authority additional amount

  -- The extra accounts behind those of the call, then the validation account and the program.
  abbrev pub completed : Call → AccountInfo → AccountInfo → Result Extras → Result Call
  completed cpi validation program_info (ok (metas, infos)) = ok (
    record (cpi.0) {
      accounts =
          cpi.0.accounts
          ++ (metas ++ (new_readonly target false ∷ new_readonly program_id false ∷ []));
    },
    cpi.1 ++ (infos ++ (validation ∷ program_info ∷ [])),
  )
  completed cpi validation program_info (err e) = err e
  completed cpi validation program_info panic = panic

  module _ (cpi : Call) (w : World) (validation program_info : AccountInfo) (size : ℕ)
      (metas : List S.Meta) (program_there : find_key program_id additional ≡ some program_info)
      (validation_there : find_key target additional ≡ some validation) (free : w.exclusive ≡ [])
      (written : S.init S.execute_discriminator (replicate size 0) metas
        ≡ (ok tt, (w.accounts validation.key).contents)) where
    resolve_lem :
        (result : Result Extras)
        → Resolves R S X additional metas (validated validation) result
        → resolve R S validation additional (validated validation) w
          ≡ (grown (validated validation) result, w)
    unfolding resolve
    resolve_lem result there =
        let held = record w { shared = validation.key ∷ w.shared } in
        let n : contains w.exclusive validation.key ≡ false = rw free refl in
        rw n (
          ap (λ r. (r, w))
            (O.in_order_lem S.execute_discriminator (w.accounts validation.key).contents size metas
              held (validated validation) additional written free there))

    abbrev listed : Result Extras → Result Call
    listed (ok (metas, infos)) = ok (
      record (cpi.0) { accounts = (cpi.0.accounts ++ metas) ++ (new_readonly target false ∷ []) },
      (cpi.1 ++ infos) ++ (validation ∷ []),
    )
    listed (err e) = err e
    listed panic = panic

    add_resolved_lem :
        (result : Result Extras)
        → Resolves R S X additional metas (validated validation) result
        → add_resolved R S program_id source mint destination authority additional amount validation
            cpi w
          ≡ (listed result, w)
    unfolding add_resolved execute
    add_resolved_lem (ok (metas, infos)) there =
        run_from (resolve R S validation additional (validated validation)) _ w
          (resolve_lem (ok (metas, infos)) there)
          (rw
            (
              slice_from_5 (validated validation).0.accounts metas refl,
              slice_from_5 (validated validation).1 infos refl,
            )
            refl)
    add_resolved_lem (err e) there =
        run_from (resolve R S validation additional (validated validation)) _ w
          (resolve_lem (err e) there) refl
    add_resolved_lem panic there =
        run_from (resolve R S validation additional (validated validation)) _ w
          (resolve_lem panic there) refl

    add_validation_lem :
        (result : Result Extras)
        → Resolves R S X additional metas (validated validation) result
        → add_validation R S program_id source mint destination authority additional amount cpi w
          ≡ (listed result, w)
    unfolding add_validation
    add_validation_lem result there =
        rw (add_validation, validation_there) (add_resolved_lem result there)

    end_lem :
        (result : Result Extras)
        → continue
            (listed result)
            (λ call.
              pure (
                push_account call.0 (new_readonly program_id false),
                call.1 ++ (program_info ∷ []),
              ))
            w
          ≡ (completed cpi validation program_info result, w)
    end_lem (ok (metas, infos)) =
        rw
          (
            behind cpi.0.accounts metas (new_readonly target false) (new_readonly program_id false),
            behind cpi.1 infos validation program_info,
          )
          refl
    end_lem (err e) = refl
    end_lem panic = refl

    -- Where the library resolves in order a list of fixed and derived accounts that are new to the
    -- `Execute` instruction, the additional accounts hold the program and the validation account, no
    -- data is borrowed to be written and the validation account holds such a list, as `init` wrote
    -- it: `add_extra_accounts_for_execute_cpi` returns the accounts of the instruction, then the
    -- extra accounts in their order, then the validation account and the program, both read only
    -- and without a signature, with the handles in the same order; where the handle of an extra
    -- account is missing, it ends with the library's error. No account is written.
    pub add_extra_accounts_resolved :
        {result : Result Extras}
        → Resolves R S X additional metas (validated validation) result
        → add_extra_accounts_for_execute_cpi R S program_id source mint destination authority
            additional amount cpi w
          ≡ (completed cpi validation program_info result, w)
    unfolding add_extra_accounts_for_execute_cpi
    add_extra_accounts_resolved {result} there = rw program_there (
        run_from
          (add_validation R S program_id source mint destination authority additional amount cpi) _
          w (add_validation_lem result there) (end_lem result))

-- ===== src/Suite/Offchain/Passes.antt =====
-- The test of interface/src/offchain.rs passes.
use transfer_hook.Prelude.{◌≡◌, refl, true, false, some, List, [], ◌∷◌, Bytes, bytes_eq_self}
use transfer_hook.Solana.Error.{ok}
use transfer_hook.Solana.Account.{Pubkey, new_readonly, new_writable}
use transfer_hook.Solana.Sdk.{Runtime, Spl, IsCodec}
use transfer_hook.Solana.Sdk.ExtraAccounts.{ExtraAccounts, fixed}
use transfer_hook.Interface.Instruction
use transfer_hook.Interface.Onchain.{push_account}
use transfer_hook.Interface.Offchain.{done, Resolver, misses_any}
use transfer_hook.Interface.Offchain.Outcome.{add_extra_account_metas_errors}
use transfer_hook.Interface.Offchain.Resolved.{
  Completes, none_left, next, CompletesInOrder, add_extra_account_metas_resolved,
}
use transfer_hook.Suite.ExtraMetas.{
  extra_meta_1, extra_meta_2, seeds_3, seeds_4, extra_metas, setup_validation_data,
}
use transfer_hook.Suite.ExtraMetas.Built.{
  distinct, distinct_at, distinct_take, IsBuilt, setup-IsBuilt,
}
use transfer_hook.Suite.ExtraMetas.Stands.{address_3, address_4, stands_3, stands_4}
use transfer_hook.Suite.Offchain

module _ (R : Runtime) (S : Spl) (X : ExtraAccounts S) (codec : IsCodec S)
    (s m d a v e1 e2 p : Pubkey) where
  abbrev pub e3 : Pubkey
  e3 = address_3 R S X codec p s d v e1

  abbrev pub e4 : Pubkey
  e4 = address_4 R S X codec p s d v e1

  abbrev pub nine : List Pubkey
  nine = s ∷ m ∷ d ∷ a ∷ v ∷ e1 ∷ e2 ∷ e3 ∷ e4 ∷ []

  -- The library completes the `Execute` instruction with the four accounts.
  pub Completes-all :
      {m1 m2 m3 m4 : S.Meta}
      → distinct nine ≡ true
      → X.new_with_pubkey e1 true false ≡ ok m1
      → X.new_with_pubkey e2 true false ≡ ok m2
      → X.new_with_seeds (seeds_3 S X) false true ≡ ok m3
      → X.new_with_seeds (seeds_4 S X) false true ≡ ok m4
      → Completes R S X
          (m1 ∷ m2 ∷ m3 ∷ m4 ∷ [])
          (push_account (Instruction.execute S p s m d a 100) (new_readonly v false))
          (new_readonly e1 true
            ∷ new_readonly e2 true
            ∷ new_writable e3 false
            ∷ new_writable e4 false
            ∷ [])
  unfolding Instruction.execute
  Completes-all D made_1 made_2 made_3 made_4 =
      next (fixed e1 true false made_1) (distinct_take nine 5 D refl) (
        next (fixed e2 true false made_2) (distinct_take nine 6 D refl) (
          next (stands_3 R S X codec p s d v e1 _ _ refl refl made_3 refl)
            (distinct_take nine 7 D refl)
            (next (stands_4 R S X codec p s d v e1 _ _ refl refl made_4 refl refl)
              (distinct_take nine 8 D refl) none_left)))

module _ (R : Runtime) (S : Spl) (X : ExtraAccounts S) {Failure : Type 0} (C : Resolver Failure)
    (K : Offchain.Fresh) where
  abbrev v_key : Pubkey
  v_key = Offchain.validate_state_pubkey R S X C K

  -- The keys of the test: those of the transfer and of the extra accounts.
  abbrev pub keys : List Pubkey
  keys =
      K.source
      ∷ K.mint
      ∷ K.destination
      ∷ K.authority
      ∷ v_key
      ∷ extra_meta_1
      ∷ extra_meta_2
      ∷ Offchain.extra_meta_3_pubkey R S X C K
      ∷ Offchain.extra_meta_4_pubkey R S X C K
      ∷ []

  module _ (codec : IsCodec S) (O : CompletesInOrder R S X C) (D : distinct keys ≡ true)
      {bytes : Bytes} (built : setup_validation_data S X ≡ ok bytes) where
    B : IsBuilt S X bytes
    B = setup-IsBuilt S X built

    fetched :
        (key : Pubkey)
        → Offchain.mock_fetch_account_data_fn S X {Failure = Failure} key ≡ done (some bytes)
    unfolding Offchain.mock_fetch_account_data_fn extra_metas
    fetched key = rw (B.made_1, B.made_2, B.made_3, B.made_4, B.sized, B.written) refl

    source_missing :
        misses_any
          (new_readonly K.mint false
            ∷ new_writable K.destination false
            ∷ new_readonly K.authority true
            ∷ [])
          (K.source ∷ K.mint ∷ K.destination ∷ K.authority ∷ [])
        ≡ true
    source_missing =
        rw
          (
            distinct_at keys 1 0 D (λ e. cc) refl refl,
            distinct_at keys 2 0 D (λ e. cc) refl refl,
            distinct_at keys 3 0 D (λ e. cc) refl refl,
          )
          refl

    all_there :
        misses_any
          (new_writable K.source false
            ∷ new_readonly K.mint false
            ∷ new_writable K.destination false
            ∷ new_readonly K.authority true
            ∷ [])
          (K.source ∷ K.mint ∷ K.destination ∷ K.authority ∷ [])
        ≡ false
    all_there =
        rw
          (
            bytes_eq_self K.source,
            bytes_eq_self K.mint,
            bytes_eq_self K.destination,
            bytes_eq_self K.authority,
            distinct_at keys 0 1 D (λ e. cc) refl refl,
            distinct_at keys 0 2 D (λ e. cc) refl refl,
            distinct_at keys 1 2 D (λ e. cc) refl refl,
            distinct_at keys 0 3 D (λ e. cc) refl refl,
            distinct_at keys 1 3 D (λ e. cc) refl refl,
            distinct_at keys 2 3 D (λ e. cc) refl refl,
          )
          refl

    -- Where the discriminators have eight bytes each and differ, a list view reads back what it
    -- holds, the libraries build the list of the test, a client's library completes instructions in
    -- order and the nine keys are all different, `test_add_extra_account_metas_for_execute` passes:
    -- each of its assertions holds.
    pub test_add_extra_account_metas_passes : Offchain.TestAddExtraAccountMetasForExecute R S X C K
    test_add_extra_account_metas_passes =
        let completes =
          Completes-all R S X codec K.source K.mint K.destination K.authority v_key extra_meta_1
            extra_meta_2 Offchain.program_id D B.made_1 B.made_2 B.made_3 B.made_4 in
        (
          (add_extra_account_metas_errors R S C _ Offchain.program_id K.source K.mint K.destination
                K.authority 100 (Offchain.mock_fetch_account_data_fn S X)).1
              bytes (fetched _) source_missing,
          (
            _,
            add_extra_account_metas_resolved R S X C O _ Offchain.program_id K.source K.mint
                K.destination K.authority 100 (Offchain.mock_fetch_account_data_fn S X) bytes B.size
                _ all_there B.written (fetched _) (λ key. (_, fetched key)) completes,
            refl,
          ),
        )

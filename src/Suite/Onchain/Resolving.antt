-- ===== src/Suite/Onchain/Resolving.antt =====
-- How the library resolves the list of the test, with all handles there and with one missing.
use transfer_hook.Prelude.{◌≡◌, refl, true, false, [], ◌∷◌}
use transfer_hook.Solana.Error.{ok, err}
use transfer_hook.Solana.Account.{Pubkey, new_writable, new_readonly}
use transfer_hook.Solana.Sdk.{Runtime, Spl, IsCodec}
use transfer_hook.Solana.Sdk.ExtraAccounts.{ExtraAccounts, fixed}
use transfer_hook.Interface.Instruction
use transfer_hook.Interface.Onchain.{Call, push_account}
use transfer_hook.Interface.Onchain.Resolved.{Resolves, none_left, next, missing}
use transfer_hook.Suite.ExtraMetas.{seeds_3, seeds_4}
use transfer_hook.Suite.ExtraMetas.Built.{distinct, distinct_take}
use transfer_hook.Suite.ExtraMetas.Stands.{address_3, address_4, stands_3, stands_4}
use transfer_hook.Suite.Onchain.{handle, signer_handle}
use transfer_hook.Suite.Onchain.Found.{ten, all, without_third, found_all, found_without_third}

module _ (R : Runtime) (S : Spl) (X : ExtraAccounts S) (codec : IsCodec S)
    (s m d a v e1 e2 p : Pubkey) where
  abbrev pub e3 : Pubkey
  e3 = address_3 R S X codec p s d v e1

  abbrev pub e4 : Pubkey
  e4 = address_4 R S X codec p s d v e1

  -- The `Execute` instruction with the validation account, and the handles for it.
  abbrev pub executed : Call
  executed = (
    push_account (Instruction.execute S p s m d a 100) (new_readonly v false),
    handle s ∷ handle m ∷ handle d ∷ handle a ∷ handle v ∷ [],
  )

  module _ (D : distinct (ten s m d a v e1 e2 e3 e4 p) ≡ true) {m1 m2 m3 m4 : S.Meta}
      (made_1 : X.new_with_pubkey e1 true false ≡ ok m1)
      (made_2 : X.new_with_pubkey e2 true false ≡ ok m2)
      (made_3 : X.new_with_seeds (seeds_3 S X) false true ≡ ok m3)
      (made_4 : X.new_with_seeds (seeds_4 S X) false true ≡ ok m4) where
    pub Resolves-all :
        Resolves R S X (all s m d a v e1 e2 e3 e4 p) (m1 ∷ m2 ∷ m3 ∷ m4 ∷ []) executed (
          ok (
            new_readonly e1 true
                ∷ new_readonly e2 true
                ∷ new_writable e3 false
                ∷ new_writable e4 false
                ∷ [],
            signer_handle e1 ∷ signer_handle e2 ∷ handle e3 ∷ handle e4 ∷ [],
          ))
    unfolding Instruction.execute
    Resolves-all =
        let (f1, f2, f3, f4, _, _) = found_all s m d a v e1 e2 e3 e4 p D in
        let t = ten s m d a v e1 e2 e3 e4 p in
        next (fixed e1 true false made_1) (distinct_take t 5 D refl) f1 (
          next (fixed e2 true false made_2) (distinct_take t 6 D refl) f2 (
            next (stands_3 R S X codec p s d v e1 _ _ refl refl made_3 refl)
              (distinct_take t 7 D refl) f3
              (next (stands_4 R S X codec p s d v e1 _ _ refl refl made_4 refl refl)
                (distinct_take t 8 D refl) f4 none_left)))

    pub Resolves-without_third :
        Resolves R S X
          (without_third s m d a v e1 e2 e3 e4 p)
          (m1 ∷ m2 ∷ m3 ∷ m4 ∷ [])
          executed
          (err X.incorrect_account)
    unfolding Instruction.execute
    Resolves-without_third =
        let (f1, f2, f3, _, _) = found_without_third s m d a v e1 e2 e3 e4 p D in
        let t = ten s m d a v e1 e2 e3 e4 p in
        next (fixed e1 true false made_1) (distinct_take t 5 D refl) f1 (
          next (fixed e2 true false made_2) (distinct_take t 6 D refl) f2 (
            missing (stands_3 R S X codec p s d v e1 _ _ refl refl made_3 refl)
              (distinct_take t 7 D refl) f3))

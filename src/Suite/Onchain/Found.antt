-- ===== src/Suite/Onchain/Found.antt =====
-- Which handles are found among the additional ones of the test.
use transfer_hook.Prelude.{
  ℕ, ◌≡◌, refl, true, false, ◌==◌, none, some, List, [], ◌∷◌, bytes_eq, bytes_eq_self, arith,
  get_elem?,
}
use transfer_hook.Solana.Account.{Pubkey, AccountInfo}
use transfer_hook.Interface.Onchain.{find_key}
use transfer_hook.Suite.ExtraMetas.Built.{distinct, distinct_at}
use transfer_hook.Suite.Onchain.{handle, signer_handle}

eq_self : (i : ℕ) → (i == i) ≡ true
eq_self i = ground arith

module _ (s m d a v e1 e2 e3 e4 p : Pubkey) where
  abbrev pub ten : List Pubkey
  ten = s ∷ m ∷ d ∷ a ∷ v ∷ e1 ∷ e2 ∷ e3 ∷ e4 ∷ p ∷ []

  abbrev pub all : List AccountInfo
  all = signer_handle e1 ∷ signer_handle e2 ∷ handle e3 ∷ handle e4 ∷ handle p ∷ handle v ∷ []

  abbrev pub without_validation : List AccountInfo
  without_validation = signer_handle e1 ∷ signer_handle e2 ∷ handle e3 ∷ handle e4 ∷ handle p ∷ []

  abbrev pub without_program : List AccountInfo
  without_program = signer_handle e1 ∷ signer_handle e2 ∷ handle e3 ∷ handle e4 ∷ handle v ∷ []

  abbrev pub without_third : List AccountInfo
  without_third = signer_handle e1 ∷ signer_handle e2 ∷ handle e4 ∷ handle v ∷ handle p ∷ []

  module _ (D : distinct ten ≡ true) where
    apart :
        (i j : ℕ) {x y : Pubkey}
        → (i == j) ≡ false
        → get_elem? ten i ≡ some x
        → get_elem? ten j ≡ some y
        → bytes_eq x y ≡ false
    apart i j ne = distinct_at ten i j D (λ e. cc (rw (e, eq_self j) at ne))

    pub found_all :
        (find_key e1 all ≡ some (signer_handle e1))
        × (find_key e2 all ≡ some (signer_handle e2))
        × (find_key e3 all ≡ some (handle e3))
        × (find_key e4 all ≡ some (handle e4))
        × (find_key p all ≡ some (handle p))
        × (find_key v all ≡ some (handle v))
    found_all = (
      rw (bytes_eq_self e1) refl,
      rw (apart 5 6 refl refl refl, bytes_eq_self e2) refl,
      rw (apart 5 7 refl refl refl, apart 6 7 refl refl refl, bytes_eq_self e3) refl,
      rw
          (
            apart 5 8 refl refl refl,
            apart 6 8 refl refl refl,
            apart 7 8 refl refl refl,
            bytes_eq_self e4,
          )
          refl,
      rw
          (
            apart 5 9 refl refl refl,
            apart 6 9 refl refl refl,
            apart 7 9 refl refl refl,
            apart 8 9 refl refl refl,
            bytes_eq_self p,
          )
          refl,
      rw
          (
            apart 5 4 refl refl refl,
            apart 6 4 refl refl refl,
            apart 7 4 refl refl refl,
            apart 8 4 refl refl refl,
            apart 9 4 refl refl refl,
            bytes_eq_self v,
          )
          refl,
    )

    pub found_without_validation :
        (find_key p without_validation ≡ some (handle p)) × (find_key v without_validation ≡ none)
    found_without_validation = (
      rw
          (
            apart 5 9 refl refl refl,
            apart 6 9 refl refl refl,
            apart 7 9 refl refl refl,
            apart 8 9 refl refl refl,
            bytes_eq_self p,
          )
          refl,
      rw
          (
            apart 5 4 refl refl refl,
            apart 6 4 refl refl refl,
            apart 7 4 refl refl refl,
            apart 8 4 refl refl refl,
            apart 9 4 refl refl refl,
          )
          refl,
    )

    pub found_without_program : find_key p without_program ≡ none
    found_without_program =
        rw
          (
            apart 5 9 refl refl refl,
            apart 6 9 refl refl refl,
            apart 7 9 refl refl refl,
            apart 8 9 refl refl refl,
            apart 4 9 refl refl refl,
          )
          refl

    pub found_without_third :
        (find_key e1 without_third ≡ some (signer_handle e1))
        × (find_key e2 without_third ≡ some (signer_handle e2))
        × (find_key e3 without_third ≡ none)
        × (find_key p without_third ≡ some (handle p))
        × (find_key v without_third ≡ some (handle v))
    found_without_third = (
      rw (bytes_eq_self e1) refl,
      rw (apart 5 6 refl refl refl, bytes_eq_self e2) refl,
      rw
          (
            apart 5 7 refl refl refl,
            apart 6 7 refl refl refl,
            apart 8 7 refl refl refl,
            apart 4 7 refl refl refl,
            apart 9 7 refl refl refl,
          )
          refl,
      rw
          (
            apart 5 9 refl refl refl,
            apart 6 9 refl refl refl,
            apart 8 9 refl refl refl,
            apart 4 9 refl refl refl,
            bytes_eq_self p,
          )
          refl,
      rw
          (
            apart 5 4 refl refl refl,
            apart 6 4 refl refl refl,
            apart 8 4 refl refl refl,
            bytes_eq_self v,
          )
          refl,
    )

-- ===== src/Suite/ExtraMetas.antt =====
-- The list of extra accounts that the tests of interface/src/onchain.rs and of
-- interface/src/offchain.rs write, one and the same.
pub mod Built
pub mod Stands
use transfer_hook.Prelude.{⊤, ℕ, true, false, List, [], ◌∷◌, Bytes, length, replicate}
use transfer_hook.Solana.Error.{Result, ok, err, panic, ◌>>=◌, unwrap}
use transfer_hook.Solana.Account.{Pubkey}
use transfer_hook.Solana.Sdk.{Spl}
use transfer_hook.Solana.Sdk.ExtraAccounts.{ExtraAccounts}

abbrev pub extra_meta_1 : Pubkey
extra_meta_1 = replicate 32 2

abbrev pub extra_meta_2 : Pubkey
extra_meta_2 = replicate 32 3

-- What a call left in its `&mut` slice, where it returned.
abbrev pub left : Result ⊤ × Bytes → Result Bytes
left (ok _, bytes) = ok bytes
left (err e, bytes) = err e
left (panic, bytes) = panic

module _ (S : Spl) (X : ExtraAccounts S) where
  -- source, destination, validation state
  abbrev pub seeds_3 : List X.Seed
  seeds_3 = X.account_key 0 ∷ X.account_key 2 ∷ X.account_key 4 ∷ []

  -- amount, destination, extra meta 1, extra meta 3 (PDA)
  abbrev pub seeds_4 : List X.Seed
  seeds_4 = X.instruction_data 8 8 ∷ X.account_key 2 ∷ X.account_key 5 ∷ X.account_key 7 ∷ []

  unfoldable pub extra_metas : Result (List S.Meta)
  extra_metas = do
    meta_1 ← unwrap (X.new_with_pubkey extra_meta_1 true false)
    meta_2 ← unwrap (X.new_with_pubkey extra_meta_2 true false)
    meta_3 ← unwrap (X.new_with_seeds seeds_3 false true)
    meta_4 ← unwrap (X.new_with_seeds seeds_4 false true)
    ok (meta_1 ∷ meta_2 ∷ meta_3 ∷ meta_4 ∷ [])

  unfoldable pub setup_validation_data : Result Bytes
  unfolding extra_metas
  setup_validation_data = do
    metas ← extra_metas
    account_size ← unwrap (S.size_of (length metas))
    unwrap (left (S.init S.execute_discriminator (replicate account_size 0) metas))

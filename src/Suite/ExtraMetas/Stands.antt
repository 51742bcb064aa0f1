-- ===== src/Suite/ExtraMetas/Stands.antt =====
-- The four extra accounts of the tests, in an `Execute` instruction with five accounts.
use transfer_hook.Prelude.{
  ◌+◌, ◌≤◌, ◌≡◌, refl, subst, true, false, some, List, [], ◌∷◌, Bytes, length, take, drop,
  drop-append, length-append, length-to_le_bytes, arith, to_le_bytes, get_elem?,
}
use transfer_hook.Solana.Error.{ok}
use transfer_hook.Solana.Account.{Pubkey, AccountMeta, new_writable, new_readonly}
use transfer_hook.Solana.Account
use transfer_hook.Solana.Sdk.{Runtime, Spl, IsCodec}
use transfer_hook.Solana.Sdk.ExtraAccounts.{
  ExtraAccounts, StandsFor, derived, no_seeds, seed_of, of_data, of_key,
}
use transfer_hook.Interface.Instruction
use transfer_hook.Interface.Instruction.{execute_of}
use transfer_hook.Suite.ExtraMetas.{seeds_3, seeds_4}

amount_long : take 8 (to_le_bytes 8 100) ≡ to_le_bytes 8 100
unfolding to_le_bytes
amount_long = refl

module _ (S : Spl) (codec : IsCodec S) where
  amount_bytes : take 8 (drop 8 (Instruction.pack S (execute_of 100))) ≡ to_le_bytes 8 100
  unfolding Instruction.pack
  amount_bytes =
      rw (drop-append 8 S.execute_discriminator (to_le_bytes 8 100) codec.length-execute)
        amount_long

  long_enough : 8 + 8 ≤ length (Instruction.pack S (execute_of 100))
  unfolding Instruction.pack
  long_enough = omega (
    arith,
    length-append S.execute_discriminator (to_le_bytes 8 100),
    length-to_le_bytes 8 100,
    codec.length-execute,
  )

module _ (R : Runtime) (S : Spl) (X : ExtraAccounts S) (codec : IsCodec S)
    (p s d v e1 : Pubkey) where
  -- The address from the source, the destination and the validation account.
  abbrev pub address_3 : Pubkey
  address_3 = (R.find_program_address (s ∷ d ∷ v ∷ []) p).0

  -- The address from the amount, the destination and two extra accounts.
  abbrev pub address_4 : Pubkey
  address_4 = (R.find_program_address (to_le_bytes 8 100 ∷ d ∷ e1 ∷ address_3 ∷ []) p).0

  module _ (accounts : List AccountMeta) (keys : List Pubkey) (at_0 : get_elem? keys 0 ≡ some s)
      (at_2 : get_elem? keys 2 ≡ some d) where
    abbrev carrying : Account.Instruction
    carrying = record {
      program_id = p;
      accounts = accounts;
      contents = Instruction.pack S (execute_of 100);
    }

    pub stands_3 :
        {meta : S.Meta}
        → X.new_with_seeds (seeds_3 S X) false true ≡ ok meta
        → get_elem? keys 4 ≡ some v
        → StandsFor R S X carrying keys meta (new_writable address_3 false)
    stands_3 made at_4 =
        derived (seeds_3 S X) false true made
          (seed_of (of_key 0 at_0) (seed_of (of_key 2 at_2) (seed_of (of_key 4 at_4) no_seeds)))

    pub stands_4 :
        {meta : S.Meta}
        → X.new_with_seeds (seeds_4 S X) false true ≡ ok meta
        → get_elem? keys 5 ≡ some e1
        → get_elem? keys 7 ≡ some address_3
        → StandsFor R S X carrying keys meta (new_writable address_4 false)
    stands_4 {meta} made at_5 at_7 =
        subst
          (λ (bytes : Bytes).
            StandsFor R S X carrying keys meta
              (new_writable (R.find_program_address (bytes ∷ d ∷ e1 ∷ address_3 ∷ []) p).0 false))
          (amount_bytes S codec)
          (derived (seeds_4 S X) false true made (
            seed_of (of_data 8 8 (long_enough S codec)) (
              seed_of (of_key 2 at_2)
                (seed_of (of_key 5 at_5) (seed_of (of_key 7 at_7) no_seeds)))))

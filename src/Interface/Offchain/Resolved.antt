-- ===== src/Interface/Offchain/Resolved.antt =====
-- What a client's helper adds for a list of extra accounts that the library can resolve.
use transfer_hook.Prelude.{
  ℕ, ◌≡◌, refl, ap, false, Option, some, List, [], ◌∷◌, ◌++◌, Bytes, replicate,
}
use transfer_hook.Solana.Error.{ok}
use transfer_hook.Solana.Account.{Pubkey, AccountMeta, Instruction, new_readonly}
use transfer_hook.Solana.Exec.{contains}
use transfer_hook.Solana.Sdk.{Runtime, Spl}
use transfer_hook.Solana.Sdk.ExtraAccounts.{ExtraAccounts, StandsFor}
use transfer_hook.Interface.Address.{get_extra_account_metas_address}
use transfer_hook.Interface.Instruction
use transfer_hook.Interface.Onchain.{push_account}
use transfer_hook.Interface.Onchain.Resolved.{keys_of}
use transfer_hook.Interface.Offchain.Outcome.{metas_from_5, finish_accounts}
use transfer_hook.Interface.Offchain.{
  Fetch, done, Resolver, misses_any, add_extra_account_metas_for_execute,
}

-- A list of extra accounts, each of which is new to the instruction, in order.
pub data Completes (R : Runtime) (S : Spl) (X : ExtraAccounts S)
    : List S.Meta → Instruction → List AccountMeta → Type 0 where
  none_left : {instruction : Instruction} → Completes R S X [] instruction []
  next :
      {meta : S.Meta} {metas : List S.Meta} {instruction : Instruction} {account : AccountMeta}
      {more : List AccountMeta}
      → StandsFor R S X instruction (keys_of instruction.accounts) meta account
      → contains (keys_of instruction.accounts) account.pubkey ≡ false
      → Completes R S X metas (push_account instruction account) more
      → Completes R S X (meta ∷ metas) instruction (account ∷ more)

module _ {Failure : Type 0} where
  -- Every account that is asked for is fetched, there or not.
  abbrev pub Fetches : Fetch Failure → Type 0
  Fetches fetch = (key : Pubkey) → (found : Option Bytes) × (fetch key ≡ done found)

  -- `add_to_instruction` on data that `init` wrote, where each account is fetched.
  pub record CompletesInOrder (R : Runtime) (S : Spl) (X : ExtraAccounts S) (C : Resolver Failure)
      : Type 0 where
    pub in_order_lem :
        (discriminator bytes : Bytes) (size : ℕ) (metas : List S.Meta) (instruction : Instruction)
        (fetch : Fetch Failure) {more : List AccountMeta}
        → S.init discriminator (replicate size 0) metas ≡ (ok tt, bytes)
        → Fetches fetch
        → Completes R S X metas instruction more
        → C.add_to_instruction discriminator instruction fetch bytes
          ≡ done (record instruction { accounts = instruction.accounts ++ more })

  module _ (R : Runtime) (S : Spl) (X : ExtraAccounts S) (C : Resolver Failure)
      (O : CompletesInOrder R S X C) (instruction : Instruction)
      (program_id source mint destination authority : Pubkey) (amount : ℕ)
      (fetch : Fetch Failure) where
    abbrev pub target : Pubkey
    target = get_extra_account_metas_address R mint program_id

    -- The `Execute` instruction with the validation account.
    abbrev pub validated : Instruction
    validated =
        push_account (Instruction.execute S program_id source mint destination authority amount)
          (new_readonly target false)

    -- Where the client's library completes in order a list of fixed and derived accounts that are
    -- new to the `Execute` instruction, the instruction has the four keys of the transfer, every
    -- account is fetched and the validation account's data is such a list, as `init` wrote it: the
    -- helper returns the instruction with its accounts, then the extra accounts in their order, then
    -- the program and the validation account, both read only and without a signature.
    pub add_extra_account_metas_resolved :
        (bytes : Bytes) (size : ℕ) (metas : List S.Meta) {more : List AccountMeta}
        → misses_any instruction.accounts (source ∷ mint ∷ destination ∷ authority ∷ []) ≡ false
        → S.init S.execute_discriminator (replicate size 0) metas ≡ (ok tt, bytes)
        → fetch target ≡ done (some bytes)
        → Fetches fetch
        → Completes R S X metas validated more
        → add_extra_account_metas_for_execute R S C instruction program_id source mint destination
            authority amount fetch
          ≡ done (record instruction {
            accounts =
                instruction.accounts
                ++ (more ++ (new_readonly program_id false ∷ new_readonly target false ∷ []));
          })
    unfolding add_extra_account_metas_for_execute Instruction.execute
    add_extra_account_metas_resolved bytes size metas {more} listed written fetched fetches there =
        rw
          (
            fetched,
            listed,
            O.in_order_lem S.execute_discriminator bytes size metas validated fetch written fetches
                there,
            metas_from_5 validated.accounts more refl,
          )
          (ap (λ accounts. done (record instruction { accounts = accounts }))
            (finish_accounts R S C instruction program_id source mint destination authority amount
              fetch more))

-- ===== src/Interface/Offchain.antt =====
-- interface/src/offchain.rs: the helper with which a client completes an instruction.
--
-- The future that fetches an account's data is a function from the address: the helper awaits each
-- at once and keeps no state between them.
pub mod Outcome
pub mod Resolved
pub mod Total
use transfer_hook.Prelude.{
  ℕ, ◌≡◌, Bool, false, ◌||◌, not, Option, none, some, List, [], ◌∷◌, ◌++◌, Bytes, bytes_eq, length,
  drop, ltb, if◌then◌else◌,
}
use transfer_hook.Solana.Error.{ProgramError, invalid_account_data}
use transfer_hook.Solana.Account.{Pubkey, AccountMeta, Instruction, new_readonly}
use transfer_hook.Solana.Sdk.{Runtime, Spl}
use transfer_hook.Interface.Error.{TransferHookError, incorrect_account}
use transfer_hook.Interface.Address.{get_extra_account_metas_address}
use transfer_hook.Interface.Instruction
use transfer_hook.Interface.Onchain.{push_account}

-- `AccountFetchError` is a boxed error: one of the client's, a `ProgramError` or one of the
-- interface's.
pub data AccountFetchError (Failure : Type 0) : Type 0 where
  of_client : Failure → AccountFetchError Failure
  of_program : ProgramError → AccountFetchError Failure
  of_hook : TransferHookError → AccountFetchError Failure

pub data Fetched (Failure A : Type 0) : Type 0 where
  done : A → Fetched Failure A
  failed : AccountFetchError Failure → Fetched Failure A
  panicked : Fetched Failure A

module _ {Failure : Type 0} where
  infixl 5 ◌>>=◌
  abbrev pub ◌>>=◌ :
      {A B : Type 0} → Fetched Failure A → (A → Fetched Failure B) → Fetched Failure B
  done a >>= f = f a
  failed e >>= f = failed e
  panicked >>= f = panicked

  -- `.ok_or(error)?`
  abbrev pub present : {A : Type 0} → Option A → ProgramError → Fetched Failure A
  present none e = failed (of_program e)
  present (some a) e = done a

  -- `&items[n..]`
  abbrev pub metas_from : ℕ → List AccountMeta → Fetched Failure (List AccountMeta)
  metas_from n metas = if ltb (length metas) n then panicked else done (drop n metas)

-- A client's fetch of account data.
abbrev pub Fetch : Type 0 → Type 0
Fetch Failure = Pubkey → Fetched Failure (Option Bytes)

-- `ExtraAccountMetaList::add_to_instruction`, for any client. The first argument is the
-- discriminator of the instruction type.
pub record Resolver (Failure : Type 0) : Type 0 where
  pub add_to_instruction : Bytes → Instruction → Fetch Failure → Bytes → Fetched Failure Instruction

-- `.any(|meta| meta.pubkey == key)`
abbrev pub has_key : List AccountMeta → Pubkey → Bool
has_key [] key = false
has_key (m ∷ metas) key = bytes_eq m.pubkey key || has_key metas key

-- `.any(|&key| !has_key(key))`
abbrev pub misses_any : List AccountMeta → List Pubkey → Bool
misses_any metas [] = false
misses_any metas (key ∷ keys) = not (has_key metas key) || misses_any metas keys

module _ (R : Runtime) (S : Spl) {Failure : Type 0} (C : Resolver Failure) where
  -- The instruction as it is left where the call returns. Nothing is written to it before the last
  -- step that may fail.
  unfoldable pub add_extra_account_metas_for_execute :
      Instruction
      → Pubkey
      → Pubkey
      → Pubkey
      → Pubkey
      → Pubkey
      → ℕ
      → Fetch Failure
      → Fetched Failure Instruction
  add_extra_account_metas_for_execute instruction program_id source mint destination authority
        amount fetch_account_data_fn =
      let validate_state_pubkey = get_extra_account_metas_address R mint program_id in
      (do
        fetched ← fetch_account_data_fn validate_state_pubkey
        validate_state_data ← present fetched invalid_account_data
        if misses_any instruction.accounts (source ∷ mint ∷ destination ∷ authority ∷ [])
            then failed (of_hook incorrect_account)
            else (do
              execute_instruction ←
                  C.add_to_instruction S.execute_discriminator
                    (push_account
                      (Instruction.execute S program_id source mint destination authority amount)
                      (new_readonly validate_state_pubkey false))
                    fetch_account_data_fn validate_state_data
              metas ← metas_from 5 execute_instruction.accounts
              done (
                  push_account
                    (push_account (record instruction { accounts = instruction.accounts ++ metas })
                      (new_readonly program_id false))
                    (new_readonly validate_state_pubkey false))))

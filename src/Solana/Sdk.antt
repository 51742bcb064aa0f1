-- ===== src/Solana/Sdk.antt =====
-- The libraries that the program calls, one interface for each, and what is documented of them.
-- The laws are separate records: a theorem takes only those that it rests on.
pub mod Errors
pub mod ExtraAccounts
use transfer_hook.Prelude.{
  map, ⊤, ℕ, ◌^◌, ◌<◌, ◌≡◌, ◌≢◌, Bool, Option, some, List, [], ◌∷◌, ◌++◌, Bytes, length, take,
  replicate, to_le_bytes,
}
use transfer_hook.Solana.Error.{Result, ok}
use transfer_hook.Solana.Account.{
  system_program_id, Pubkey, Account, AccountInfo, AccountMeta, Instruction,
}
use transfer_hook.Solana.Exec.{World, Exec, update}

-- solana-pubkey, solana-rent, solana-cpi, solana-system-interface, solana-account-info.
pub record Runtime : Type 0 where
  -- The address and the bump seed of a program derived address.
  pub find_program_address : List Bytes → Pubkey → Pubkey × ℕ
  -- The address that a full list of seeds signs for.
  pub create_program_address : List Bytes → Pubkey → Option Pubkey
  pub minimum_balance : ℕ → ℕ
  -- Builders of the system program's instructions.
  pub create_account : Pubkey → Pubkey → ℕ → ℕ → Pubkey → Instruction
  pub allocate : Pubkey → ℕ → Instruction
  pub assign : Pubkey → Pubkey → Instruction
  pub transfer : Pubkey → Pubkey → ℕ → Instruction
  pub invoke : Instruction → List AccountInfo → Exec ⊤
  pub invoke_signed : Instruction → List AccountInfo → List (List Bytes) → Exec ⊤
  -- `AccountInfo::resize`
  pub resize : AccountInfo → ℕ → Exec ⊤

-- A derived address is the one that its seeds with the bump seed sign for.
pub record DerivesAddresses (R : Runtime) : Type 0 where
  pub create-find :
      (seeds : List Bytes) (program_id : Pubkey)
      → let (address, bump) = R.find_program_address seeds program_id in
        R.create_program_address (seeds ++ ((bump ∷ []) ∷ [])) program_id ≡ some address

-- A call of the system program that returned left the borrows as they were, and no account changed
-- but the one it is about and the payer's.
pub record IsConfined (from to : Pubkey) (w w' : World) : Type 0 where
  pub others : (k : Pubkey) → k ≢ from → k ≢ to → w'.accounts k ≡ w.accounts k
  pub same_shared : w'.shared ≡ w.shared
  pub same_exclusive : w'.exclusive ≡ w.exclusive

-- `create_account` makes an account that was the system program's. The payer pays and keeps its
-- data and its owner.
pub record IsMade (from to owner : Pubkey) (lamports space : ℕ) (w w' : World) : Type 0 where
  pub vacant : (w.accounts to).owner ≡ system_program_id
  pub made :
      w'.accounts to ≡ record { lamports = lamports; contents = replicate space 0; owner = owner }
  pub payer :
      from ≢ to
      → ((w'.accounts from).contents ≡ (w.accounts from).contents)
        × ((w'.accounts from).owner ≡ (w.accounts from).owner)
  pub confined : IsConfined from to w w'

-- `allocate` sets the size of an account of the system program.
pub record IsAllocated (key : Pubkey) (space : ℕ) (w w' : World) : Type 0 where
  pub vacant : (w.accounts key).owner ≡ system_program_id
  pub allocated : w'.accounts key ≡ record (w.accounts key) { contents = replicate space 0 }
  pub confined : IsConfined key key w w'

pub record IsAssigned (key owner : Pubkey) (w w' : World) : Type 0 where
  pub assigned : w'.accounts key ≡ record (w.accounts key) { owner = owner }
  pub confined : IsConfined key key w w'

-- What a call of the system program has done where it returned. It may also fail.
pub record RunsSystemProgram (R : Runtime) : Type 0 where
  pub create_account_lem :
      (from to owner : Pubkey) (lamports space : ℕ) (infos : List AccountInfo)
      (seeds : List (List Bytes)) (w : World)
      → (R.invoke_signed (R.create_account from to lamports space owner) infos seeds w).0 ≡ ok tt
      → IsMade from to owner lamports space w
          (R.invoke_signed (R.create_account from to lamports space owner) infos seeds w).1
  pub allocate_lem :
      (key : Pubkey) (space : ℕ) (infos : List AccountInfo) (seeds : List (List Bytes)) (w : World)
      → (R.invoke_signed (R.allocate key space) infos seeds w).0 ≡ ok tt
      → IsAllocated key space w (R.invoke_signed (R.allocate key space) infos seeds w).1
  pub assign_lem :
      (key owner : Pubkey) (infos : List AccountInfo) (seeds : List (List Bytes)) (w : World)
      → (R.invoke_signed (R.assign key owner) infos seeds w).0 ≡ ok tt
      → IsAssigned key owner w (R.invoke_signed (R.assign key owner) infos seeds w).1

-- The bytes of an account after it was given another size: cut off, or filled up with zeros.
abbrev pub resized : ℕ → Bytes → Bytes
resized size bytes = take size (bytes ++ replicate size 0)

-- `resize` that returned has changed the size of the account's data and nothing else. It may also
-- fail.
pub record Resizes (R : Runtime) : Type 0 where
  pub resize_accounts :
      (a : AccountInfo) (size : ℕ) (w : World)
      → (R.resize a size w).0 ≡ ok tt
      → (R.resize a size w).1.accounts
        ≡ update a.key
            (record (w.accounts a.key) { contents = resized size (w.accounts a.key).contents })
            w.accounts

-- spl-discriminator, spl-pod, spl-type-length-value and spl-tlv-account-resolution. A function on
-- a `&mut` value returns what it left there, also beside an error.
pub record Spl : Type 1 where
  -- `ExtraAccountMeta` and `TlvStateBorrowed`
  pub Meta : Type 0
  pub TlvState : Type 0
  -- `SPL_DISCRIMINATOR_SLICE` of the three instruction types
  pub execute_discriminator : Bytes
  pub initialize_discriminator : Bytes
  pub update_discriminator : Bytes
  -- `ListView::<ExtraAccountMeta>::unpack` with `to_vec`, and `pod_slice_to_bytes`
  pub list_view_unpack : Bytes → Result (List Meta)
  pub pod_slice_to_bytes : List Meta → Bytes
  -- `ExtraAccountMetaList`; the first argument of a generic function is its type's discriminator
  pub size_of : ℕ → Result ℕ
  pub init : Bytes → Bytes → List Meta → Result ⊤ × Bytes
  pub update : Bytes → Bytes → List Meta → Result ⊤ × Bytes
  pub check_account_infos :
      Bytes → (Pubkey → Account) → List AccountInfo → Bytes → Pubkey → Bytes → Result ⊤
  pub add_to_cpi_instruction :
      Bytes
      → World
      → Instruction
      → List AccountInfo
      → Bytes
      → List AccountInfo
      → Result ⊤ × (Instruction × List AccountInfo)
  pub tlv_unpack : Bytes → Result TlvState
  pub unpack_with_tlv_state : Bytes → TlvState → Result (List Meta)

-- Three discriminators of eight bytes, no two alike, and a list that is read back from a `u32`
-- count and its items.
pub record IsCodec (S : Spl) : Type 0 where
  pub length-execute : length S.execute_discriminator ≡ 8
  pub length-initialize : length S.initialize_discriminator ≡ 8
  pub length-update : length S.update_discriminator ≡ 8
  pub execute-ne-initialize : S.execute_discriminator ≢ S.initialize_discriminator
  pub execute-ne-update : S.execute_discriminator ≢ S.update_discriminator
  pub initialize-ne-update : S.initialize_discriminator ≢ S.update_discriminator
  pub list_view_unpack-pod_slice_to_bytes :
      (metas : List S.Meta)
      → length metas < 2 ^ 32
      → S.list_view_unpack (to_le_bytes 4 (length metas) ++ S.pod_slice_to_bytes metas) ≡ ok metas

-- The accounts that `add_to_cpi_instruction` adds where it returns: metas and handles in one order,
-- behind those that were there.
pub record IsExtended (before after : Instruction) (infos_before infos_after : List AccountInfo)
    : Type 0 where
  pub extra_metas : List AccountMeta
  pub extra_infos : List AccountInfo
  pub metas_added : after.accounts ≡ before.accounts ++ extra_metas
  pub infos_added : infos_after ≡ infos_before ++ extra_infos
  pub same_keys : map (λ m. m.pubkey) extra_metas ≡ map (λ a. a.key) extra_infos
  pub same_program : after.program_id ≡ before.program_id
  pub same_contents : after.contents ≡ before.contents

pub record ResolvesAccounts (S : Spl) : Type 0 where
  pub add_to_cpi_instruction_lem :
      (discriminator : Bytes) (w : World) (before : Instruction) (infos : List AccountInfo)
      (bytes : Bytes) (additional : List AccountInfo)
      → let (outcome, (after, infos_after)) =
          S.add_to_cpi_instruction discriminator w before infos bytes additional in
        outcome ≡ ok tt → IsExtended before after infos infos_after

-- spl-token-2022
pub record Token : Type 1 where
  pub TokenAccount : Type 0
  pub Mint : Type 0
  -- `StateWithExtensions::<Account>::unpack` and `::<Mint>::unpack`
  pub unpack_account : Bytes → Result TokenAccount
  pub unpack_mint : Bytes → Result Mint
  -- `get_extension::<TransferHookAccount>`, and its `transferring` flag as a `bool`
  pub transferring : TokenAccount → Result Bool
  pub mint_authority : Mint → Option Pubkey

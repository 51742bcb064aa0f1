-- ===== src/Solana/Account.antt =====
-- Accounts and instructions, as the SDK's structs give them to a program.
use transfer_hook.Solana.Error.{Result, ok, err, invalid_account_data}
use transfer_hook.Prelude.{
  ◌==◌, if◌then◌else◌, ℕ, ◌≡◌, Bool, List, Bytes, IsBytes, length, replicate,
}

-- A public key is its 32 bytes.
abbrev pub Pubkey : Type 0
Pubkey = Bytes

abbrev pub IsPubkey : Pubkey → Type 0
IsPubkey k = (length k ≡ 32) × IsBytes k

-- What the ledger holds under a key.
pub record Account : Type 0 where
  pub lamports : ℕ
  pub contents : Bytes
  pub owner : Pubkey

-- `AccountInfo`: a handle. Its lamports, data and owner are those of the account with that key,
-- so two handles with one key see the same cells.
pub record AccountInfo : Type 0 where
  pub key : Pubkey
  pub is_signer : Bool
  pub is_writable : Bool

pub record AccountMeta : Type 0 where
  pub pubkey : Pubkey
  pub is_signer : Bool
  pub is_writable : Bool

pub record Instruction : Type 0 where
  pub program_id : Pubkey
  pub accounts : List AccountMeta
  pub contents : Bytes

-- `AccountMeta::new` and `AccountMeta::new_readonly`.
abbrev pub new_writable : Pubkey → Bool → AccountMeta
new_writable key signer = record { pubkey = key; is_signer = signer; is_writable = Bool.true }

abbrev pub new_readonly : Pubkey → Bool → AccountMeta
new_readonly key signer = record { pubkey = key; is_signer = signer; is_writable = Bool.false }

-- `Pubkey::try_from` on a slice, with the error that the program maps its own to.
abbrev pub pubkey_try_from : Bytes → Result Pubkey
pubkey_try_from bytes = if length bytes == 32 then ok bytes else err invalid_account_data

-- "11111111111111111111111111111111" in base 58 is 32 zero bytes.
abbrev pub system_program_id : Pubkey
system_program_id = replicate 32 0

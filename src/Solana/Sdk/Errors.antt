-- ===== src/Solana/Sdk/Errors.antt =====
-- Where the libraries return an error and do not panic.
use transfer_hook.Prelude.{ℕ, ◌≡◌, ◌≢◌, List, Bytes, length, replicate}
use transfer_hook.Solana.Error.{IsOk, ok, panic}
use transfer_hook.Solana.Account.{Pubkey, Account, AccountInfo, Instruction}
use transfer_hook.Solana.Exec.{World}
use transfer_hook.Solana.Sdk.{Runtime, Spl, Token}

-- The libraries return an error in place of a panic: on every account and instruction, but for
-- lists of extra accounts only on data that unpacks or that is all zero.
pub record ReturnsErrors (R : Runtime) (S : Spl) (T : Token) : Type 0 where
  pub unpack_account_lem : (bytes : Bytes) → T.unpack_account bytes ≢ panic
  pub transferring_lem : (account : T.TokenAccount) → T.transferring account ≢ panic
  pub unpack_mint_lem : (bytes : Bytes) → T.unpack_mint bytes ≢ panic
  pub list_view_unpack_lem : (bytes : Bytes) → S.list_view_unpack bytes ≢ panic
  pub size_of_lem : (n : ℕ) → S.size_of n ≢ panic
  pub unpack_with_tlv_state_lem :
      (discriminator : Bytes) (state : S.TlvState)
      → S.unpack_with_tlv_state discriminator state ≢ panic
  pub check_account_infos_lem :
      (discriminator : Bytes) (cells : Pubkey → Account) (accounts : List AccountInfo)
      (input : Bytes) (program_id : Pubkey) (bytes : Bytes)
      → IsOk (S.tlv_unpack bytes)
      → S.check_account_infos discriminator cells accounts input program_id bytes ≢ panic
  pub init_lem :
      (discriminator : Bytes) (metas : List S.Meta) (size : ℕ)
      → S.size_of (length metas) ≡ ok size
      → (S.init discriminator (replicate size 0) metas).0 ≢ panic
  pub invoke_signed_lem :
      (instruction : Instruction) (infos : List AccountInfo) (seeds : List (List Bytes)) (w : World)
      → (R.invoke_signed instruction infos seeds w).0 ≢ panic

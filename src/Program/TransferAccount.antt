-- ===== src/Program/TransferAccount.antt =====
-- `TransferAccount` of program/src/processor.rs: the bytes of the account that counts what a
-- user has transferred, the owner's key in front and the count behind it as a `u64`.
pub mod Laws
use transfer_hook.Prelude.{
  ℕ, ◌+◌, Bytes, length, ltb, ◌==◌, if◌then◌else◌, to_le_bytes, from_le_bytes,
}
use transfer_hook.Solana.Error.{Result, ok, err, panic, ◌>>=◌, invalid_account_data}
use transfer_hook.Solana.Account.{Pubkey, pubkey_try_from}
use transfer_hook.Solana.Slice.{slice_of, copy_from_slice}

-- Pubkey (32) + u64 (8)
abbrev pub len : ℕ
len = 32 + 8

abbrev pub owner_offset : ℕ
owner_offset = 0

abbrev pub transfered_offset : ℕ
transfered_offset = 32

-- The slice `dst` after the call.
unfoldable pub pack : Pubkey → ℕ → Bytes → Result Bytes
unfolding copy_from_slice
pack owner transfered dst = do
  dst' ← copy_from_slice dst owner_offset (owner_offset + 32) owner
  copy_from_slice dst' transfered_offset (transfered_offset + 8) (to_le_bytes 8 transfered)

-- `try_into` to an array of eight bytes, with the mapped error.
abbrev to_array8 : Bytes → Result Bytes
to_array8 bytes = if length bytes == 8 then ok bytes else err invalid_account_data

unfoldable pub unpack : Bytes → Result (Pubkey × ℕ)
unfolding slice_of
unpack src = if ltb (length src) len then err invalid_account_data else do
  owner ← pubkey_try_from (← slice_of owner_offset (owner_offset + 32) src)
  array ← to_array8 (← slice_of transfered_offset (transfered_offset + 8) src)
  ok (owner, from_le_bytes array)

unfoldable pub update_transfered : Bytes → ℕ → Result Bytes
unfolding copy_from_slice
update_transfered src transfered =
    copy_from_slice src transfered_offset (transfered_offset + 8) (to_le_bytes 8 transfered)

-- ===== src/Examples/Interface.antt =====
-- The theorems on bytes at concrete instructions and accounts.
use transfer_hook.Prelude.{
  ◌≡◌, refl, [], ◌∷◌, Bytes, drop, length, replicate, arith, to_le_bytes, from_le_bytes,
}
use transfer_hook.Solana.Error.{ok}
use transfer_hook.Interface.Instruction
use transfer_hook.Interface.Instruction.{execute_of, update_of}
use transfer_hook.Interface.Instruction.RoundTrip.{unpack-pack_instruction}
use transfer_hook.Program.TransferAccount
use transfer_hook.Program.TransferAccount.Laws.{unpack-pack_account}
use transfer_hook.Examples.Libraries.{spl}
use transfer_hook.Examples.Laws.{spl-IsCodec}
use transfer_hook.Examples.Accounts.{user_key, counter_bytes}

abbrev three_bytes : Bytes
three_bytes = 1 ∷ 2 ∷ 3 ∷ []

abbrev short_account : Bytes
short_account = replicate 39 9

abbrev long_account : Bytes
long_account = replicate 41 9

unpack-pack_instruction_example :
    Instruction.unpack spl (Instruction.pack spl (update_of (4 ∷ 6 ∷ [])))
    ≡ ok (update_of (4 ∷ 6 ∷ []))
unpack-pack_instruction_example =
    unpack-pack_instruction spl spl-IsCodec (update_of (4 ∷ 6 ∷ [])) (omega arith)

unpack-pack_account_example :
    (dst' : Bytes) × (TransferAccount.pack user_key 300 long_account ≡ ok dst')
    × (TransferAccount.unpack dst' ≡ ok (user_key, 300))
    × (length dst' ≡ 41)
    × (drop 40 dst' ≡ drop 40 long_account)
unpack-pack_account_example =
    unpack-pack_account user_key 300 long_account refl (omega arith) (omega arith)

-- The counter of 7 is read.
counter_read : TransferAccount.unpack counter_bytes ≡ ok (user_key, 7)
unfolding TransferAccount.unpack to_le_bytes from_le_bytes
counter_read = refl

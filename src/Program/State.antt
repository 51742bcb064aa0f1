-- ===== src/Program/State.antt =====
-- program/src/state.rs: the bytes of an account that holds a list.
pub mod Matches
use transfer_hook.Prelude.{List, Bytes, length, replicate}
use transfer_hook.Solana.Error.{Result, ok, ◌>>=◌}
use transfer_hook.Solana.Sdk.{Spl}

unfoldable pub example_data : (S : Spl) → List S.Meta → Result Bytes
example_data S account_metas = do
  account_size ← S.size_of (length account_metas)
  let made = S.init S.execute_discriminator (replicate account_size 0) account_metas
  _ ← made.0
  ok made.1

-- ===== src/Examples/Total.antt =====
-- Calls of the program at concrete accounts, none of which panics.
use transfer_hook.Prelude.{zero, suc, ◌≢◌, refl, List, [], ◌∷◌, Bytes, arith}
use transfer_hook.Solana.Error.{panic}
use transfer_hook.Solana.Account.{AccountMeta}
use transfer_hook.Solana.Exec.{World}
use transfer_hook.Solana.Sdk.Errors.{ReturnsErrors}
use transfer_hook.Program.Execute.Outcome.{listed}
use transfer_hook.Program.Process.{process}
use transfer_hook.Program.Process.Total.{process_total}
use transfer_hook.Examples.Libraries.{run_system, runtime, spl, token}
use transfer_hook.Examples.Accounts.{handles, program_key, ready_world}
use transfer_hook.Examples.Laws.{runtime-RunsSystemProgram}

runtime_returns :
    (contents : Bytes) (metas : List AccountMeta) (w : World)
    → (run_system contents metas w).0 ≢ panic
runtime_returns [] metas w = λ e. cc
runtime_returns (zero ∷ []) metas w = λ e. cc
runtime_returns (zero ∷ lamports ∷ []) metas w = λ e. cc
runtime_returns (zero ∷ lamports ∷ space ∷ owner) [] w = λ e. cc
runtime_returns (zero ∷ lamports ∷ space ∷ owner) (a ∷ []) w = λ e. cc
runtime_returns (zero ∷ lamports ∷ space ∷ owner) (a ∷ b ∷ []) w = ground arith
runtime_returns (zero ∷ lamports ∷ space ∷ owner) (a ∷ b ∷ c ∷ metas) w = λ e. cc
runtime_returns (suc zero ∷ []) metas w = λ e. cc
runtime_returns (suc zero ∷ space ∷ []) [] w = λ e. cc
runtime_returns (suc zero ∷ space ∷ []) (a ∷ []) w = ground arith
runtime_returns (suc zero ∷ space ∷ []) (a ∷ b ∷ metas) w = λ e. cc
runtime_returns (suc zero ∷ space ∷ more ∷ rest) metas w = λ e. cc
runtime_returns (suc (suc n) ∷ owner) [] w = λ e. cc
runtime_returns (suc (suc n) ∷ owner) (a ∷ []) w = λ e. cc
runtime_returns (suc (suc n) ∷ owner) (a ∷ b ∷ metas) w = λ e. cc

library-ReturnsErrors : ReturnsErrors runtime spl token
library-ReturnsErrors = record {
  unpack_account_lem = λ bytes e. cc;
  transferring_lem = λ account e. cc;
  unpack_mint_lem = λ bytes e. cc;
  list_view_unpack_lem = λ bytes. ground arith;
  size_of_lem = λ n e. cc;
  unpack_with_tlv_state_lem = λ discriminator state. ground arith;
  check_account_infos_lem = λ discriminator cells accounts input program_id bytes h. ground arith;
  init_lem = λ discriminator metas size h. ground arith;
  invoke_signed_lem =
      λ instruction infos seeds w. runtime_returns instruction.contents instruction.accounts w;
}

process_total_example :
    (process runtime spl token program_key (listed handles) (255 ∷ []) ready_world).0 ≢ panic
process_total_example =
    process_total runtime spl token library-ReturnsErrors runtime-RunsSystemProgram program_key
      (listed handles) (refl, (refl, (refl, (refl, (refl, (refl, tt)))))) (255 ∷ []) ready_world
      (λ mint. tt)

-- ===== src/Examples/Ledger.antt =====
-- The theorems on the ledger of counts at a concrete run. Derived addresses have to be distinct
-- here, so this runtime derives a user's by counting each byte up, and gives one to all else.
use transfer_hook.Prelude.{
  ⊤, suc, ◌≡◌, ◌≢◌, refl, sym, List, ◌∷◌, [], Bytes, map, replicate, bytes_eq, to_le_bytes, true,
  false, bytes_eq_iff, arith,
}
use transfer_hook.Solana.Error.{Result, ok}
use transfer_hook.Solana.Account.{system_program_id, Pubkey, AccountInfo}
use transfer_hook.Solana.Exec.{World, IsFresh}
use transfer_hook.Solana.Sdk.{Runtime, RunsSystemProgram}
use transfer_hook.Program.InitializeTransferAccount.{
  process_initialize_transfer_account, create_transfer_account, write_first_count,
}
use transfer_hook.Program.TransferAccount.{pack}
use transfer_hook.Program.Process.{process}
use transfer_hook.Program.Ledger.{transfer_key, DistinctAddresses, IsLedger}
use transfer_hook.Program.Ledger.Runs.{Run, start, call, Trace, Run-Trace}
use transfer_hook.Program.Ledger.Traces.{IsOpened, Run-IsOpened}
use transfer_hook.Interface.Address.{get_extra_account_metas_address}
use transfer_hook.Examples.Libraries.{runtime, spl, token}
use transfer_hook.Examples.Laws.{runtime-RunsSystemProgram}
use transfer_hook.Examples.Accounts.{key, handle, program_key, account, world}

abbrev derive : List Bytes → Pubkey
derive (seed ∷ []) = map suc seed
derive seeds = 0 ∷ replicate 31 1

abbrev hashing : Runtime
hashing = record runtime { find_program_address = λ seeds program_id. (derive seeds, 255) }

map-suc-injective : (u v : Bytes) → map suc u ≡ map suc v → u ≡ v
map-suc-injective [] [] h = refl
map-suc-injective [] (y ∷ v) h = cc
map-suc-injective (x ∷ u) [] h = cc
map-suc-injective (x ∷ u) (y ∷ v) h =
    let same : map suc u ≡ map suc v = cc in
    let rest : u ≡ v = map-suc-injective u v same in let first : x ≡ y = ground arith in cc

map-suc-ne-zero : (u rest : Bytes) → map suc u ≢ 0 ∷ rest
map-suc-ne-zero [] rest h = cc
map-suc-ne-zero (x ∷ u) rest h = ground arith

hashing-DistinctAddresses : DistinctAddresses hashing program_key
unfolding get_extra_account_metas_address
hashing-DistinctAddresses = record {
  users = λ u v h. map-suc-injective u v h;
  lists = λ user mint h. map-suc-ne-zero user (replicate 31 1) h;
}

hashing-RunsSystemProgram : RunsSystemProgram hashing
hashing-RunsSystemProgram = record {
  create_account_lem = runtime-RunsSystemProgram.create_account_lem;
  allocate_lem = runtime-RunsSystemProgram.allocate_lem;
  assign_lem = runtime-RunsSystemProgram.assign_lem;
}

program-ne-system : program_key ≢ system_program_id
program-ne-system e = ground (arith, bytes_eq_iff program_key system_program_id, e)

-- Every account is the system program's, and empty.
abbrev empty_world : World
empty_world = world (λ k. account 0 [] system_program_id)

abbrev listed : List AccountInfo
listed = handle (key 20) true ∷ handle (key 21) false ∷ handle system_program_id false ∷ []

abbrev opened : Result ⊤ × World
opened = process hashing spl token program_key listed (255 ∷ []) empty_world

opened_returns : opened.0 ≡ ok tt
unfolding process process_initialize_transfer_account create_transfer_account write_first_count pack
    bytes_eq to_le_bytes
opened_returns = refl

-- A run of one call.
one_call : Run hashing spl token program_key empty_world opened.1
one_call = call start listed (255 ∷ []) (refl, (refl, (refl, tt))) opened_returns

empty-IsFresh : IsFresh empty_world
empty-IsFresh = record { no_shared = refl; no_exclusive = refl }

empty_closed : (k : Pubkey) → (empty_world.accounts k).owner ≢ program_key
empty_closed k h = program-ne-system (sym h)

empty-IsLedger : IsLedger hashing program_key empty_world.accounts
empty-IsLedger user owned = absurd (empty_closed (transfer_key hashing program_key user) owned)

Run-Trace_example :
    IsFresh opened.1 × IsLedger hashing program_key opened.1.accounts × Trace one_call
Run-Trace_example =
    Run-Trace hashing spl token program_key hashing-DistinctAddresses hashing-RunsSystemProgram
      program-ne-system empty_world empty-IsFresh empty-IsLedger one_call

opened_owned : (opened.1.accounts (key 21)).owner ≡ program_key
unfolding process process_initialize_transfer_account create_transfer_account write_first_count pack
    bytes_eq to_le_bytes
opened_owned = refl

Run-IsOpened_example : (trace : Trace one_call) × IsOpened (key 20) one_call trace
Run-IsOpened_example =
    Run-IsOpened hashing spl token program_key hashing-DistinctAddresses hashing-RunsSystemProgram
      program-ne-system empty_world (key 20) empty-IsFresh empty-IsLedger one_call
      (empty_closed (key 21)) opened_owned

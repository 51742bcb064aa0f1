-- ===== src/Examples/Signed.antt =====
-- The program on a runtime that checks the seeds, at concrete accounts.
use transfer_hook.Prelude.{◌≡◌, refl, true, false, List, [], ◌∷◌}
use transfer_hook.Solana.Account.{system_program_id, AccountInfo}
use transfer_hook.Solana.Sdk.{DerivesAddresses}
use transfer_hook.Program.Process.{process}
use transfer_hook.Program.Process.Signed.{strict, process-strict}
use transfer_hook.Examples.Libraries.{runtime, spl, token}
use transfer_hook.Examples.Accounts.{handle, program_key, user_key, counter_key}

runtime-DerivesAddresses : DerivesAddresses runtime
runtime-DerivesAddresses = record { create-find = λ seeds program_id. refl }

-- `InitializeTransferAccount` for the user
abbrev opening : List AccountInfo
opening = handle user_key true ∷ handle counter_key false ∷ handle system_program_id false ∷ []

process-strict_example :
    process (strict runtime program_key) spl token program_key opening (255 ∷ [])
    ≡ process runtime spl token program_key opening (255 ∷ [])
process-strict_example =
    process-strict runtime runtime-DerivesAddresses program_key spl token opening (255 ∷ [])

-- ===== src/Program/Process/Invoked.antt =====
-- A transfer that calls the program through `invoke_execute`.
use transfer_hook.Prelude.{⊤, ℕ, ◌^◌, ◌<◌, ◌≡◌, List, [], map}
use transfer_hook.Solana.Error.{Result, ok}
use transfer_hook.Solana.Account.{Pubkey, Account, AccountInfo, AccountMeta, Instruction}
use transfer_hook.Solana.Exec.{World}
use transfer_hook.Solana.Sdk.{Runtime, Spl, Token, IsCodec, ResolvesAccounts}
use transfer_hook.Interface.Onchain.{invoke_execute}
use transfer_hook.Program.Execute.{process_execute}
use transfer_hook.Program.Execute.Steps.{IsCredited}
use transfer_hook.Program.Execute.Outcome.{Handles, IsAccepted}
use transfer_hook.Program.Process.{process}
use transfer_hook.Program.Process.Dispatch.{IsApart}

-- The handles that a program is entered with: the accounts that the instruction lists.
abbrev pub entered : AccountMeta → AccountInfo
entered m = record { key = m.pubkey; is_signer = m.is_signer; is_writable = m.is_writable }

-- No borrow of the caller is open where a program is entered.
abbrev pub entry : World → World
entry w = record w { shared = []; exclusive = [] }

-- A call of the program that returned has run it on the accounts that the instruction lists, and
-- what it wrote is there.
pub record RunsHook (R : Runtime) (S : Spl) (T : Token) (program_id : Pubkey) : Type 0 where
  pub invoke_lem :
      (instruction : Instruction) (infos : List AccountInfo) (w : World)
      → instruction.program_id ≡ program_id
      → (R.invoke instruction infos w).0 ≡ ok tt
      → let ran =
          process R S T program_id
            (map entered instruction.accounts)
            instruction.contents
            (entry w) in
        (ran.0 ≡ ok tt) × ((R.invoke instruction infos w).1.accounts ≡ ran.1.accounts)

module _ (R : Runtime) (S : Spl) (T : Token) (program_id : Pubkey) (H : RunsHook R S T program_id)
    (L : ResolvesAccounts S) (codec : IsCodec S) (apart : IsApart S)
    (source mint destination authority : AccountInfo) (additional : List AccountInfo) (amount : ℕ)
    (fits : amount < 2 ^ 64) (w : World) where
  abbrev invoked : Result ⊤ × World
  invoked = invoke_execute R S program_id source mint destination authority additional amount w

  abbrev pub Counts : (Pubkey → Account) → Type 0
  Counts after =
      (h : Handles) × (h.source.key ≡ source.key)
      × (h.mint.key ≡ mint.key)
      × (h.destination.key ≡ destination.key)
      × (h.authority.key ≡ authority.key)
      × IsAccepted R S T program_id amount (entry w) h
      × IsCredited h.transfer.key amount w.accounts after

  abbrev hooked : List AccountInfo → Result ⊤ × World
  hooked infos = process_execute R S T program_id infos amount (entry w)

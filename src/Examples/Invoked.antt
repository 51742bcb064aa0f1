-- ===== src/Examples/Invoked.antt =====
-- A transfer through `invoke_execute` on a runtime that runs the program.
use transfer_hook.Prelude.{⊤, true, false, List, [], ◌∷◌, map}
use transfer_hook.Solana.Error.{Result}
use transfer_hook.Solana.Exec.{World}
use transfer_hook.Program.TransferAccount
use transfer_hook.Solana.Account.{AccountInfo}
use transfer_hook.Solana.Sdk.{Runtime}
use transfer_hook.Interface.Instruction
use transfer_hook.Interface.Onchain.{invoke_execute}
use transfer_hook.Program.MetaList
use transfer_hook.Program.MetaList.{mint_id}
use transfer_hook.Program.Process.{process}
use transfer_hook.Program.Process.Invoked.{entered, entry}
use transfer_hook.Examples.Libraries.{runtime, spl, token}
use transfer_hook.Examples.Accounts.{
  key, handle, program_key, user_key, metas_key, counter_key, ready_world,
}

-- The one program on it is the hook; a call of it ends without a borrow.
abbrev hooking : Runtime
hooking = record runtime {
  invoke = λ instruction infos w.
      let ran =
        process runtime spl token program_key (map entered instruction.accounts)
          instruction.contents (entry w) in
      (ran.0, record w { accounts = ran.1.accounts });
}

abbrev additional : List AccountInfo
additional = handle counter_key false ∷ handle metas_key false ∷ []

abbrev transfer : Result ⊤ × World
transfer =
    invoke_execute hooking spl program_key (handle (key 2) false) (handle mint_id false)
      (handle (key 3) false) (handle user_key true) additional 5 ready_world

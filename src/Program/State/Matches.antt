-- ===== src/Program/State/Matches.antt =====
-- The example data and the account that the program makes agree.
use transfer_hook.Prelude.{◌≡◌, List}
use transfer_hook.Solana.Error.{ok}
use transfer_hook.Solana.Account.{Pubkey, Account, AccountInfo}
use transfer_hook.Solana.Exec.{World}
use transfer_hook.Solana.Sdk.{Runtime, RunsSystemProgram, Spl, Token}
use transfer_hook.Program.MetaList.Outcome.{initialize_list}
use transfer_hook.Program.MetaList.Created.{HoldsList, initialize_list-HoldsList}
use transfer_hook.Program.State.{example_data}

HoldsList-example_data :
    (S : Spl) (program_id key : Pubkey) (metas : List S.Meta) (before after : Pubkey → Account)
    → HoldsList S program_id key metas before after
    → example_data S metas ≡ ok (after key).contents
unfolding example_data
HoldsList-example_data S program_id key metas before after H = rw (H.sized, H.accepted, H.held)

-- Where calls of the system program do what is documented and `InitializeExtraAccountMetaList`
-- returns, the account of the list holds exactly the bytes that `example_data` makes for the same
-- list.
pub initialize_list-example_data :
    (R : Runtime) (S : Spl) (T : Token) (program_id : Pubkey)
    (list mint authority system : AccountInfo) (rest : List AccountInfo) (metas : List S.Meta)
    (w : World)
    → RunsSystemProgram R
    → (initialize_list R S T program_id list mint authority system rest metas w).0 ≡ ok tt
    → let w' = (initialize_list R S T program_id list mint authority system rest metas w).1 in
      example_data S metas ≡ ok (w'.accounts list.key).contents
initialize_list-example_data R S T program_id list mint authority system rest metas w L h =
    HoldsList-example_data S program_id list.key metas w.accounts
      (initialize_list R S T program_id list mint authority system rest metas w).1.accounts
      (initialize_list-HoldsList R S T program_id list mint authority system rest metas w L h)

-- ===== src/Program/InitializeTransferAccount/Blocked.antt =====
-- An account that somebody else has funded: `InitializeTransferAccount` takes it for an existing
-- transfer account, and `Execute` refuses it.
use transfer_hook.Prelude.{ℕ, ◌<◌, ◌≡◌, ◌≢◌, ap, ◌∙◌, sym, List, ◌∷◌, true}
use transfer_hook.Solana.Error.{ok}
use transfer_hook.Solana.Account.{Pubkey, AccountInfo}
use transfer_hook.Solana.Exec.{World}
use transfer_hook.Solana.Sdk.{Runtime, Spl, Token}
use transfer_hook.Program.Execute.{process_execute}
use transfer_hook.Program.Execute.Outcome.{Handles, listed, execute-IsAccepted}
use transfer_hook.Program.InitializeTransferAccount.Outcome.{initialize, initialize_existing}

-- Where the user signed and the account at the derived address has lamports and is not the
-- program's, initializing returns without an error and changes nothing, and no `Execute` that
-- names that account as its sixth returns.
pub prefunded_blocks :
    (R : Runtime) (S : Spl) (T : Token) (program_id : Pubkey) (user account system : AccountInfo)
    (rest : List AccountInfo) (w : World)
    → user.is_signer ≡ true
    → account.key ≡ (R.find_program_address (user.key ∷ List.[]) program_id).0
    → 0 < (w.accounts account.key).lamports
    → (w.accounts account.key).owner ≢ program_id
    → (initialize R program_id user account system rest w ≡ (ok tt, w))
      × ((h : Handles) (amount : ℕ)
          → h.transfer.key ≡ account.key
          → (process_execute R S T program_id (listed h) amount w).0 ≢ ok tt)
prefunded_blocks R S T program_id user account system rest w signed address funded foreign = (
  initialize_existing R program_id user account system rest w signed address funded,
  λ h amount same returned. foreign (
      ap (λ (k : Pubkey). (w.accounts k).owner) (sym same)
      ∙ (execute-IsAccepted R S T program_id amount w h returned).owned),
)

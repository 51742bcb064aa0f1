-- ===== src/Program/InitializeTransferAccount/Ready.antt =====
-- A transfer account that was just made is ready for an `Execute`.
use transfer_hook.Prelude.{ℕ, ◌^◌, ◌<◌, ◌≡◌, ◌≢◌, sym, ◌∙◌, subst, List, length, arith}
use transfer_hook.Solana.Error.{ok}
use transfer_hook.Solana.Account.{Pubkey, AccountInfo}
use transfer_hook.Solana.Exec.{World, IsFresh}
use transfer_hook.Solana.Sdk.{Runtime, RunsSystemProgram, Spl, Token}
use transfer_hook.Program.Execute.{add_u64, process_execute}
use transfer_hook.Program.Execute.Steps.{IsTransferring, IsResolved, IsCredited}
use transfer_hook.Program.Execute.Outcome.{Handles, listed, IsAccepted, execute_complete}
use transfer_hook.Program.InitializeTransferAccount.{process_initialize_transfer_account}
use transfer_hook.Program.InitializeTransferAccount.Outcome.{initialize, initialize_outcome}
use transfer_hook.Program.TransferAccount.{unpack}

module _ (R : Runtime) (program_id : Pubkey) (user account system : AccountInfo)
    (rest : List AccountInfo) (w : World) (fresh : IsFresh w) where
  initialize-IsFresh : IsFresh (initialize R program_id user account system rest w).1
  unfolding process_initialize_transfer_account
  initialize-IsFresh = record { no_shared = fresh.no_shared; no_exclusive = fresh.no_exclusive }

-- Where calls of the system program do what is documented, rent for 40 bytes is not 0, no borrow is
-- open, the user's key has 32 bytes, and an `InitializeTransferAccount` returned on an account that
-- held no lamports: an `Execute` of an amount below 2 ^ 64, with that account in sixth place and
-- another as the list, returns as soon as both token accounts are in a transfer and the list of the
-- mint resolves, and the account then counts its amount for the user.
pub initialize-process_execute :
    (R : Runtime) (S : Spl) (T : Token) (program_id : Pubkey) (user account system : AccountInfo)
    (rest : List AccountInfo) (w : World) (h : Handles) (amount : ℕ)
    → RunsSystemProgram R
    → 0 < R.minimum_balance 40
    → IsFresh w
    → length user.key ≡ 32
    → (w.accounts account.key).lamports ≡ 0
    → (initialize R program_id user account system rest w).0 ≡ ok tt
    → h.transfer.key ≡ account.key
    → h.metas.key ≢ account.key
    → amount < 2 ^ 64
    → let w' = (initialize R program_id user account system rest w).1 in
      IsTransferring T h.source w'
      → IsTransferring T h.destination w'
      → IsResolved R S program_id (listed h) h.mint h.metas amount w'
      → ((process_execute R S T program_id (listed h) amount w').0 ≡ ok tt)
        × (unpack
              ((process_execute R S T program_id (listed h) amount w').1.accounts
                account.key).contents
            ≡ ok (user.key, amount))
initialize-process_execute R S T program_id user account system rest w h amount L rent fresh long
      empty made same distinct fits source destination resolved =
    let w' = (initialize R program_id user account system rest w).1 in
    let (_, _, creates, _) =
      initialize_outcome R program_id user account system rest w L fresh long made in
    let c = creates empty in
    let accepted : IsAccepted R S T program_id amount w' h = record {
      source_transferring = source;
      destination_transferring = destination;
      resolved = resolved;
      funded = rw (same, c.lamports) rent;
      owned = rw same c.program;
      long = rw same (omega (arith, c.size));
      distinct = λ e. distinct (sym e ∙ same);
    } in
    let (returned, credited) =
      execute_complete R S T program_id amount w'
        (initialize-IsFresh R program_id user account system rest w fresh) h accepted in
    let after = (process_execute R S T program_id (listed h) amount w').1.accounts in
    let at_account : IsCredited account.key amount w'.accounts after =
      subst (λ (k : Pubkey). IsCredited k amount w'.accounts after) same credited in
    let sum : add_u64 0 amount ≡ amount = omega arith in
    (returned, rw sum at (at_account.count user.key 0 c.count))

-- ===== src/Cli/Client.antt =====
-- The RPC client, the signers and the transactions that clients/cli/src/main.rs calls, and the
-- outcome of a command.
use transfer_hook.Prelude.{ℕ, ◌≡◌, refl, List}
use transfer_hook.Solana.Error.{ProgramError, Result, ok, err, panic}
use transfer_hook.Solana.Account.{Pubkey, Account, Instruction}

pub data Answer (Failure A : Type 0) : Type 0 where
  answered : A → Answer Failure A
  failed : Failure → Answer Failure A

-- solana-client and solana-sdk. `Net` is what the client's requests read and change.
pub record Client (Failure : Type 0) : Type 1 where
  pub Net : Type 0
  pub Signer : Type 0
  pub Transaction : Type 0
  pub Blockhash : Type 0
  pub Signature : Type 0
  pub pubkey : Signer → Pubkey
  pub get_minimum_balance_for_rent_exemption : ℕ → Net → Answer Failure ℕ × Net
  pub get_account : Pubkey → Net → Answer Failure Account × Net
  pub get_latest_blockhash : Net → Answer Failure Blockhash × Net
  pub send_and_confirm_transaction : Transaction → Net → Answer Failure Signature × Net
  pub new_with_payer : List Instruction → Pubkey → Transaction
  pub try_sign : Transaction → List Signer → Blockhash → Answer Failure Transaction

-- The errors of the commands: each constructor is one message, with what it shows.
pub data CommandError (Failure : Type 0) : Type 0 where
  unable_to_fetch_rent_exemption : Failure → CommandError Failure
  unable_to_get_latest_blockhash : Failure → CommandError Failure
  failed_to_sign_transaction : Failure → CommandError Failure
  send_transaction : Failure → CommandError Failure
  already_exists : Pubkey → Pubkey → CommandError Failure
  does_not_exist : Pubkey → Pubkey → CommandError Failure
  of_program : ProgramError → CommandError Failure

pub data Outcome (Failure A : Type 0) : Type 0 where
  done : A → Outcome Failure A
  refused : CommandError Failure → Outcome Failure A
  crashed : Outcome Failure A

module _ {Failure : Type 0} where
  -- `.map_err(message)?`
  abbrev pub or_refuse :
      {A : Type 0} → Answer Failure A → (Failure → CommandError Failure) → Outcome Failure A
  or_refuse (answered a) message = done a
  or_refuse (failed e) message = refused (message e)

  -- `?` on a `ProgramError`.
  abbrev pub of_result : {A : Type 0} → Result A → Outcome Failure A
  of_result (ok a) = done a
  of_result (err e) = refused (of_program e)
  of_result panic = crashed

  pub or_refuse-eq-done :
      {A : Type 0} (r : Answer Failure A) (message : Failure → CommandError Failure) {a : A}
      → or_refuse r message ≡ done a
      → r ≡ answered a
  or_refuse-eq-done (answered a) message h = cc
  or_refuse-eq-done (failed e) message h = cc

  pub of_result-eq-done : {A : Type 0} (r : Result A) {a : A} → of_result r ≡ done a → r ≡ ok a
  of_result-eq-done (ok a) h = cc
  of_result-eq-done (err e) h = cc
  of_result-eq-done panic h = cc

-- A command's state is what the client's requests read and change.
abbrev pub Command : Type 0 → Type 0 → Type 0 → Type 0
Command Failure Net A = Net → Outcome Failure A × Net

module _ {Failure Net : Type 0} where
  abbrev pub go_on :
      {A B : Type 0} → Outcome Failure A → (A → Command Failure Net B) → Command Failure Net B
  go_on (done a) next n = next a n
  go_on (refused e) next n = (refused e, n)
  go_on crashed next n = (crashed, n)

  infixl 5 ◌>>=◌
  abbrev pub ◌>>=◌ :
      {A B : Type 0} → Command Failure Net A → (A → Command Failure Net B) → Command Failure Net B
  command >>= next = λ n. go_on (command n).0 next (command n).1

  abbrev pub give : {A : Type 0} → A → Command Failure Net A
  give a n = (done a, n)

  abbrev pub refuse : {A : Type 0} → CommandError Failure → Command Failure Net A
  refuse e n = (refused e, n)

  abbrev pub request :
      {A : Type 0}
      → (Net → Answer Failure A × Net)
      → (Failure → CommandError Failure)
      → Command Failure Net A
  request ask message n = (or_refuse (ask n).0 message, (ask n).1)

  -- The answer as it is, also where it is a failure.
  abbrev pub answer : {A : Type 0} → (Net → A × Net) → Command Failure Net A
  answer ask n = (done (ask n).0, (ask n).1)

  pub >>=-eq-done :
      {A B : Type 0} (command : Command Failure Net A) (next : A → Command Failure Net B) (n : Net)
      {b : B}
      → ((command >>= next) n).0 ≡ done b
      → (a : A) × ((command n).0 ≡ done a) × ((next a (command n).1).0 ≡ done b)
  >>=-eq-done {A} {B} command next n {b} h = by_outcome (command n).0 refl h
    where
      by_outcome :
          (r : Outcome Failure A)
          → (command n).0 ≡ r
          → (go_on r next (command n).1).0 ≡ done b
          → (a : A) × ((command n).0 ≡ done a) × ((next a (command n).1).0 ≡ done b)
      by_outcome (done a) e k = (a, e, k)
      by_outcome (refused x) e k = cc
      by_outcome crashed e k = cc

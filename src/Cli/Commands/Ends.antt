-- ===== src/Cli/Commands/Ends.antt =====
-- The commands end with an answer or with an error, and never panic: one rule for each way to build
-- a step.
use transfer_hook.Prelude.{ℕ, ◌≢◌, refl, Bool, true, false, List, length, if◌then◌else◌}
use transfer_hook.Solana.Error.{Result, ok, err, panic}
use transfer_hook.Solana.Account.{Pubkey, Instruction}
use transfer_hook.Solana.Sdk.{Runtime, Spl}
use transfer_hook.Cli.Client.{
  Answer, answered, failed, Client, CommandError, Outcome, done, refused, crashed, Command, go_on,
  ◌>>=◌, give, refuse, or_refuse, of_result, request, answer,
}
use transfer_hook.Cli.Commands.{
  calculate_rent_lamports, sign_and_send_transaction, build_transaction_with_rent_transfer,
  send_instruction, process_create_extra_account_metas, process_update_extra_account_metas,
}

pub record NeverCrashes {Failure Net A : Type 0} (command : Command Failure Net A) : Type 0 where
  pub at : (n : Net) → (command n).0 ≢ crashed

or_refuse-ne-crashed :
    {Failure A : Type 0} (r : Answer Failure A) (message : Failure → CommandError Failure)
    → or_refuse r message ≢ crashed
or_refuse-ne-crashed (answered a) message h = cc
or_refuse-ne-crashed (failed e) message h = cc

module _ {Failure Net : Type 0} where
  NeverCrashes-give : {A : Type 0} (a : A) → NeverCrashes {Failure = Failure} {Net = Net} (give a)
  NeverCrashes-give a = record { at = λ n h. cc }

  NeverCrashes-refuse :
      {A : Type 0} (e : CommandError Failure)
      → NeverCrashes {Failure = Failure} {Net = Net} {A = A} (refuse e)
  NeverCrashes-refuse e = record { at = λ n h. cc }

  NeverCrashes-here :
      {A : Type 0} (r : Outcome Failure A)
      → r ≢ crashed
      → NeverCrashes {Failure = Failure} {Net = Net} (λ n. (r, n))
  NeverCrashes-here r h = record { at = λ n. h }

  NeverCrashes-request :
      {A : Type 0} (ask : Net → Answer Failure A × Net) (message : Failure → CommandError Failure)
      → NeverCrashes (request ask message)
  NeverCrashes-request ask message = record { at = λ n. or_refuse-ne-crashed (ask n).0 message }

  NeverCrashes-answer :
      {A : Type 0} (ask : Net → A × Net) → NeverCrashes {Failure = Failure} {Net = Net} (answer ask)
  NeverCrashes-answer ask = record { at = λ n h. cc }

  go_on-ne-crashed :
      {A B : Type 0} (r : Outcome Failure A) (next : A → Command Failure Net B) (n : Net)
      → r ≢ crashed
      → ((a : A) → NeverCrashes (next a))
      → (go_on r next n).0 ≢ crashed
  go_on-ne-crashed (done a) next n h k = (k a).at n
  go_on-ne-crashed (refused e) next n h k = λ q. cc
  go_on-ne-crashed crashed next n h k = λ q. h refl

  NeverCrashes-bind :
      {A B : Type 0} (command : Command Failure Net A) (next : A → Command Failure Net B)
      → NeverCrashes command
      → ((a : A) → NeverCrashes (next a))
      → NeverCrashes (command >>= next)
  NeverCrashes-bind command next h k = record {
    at = λ n. go_on-ne-crashed (command n).0 next (command n).1 (h.at n) k;
  }

  NeverCrashes-cond :
      {A : Type 0} (b : Bool) (first second : Command Failure Net A)
      → NeverCrashes first
      → NeverCrashes second
      → NeverCrashes (if b then first else second)
  NeverCrashes-cond true first second h k = h
  NeverCrashes-cond false first second h k = k

ruleset ends_rules = (
  NeverCrashes-here, NeverCrashes-give, NeverCrashes-refuse, NeverCrashes-request,
  NeverCrashes-answer, NeverCrashes-bind, NeverCrashes-cond, or_refuse-ne-crashed,
)

of_result-ne-crashed :
    {Failure A : Type 0} (r : Result A) → r ≢ panic → of_result {Failure = Failure} r ≢ crashed
of_result-ne-crashed (ok a) h = λ q. cc
of_result-ne-crashed (err e) h = λ q. cc
of_result-ne-crashed panic h = λ q. h refl

-- The size of a list is a number or an error.
abbrev pub SizesLists : Spl → Type 0
SizesLists S = (n : ℕ) → S.size_of n ≢ panic

module _ (R : Runtime) (S : Spl) {Failure : Type 0} (C : Client Failure) (Z : SizesLists S) where
  NeverCrashes-rent :
      (address : Pubkey) (size : ℕ) → NeverCrashes (calculate_rent_lamports C address size)
  unfolding calculate_rent_lamports
  NeverCrashes-rent address size = search ends_rules

  NeverCrashes-sign :
      (transaction : C.Transaction) (payer authority : C.Signer)
      → NeverCrashes (sign_and_send_transaction C transaction payer authority)
  unfolding sign_and_send_transaction
  NeverCrashes-sign transaction payer authority = search ends_rules

  NeverCrashes-build :
      (payer : C.Signer) (address : Pubkey) (metas : List S.Meta) (instruction : Instruction)
      → NeverCrashes (build_transaction_with_rent_transfer R S C payer address metas instruction)
  unfolding build_transaction_with_rent_transfer
  NeverCrashes-build payer address metas instruction =
      let sized =
        of_result-ne-crashed {Failure = Failure} (S.size_of (length metas)) (Z (length metas)) in
      search (ends_rules, NeverCrashes-rent)

  NeverCrashes-send :
      (payer authority : C.Signer) (address : Pubkey) (metas : List S.Meta)
      (instruction : Instruction)
      → NeverCrashes (send_instruction R S C payer authority address metas instruction)
  unfolding send_instruction
  NeverCrashes-send payer authority address metas instruction =
      search (ends_rules, NeverCrashes-build, NeverCrashes-sign)

  pub NeverCrashes-process_create :
      (program_id token : Pubkey) (metas : List S.Meta) (mint_authority payer : C.Signer)
      → NeverCrashes
          (process_create_extra_account_metas R S C program_id token metas mint_authority payer)
  unfolding process_create_extra_account_metas
  NeverCrashes-process_create program_id token metas mint_authority payer =
      search (ends_rules, NeverCrashes-send)

  pub NeverCrashes-process_update :
      (program_id token : Pubkey) (metas : List S.Meta) (mint_authority payer : C.Signer)
      → NeverCrashes
          (process_update_extra_account_metas R S C program_id token metas mint_authority payer)
  unfolding process_update_extra_account_metas
  NeverCrashes-process_update program_id token metas mint_authority payer =
      search (ends_rules, NeverCrashes-send)

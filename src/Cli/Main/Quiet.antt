-- ===== src/Cli/Main/Quiet.antt =====
-- The steps of `main` that make no request: one rule for each way to build a step.
use Prim.Native.String.{String}
use transfer_hook.Prelude.{◌≡◌, refl, ◌∙◌, Bool, true, false, Option, none, some, if◌then◌else◌}
use transfer_hook.Solana.Account.{Pubkey}
use transfer_hook.Solana.Sdk.{Runtime, Spl}
use transfer_hook.Cli.Client.{Answer, answered, failed, Client}
use transfer_hook.Cli.Clap.{Lookup, absent, found, undeclared, Clap, CliConfig, Keys}
use transfer_hook.Cli.Main.{
  ended_by_clap, returned, exited, panicked, Step, going, ended, Line, Session, Run, proceed, ◌>>=◌,
  give, unwrap, or_return, look_up, with_wallet, no_wallet, print, load_cli_config,
  signer_or_default, signer_of, read_config, required_pubkey, transfer_hook_accounts_of,
}

module _ (R : Runtime) (S : Spl) {Failure : Type 0} (C : Client Failure) (K : Clap Failure S.Meta)
    (E : Keys K C) where
  -- A step that leaves the network alone, and ends the process by an error that it returns, if at
  -- all.
  abbrev pub LeftQuiet :
      {A : Type 0} → Session R S C K E → Step Failure A → Session R S C K E → Type 0
  LeftQuiet s (going a) t = t.net ≡ s.net
  LeftQuiet s (ended (returned e)) t = t.net ≡ s.net
  LeftQuiet s (ended panicked) t = t.net ≡ s.net
  LeftQuiet s (ended ended_by_clap) t = ⊥
  LeftQuiet s (ended (exited code)) t = ⊥

  pub record Quiet {A : Type 0} (run : Run R S C K E A) : Type 0 where
    pub at : (s : Session R S C K E) → LeftQuiet s (run s).0 (run s).1

  pub Quiet-give : {A : Type 0} (a : A) → Quiet (give R S C K E a)
  Quiet-give a = record { at = λ s. refl }

  pub Quiet-print : (line : Line Failure C.Signature) → Quiet (print R S C K E line)
  Quiet-print line = record { at = λ s. refl }

  pub Quiet-no_wallet : Quiet (no_wallet R S C K E)
  Quiet-no_wallet = record { at = λ s. refl }

  pub Quiet-unwrap : {A : Type 0} (given : Option A) → Quiet (unwrap R S C K E given)
  Quiet-unwrap none = record { at = λ s. refl }
  Quiet-unwrap (some a) = record { at = λ s. refl }

  pub Quiet-look_up : {A : Type 0} (l : Lookup A) → Quiet (look_up R S C K E l)
  Quiet-look_up absent = record { at = λ s. refl }
  Quiet-look_up (found a) = record { at = λ s. refl }
  Quiet-look_up undeclared = record { at = λ s. refl }

  pub Quiet-or_return : {A : Type 0} (r : Answer Failure A) → Quiet (or_return R S C K E r)
  Quiet-or_return (answered a) = record { at = λ s. refl }
  Quiet-or_return (failed e) = record { at = λ s. refl }

  returns_quiet :
      {A : Type 0} (r : Answer Failure A) (s t : Session R S C K E)
      → t.net ≡ s.net
      → LeftQuiet s (or_return R S C K E r t).0 (or_return R S C K E r t).1
  returns_quiet (answered a) s t h = h
  returns_quiet (failed e) s t h = h

  pub Quiet-with_wallet :
      {A : Type 0} (call : Option E.Wallet → Answer Failure A × Option E.Wallet)
      → Quiet (with_wallet R S C K E call)
  Quiet-with_wallet call = record { at = λ s. returns_quiet (call s.wallet_manager).0 s _ refl }

  still_quiet :
      {A : Type 0} (s t u : Session R S C K E) (r : Step Failure A)
      → t.net ≡ s.net
      → LeftQuiet t r u
      → LeftQuiet s r u
  still_quiet s t u (going a) h k = k ∙ h
  still_quiet s t u (ended (returned e)) h k = k ∙ h
  still_quiet s t u (ended panicked) h k = k ∙ h
  still_quiet s t u (ended ended_by_clap) h k = k
  still_quiet s t u (ended (exited code)) h k = k

  quietly :
      {A B : Type 0} (r : Step Failure A) (next : A → Run R S C K E B) (s t : Session R S C K E)
      → LeftQuiet s r t
      → ((a : A) → Quiet (next a))
      → LeftQuiet s (proceed R S C K E r next t).0 (proceed R S C K E r next t).1
  quietly (going a) next s t h k = still_quiet s t _ (next a t).0 h ((k a).at t)
  quietly (ended (returned e)) next s t h k = h
  quietly (ended panicked) next s t h k = h
  quietly (ended ended_by_clap) next s t h k = h
  quietly (ended (exited code)) next s t h k = h

  pub Quiet-bind :
      {A B : Type 0} (run : Run R S C K E A) (next : A → Run R S C K E B)
      → Quiet run
      → ((a : A) → Quiet (next a))
      → Quiet (◌>>=◌ R S C K E run next)
  Quiet-bind run next h k = record { at = λ s. quietly (run s).0 next s (run s).1 (h.at s) k }

  pub Quiet-cond :
      {A : Type 0} (b : Bool) (first second : Run R S C K E A)
      → Quiet first
      → Quiet second
      → Quiet (if b then first else second)
  Quiet-cond true first second h k = h
  Quiet-cond false first second h k = k

  pub Quiet-signer_or_default :
      (matches : K.Matches) (cli_config : CliConfig) (id : String)
      (given : Option (C.Signer × Pubkey))
      → Quiet (signer_or_default R S C K E matches cli_config id given)
  Quiet-signer_or_default matches cli_config id none = Quiet-with_wallet _
  Quiet-signer_or_default matches cli_config id (some (signer, key)) = Quiet-give signer

  pub ruleset quiet_rules = (
    Quiet-give, Quiet-print, Quiet-no_wallet, Quiet-unwrap, Quiet-look_up, Quiet-or_return,
    Quiet-with_wallet, Quiet-bind, Quiet-cond, Quiet-signer_or_default,
  )

  pub Quiet-signer_of :
      (matches : K.Matches) (cli_config : CliConfig) (id : String)
      → Quiet (signer_of R S C K E matches cli_config id)
  unfolding signer_of
  Quiet-signer_of matches cli_config id = search quiet_rules

  pub Quiet-load : (matches : K.Matches) → Quiet (load_cli_config R S C K E matches)
  unfolding load_cli_config
  Quiet-load matches = search quiet_rules

  pub Quiet-read_config :
      (matches : K.Matches) (cli_config : CliConfig)
      → Quiet (read_config R S C K E matches cli_config)
  unfolding read_config
  Quiet-read_config matches cli_config = search (quiet_rules, Quiet-signer_of)

  pub Quiet-required_pubkey :
      (matches : K.Matches) (id : String) → Quiet (required_pubkey R S C K E matches id)
  unfolding required_pubkey
  Quiet-required_pubkey matches id = search quiet_rules

  pub Quiet-accounts : (matches : K.Matches) → Quiet (transfer_hook_accounts_of R S C K E matches)
  unfolding transfer_hook_accounts_of
  Quiet-accounts matches = search quiet_rules

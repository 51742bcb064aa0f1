-- ===== src/Cli/Main.antt =====
-- `main` of clients/cli/src/main.rs, behind the declaration of its command line.
pub mod Arms
pub mod Declared
pub mod Ends
pub mod Panics
pub mod Quiet
pub mod Total
pub mod Runs
use Prim.Native.String.{String}
use text.Mathlib.Text.{◌==◌}
use transfer_hook.Prelude.{
  ⊤, ℕ, Bool, true, false, Option, none, some, List, [], ◌∷◌, ◌++◌, if◌then◌else◌,
}
use transfer_hook.Solana.Account.{Pubkey}
use transfer_hook.Solana.Sdk.{Runtime, Spl}
use transfer_hook.Cli.Arguments.{App, app}
use transfer_hook.Cli.Client.{
  Answer, answered, failed, Client, CommandError, Outcome, done, refused, crashed,
}
use transfer_hook.Cli.Commands.{
  process_create_extra_account_metas, process_update_extra_account_metas,
}
use transfer_hook.Cli.Clap.{
  Lookup, absent, found, undeclared, Matching, matched, ended_process, parser_panicked, Clap,
  CliConfig, Keys,
}
use transfer_hook.Cli.Meta.{Parsers, parse_transfer_hook_account_arg}

-- How the process ends before the last line of `main`: clap ends it, an error is returned, `exit`
-- is called, or it panics.
pub data Ending (Failure : Type 0) : Type 0 where
  ended_by_clap : Ending Failure
  returned : Failure → Ending Failure
  exited : ℕ → Ending Failure
  panicked : Ending Failure

pub data Step (Failure A : Type 0) : Type 0 where
  going : A → Step Failure A
  ended : Ending Failure → Step Failure A

-- A line on the standard output, or on the standard error.
pub data Line (Failure Signature : Type 0) : Type 0 where
  url_line : String → Line Failure Signature
  signature_line : Signature → Line Failure Signature
  error_line : CommandError Failure → Line Failure Signature

-- `.flatten().cloned().collect()`
abbrev pub flatten : {A : Type 0} → List (List A) → List A
flatten [] = []
flatten (xs ∷ rest) = xs ++ flatten rest

-- `.unwrap_or_default()` on the result of `Config::load`.
abbrev pub or_default : {Failure A : Type 0} → Answer Failure A → A → A
or_default (answered a) default = a
or_default (failed e) default = default

module _ (R : Runtime) (S : Spl) {Failure : Type 0} (C : Client Failure) (K : Clap Failure S.Meta)
    (E : Keys K C) where
  -- What `main` changes; the last line that was printed comes first.
  pub record Session : Type 0 where
    pub net : C.Net
    pub wallet_manager : Option E.Wallet
    pub printed : List (Line Failure C.Signature)

  abbrev pub Run : Type 0 → Type 0
  Run A = Session → Step Failure A × Session

  abbrev pub proceed : {A B : Type 0} → Step Failure A → (A → Run B) → Run B
  proceed (going a) next s = next a s
  proceed (ended e) next s = (ended e, s)

  infixl 5 ◌>>=◌
  abbrev pub ◌>>=◌ : {A B : Type 0} → Run A → (A → Run B) → Run B
  run >>= next = λ s. proceed (run s).0 next (run s).1

  infixl 5 ◌>>◌
  abbrev pub ◌>>◌ : {A B : Type 0} → Run A → Run B → Run B
  run >> next = run >>= λ _. next

  abbrev pub give : {A : Type 0} → A → Run A
  give a s = (going a, s)

  abbrev pub end : {A : Type 0} → Ending Failure → Run A
  end e s = (ended e, s)

  -- `get_matches`, which may not return.
  abbrev pub or_end : Matching K.AppMatches → Run K.AppMatches
  or_end (matched m) = give m
  or_end ended_process = end ended_by_clap
  or_end parser_panicked = end panicked

  -- `.unwrap()`
  abbrev pub unwrap : {A : Type 0} → Option A → Run A
  unwrap none = end panicked
  unwrap (some a) = give a

  -- The `?` of `main`.
  abbrev pub or_return : {A : Type 0} → Answer Failure A → Run A
  or_return (answered a) = give a
  or_return (failed e) = end (returned e)

  -- `get_one` and `get_many`
  abbrev pub look_up : {A : Type 0} → Lookup A → Run (Option A)
  look_up absent = give none
  look_up (found a) = give (some a)
  look_up undeclared = end panicked

  -- A call that may set the wallet manager.
  abbrev pub with_wallet :
      {A : Type 0} → (Option E.Wallet → Answer Failure A × Option E.Wallet) → Run A
  with_wallet call s =
      or_return (call s.wallet_manager).0 (record s { wallet_manager = (call s.wallet_manager).1 })

  -- `let mut wallet_manager = None`
  abbrev pub no_wallet : Run ⊤
  no_wallet s = (going tt, record s { wallet_manager = none })

  abbrev pub print : Line Failure C.Signature → Run ⊤
  print line s = (going tt, record s { printed = line ∷ s.printed })

  abbrev pub change_net : (C.Net → C.Net) → Run ⊤
  change_net change s = (going tt, record s { net = change s.net })

  abbrev pub cli_config_from : Option String → CliConfig
  cli_config_from none = E.default_config
  cli_config_from (some config_file) = or_default (E.load config_file) E.default_config

  unfoldable pub load_cli_config : K.Matches → Run CliConfig
  load_cli_config matches = do
    config_file ← look_up (K.get_one matches "config_file")
    give (cli_config_from config_file)

  abbrev pub signer_or_default :
      K.Matches → CliConfig → String → Option (C.Signer × Pubkey) → Run C.Signer
  signer_or_default matches cli_config id (some (signer, _)) = give signer
  signer_or_default matches cli_config id none =
      with_wallet (E.signer_from_path matches cli_config.keypair_path id)

  -- The signer of an argument, or else the one of the configuration file.
  unfoldable pub signer_of : K.Matches → CliConfig → String → Run C.Signer
  signer_of matches cli_config id = do
    given ← with_wallet (E.try_get_signer matches id)
    signer_or_default matches cli_config id given

  abbrev pub url_from : CliConfig → Option String → String
  url_from cli_config none = cli_config.json_rpc_url
  url_from cli_config (some url) = url

  -- `Config`, without the commitment, which is always the confirmed one.
  pub record Config : Type 0 where
    pub default_signer : C.Signer
    pub json_rpc_url : String
    pub verbose : Bool

  unfoldable pub read_config : K.Matches → CliConfig → Run Config
  read_config matches cli_config = do
    default_signer ← signer_of matches cli_config "fee_payer"
    url ← look_up (K.get_one matches "json_rpc_url")
    verbose ← or_return (K.try_contains_id matches "verbose")
    give (record {
      default_signer = default_signer;
      json_rpc_url = E.normalize_to_url_if_moniker (url_from cli_config url);
      verbose = verbose;
    })

  -- The line that `--verbose` asks for, and the client.
  unfoldable pub connect : Config → Run ⊤
  connect config = do
    if config.verbose then print (url_line config.json_rpc_url) else give tt
    change_net (E.new_with_commitment config.json_rpc_url E.confirmed)

  -- `try_get_pubkey(..)?.unwrap()`
  unfoldable pub required_pubkey : K.Matches → String → Run Pubkey
  required_pubkey matches id = do key ← with_wallet (E.try_get_pubkey matches id); unwrap key

  abbrev pub or_empty : Option (List (List S.Meta)) → List (List S.Meta)
  or_empty none = []
  or_empty (some metas) = metas

  unfoldable pub transfer_hook_accounts_of : K.Matches → Run (List S.Meta)
  transfer_hook_accounts_of matches = do
    values ← look_up (K.get_many matches "transfer_hook_accounts")
    give (flatten (or_empty values))

  -- What a command made of the client's requests: its signature is printed, or its error is and
  -- the process exits.
  abbrev pub report : Outcome Failure C.Signature → Run ⊤
  report (done signature) = print (signature_line signature)
  report (refused e) = print (error_line e) >> end (exited 1)
  report crashed = end panicked

  abbrev pub send : (C.Net → Outcome Failure C.Signature × C.Net) → Run ⊤
  send command s = report (command s.net).0 (record s { net = (command s.net).1 })

  unfoldable pub create_extra_metas : K.Matches → CliConfig → Config → Run ⊤
  create_extra_metas arg_matches cli_config config = do
    program_id ← required_pubkey arg_matches "program_id"
    token ← required_pubkey arg_matches "token"
    transfer_hook_accounts ← transfer_hook_accounts_of arg_matches
    mint_authority ← signer_of arg_matches cli_config "mint_authority"
    send (
        process_create_extra_account_metas R S C program_id token transfer_hook_accounts
          mint_authority config.default_signer)

  unfoldable pub update_extra_metas : K.Matches → CliConfig → Config → Run ⊤
  update_extra_metas arg_matches cli_config config = do
    program_id ← required_pubkey arg_matches "program_id"
    token ← required_pubkey arg_matches "token"
    transfer_hook_accounts ← transfer_hook_accounts_of arg_matches
    mint_authority ← signer_of arg_matches cli_config "mint_authority"
    send (
        process_update_extra_account_metas R S C program_id token transfer_hook_accounts
          mint_authority config.default_signer)

  -- `match (command, matches)`
  abbrev pub dispatch : String → K.Matches → CliConfig → Config → Run ⊤
  dispatch command matches cli_config config =
      if command == "create-extra-metas"
      then create_extra_metas matches cli_config config
      else if command == "update-extra-metas"
      then update_extra_metas matches cli_config config
      else end panicked

  unfoldable pub main : Parsers S.Meta → K.Argv → Run ⊤
  main P argv = do
    app_matches ←
        or_end (K.get_matches (app E.config_file) (parse_transfer_hook_account_arg P) argv)
    (command, matches) ← unwrap (K.subcommand app_matches)
    no_wallet
    cli_config ← load_cli_config matches
    config ← read_config matches cli_config
    connect config
    dispatch command matches cli_config config

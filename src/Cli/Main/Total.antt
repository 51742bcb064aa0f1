-- ===== src/Cli/Main/Total.antt =====
-- `main` finds every argument that it looks up, and panics only inside of an argument's parser.
use Prim.Native.String.{String}
use text.Mathlib.Text.{◌==◌}
use transfer_hook.Prelude.{
  ◌≡◌, ◌≢◌, refl, ap, ◌∙◌, Bool-cases, true, inl, inr, ◌⊎◌, Option, none, some,
}
use transfer_hook.Solana.Account.{Pubkey}
use transfer_hook.Solana.Sdk.{Runtime, Spl}
use transfer_hook.Cli.Arguments.{app}
use transfer_hook.Cli.Client.{
  Answer, answered, failed, Client, Outcome, done, refused, crashed, Command,
}
use transfer_hook.Cli.Commands.Ends.{
  NeverCrashes, SizesLists, NeverCrashes-process_create, NeverCrashes-process_update,
}
use transfer_hook.Cli.Clap.{
  Matching, matched, ended_process, parser_panicked, Clap, CliConfig, Keys, PanicsOn,
  IsDocumentedClap, IsDocumentedKeys,
}
use transfer_hook.Cli.Meta.{Parsers, parse_transfer_hook_account_arg}
use transfer_hook.Cli.Main.{
  panicked, going, ended, Session, unwrap, or_return, with_wallet, load_cli_config,
  signer_or_default, signer_of, Config, read_config, connect, required_pubkey,
  transfer_hook_accounts_of, report, send, create_extra_metas, update_extra_metas, dispatch, main,
}
use transfer_hook.Cli.Main.Panics.{
  NeverPanics, NeverPanics-with_wallet, panic_rules, proceed-ne-panicked, NeverPanics-or_end,
  NeverPanics-unwrap,
}
use transfer_hook.Cli.Main.Declared.{Finds, declared-Finds}

module _ (R : Runtime) (S : Spl) {Failure : Type 0} (C : Client Failure) (K : Clap Failure S.Meta)
    (E : Keys K C) where
  NeverPanics-signer_or_default :
      (matches : K.Matches) (cli_config : CliConfig) (id : String)
      (given : Option (C.Signer × Pubkey))
      → NeverPanics R S C K E (signer_or_default R S C K E matches cli_config id given)
  NeverPanics-signer_or_default matches cli_config id none = search panic_rules
  NeverPanics-signer_or_default matches cli_config id (some (signer, key)) = search panic_rules

  NeverPanics-signer_of :
      (matches : K.Matches) (cli_config : CliConfig) (id : String)
      → NeverPanics R S C K E (signer_of R S C K E matches cli_config id)
  unfolding signer_of
  NeverPanics-signer_of matches cli_config id = search (panic_rules, NeverPanics-signer_or_default)

  NeverPanics-load :
      (matches : K.Matches)
      → Finds K matches
      → NeverPanics R S C K E (load_cli_config R S C K E matches)
  unfolding load_cli_config
  NeverPanics-load matches f = let known_id = f.config_file in search panic_rules

  NeverPanics-read_config :
      (matches : K.Matches) (cli_config : CliConfig)
      → Finds K matches
      → NeverPanics R S C K E (read_config R S C K E matches cli_config)
  unfolding read_config
  NeverPanics-read_config matches cli_config f =
      let known_id = f.json_rpc_url in search (panic_rules, NeverPanics-signer_of)

  NeverPanics-connect :
      (config : Config R S C K E) → NeverPanics R S C K E (connect R S C K E config)
  unfolding connect
  NeverPanics-connect config = search panic_rules

  or_return-eq-going :
      {A : Type 0} (r : Answer Failure A) (s : Session R S C K E) {a : A}
      → (or_return R S C K E r s).0 ≡ going a
      → r ≡ answered a
  or_return-eq-going (answered a) s h = cc
  or_return-eq-going (failed e) s h = cc

  -- A key that is given is there to unwrap.
  NeverPanics-required_pubkey :
      (matches : K.Matches) (id : String)
      → ((wallet : Option E.Wallet) → (E.try_get_pubkey matches id wallet).0 ≢ answered none)
      → NeverPanics R S C K E (required_pubkey R S C K E matches id)
  unfolding required_pubkey
  NeverPanics-required_pubkey matches id kept = record {
    at = λ s.
        let looked_up = with_wallet R S C K E (E.try_get_pubkey matches id) in
        proceed-ne-panicked R S C K E (looked_up s).0 (unwrap R S C K E) (looked_up s).1
          (let read = NeverPanics-with_wallet R S C K E (E.try_get_pubkey matches id) in read.at s)
          (λ key e. there key (λ none_given. kept s.wallet_manager (
            or_return-eq-going (E.try_get_pubkey matches id s.wallet_manager).0 _
              (e ∙ ap going none_given))));
  }
    where
      there : (key : Option Pubkey) → key ≢ none → NeverPanics R S C K E (unwrap R S C K E key)
      there none h = absurd (h refl)
      there (some a) h = record { at = λ s q. cc }

  NeverPanics-accounts :
      (matches : K.Matches)
      → Finds K matches
      → NeverPanics R S C K E (transfer_hook_accounts_of R S C K E matches)
  unfolding transfer_hook_accounts_of
  NeverPanics-accounts matches f = let known_id = f.transfer_hook_accounts in search panic_rules

  report-ne-panicked :
      (r : Outcome Failure C.Signature) → r ≢ crashed → NeverPanics R S C K E (report R S C K E r)
  report-ne-panicked (done signature) h = record { at = λ s q. cc }
  report-ne-panicked (refused e) h = record { at = λ s q. cc }
  report-ne-panicked crashed h = absurd (h refl)

  NeverPanics-send :
      (command : Command Failure C.Net C.Signature)
      → NeverCrashes command
      → NeverPanics R S C K E (send R S C K E command)
  NeverPanics-send command h = record {
    at = λ s.
        let reported = report-ne-panicked (command s.net).0 (h.at s.net) in
        reported.at (record s { net = (command s.net).1 });
  }

module _ (R : Runtime) (S : Spl) {Failure : Type 0} (C : Client Failure) (K : Clap Failure S.Meta)
    (E : Keys K C) (Z : SizesLists S) (L : IsDocumentedKeys E) (matches : K.Matches)
    (f : Finds K matches) where
  program_id_given : NeverPanics R S C K E (required_pubkey R S C K E matches "program_id")
  program_id_given =
      NeverPanics-required_pubkey R S C K E matches "program_id"
        (λ wallet. L.kept matches "program_id" wallet f.program_id)

  token_given : NeverPanics R S C K E (required_pubkey R S C K E matches "token")
  token_given =
      NeverPanics-required_pubkey R S C K E matches "token"
        (λ wallet. L.kept matches "token" wallet f.token)

  ruleset arm_rules = (
    panic_rules, NeverPanics-signer_of, NeverPanics-accounts, NeverPanics-send, program_id_given,
    token_given, NeverCrashes-process_create, NeverCrashes-process_update,
  )

  NeverPanics-create :
      (cli_config : CliConfig) (config : Config R S C K E)
      → NeverPanics R S C K E (create_extra_metas R S C K E matches cli_config config)
  unfolding create_extra_metas
  NeverPanics-create cli_config config = search arm_rules depth 9

  NeverPanics-update :
      (cli_config : CliConfig) (config : Config R S C K E)
      → NeverPanics R S C K E (update_extra_metas R S C K E matches cli_config config)
  unfolding update_extra_metas
  NeverPanics-update cli_config config = search arm_rules depth 9

  NeverPanics-dispatch :
      (name : String) (cli_config : CliConfig) (config : Config R S C K E)
      → (name == "create-extra-metas" ≡ true) ⊎ (name == "update-extra-metas" ≡ true)
      → NeverPanics R S C K E (dispatch R S C K E name matches cli_config config)
  NeverPanics-dispatch name cli_config config (inl here) =
      rw (here) (NeverPanics-create cli_config config)
  NeverPanics-dispatch name cli_config config (inr here) =
      elim (Bool-cases (name == "create-extra-metas")) [
        | inl first ↦ rw (first) (NeverPanics-create cli_config config)
        | inr second ↦ rw (second, here) (NeverPanics-update cli_config config)
      ]

-- `get_matches` panicked, or it did not.
panicked_or_not :
    {A : Type 0} (given : Matching A) → (given ≡ parser_panicked) ⊎ (given ≢ parser_panicked)
panicked_or_not (matched m) = inr λ e. cc
panicked_or_not ended_process = inr λ e. cc
panicked_or_not parser_panicked = inl refl

module _ (R : Runtime) (S : Spl) {Failure : Type 0} (C : Client Failure) (K : Clap Failure S.Meta)
    (E : Keys K C) (P : Parsers S.Meta) (argv : K.Argv) (Z : SizesLists S) (D : IsDocumentedClap K)
    (L : IsDocumentedKeys E) where
  abbrev matching : Matching K.AppMatches
  matching = K.get_matches (app E.config_file) (parse_transfer_hook_account_arg P) argv

  NeverPanics-main : matching ≢ parser_panicked → NeverPanics R S C K E (main R S C K E P argv)
  unfolding main
  NeverPanics-main h = NeverPanics-or_end R S C K E matching _ h (λ m e₁.
      NeverPanics-unwrap R S C K E (K.subcommand m) _ (D.given _ _ argv m refl e₁)
        (λ (name, matches) e₂.
          let (s, e₃, answers) = D.declares _ _ argv m name matches e₁ e₂ in
          let (command, f) = declared-Finds K E.config_file name matches (rw (e₃) answers) in
          search
            (
              panic_rules, NeverPanics-load, NeverPanics-read_config, NeverPanics-connect,
              NeverPanics-dispatch,
            )
            depth 9))

  -- Where clap and the look-up of keys do what is documented, and the size of a list is a number or
  -- an error: `main` panics on a command line only where the parser of an account argument panics on
  -- one of its words, so no `unwrap`, no look-up of an id that clap does not know, no `unreachable!`
  -- and no command does.
  pub main_panics :
      (s : Session R S C K E)
      → (main R S C K E P argv s).0 ≡ ended panicked
      → PanicsOn (parse_transfer_hook_account_arg P) (K.words argv)
  main_panics s h = elim (panicked_or_not matching) [
    | inl e ↦ D.panics _ _ argv e
    | inr e ↦ let run = NeverPanics-main e in absurd (run.at s h)
  ]

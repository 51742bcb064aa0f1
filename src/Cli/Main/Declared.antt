-- ===== src/Cli/Main/Declared.antt =====
-- What `main` looks up is declared for both subcommands.
use Prim.Native.String.{String}
use text.Mathlib.Text.{◌==◌}
use transfer_hook.Prelude.{
  ◌≡◌, ◌≢◌, refl, Bool-cases, true, inl, inr, ◌⊎◌, Option, none, some, List,
}
use transfer_hook.Cli.Arguments.{ValueType, Arg, Subcommand, app}
use transfer_hook.Cli.Clap.{
  undeclared, Clap, find_arg, find_subcommand, has_type, is_required, known, Answers,
}

-- What the steps behind clap rely on.
pub record Finds {Failure Meta : Type 0} (K : Clap Failure Meta) (matches : K.Matches)
    : Type 0 where
  pub config_file : K.get_one matches "config_file" ≢ undeclared
  pub json_rpc_url : K.get_one matches "json_rpc_url" ≢ undeclared
  pub transfer_hook_accounts : K.get_many matches "transfer_hook_accounts" ≢ undeclared
  pub program_id : K.contains_id matches "program_id" ≡ true
  pub token : K.contains_id matches "token" ≡ true

module _ {Failure Meta : Type 0} (K : Clap Failure Meta) (config_file : Option String)
    (name : String) (matches : K.Matches) where
  abbrev pub Permits : Option Subcommand → Type 0
  Permits none = ⊥
  Permits (some s) = Answers K (known (app config_file) s) matches

  -- The five look-ups, in what is declared.
  abbrev Covers : List Arg → Type 0
  Covers args =
      (has_type ValueType.string (find_arg args "config_file") ≡ true)
      × (has_type ValueType.string (find_arg args "json_rpc_url") ≡ true)
      × (has_type ValueType.account_metas (find_arg args "transfer_hook_accounts") ≡ true)
      × (is_required (find_arg args "program_id") ≡ true)
      × (is_required (find_arg args "token") ≡ true)

  covered-Finds : (args : List Arg) → Covers args → Answers K args matches → Finds K matches
  covered-Finds args (config, url, accounts, program_id, token) a = record {
    config_file = a.one "config_file" config;
    json_rpc_url = a.one "json_rpc_url" url;
    transfer_hook_accounts = a.many "transfer_hook_accounts" accounts;
    program_id = a.required "program_id" program_id;
    token = a.required "token" token;
  }

  -- Both subcommands declare what is looked up, and there is no third.
  pub declared-Finds :
      Permits (find_subcommand (app config_file).subcommands name)
      → ((name == "create-extra-metas" ≡ true) ⊎ (name == "update-extra-metas" ≡ true))
        × Finds K matches
  declared-Finds a = elim (Bool-cases (name == "create-extra-metas")) [
    | inl here ↦ (inl here, covered-Finds _ (refl, refl, refl, refl, refl) (rw here at a))
    | inr elsewhere ↦ elim (Bool-cases (name == "update-extra-metas")) [
      | inl here ↦
          (inr here, covered-Finds _ (refl, refl, refl, refl, refl) (rw (elsewhere, here) at a))
      | inr nowhere ↦ absurd (rw (elsewhere, nowhere) at a)
    ]
  ]

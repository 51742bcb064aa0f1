-- ===== src/Cli/Clap.antt =====
-- What `main` of clients/cli/src/main.rs calls of clap, solana-clap-v3-utils and solana-cli-config.
use Prim.Native.String.{String}
use text.Mathlib.Text.{◌==◌}
use transfer_hook.Prelude.{
  ◌≡◌, ◌≢◌, ◌⊎◌, Bool, true, false, ◌&&◌, Option, none, some, List, [], ◌∷◌, ◌++◌, if◌then◌else◌,
}
use transfer_hook.Solana.Account.{Pubkey}
use transfer_hook.Cli.Client.{Answer, answered, Client}
use transfer_hook.Cli.Meta.{Parsed, panicked}
use transfer_hook.Cli.Arguments.{ValueType, same_type, type_of, Arg, Subcommand, App}

-- The answer of `get_one` and `get_many`, which panic on an id that is not declared with the type.
pub data Lookup (A : Type 0) : Type 0 where
  absent : Lookup A
  found : A → Lookup A
  undeclared : Lookup A

-- What `get_matches` came to: the matches; clap printed the help, the version or an error, and ended
-- the process; or the value parser that it was given panicked.
pub data Matching (A : Type 0) : Type 0 where
  matched : A → Matching A
  ended_process : Matching A
  parser_panicked : Matching A

pub record Clap (Failure Meta : Type 0) : Type 1 where
  pub Argv : Type 0
  pub AppMatches : Type 0
  pub Matches : Type 0
  -- The words of the command line.
  pub words : Argv → List String
  -- The function is the parser that `transfer_hook_account` stands for in the declaration.
  pub get_matches : App → (String → Parsed (List Meta)) → Argv → Matching AppMatches
  pub subcommand : AppMatches → Option (String × Matches)
  pub get_one : Matches → String → Lookup String
  pub get_many : Matches → String → Lookup (List (List Meta))
  pub contains_id : Matches → String → Bool
  pub try_contains_id : Matches → String → Answer Failure Bool

-- The settings of solana-cli-config's file that are read.
pub record CliConfig : Type 0 where
  pub keypair_path : String
  pub json_rpc_url : String

-- The look-ups of keys may set the wallet manager, which they are passed.
pub record Keys {Failure Meta : Type 0} (K : Clap Failure Meta) (C : Client Failure) : Type 1 where
  pub Wallet : Type 0
  pub try_get_signer :
      K.Matches
      → String
      → Option Wallet
      → Answer Failure (Option (C.Signer × Pubkey)) × Option Wallet
  pub signer_from_path :
      K.Matches → String → String → Option Wallet → Answer Failure C.Signer × Option Wallet
  pub try_get_pubkey :
      K.Matches → String → Option Wallet → Answer Failure (Option Pubkey) × Option Wallet
  pub normalize_to_url_if_moniker : String → String
  pub config_file : Option String
  pub load : String → Answer Failure CliConfig
  pub default_config : CliConfig
  pub Commitment : Type 0
  pub confirmed : Commitment
  -- `RpcClient::new_with_commitment`: where the requests go from here on.
  pub new_with_commitment : String → Commitment → C.Net → C.Net

-- The declaration of an id: the first of the arguments that has it.
abbrev pub find_arg : List Arg → String → Option Arg
find_arg [] id = none
find_arg (arg ∷ args) id = let rest = find_arg args id in if id == arg.id then some arg else rest

abbrev pub find_subcommand : List Subcommand → String → Option Subcommand
find_subcommand [] name = none
find_subcommand (s ∷ rest) name =
    let later = find_subcommand rest name in if name == s.name then some s else later

abbrev pub has_type : ValueType → Option Arg → Bool
has_type type none = false
has_type type (some arg) = arg.takes_value && same_type (type_of arg.value_parser) type

abbrev pub is_required : Option Arg → Bool
is_required none = false
is_required (some arg) = arg.required

-- The arguments that the matches of a subcommand know: its own and the global ones.
abbrev pub globals : List Arg → List Arg
globals [] = []
globals (arg ∷ args) = let rest = globals args in if arg.global then arg ∷ rest else rest

abbrev pub known : App → Subcommand → List Arg
known declared s = s.args ++ globals declared.args

-- The parser panics on one of the words.
abbrev pub PanicsOn : {A : Type 0} → (String → Parsed A) → List String → Type 0
PanicsOn parse [] = ⊥
PanicsOn parse (word ∷ words) = (parse word ≡ panicked) ⊎ PanicsOn parse words

-- clap documents: what is declared with a type is looked up with it without a panic, and a required
-- argument is there.
pub record Answers {Failure Meta : Type 0} (K : Clap Failure Meta) (args : List Arg)
    (matches : K.Matches) : Type 0 where
  pub one :
      (id : String)
      → has_type ValueType.string (find_arg args id) ≡ true
      → K.get_one matches id ≢ undeclared
  pub many :
      (id : String)
      → has_type ValueType.account_metas (find_arg args id) ≡ true
      → K.get_many matches id ≢ undeclared
  pub required :
      (id : String) → is_required (find_arg args id) ≡ true → K.contains_id matches id ≡ true

-- And: a subcommand that is required is there, and it is one of those declared; clap itself does not
-- panic on a command line, and it calls the value parser on words of it.
pub record IsDocumentedClap {Failure Meta : Type 0} (K : Clap Failure Meta) : Type 0 where
  pub given :
      (declared : App) (parse : String → Parsed (List Meta)) (argv : K.Argv) (m : K.AppMatches)
      → declared.subcommand_required ≡ true
      → K.get_matches declared parse argv ≡ matched m
      → K.subcommand m ≢ none
  pub declares :
      (declared : App) (parse : String → Parsed (List Meta)) (argv : K.Argv) (m : K.AppMatches)
      (name : String) (matches : K.Matches)
      → K.get_matches declared parse argv ≡ matched m
      → K.subcommand m ≡ some (name, matches)
      → (s : Subcommand) × (find_subcommand declared.subcommands name ≡ some s)
        × Answers K (known declared s) matches
  pub panics :
      (declared : App) (parse : String → Parsed (List Meta)) (argv : K.Argv)
      → K.get_matches declared parse argv ≡ parser_panicked
      → PanicsOn parse (K.words argv)

-- solana-clap-v3-utils documents: a key that is given is not left out.
pub record IsDocumentedKeys {Failure Meta : Type 0} {K : Clap Failure Meta} {C : Client Failure}
    (E : Keys K C) : Type 0 where
  pub kept :
      (matches : K.Matches) (id : String) (wallet : Option E.Wallet)
      → K.contains_id matches id ≡ true
      → (E.try_get_pubkey matches id wallet).0 ≢ answered none

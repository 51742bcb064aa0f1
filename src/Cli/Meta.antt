-- ===== src/Cli/Meta.antt =====
-- clients/cli/src/meta.rs: the account argument of the commands, an address with a role or the
-- path of a configuration file.
pub mod Entries
pub mod Files
pub mod Routes
use Prim.Native.Char.{Char, code}
use Prim.Native.String.{String}
use text.Mathlib.Text.{◌==◌}
use transfer_hook.Prelude
use transfer_hook.Prelude.{
  Bool, true, false, ◌||◌, Option, none, some, List, [], ◌∷◌, if◌then◌else◌,
}
use transfer_hook.Solana.Error.{ProgramError, Result, ok, err, panic}
use transfer_hook.Solana.Account.{Pubkey}

pub record Access : Type 0 where
  pub is_signer : Bool
  pub is_writable : Bool

pub data Role : Type 0 where
  readonly writable readonly_signer writable_signer : Role

pub data AddressConfig (Seed : Type 0) : Type 0 where
  pubkey : String → AddressConfig Seed
  seeds : List Seed → AddressConfig Seed

pub record Config (Seed : Type 0) : Type 0 where
  pub address_config : AddressConfig Seed
  pub role : Role

pub record ConfigFile (Seed : Type 0) : Type 0 where
  pub extra_metas : List (Config Seed)

-- `impl From<&Role> for Access`
abbrev pub access_of : Role → Access
access_of readonly = record { is_signer = false; is_writable = false }
access_of writable = record { is_signer = false; is_writable = true }
access_of readonly_signer = record { is_signer = true; is_writable = false }
access_of writable_signer = record { is_signer = true; is_writable = true }

-- The answer of a parser: a value, or an error as text.
pub data Parse (A : Type 0) : Type 0 where
  value : A → Parse A
  message : String → Parse A

-- What the file calls: `Pubkey::from_str`, the derived `Role::from_str`, the two constructors of
-- `ExtraAccountMeta` with the text of an error, `Path::extension`, `read_to_string`, serde_json and
-- serde_yaml.
pub record Parsers (Meta : Type 0) : Type 1 where
  pub Seed : Type 0
  pub pubkey_from_str : String → Parse Pubkey
  pub role_from_str : String → Parse Role
  pub new_with_pubkey : Pubkey → Bool → Bool → Result Meta
  pub new_with_seeds : List Seed → Bool → Bool → Result Meta
  pub show : ProgramError → String
  pub extension : String → Option String
  pub read_to_string : String → Parse String
  pub json_from_str : String → Parse (ConfigFile Seed)
  pub yaml_from_str : String → Parse (ConfigFile Seed)

-- The errors, with what their text shows.
pub data ArgumentError : Type 0 where
  plain : String → ArgumentError
  unable_to_parse_file : String → ArgumentError
  unable_to_read_file : String → ArgumentError
  unsupported_file_extension : String → ArgumentError

pub data Parsed (A : Type 0) : Type 0 where
  parsed : A → Parsed A
  rejected : ArgumentError → Parsed A
  panicked : Parsed A

infixl 5 ◌>>=◌
abbrev pub ◌>>=◌ : {A B : Type 0} → Parsed A → (A → Parsed B) → Parsed B
parsed a >>= f = f a
rejected e >>= f = rejected e
panicked >>= f = panicked

-- `.map_err(error)?`
abbrev pub or_reject : {A : Type 0} → Parse A → (String → ArgumentError) → Parsed A
or_reject (value a) error = parsed a
or_reject (message e) error = rejected (error e)

-- `.unwrap()`
abbrev pub unwrap_parse : {A : Type 0} → Parse A → Parsed A
unwrap_parse (value a) = parsed a
unwrap_parse (message e) = panicked

abbrev pub unwrap_result : {A : Type 0} → Result A → Parsed A
unwrap_result (ok a) = parsed a
unwrap_result (err e) = panicked
unwrap_result panic = panicked

-- The character is a colon.
abbrev pub is_colon : Char → Bool
is_colon c = Prelude.◌==◌ (code c) b':'

-- `arg.split(':')`: the parts between the colons, one more than there are colons.
abbrev pub onto_first : Char → List String → List String
onto_first c [] = String.◌∷◌ c String.[] ∷ []
onto_first c (part ∷ parts) = String.◌∷◌ c part ∷ parts

abbrev pub split_at_colons : String → List String
split_at_colons String.[] = String.[] ∷ []
split_at_colons (String.◌∷◌ c text) =
    let parts = split_at_colons text in if is_colon c then String.[] ∷ parts else onto_first c parts

module _ {Meta : Type 0} (P : Parsers Meta) where
  -- `impl From<&Config> for ExtraAccountMeta`, on the address and the access.
  abbrev pub extra_account_meta_with : AddressConfig P.Seed → Access → Parsed Meta
  extra_account_meta_with (pubkey text) access = do
    key ← unwrap_parse (P.pubkey_from_str text)
    unwrap_result (P.new_with_pubkey key access.is_signer access.is_writable)
  extra_account_meta_with (seeds list) access =
      unwrap_result (P.new_with_seeds list access.is_signer access.is_writable)

  abbrev pub extra_account_meta_of : Config P.Seed → Parsed Meta
  extra_account_meta_of config =
      extra_account_meta_with config.address_config (access_of config.role)

  -- `.iter().map(ExtraAccountMeta::from).collect()`
  abbrev pub extra_account_metas_of : List (Config P.Seed) → Parsed (List Meta)
  extra_account_metas_of [] = parsed []
  extra_account_metas_of (config ∷ configs) = do
    meta ← extra_account_meta_of config
    metas ← extra_account_metas_of configs
    parsed (meta ∷ metas)

  abbrev pub parse_function_of :
      String → Option String → Parsed (String → Parse (ConfigFile P.Seed))
  parse_function_of path none = rejected (unsupported_file_extension path)
  parse_function_of path (some extension) =
      if extension == "json"
      then parsed P.json_from_str
      else if (extension == "yaml") || (extension == "yml")
      then parsed P.yaml_from_str
      else rejected (unsupported_file_extension path)

  unfoldable pub get_parse_function : String → Parsed (String → Parse (ConfigFile P.Seed))
  get_parse_function path = parse_function_of path (P.extension path)

  unfoldable pub parse_config_file_arg : String → Parsed (List Meta)
  unfolding get_parse_function
  parse_config_file_arg path = do
    parse ← get_parse_function path
    file ← or_reject (P.read_to_string path) unable_to_read_file
    config_file ← or_reject (parse file) unable_to_parse_file
    extra_account_metas_of config_file.extra_metas

  -- `.map(|meta| vec![meta]).map_err(|e| format!("{e}"))`
  abbrev pub single : Result Meta → Parsed (List Meta)
  single (ok meta) = parsed (meta ∷ [])
  single (err e) = rejected (plain (P.show e))
  single panic = panicked

  unfoldable pub parse_pubkey_role_arg : String → String → Parsed (List Meta)
  parse_pubkey_role_arg pubkey_string role = do
    key ← or_reject (P.pubkey_from_str pubkey_string) plain
    parsed_role ← or_reject (P.role_from_str role) plain
    let access = access_of parsed_role
    single (P.new_with_pubkey key access.is_signer access.is_writable)

  abbrev pub parse_parts : String → List String → Parsed (List Meta)
  parse_parts arg (pubkey_str ∷ role ∷ []) = parse_pubkey_role_arg pubkey_str role
  parse_parts arg parts = parse_config_file_arg arg

  unfoldable pub parse_transfer_hook_account_arg : String → Parsed (List Meta)
  unfolding parse_pubkey_role_arg parse_config_file_arg
  parse_transfer_hook_account_arg arg = parse_parts arg (split_at_colons arg)

-- ===== src/Cli/Arguments.antt =====
-- The command line that `main` of clients/cli/src/main.rs declares for clap: the two subcommands,
-- their arguments and the global ones. The texts of the help are left out.
use Prim.Native.Char.{Char}
use Prim.Native.String.{String}
use transfer_hook.Prelude.{ℕ, Bool, true, false, Option, none, some, List, [], ◌∷◌}

-- `.value_parser(...)`: what the text of a value is made into.
pub data ValueParser : Type 0 where
  any_string url_or_moniker : ValueParser
  any_signer pubkey_or_file_path : ValueParser
  transfer_hook_account : ValueParser

-- The type of what the parser gives: `String`, `SignerSource`, `Vec<ExtraAccountMeta>`.
pub data ValueType : Type 0 where
  string signer_source account_metas : ValueType

abbrev pub type_of : ValueParser → ValueType
type_of any_string = string
type_of url_or_moniker = string
type_of any_signer = signer_source
type_of pubkey_or_file_path = signer_source
type_of transfer_hook_account = account_metas

abbrev pub same_type : ValueType → ValueType → Bool
same_type string string = true
same_type signer_source signer_source = true
same_type account_metas account_metas = true
same_type _ _ = false

-- `clap::Arg`, the settings that the source uses.
pub record Arg : Type 0 where
  pub id : String
  pub short : Option Char
  pub long : Option String
  pub value_name : Option String
  pub takes_value : Bool
  pub global : Bool
  pub required : Bool
  pub index : Option ℕ
  pub append : Bool
  pub min_values : Option ℕ
  pub default_value : Option String
  pub value_parser : ValueParser

-- `Arg::new(id)`
abbrev new_arg : String → Arg
new_arg id = record {
  id = id;
  short = none;
  long = none;
  value_name = none;
  takes_value = false;
  global = false;
  required = false;
  index = none;
  append = false;
  min_values = none;
  default_value = none;
  value_parser = any_string;
}

pub record Subcommand : Type 0 where
  pub name : String
  pub args : List Arg

pub record App : Type 0 where
  pub subcommand_required : Bool
  pub arg_required_else_help : Bool
  pub args : List Arg
  pub subcommands : List Subcommand

-- The default is the path of solana_cli_config, where it has one.
abbrev config_file_arg : Option String → Arg
config_file_arg config_file = record (new_arg "config_file") {
  short = some "C";
  long = some "config";
  value_name = some "PATH";
  takes_value = true;
  global = true;
  default_value = config_file;
}

abbrev fee_payer_arg : Arg
fee_payer_arg = record (new_arg "fee_payer") {
  long = some "fee-payer";
  value_name = some "KEYPAIR";
  value_parser = any_signer;
  takes_value = true;
  global = true;
}

abbrev verbose_arg : Arg
verbose_arg = record (new_arg "verbose") {
  long = some "verbose";
  short = some "v";
  takes_value = false;
  global = true;
}

abbrev json_rpc_url_arg : Arg
json_rpc_url_arg = record (new_arg "json_rpc_url") {
  short = some "u";
  long = some "url";
  value_name = some "URL";
  takes_value = true;
  global = true;
  value_parser = url_or_moniker;
}

abbrev create_program_id_arg : Arg
create_program_id_arg = record (new_arg "program_id") {
  value_parser = pubkey_or_file_path;
  value_name = some "TRANSFER_HOOK_PROGRAM";
  takes_value = true;
  index = some 1;
  required = true;
}

abbrev create_token_arg : Arg
create_token_arg = record (new_arg "token") {
  value_parser = pubkey_or_file_path;
  value_name = some "TOKEN_MINT_ADDRESS";
  takes_value = true;
  index = some 2;
  required = true;
}

abbrev create_transfer_hook_accounts_arg : Arg
create_transfer_hook_accounts_arg = record (new_arg "transfer_hook_accounts") {
  value_parser = transfer_hook_account;
  value_name = some "TRANSFER_HOOK_ACCOUNTS";
  takes_value = true;
  append = true;
  min_values = some 0;
  index = some 3;
}

abbrev create_mint_authority_arg : Arg
create_mint_authority_arg = record (new_arg "mint_authority") {
  long = some "mint-authority";
  value_name = some "KEYPAIR";
  value_parser = any_signer;
  takes_value = true;
  global = true;
}

abbrev update_program_id_arg : Arg
update_program_id_arg = record (new_arg "program_id") {
  value_parser = pubkey_or_file_path;
  value_name = some "TRANSFER_HOOK_PROGRAM";
  takes_value = true;
  index = some 1;
  required = true;
}

abbrev update_token_arg : Arg
update_token_arg = record (new_arg "token") {
  value_parser = pubkey_or_file_path;
  value_name = some "TOKEN_MINT_ADDRESS";
  takes_value = true;
  index = some 2;
  required = true;
}

abbrev update_transfer_hook_accounts_arg : Arg
update_transfer_hook_accounts_arg = record (new_arg "transfer_hook_accounts") {
  value_parser = transfer_hook_account;
  value_name = some "TRANSFER_HOOK_ACCOUNTS";
  takes_value = true;
  append = true;
  min_values = some 0;
  index = some 3;
}

abbrev update_mint_authority_arg : Arg
update_mint_authority_arg = record (new_arg "mint_authority") {
  long = some "mint-authority";
  value_name = some "KEYPAIR";
  value_parser = any_signer;
  takes_value = true;
  global = true;
}

abbrev create_subcommand : Subcommand
create_subcommand = record {
  name = "create-extra-metas";
  args =
      create_program_id_arg ∷ create_token_arg ∷ create_transfer_hook_accounts_arg
      ∷ create_mint_authority_arg ∷ [];
}

abbrev update_subcommand : Subcommand
update_subcommand = record {
  name = "update-extra-metas";
  args =
      update_program_id_arg ∷ update_token_arg ∷ update_transfer_hook_accounts_arg
      ∷ update_mint_authority_arg ∷ [];
}

-- `Command::new(crate_name!())` up to `get_matches`
abbrev pub app : Option String → App
app config_file = record {
  subcommand_required = true;
  arg_required_else_help = true;
  args = config_file_arg config_file ∷ fee_payer_arg ∷ verbose_arg ∷ json_rpc_url_arg ∷ [];
  subcommands = create_subcommand ∷ update_subcommand ∷ [];
}

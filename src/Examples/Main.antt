-- ===== src/Examples/Main.antt =====
-- The theorems on the client's `main` at a concrete command line.
use Prim.Native.String.{String}
use text.Mathlib.Text.{◌==◌}
use transfer_hook.Prelude.{⊤, ℕ, ◌≡◌, refl, none, some, List, [], ◌∷◌, bytes_eq, if◌then◌else◌}
use transfer_hook.Solana.Error.{ok}
use transfer_hook.Cli.Meta.{
  Parsers, value, message, pubkey, readonly, writable, parse_config_file_arg, get_parse_function,
  parse_pubkey_role_arg, parse_transfer_hook_account_arg,
}
use transfer_hook.Cli.Client.{answered}
use transfer_hook.Cli.Commands.{
  calculate_rent_lamports, sign_and_send_transaction, build_transaction_with_rent_transfer,
  send_instruction, process_create_extra_account_metas, process_update_extra_account_metas,
}
use transfer_hook.Cli.Commands.Ends.{SizesLists}
use transfer_hook.Cli.Clap.{PanicsOn, Keys, find_arg, is_required, IsDocumentedKeys}
use transfer_hook.Cli.Main
use transfer_hook.Cli.Main.{
  Session, ended, exited, create_extra_metas, going, load_cli_config, signer_of, read_config,
  connect, required_pubkey, transfer_hook_accounts_of, update_extra_metas, main,
}
use transfer_hook.Cli.Main.Ends.{HasEnded, main-HasEnded}
use transfer_hook.Cli.Main.Total.{main_panics}
use transfer_hook.Cli.Main.Runs.{HasRun, main-HasRun}
use transfer_hook.Program.MetaList.{mint_id}
use transfer_hook.Examples.Libraries.{runtime, spl}
use transfer_hook.Examples.Accounts.{program_key, user_key, authority_key}
use transfer_hook.Examples.Commands.{old_list}
use transfer_hook.Examples.CommandLine.{clap, clap-IsDocumentedClap}

-- The keys of the arguments are fixed, and the signers come from the configuration file.
abbrev keys : Keys clap old_list
keys = record {
  Wallet = ⊤;
  try_get_signer = λ args id wallet. (answered none, wallet);
  signer_from_path = λ args path id wallet.
      (answered (if id == "mint_authority" then authority_key else user_key), wallet);
  try_get_pubkey = λ args id wallet. (
    if is_required (find_arg args.0 id)
        then answered (some (if id == "token" then mint_id else program_key))
        else answered none,
    wallet,
  );
  normalize_to_url_if_moniker = λ url. url;
  config_file = none;
  load = λ path. answered (record { keypair_path = path; json_rpc_url = path });
  default_config = record { keypair_path = "id.json"; json_rpc_url = "http://localhost:8899" };
  Commitment = ⊤;
  confirmed = tt;
  new_with_commitment = λ url commitment net. 0;
}

keys-IsDocumentedKeys : IsDocumentedKeys keys
keys-IsDocumentedKeys = record { kept = λ args id wallet h. rw (h) (λ e. cc) }

spl-SizesLists : SizesLists spl
spl-SizesLists n h = cc

abbrev session : Session runtime spl old_list clap keys
session = record { net = 0; wallet_manager = none; printed = [] }

-- A fixed account is 6 where it is writable and 4 where it is not. Every file has one entry, with
-- an address that cannot be read where it stands in a file.
abbrev parsers : Parsers ℕ
parsers = record {
  Seed = ⊤;
  pubkey_from_str = λ text. if text == "mistyped" then message "Invalid" else value user_key;
  role_from_str = λ name. value (if name == "writable" then writable else readonly);
  new_with_pubkey = λ key signer writes. ok (if writes then 6 else 4);
  new_with_seeds = λ seeds signer writes. ok 8;
  show = λ error. "error";
  extension = λ path. some "json";
  read_to_string = λ path. value "";
  json_from_str = λ text. value (record {
    extra_metas = record { address_config = pubkey "mistyped"; role = readonly } ∷ [];
  });
  yaml_from_str = λ text. value (record { extra_metas = [] });
}

abbrev from_file : List String
from_file = "create-extra-metas" ∷ "user:readonly" ∷ "accounts.json" ∷ []

file_panics :
    (main runtime spl old_list clap keys parsers from_file session).0 ≡ ended Main.panicked
unfolding main parse_transfer_hook_account_arg parse_pubkey_role_arg parse_config_file_arg
    get_parse_function
file_panics = refl

main_panics_example :
    PanicsOn
      (parse_transfer_hook_account_arg parsers)
      ("create-extra-metas" ∷ "user:readonly" ∷ "accounts.json" ∷ [])
main_panics_example =
    main_panics runtime spl old_list clap keys parsers from_file spl-SizesLists
      clap-IsDocumentedClap keys-IsDocumentedKeys session file_panics

abbrev two_accounts : List String
two_accounts = "update-extra-metas" ∷ "user:readonly" ∷ "user:writable" ∷ []

update_returns : (main runtime spl old_list clap keys parsers two_accounts session).0 ≡ going tt
unfolding main load_cli_config read_config signer_of connect update_extra_metas required_pubkey
    transfer_hook_accounts_of process_update_extra_account_metas send_instruction
    build_transaction_with_rent_transfer sign_and_send_transaction calculate_rent_lamports
    parse_transfer_hook_account_arg parse_pubkey_role_arg
update_returns = refl

main-HasRun_example :
    HasRun runtime spl old_list clap keys parsers two_accounts
      (main runtime spl old_list clap keys parsers two_accounts session).1
main-HasRun_example =
    main-HasRun runtime spl old_list clap keys parsers two_accounts session update_returns

abbrev created : List String
created = "create-extra-metas" ∷ "user:readonly" ∷ []

-- The list is there already: the first command is refused.
create_exits : (main runtime spl old_list clap keys parsers created session).0 ≡ ended (exited 1)
unfolding main load_cli_config read_config signer_of connect create_extra_metas required_pubkey
    transfer_hook_accounts_of process_create_extra_account_metas bytes_eq
    parse_transfer_hook_account_arg parse_pubkey_role_arg
create_exits = refl

main-HasEnded_example :
    HasEnded runtime spl old_list clap keys session
      (main runtime spl old_list clap keys parsers created session).0
      (main runtime spl old_list clap keys parsers created session).1
main-HasEnded_example = main-HasEnded runtime spl old_list clap keys parsers created session

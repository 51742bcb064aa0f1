-- ===== src/Examples/Arguments.antt =====
-- The theorem on the account argument at a concrete argument.
use Prim.Native.String.{String}
use text.Mathlib.Text.{◌==◌}
use transfer_hook.Prelude.{◌≡◌, refl, Bool, if◌then◌else◌, some, inl, ◌↔◌, List, [], ◌∷◌}
use transfer_hook.Solana.Error.{ok}
use transfer_hook.Solana.Account.{AccountMeta}
use transfer_hook.Cli.Meta.{
  Role, readonly, writable, readonly_signer, writable_signer, Parse, value, message, pubkey, seeds,
  ConfigFile, Parsers, parsed, panicked, parse_config_file_arg, get_parse_function,
  extra_account_metas_of, parse_pubkey_role_arg, parse_transfer_hook_account_arg,
}
use transfer_hook.Cli.Meta.Entries.{StandFor}
use transfer_hook.Cli.Meta.Files.{
  ReadsAs, parse_transfer_hook_account_arg_iff, parse_transfer_hook_account_arg_panics,
}
use transfer_hook.Cli.Meta.Routes.{parse_transfer_hook_account_arg-joined}
use transfer_hook.Examples.Accounts.{user_key}

abbrev role_named : String → Parse Role
role_named name =
    if name == "readonly"
    then value readonly
    else if name == "writable"
    then value writable
    else if name == "readonlySigner"
    then value readonly_signer
    else if name == "writableSigner"
    then value writable_signer
    else message "Matching variant not found"

-- An entry of a file with an address, and one with seeds.
abbrev two_entries : ConfigFile String
two_entries = record {
  extra_metas =
      record { address_config = pubkey "user"; role = writable }
      ∷ record { address_config = seeds ("count" ∷ []); role = readonly_signer }
      ∷ [];
}

-- Every address is the user's, and every file is a JSON file with the two entries.
abbrev parsers : Parsers AccountMeta
parsers = record {
  Seed = String;
  pubkey_from_str = λ text. value user_key;
  role_from_str = role_named;
  new_with_pubkey =
      λ key signer writes. ok (record { pubkey = key; is_signer = signer; is_writable = writes });
  new_with_seeds = λ seeds signer writes.
      ok (record { pubkey = user_key; is_signer = signer; is_writable = writes });
  show = λ error. "error";
  extension = λ path. some "json";
  read_to_string = λ path. value "";
  json_from_str = λ text. value two_entries;
  yaml_from_str = λ text. value (record { extra_metas = [] });
}

abbrev two_accounts : List AccountMeta
two_accounts =
    record { pubkey = user_key; is_signer = Bool.false; is_writable = Bool.true }
    ∷ record { pubkey = user_key; is_signer = Bool.true; is_writable = Bool.false }
    ∷ []

abbrev user_signs : List AccountMeta
user_signs = record { pubkey = user_key; is_signer = Bool.true; is_writable = Bool.true } ∷ []

argument_accepted :
    parse_transfer_hook_account_arg parsers "user:writableSigner" ≡ parsed user_signs
unfolding parse_transfer_hook_account_arg parse_pubkey_role_arg
argument_accepted = refl

parse_transfer_hook_account_arg-joined_example :
    (r : Role) × (role_named "writableSigner" ≡ value r)
    × (extra_account_metas_of parsers (record { address_config = pubkey "user"; role = r } ∷ [])
        ≡ parsed user_signs)
parse_transfer_hook_account_arg-joined_example =
    parse_transfer_hook_account_arg-joined parsers "user" "writableSigner"
      (refl, (refl, (refl, (refl, tt))))
      (
        refl,
        (
          refl,
          (
            refl,
            (
              refl,
              (refl, (refl, (refl, (refl, (refl, (refl, (refl, (refl, (refl, (refl, tt)))))))))),
            ),
          ),
        ),
      )
      argument_accepted

file_accepted : parse_transfer_hook_account_arg parsers "a.json" ≡ parsed two_accounts
unfolding parse_transfer_hook_account_arg parse_config_file_arg get_parse_function
file_accepted = refl

-- As above, but nothing is a key.
abbrev keyless : Parsers AccountMeta
keyless = record parsers { pubkey_from_str = λ text. message "Invalid" }

parse_transfer_hook_account_arg_panics_example :
    parse_transfer_hook_account_arg keyless "a.json" ≡ panicked
parse_transfer_hook_account_arg_panics_example =
    parse_transfer_hook_account_arg_panics keyless "a.json"
      (refl, (refl, (refl, (refl, (refl, (refl, tt)))))) two_entries
      ("json", "", refl, refl, inl (refl, refl)) []
      (record { address_config = seeds ("count" ∷ []); role = readonly_signer } ∷ [])
      (record { address_config = pubkey "user"; role = writable }) [] refl tt "user" "Invalid" refl
      refl

parse_transfer_hook_account_arg_iff_example :
    (parse_transfer_hook_account_arg parsers "a.json" ≡ parsed two_accounts) ↔ (
      (file : ConfigFile String) × ReadsAs parsers "a.json" file
      × StandFor parsers file.extra_metas two_accounts)
parse_transfer_hook_account_arg_iff_example =
    parse_transfer_hook_account_arg_iff parsers "a.json"
      (refl, (refl, (refl, (refl, (refl, (refl, tt)))))) two_accounts

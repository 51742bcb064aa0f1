-- ===== src/Suite/Meta.antt =====
-- The tests of clients/cli/src/meta.rs: a configuration in JSON and the same one in YAML.
--
-- A test is the statement of its assertions. `unwrap` asks for a value.
pub mod Passes
use Prim.Native.String.{String}
use transfer_hook.Prelude.{ℕ, ◌≡◌, Bool, true, false, List, [], ◌∷◌, Bytes}
use transfer_hook.Cli.Meta.{
  Role, readonly, writable, readonly_signer, AddressConfig, pubkey, seeds, Config, ConfigFile,
  Parse, value, Parsers, Parsed, parsed, ◌>>=◌, unwrap_parse, unwrap_result, extra_account_metas_of,
}

-- The constructors of `Seed`.
pub record Seeds (Seed : Type 0) : Type 0 where
  pub literal : Bytes → Seed
  pub instruction_data : ℕ → ℕ → Seed
  pub account_key : ℕ → Seed
  pub account_data : ℕ → ℕ → ℕ → Seed

abbrev pub first_text : String
first_text = "39UhVsxAmJwzPnoWhBSHsZ6nBDtdzt9D8rfDa8zGHrP6"

abbrev pub second_text : String
second_text = "6WEvW9B9jTKc3EhP1ewGEJPrxw5d8vD9eMYCf2snNYsV"

abbrev pub json_config : String
json_config =
    "{\n            \"extraMetas\": [\n                {\n                    \"pubkey\": \"39UhVsxAmJwzPnoWhBSHsZ6nBDtdzt9D8rfDa8zGHrP6\",\n                    \"role\": \"readonlySigner\"\n                },\n                {\n                    \"pubkey\": \"6WEvW9B9jTKc3EhP1ewGEJPrxw5d8vD9eMYCf2snNYsV\",\n                    \"role\": \"readonly\"\n                },\n                {\n                    \"seeds\": [\n                        {\n                            \"literal\": {\n                                \"bytes\": [1, 2, 3, 4, 5, 6]\n                            }\n                        },\n                        {\n                            \"instructionData\": {\n                                \"index\": 0,\n                                \"length\": 8\n                            }\n                        },\n                        {\n                            \"accountKey\": {\n                                \"index\": 0\n                            }\n                        }\n                    ],\n                    \"role\": \"writable\"\n                },\n                {\n                    \"seeds\": [\n                        {\n                            \"accountData\": {\n                                \"accountIndex\": 1,\n                                \"dataIndex\": 4,\n                                \"length\": 4\n                            }\n                        },\n                        {\n                            \"accountKey\": {\n                                \"index\": 1\n                            }\n                        }\n                    ],\n                    \"role\": \"readonly\"\n                }\n            ]\n        }"

abbrev pub yaml_config : String
yaml_config =
    "\n            extraMetas:\n                - pubkey: \"39UhVsxAmJwzPnoWhBSHsZ6nBDtdzt9D8rfDa8zGHrP6\"\n                  role: \"readonlySigner\"\n                - pubkey: \"6WEvW9B9jTKc3EhP1ewGEJPrxw5d8vD9eMYCf2snNYsV\"\n                  role: \"readonly\"\n                - seeds:\n                    - literal:\n                        bytes: [1, 2, 3, 4, 5, 6]\n                    - instructionData:\n                        index: 0\n                        length: 8\n                    - accountKey:\n                        index: 0\n                  role: \"writable\"\n                - seeds:\n                    - accountData:\n                        accountIndex: 1\n                        dataIndex: 4\n                        length: 4\n                    - accountKey:\n                        index: 1\n                  role: \"readonly\"\n        "

module _ {Meta : Type 0} (P : Parsers Meta) (Z : Seeds P.Seed) where
  abbrev pub third_seeds : List P.Seed
  third_seeds =
      Z.literal (1 ∷ 2 ∷ 3 ∷ 4 ∷ 5 ∷ 6 ∷ []) ∷ Z.instruction_data 0 8 ∷ Z.account_key 0 ∷ []

  abbrev pub fourth_seeds : List P.Seed
  fourth_seeds = Z.account_data 1 4 4 ∷ Z.account_key 1 ∷ []

  abbrev pub pubkey_meta : String → Bool → Bool → Parsed Meta
  pubkey_meta text is_signer is_writable = do
    key ← unwrap_parse (P.pubkey_from_str text)
    unwrap_result (P.new_with_pubkey key is_signer is_writable)

  abbrev pub seeds_meta : List P.Seed → Bool → Bool → Parsed Meta
  seeds_meta list is_signer is_writable =
      unwrap_result (P.new_with_seeds list is_signer is_writable)

  abbrev pub expected : Parsed (List Meta)
  expected = do
    first ← pubkey_meta first_text true false
    second ← pubkey_meta second_text false false
    third ← seeds_meta third_seeds false true
    fourth ← seeds_meta fourth_seeds false false
    parsed (first ∷ second ∷ third ∷ fourth ∷ [])

  -- `from_str`, the conversion of each entry, and `assert_eq!`.
  abbrev pub TestParse : Parse (ConfigFile P.Seed) → Type 0
  TestParse read =
      (parsed_config_file : ConfigFile P.Seed) × (read ≡ value parsed_config_file)
      × ((parsed_extra_metas : List Meta) × (extra_account_metas_of P parsed_config_file.extra_metas
            ≡ parsed parsed_extra_metas)
          × (expected ≡ parsed parsed_extra_metas))

  abbrev pub TestParseJson : Type 0
  TestParseJson = TestParse (P.json_from_str json_config)

  abbrev pub TestParseYaml : Type 0
  TestParseYaml = TestParse (P.yaml_from_str yaml_config)

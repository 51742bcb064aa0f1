-- ===== src/Suite/Meta/Passes.antt =====
-- The tests of clients/cli/src/meta.rs pass.
use transfer_hook.Prelude.{◌≡◌, refl, ◌∙◌, true, false, List, [], ◌∷◌}
use transfer_hook.Cli.Meta.{
  readonly, writable, readonly_signer, pubkey, seeds, ConfigFile, value, Parsers, Parsed, parsed,
  rejected, panicked, ◌>>=◌, extra_account_metas_of,
}
use transfer_hook.Suite.Meta.{
  Seeds, first_text, second_text, json_config, yaml_config, third_seeds, fourth_seeds, pubkey_meta,
  seeds_meta, expected, TestParseJson, TestParseYaml,
}

-- Four values one after the other, gathered at the end or from the end.
gathered :
    {A : Type 0} (a b c d : Parsed A)
    → (a >>= λ x.
        (b >>= λ y.
        (c >>= λ z. (d >>= λ u. (parsed [] >>= λ l. parsed (u ∷ l))) >>= λ l. parsed (z ∷ l))
        >>= λ l. parsed (y ∷ l))
        >>= λ l. parsed (x ∷ l))
      ≡ (a >>= λ x. (b >>= λ y. (c >>= λ z. (d >>= λ u. parsed (x ∷ y ∷ z ∷ u ∷ [])))))
gathered (rejected e) b c d = refl
gathered panicked b c d = refl
gathered (parsed x) (rejected e) c d = refl
gathered (parsed x) panicked c d = refl
gathered (parsed x) (parsed y) (rejected e) d = refl
gathered (parsed x) (parsed y) panicked d = refl
gathered (parsed x) (parsed y) (parsed z) (rejected e) = refl
gathered (parsed x) (parsed y) (parsed z) panicked = refl
gathered (parsed x) (parsed y) (parsed z) (parsed u) = refl

module _ {Meta : Type 0} (P : Parsers Meta) (Z : Seeds P.Seed) where
  -- What both texts say.
  abbrev pub config_file : ConfigFile P.Seed
  config_file = record {
    extra_metas =
        record { address_config = pubkey first_text; role = readonly_signer }
        ∷ record { address_config = pubkey second_text; role = readonly }
        ∷ record { address_config = seeds (third_seeds P Z); role = writable }
        ∷ record { address_config = seeds (fourth_seeds P Z); role = readonly }
        ∷ [];
  }

  converts : extra_account_metas_of P config_file.extra_metas ≡ expected P Z
  converts =
      gathered (pubkey_meta P Z first_text true false) (pubkey_meta P Z second_text false false)
        (seeds_meta P Z (third_seeds P Z) false true)
        (seeds_meta P Z (fourth_seeds P Z) false false)

  -- Where the two texts are read as the configuration that they write out and its accounts can be
  -- made, `test_parse_json` and `test_parse_yaml` pass: each of their assertions holds.
  pub parse_tests_pass :
      {metas : List Meta}
      → P.json_from_str json_config ≡ value config_file
      → P.yaml_from_str yaml_config ≡ value config_file
      → expected P Z ≡ parsed metas
      → TestParseJson P Z × TestParseYaml P Z
  parse_tests_pass {metas} json yaml made = (
    (config_file, json, (metas, converts ∙ made, made)),
    (config_file, yaml, (metas, converts ∙ made, made)),
  )

-- ===== src/Cli/Meta/Files.antt =====
-- What an account argument that is the path of a configuration file gives.
use Prim.Native.String.{String}
use text.Mathlib.Text.{◌==◌}
use transfer_hook.Prelude.{
  ◌≡◌, refl, sym, ◌∙◌, ◌↔◌, ◌⊎◌, inl, inr, Bool-cases, true, false, ◌||◌, Option, none, some, List,
  ◌∷◌, ◌++◌,
}
use transfer_hook.Cli.Meta.{
  pubkey, Config, ConfigFile, Parse, value, message, Parsers, Parsed, parsed, rejected, panicked,
  or_reject, ◌>>=◌, extra_account_meta_of, extra_account_metas_of, parse_function_of,
  get_parse_function, parse_config_file_arg, parse_transfer_hook_account_arg, unable_to_read_file,
  unable_to_parse_file,
}
use transfer_hook.Cli.Meta.Routes.{HasNoColon, split-plain, >>=-eq-parsed, or_reject-eq-parsed}
use transfer_hook.Cli.Meta.Entries.{StandFor, extra_account_metas_of_iff, metas-panicked}

>>=-assoc :
    {A B C : Type 0} (m : Parsed A) (f : A → Parsed B) (g : B → Parsed C)
    → (m >>= λ a. f a >>= g) ≡ (m >>= f >>= g)
>>=-assoc (parsed a) f g = refl
>>=-assoc (rejected e) f g = refl
>>=-assoc panicked f g = refl

module _ {Meta : Type 0} (P : Parsers Meta) where
  -- The file at the path reads as a configuration in the format that its extension names.
  abbrev pub ReadsAs : String → ConfigFile P.Seed → Type 0
  ReadsAs path file =
      (extension : String) × (text : String) × (P.extension path ≡ some extension)
      × (P.read_to_string path ≡ value text)
      × (((extension == "json" ≡ true) × (P.json_from_str text ≡ value file))
          ⊎ ((extension == "json" ≡ false)
              × ((extension == "yaml") || (extension == "yml") ≡ true)
              × (P.yaml_from_str text ≡ value file)))

  parse_function_of-eq-parsed :
      (path : String) (given : Option String) (parse : String → Parse (ConfigFile P.Seed))
      → parse_function_of P path given ≡ parsed parse
      → (extension : String) × (given ≡ some extension)
        × (((extension == "json" ≡ true) × (parse ≡ P.json_from_str))
            ⊎ ((extension == "json" ≡ false)
                × ((extension == "yaml") || (extension == "yml") ≡ true)
                × (parse ≡ P.yaml_from_str)))
  parse_function_of-eq-parsed path none parse h = cc
  parse_function_of-eq-parsed path (some extension) parse h = (
    extension,
    refl,
    elim (Bool-cases (extension == "json")) [
      | inl json ↦ inl (json, cc (rw (json) at h))
      | inr other ↦ elim (Bool-cases ((extension == "yaml") || (extension == "yml"))) [
        | inl yaml ↦ inr (other, yaml, cc (rw (other, yaml) at h))
        | inr neither ↦ cc (rw (other, neither) at h)
      ]
    ],
  )

  unfoldable config_file_at : (path : String) → Parsed (ConfigFile P.Seed)
  config_file_at path = do
    parse ← get_parse_function P path
    file ← or_reject (P.read_to_string path) unable_to_read_file
    or_reject (parse file) unable_to_parse_file

  file_read :
      (path : String) (file : ConfigFile P.Seed)
      → config_file_at path ≡ parsed file
      → ReadsAs path file
  unfolding config_file_at get_parse_function
  file_read path file h =
      let (parse, chosen, rest) = >>=-eq-parsed (parse_function_of P path (P.extension path)) _ h in
      let (text, read, ends) =
        >>=-eq-parsed (or_reject (P.read_to_string path) unable_to_read_file) _ rest in
      let (extension, named, format) =
        parse_function_of-eq-parsed path (P.extension path) parse chosen in
      let answered : parse text ≡ value file =
        or_reject-eq-parsed (parse text) unable_to_parse_file ends in
      (
        extension,
        text,
        named,
        or_reject-eq-parsed (P.read_to_string path) unable_to_read_file read,
        elim format [
          | inl (json, same) ↦ inl (json, rw (sym same, answered))
          | inr (other, yaml, same) ↦ inr (other, yaml, rw (sym same, answered))
        ],
      )

  read_file :
      (path : String) (file : ConfigFile P.Seed)
      → ReadsAs path file
      → config_file_at path ≡ parsed file
  unfolding config_file_at get_parse_function
  read_file path file (extension, text, named, read, inl (json, answered)) =
      rw (named, json, read, answered)
  read_file path file (extension, text, named, read, inr (other, yaml, answered)) =
      rw (named, other, yaml, read, answered)

  parse_config_file_arg-read :
      (path : String)
      → parse_config_file_arg P path
        ≡ (config_file_at path >>= λ file. extra_account_metas_of P file.extra_metas)
  unfolding parse_config_file_arg config_file_at get_parse_function
  parse_config_file_arg-read path = by_function (parse_function_of P path (P.extension path))
    where
      by_function :
          (chosen : Parsed (String → Parse (ConfigFile P.Seed)))
          → (chosen >>= λ parse. or_reject (P.read_to_string path) unable_to_read_file >>= λ text.
              or_reject (parse text) unable_to_parse_file >>= λ file.
              extra_account_metas_of P file.extra_metas)
            ≡ ((chosen >>= λ parse.
                  or_reject (P.read_to_string path) unable_to_read_file >>= λ text.
                  or_reject (parse text) unable_to_parse_file)
                >>= λ file. extra_account_metas_of P file.extra_metas)
      by_function (parsed parse) =
          >>=-assoc (or_reject (P.read_to_string path) unable_to_read_file) _ _
      by_function (rejected e) = refl
      by_function panicked = refl

  -- An argument without a colon is the path of a configuration file. The client accepts it exactly
  -- where the file can be read and reads as a configuration in the format that its extension names
  -- (json, or else yaml or yml), and it gives one account for each entry, in their order: the one
  -- at the entry's address, or with its seeds, with the flags of its role.
  pub parse_transfer_hook_account_arg_iff :
      (path : String)
      → HasNoColon path
      → (metas : List Meta)
      → (parse_transfer_hook_account_arg P path ≡ parsed metas)
        ↔ ((file : ConfigFile P.Seed) × ReadsAs path file × StandFor P file.extra_metas metas)
  unfolding parse_transfer_hook_account_arg
  parse_transfer_hook_account_arg_iff path plain metas = (
    (λ h.
        let taken : parse_config_file_arg P path ≡ parsed metas =
          rw (split-plain path plain) at h in
        let (file, e, rest) =
          >>=-eq-parsed (config_file_at path) _ (sym (parse_config_file_arg-read path) ∙ taken) in
        (
          file,
          file_read path file e,
          (extra_account_metas_of_iff P file.extra_metas metas).0 rest,
        )),
    (λ (file, reads, stand). rw (
      split-plain path plain,
      parse_config_file_arg-read path,
      read_file path file reads,
      (extra_account_metas_of_iff P file.extra_metas metas).1 stand,
    )),
  )

  -- A configuration file that can be read, with an entry whose address is not a key behind entries
  -- that stand for accounts, makes the client panic: there is no error message.
  pub parse_transfer_hook_account_arg_panics :
      (path : String)
      → HasNoColon path
      → (file : ConfigFile P.Seed) → ReadsAs path file
      → (before after : List (Config P.Seed)) (config : Config P.Seed) (metas : List Meta)
      → file.extra_metas ≡ before ++ (config ∷ after)
      → StandFor P before metas
      → (text error : String) → config.address_config ≡ pubkey text
      → P.pubkey_from_str text ≡ message error
      → parse_transfer_hook_account_arg P path ≡ panicked
  unfolding parse_transfer_hook_account_arg
  parse_transfer_hook_account_arg_panics path plain file reads before after config metas entries
        stand text error here bad =
      let fails : extra_account_meta_of P config ≡ panicked = rw (here, bad) in
      rw (
        split-plain path plain,
        parse_config_file_arg-read path,
        read_file path file reads,
        entries,
        metas-panicked P before after config metas stand fails,
      )

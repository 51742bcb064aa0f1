-- ===== src/Examples/CommandLine.antt =====
-- A concrete clap: it reads a command line as the name of a subcommand and the values of the account
-- argument.
use Prim.Native.String.{String}
use transfer_hook.Prelude.{
  ⊤, ℕ, ◌≡◌, inl, inr, refl, sym, subst, true, Option, none, some, List, [], ◌∷◌, if◌then◌else◌,
}
use transfer_hook.Cli.Arguments.{ValueType, Arg, Subcommand, App}
use transfer_hook.Cli.Meta.{Parsed, parsed, rejected, panicked}
use transfer_hook.Cli.Client.{answered}
use transfer_hook.Cli.Clap.{
  absent, found, undeclared, Matching, matched, ended_process, parser_panicked, PanicsOn, Clap,
  find_arg, find_subcommand, has_type, is_required, known, Answers, IsDocumentedClap,
}

-- The values of the account argument, each read by the parser.
abbrev onto_values : Parsed (List ℕ) → Parsed (List (List ℕ)) → Parsed (List (List ℕ))
onto_values (parsed metas) (parsed more) = parsed (metas ∷ more)
onto_values (parsed metas) (rejected e) = rejected e
onto_values (parsed metas) panicked = panicked
onto_values (rejected e) _ = rejected e
onto_values panicked _ = panicked

abbrev parse_values : (String → Parsed (List ℕ)) → List String → Parsed (List (List ℕ))
parse_values parse [] = parsed []
parse_values parse (word ∷ words) = onto_values (parse word) (parse_values parse words)

abbrev Matches : Type 0
Matches = List Arg × List (List ℕ)

abbrev recognised :
    App → String → Parsed (List (List ℕ)) → Option Subcommand → Matching (String × Matches)
recognised declared name values none = ended_process
recognised declared name (parsed values) (some s) = matched (name, (known declared s, values))
recognised declared name (rejected e) (some s) = ended_process
recognised declared name panicked (some s) = parser_panicked

abbrev given_words : App → (String → Parsed (List ℕ)) → List String → Matching (String × Matches)
given_words declared parse [] = ended_process
given_words declared parse (name ∷ values) =
    recognised declared name (parse_values parse values) (find_subcommand declared.subcommands name)

-- A command line is the name of a subcommand and values of its account argument. What else is
-- optional is left out.
abbrev pub clap : Clap ⊤ ℕ
clap = record {
  Argv = List String;
  AppMatches = String × Matches;
  Matches = Matches;
  words = λ argv. argv;
  get_matches = given_words;
  subcommand = λ m. some m;
  get_one = λ m id. if has_type ValueType.string (find_arg m.0 id) then absent else undeclared;
  get_many =
      λ m id. if has_type ValueType.account_metas (find_arg m.0 id) then found m.1 else undeclared;
  contains_id = λ m id. is_required (find_arg m.0 id);
  try_contains_id = λ m id. answered true;
}

answers : (args : List Arg) (values : List (List ℕ)) → Answers clap args (args, values)
answers args values = record {
  one = λ id h. rw (h) (λ e. cc);
  many = λ id h. rw (h) (λ e. cc);
  required = λ id h. h;
}

parse_values-PanicsOn :
    (parse : String → Parsed (List ℕ)) (words : List String)
    → parse_values parse words ≡ panicked
    → PanicsOn parse words
parse_values-PanicsOn parse [] h = cc
parse_values-PanicsOn parse (word ∷ words) h =
    by_word (parse word) (parse_values parse words) refl h (parse_values-PanicsOn parse words)
  where
    by_word :
        (first : Parsed (List ℕ)) (rest : Parsed (List (List ℕ)))
        → parse word ≡ first
        → onto_values first rest ≡ panicked
        → (rest ≡ panicked → PanicsOn parse words)
        → PanicsOn parse (word ∷ words)
    by_word (parsed metas) (parsed more) e k later = cc
    by_word (parsed metas) (rejected x) e k later = cc
    by_word (parsed metas) panicked e k later = inr (later refl)
    by_word (rejected x) rest e k later = cc
    by_word panicked rest e k later = inl e

recognised-panicked :
    (declared : App) (name : String) (values : Parsed (List (List ℕ))) (there : Option Subcommand)
    → recognised declared name values there ≡ parser_panicked
    → values ≡ panicked
recognised-panicked declared name values none h = cc
recognised-panicked declared name (parsed values) (some s) h = cc
recognised-panicked declared name (rejected e) (some s) h = cc
recognised-panicked declared name panicked (some s) h = refl

given_words-PanicsOn :
    (declared : App) (parse : String → Parsed (List ℕ)) (argv : List String)
    → given_words declared parse argv ≡ parser_panicked
    → PanicsOn parse argv
given_words-PanicsOn declared parse [] h = cc
given_words-PanicsOn declared parse (name ∷ values) h = inr (
    parse_values-PanicsOn parse values (
      recognised-panicked declared name (parse_values parse values)
        (find_subcommand declared.subcommands name) h))

recognised-matched :
    (declared : App) (word name : String) (m : String × Matches) (matches : Matches)
    (values : Parsed (List (List ℕ))) (there : Option Subcommand)
    → find_subcommand declared.subcommands word ≡ there
    → recognised declared word values there ≡ matched m
    → some m ≡ some (name, matches)
    → (s : Subcommand) × (find_subcommand declared.subcommands name ≡ some s)
      × Answers clap (known declared s) matches
recognised-matched declared word name m matches values none q h e = cc
recognised-matched declared word name m matches (rejected x) (some s) q h e = cc
recognised-matched declared word name m matches panicked (some s) q h e = cc
recognised-matched declared word name m matches (parsed values) (some s) q h e =
    let same_name : word ≡ name = cc in
    let same_args : (known declared s, values) ≡ matches = cc in
    (
      s,
      rw (sym same_name, q),
      subst (Answers clap (known declared s)) same_args (answers (known declared s) values),
    )

given_words-matched :
    (declared : App) (parse : String → Parsed (List ℕ)) (argv : List String) (m : String × Matches)
    (name : String) (matches : Matches)
    → given_words declared parse argv ≡ matched m
    → some m ≡ some (name, matches)
    → (s : Subcommand) × (find_subcommand declared.subcommands name ≡ some s)
      × Answers clap (known declared s) matches
given_words-matched declared parse [] m name matches h e = cc
given_words-matched declared parse (word ∷ values) m name matches h e =
    recognised-matched declared word name m matches (parse_values parse values)
      (find_subcommand declared.subcommands word) refl h e

pub clap-IsDocumentedClap : IsDocumentedClap clap
clap-IsDocumentedClap = record {
  given = λ declared parse argv m h e q. cc;
  declares = given_words-matched;
  panics = given_words-PanicsOn;
}

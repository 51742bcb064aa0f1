-- ===== src/Cli/Main/Runs.antt =====
-- What a run of `main` that returns has done.
use Prim.Native.String.{String}
use transfer_hook.Prelude.{⊤, ◌≡◌, refl, sym, subst, Option, none, some}
use transfer_hook.Solana.Sdk.{Runtime, Spl}
use transfer_hook.Cli.Arguments.{app}
use transfer_hook.Cli.Client.{Client}
use transfer_hook.Cli.Clap.{Matching, matched, ended_process, parser_panicked, Clap, Keys}
use transfer_hook.Cli.Meta.{Parsers, parse_transfer_hook_account_arg}
use transfer_hook.Cli.Main.{
  going, Session, Run, ◌>>=◌, or_end, unwrap, no_wallet, load_cli_config, read_config, connect,
  main,
}
use transfer_hook.Cli.Main.Arms.{RanAs, >>=-eq-going, dispatch-RanAs}

module _ (R : Runtime) (S : Spl) {Failure : Type 0} (C : Client Failure) (K : Clap Failure S.Meta)
    (E : Keys K C) where
  -- A run that goes on ends with `P`.
  record Leaves (P : Session R S C K E → Type 0) (run : Run R S C K E ⊤) : Type 0 where
    at : (s : Session R S C K E) → (run s).0 ≡ going tt → P (run s).1

  module _ (P : Session R S C K E → Type 0) where
    Leaves-bind :
        {A : Type 0} (run : Run R S C K E A) (next : A → Run R S C K E ⊤)
        → ((a : A) → Leaves P (next a))
        → Leaves P (◌>>=◌ R S C K E run next)
    Leaves-bind run next k = record {
      at = λ s h.
          let (a, _, r, q) = >>=-eq-going R S C K E run next s h in
          let rest = k a in subst (λ end. P end.1) (sym q) (rest.at (run s).1 r);
    }

    Leaves-or_end :
        (given : Matching K.AppMatches) (next : K.AppMatches → Run R S C K E ⊤)
        → ((m : K.AppMatches) → given ≡ matched m → Leaves P (next m))
        → Leaves P (◌>>=◌ R S C K E (or_end R S C K E given) next)
    Leaves-or_end ended_process next k = record { at = λ s h. cc }
    Leaves-or_end parser_panicked next k = record { at = λ s h. cc }
    Leaves-or_end (matched m) next k = record { at = λ s. (k m refl).at s }

    Leaves-unwrap :
        {A : Type 0} (given : Option A) (next : A → Run R S C K E ⊤)
        → ((a : A) → given ≡ some a → Leaves P (next a))
        → Leaves P (◌>>=◌ R S C K E (unwrap R S C K E given) next)
    Leaves-unwrap none next k = record { at = λ s h. cc }
    Leaves-unwrap (some a) next k = record { at = λ s. (k a refl).at s }

  -- What `main` ran, at its end.
  abbrev pub HasRun : Parsers S.Meta → K.Argv → Session R S C K E → Type 0
  HasRun P argv final =
      (m : K.AppMatches) × (name : String) × (matches : K.Matches) × (K.get_matches
          (app E.config_file) (parse_transfer_hook_account_arg P) argv
        ≡ matched m)
      × (K.subcommand m ≡ some (name, matches))
      × RanAs R S C K E name matches final

-- A run of `main` that returns was given one of the two subcommands, and its command was done with a
-- signature: it ran on the program and the mint that the arguments give and on all the accounts
-- that they list, in their order. Nothing used the network after it, and its signature is the last
-- line that was printed.
pub main-HasRun :
    (R : Runtime) (S : Spl) {Failure : Type 0} (C : Client Failure) (K : Clap Failure S.Meta)
    (E : Keys K C) (P : Parsers S.Meta) (argv : K.Argv) (s : Session R S C K E)
    → (main R S C K E P argv s).0 ≡ going tt
    → HasRun R S C K E P argv (main R S C K E P argv s).1
unfolding main
main-HasRun R S C K E P argv s h =
    let Q = HasRun R S C K E P argv in
    let run =
      Leaves-or_end R S C K E Q
        (K.get_matches (app E.config_file) (parse_transfer_hook_account_arg P) argv) _
        (λ m e₁. Leaves-unwrap R S C K E Q (K.subcommand m) _ (λ (name, matches) e₂.
          Leaves-bind R S C K E Q (no_wallet R S C K E) _ (λ _.
            Leaves-bind R S C K E Q (load_cli_config R S C K E matches) _ (λ cli_config.
              Leaves-bind R S C K E Q (read_config R S C K E matches cli_config) _ (λ config.
                Leaves-bind R S C K E Q (connect R S C K E config) _ (λ _. record {
                  at = λ t r. (
                    m,
                    name,
                    matches,
                    e₁,
                    e₂,
                    dispatch-RanAs R S C K E name matches cli_config config t r,
                  );
                })))))) in
    run.at s h

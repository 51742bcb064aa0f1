-- ===== src/Cli/Main/Ends.antt =====
-- How a run of `main` may end, and what it has done by then.
use Prim.Native.String.{String}
use transfer_hook.Prelude.{
  ⊤, ◌≡◌, refl, ap, ◌∙◌, Bool, Bool-cases, true, false, ◌⊎◌, inl, inr, List, ◌∷◌, if◌then◌else◌,
}
use transfer_hook.Solana.Sdk.{Runtime, Spl}
use transfer_hook.Cli.Arguments.{app}
use transfer_hook.Cli.Client.{Client, CommandError, Outcome, done, refused, crashed, Command}
use transfer_hook.Cli.Clap.{
  Matching, matched, ended_process, parser_panicked, Clap, CliConfig, Keys,
}
use transfer_hook.Cli.Meta.{Parsers, parse_transfer_hook_account_arg}
use transfer_hook.Cli.Main.Quiet.{
  LeftQuiet, Quiet, Quiet-unwrap, Quiet-no_wallet, Quiet-signer_of, Quiet-load, Quiet-read_config,
  Quiet-required_pubkey, Quiet-accounts,
}
use transfer_hook.Cli.Main.{
  ended_by_clap, returned, exited, panicked, Step, going, ended, Line, error_line, Session, Run,
  proceed, ◌>>=◌, end, or_end, Config, connect, report, send, create_extra_metas,
  update_extra_metas, dispatch, main,
}

module _ (R : Runtime) (S : Spl) {Failure : Type 0} (C : Client Failure) (K : Clap Failure S.Meta)
    (E : Keys K C) where
  -- No request was made: the network is as it was, but for the choice of a cluster.
  abbrev pub Unasked : Session R S C K E → Session R S C K E → Type 0
  Unasked s t =
      (t.net ≡ s.net) ⊎ ((url : String) × (t.net ≡ E.new_with_commitment url E.confirmed s.net))

  -- clap ends the process at once, an error is returned before any request, and the process exits
  -- with 1, on which the last line that was printed is an error.
  abbrev pub HasEnded : Session R S C K E → Step Failure ⊤ → Session R S C K E → Type 0
  HasEnded s (ended ended_by_clap) t = t ≡ s
  HasEnded s (ended (returned e)) t = Unasked s t
  HasEnded s (ended (exited code)) t =
      (code ≡ 1)
      × ((e : CommandError Failure) × (lines : List (Line Failure C.Signature)) × (t.printed
            ≡ error_line e ∷ lines))
  HasEnded s (ended panicked) t = Unit
  HasEnded s (going a) t = Unit

  -- From a session that is related to the first one, the run ends as it may.
  record Goes (Rel : Session R S C K E → Session R S C K E → Type 0) (run : Run R S C K E ⊤)
      : Type 0 where
    at : (s t : Session R S C K E) → Rel s t → HasEnded s (run t).0 (run t).1

  abbrev SameNet : Session R S C K E → Session R S C K E → Type 0
  SameNet s t = t.net ≡ s.net

  record IsKept (Rel : Session R S C K E → Session R S C K E → Type 0) : Type 0 where
    kept : (s t u : Session R S C K E) → Rel s t → u.net ≡ t.net → Rel s u
    unasked : (s t : Session R S C K E) → Rel s t → Unasked s t

  SameNet-IsKept : IsKept SameNet
  SameNet-IsKept = record { kept = λ s t u h e. e ∙ h; unasked = λ s t h. inl h }

  Unasked-IsKept : IsKept Unasked
  Unasked-IsKept = record {
    kept = λ s t u h e. elim h [
      | inl same ↦ inl (e ∙ same)
      | inr (url, chosen) ↦ inr (url, e ∙ chosen)
    ];
    unasked = λ s t h. h;
  }

  module _ (Rel : Session R S C K E → Session R S C K E → Type 0) (D : IsKept Rel) where
    proceeds :
        {A : Type 0} (r : Step Failure A) (next : A → Run R S C K E ⊤) (s t u : Session R S C K E)
        → Rel s t
        → LeftQuiet R S C K E t r u
        → ((a : A) → Goes Rel (next a))
        → HasEnded s (proceed R S C K E r next u).0 (proceed R S C K E r next u).1
    proceeds (going a) next s t u h q k = (k a).at s u (D.kept s t u h q)
    proceeds (ended (returned e)) next s t u h q k = D.unasked s u (D.kept s t u h q)
    proceeds (ended panicked) next s t u h q k = tt
    proceeds (ended ended_by_clap) next s t u h q k = absurd q
    proceeds (ended (exited code)) next s t u h q k = absurd q

    Goes-bind :
        {A : Type 0} (run : Run R S C K E A) (next : A → Run R S C K E ⊤)
        → Quiet R S C K E run
        → ((a : A) → Goes Rel (next a))
        → Goes Rel (◌>>=◌ R S C K E run next)
    Goes-bind run next q k = record {
      at = λ s t h. proceeds (run t).0 next s t (run t).1 h (q.at t) k;
    }

  reported :
      (r : Outcome Failure C.Signature) (s t : Session R S C K E)
      → HasEnded s (report R S C K E r t).0 (report R S C K E r t).1
  reported (done signature) s t = tt
  reported (refused e) s t = (refl, (e, t.printed, refl))
  reported crashed s t = tt

  Goes-send : (command : Command Failure C.Net C.Signature) → Goes Unasked (send R S C K E command)
  Goes-send command = record { at = λ s t h. reported (command t.net).0 s _ }

  Goes-cond :
      (b : Bool) (first second : Run R S C K E ⊤)
      → Goes Unasked first
      → Goes Unasked second
      → Goes Unasked (if b then first else second)
  Goes-cond true first second h k = h
  Goes-cond false first second h k = k

  Goes-panic : Goes Unasked (end R S C K E panicked)
  Goes-panic = record { at = λ s t h. tt }

  Goes-later :
      {A : Type 0} (run : Run R S C K E A) (next : A → Run R S C K E ⊤)
      → Quiet R S C K E run
      → ((a : A) → Goes Unasked (next a))
      → Goes Unasked (◌>>=◌ R S C K E run next)
  Goes-later = Goes-bind Unasked Unasked-IsKept

  ruleset goes_rules = (
    Goes-later, Goes-send, Goes-cond, Goes-panic, Quiet-required_pubkey, Quiet-accounts,
    Quiet-signer_of,
  )

  Goes-dispatch :
      (name : String) (matches : K.Matches) (cli_config : CliConfig) (config : Config R S C K E)
      → Goes Unasked (dispatch R S C K E name matches cli_config config)
  unfolding create_extra_metas update_extra_metas
  Goes-dispatch name matches cli_config config = search goes_rules depth 9

  Goes-connect :
      (config : Config R S C K E) (next : Run R S C K E ⊤)
      → Goes Unasked next
      → Goes SameNet (◌>>=◌ R S C K E (connect R S C K E config) (λ _. next))
  unfolding connect
  Goes-connect config next k = record {
    at = λ s t h.
        let url = config.json_rpc_url in
        let chosen = inr (url, ap (E.new_with_commitment url E.confirmed) h) in
        elim (Bool-cases config.verbose) [
          | inl shown ↦ rw (shown) (k.at s _ chosen)
          | inr silent ↦ rw (silent) (k.at s _ chosen)
        ];
  }

  or_end-HasEnded :
      (given : Matching K.AppMatches) (next : K.AppMatches → Run R S C K E ⊤)
      (s : Session R S C K E)
      → ((m : K.AppMatches) → Goes SameNet (next m))
      → HasEnded s
          (◌>>=◌ R S C K E (or_end R S C K E given) next s).0
          (◌>>=◌ R S C K E (or_end R S C K E given) next s).1
  or_end-HasEnded ended_process next s k = refl
  or_end-HasEnded parser_panicked next s k = tt
  or_end-HasEnded (matched m) next s k = (k m).at s s refl

  Goes-first :
      {A : Type 0} (run : Run R S C K E A) (next : A → Run R S C K E ⊤)
      → Quiet R S C K E run
      → ((a : A) → Goes SameNet (next a))
      → Goes SameNet (◌>>=◌ R S C K E run next)
  Goes-first = Goes-bind SameNet SameNet-IsKept

  ruleset main_rules = (
    Goes-first, Goes-connect, Goes-dispatch, Quiet-unwrap, Quiet-no_wallet, Quiet-load,
    Quiet-read_config,
  )

  -- Where clap ends the process, nothing has changed. Where `main` returns an error, no request was
  -- made before it: the network is as it was, but for the choice of the cluster. Where the process
  -- exits, its code is 1, and the last line that was printed is the error.
  pub main-HasEnded :
      (P : Parsers S.Meta) (argv : K.Argv) (s : Session R S C K E)
      → HasEnded s (main R S C K E P argv s).0 (main R S C K E P argv s).1
  unfolding main
  main-HasEnded P argv s =
      or_end-HasEnded (K.get_matches (app E.config_file) (parse_transfer_hook_account_arg P) argv) _
        s (λ m. search main_rules depth 9)

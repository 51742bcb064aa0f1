-- ===== src/Cli/Main/Panics.antt =====
-- The runs of `main`'s steps that never panic: one rule for each way to build a step.
use transfer_hook.Prelude.{◌≡◌, ◌≢◌, refl, Bool, true, false, Option, none, some, if◌then◌else◌}
use transfer_hook.Solana.Sdk.{Runtime, Spl}
use transfer_hook.Cli.Client.{Answer, answered, failed, Client}
use transfer_hook.Cli.Clap.{
  Lookup, absent, found, undeclared, Matching, matched, ended_process, parser_panicked, Clap, Keys,
}
use transfer_hook.Cli.Main.{
  ended_by_clap, returned, exited, panicked, Step, going, ended, Line, Session, Run, proceed, ◌>>=◌,
  give, or_end, unwrap, or_return, look_up, with_wallet, print, no_wallet, change_net,
}

module _ (R : Runtime) (S : Spl) {Failure : Type 0} (C : Client Failure) (K : Clap Failure S.Meta)
    (E : Keys K C) where
  pub record NeverPanics {A : Type 0} (run : Run R S C K E A) : Type 0 where
    pub at : (s : Session R S C K E) → (run s).0 ≢ ended panicked

  pub NeverPanics-give : {A : Type 0} (a : A) → NeverPanics (give R S C K E a)
  NeverPanics-give a = record { at = λ s h. cc }

  pub NeverPanics-print : (line : Line Failure C.Signature) → NeverPanics (print R S C K E line)
  NeverPanics-print line = record { at = λ s h. cc }

  pub NeverPanics-no_wallet : NeverPanics (no_wallet R S C K E)
  NeverPanics-no_wallet = record { at = λ s h. cc }

  pub NeverPanics-change_net : (change : C.Net → C.Net) → NeverPanics (change_net R S C K E change)
  NeverPanics-change_net change = record { at = λ s h. cc }

  or_return-ne-panicked :
      {A : Type 0} (r : Answer Failure A) (s : Session R S C K E)
      → (or_return R S C K E r s).0 ≢ ended panicked
  or_return-ne-panicked (answered a) s = λ h. cc
  or_return-ne-panicked (failed e) s = λ h. cc

  pub NeverPanics-or_return :
      {A : Type 0} (r : Answer Failure A) → NeverPanics (or_return R S C K E r)
  NeverPanics-or_return r = record { at = or_return-ne-panicked r }

  pub NeverPanics-with_wallet :
      {A : Type 0} (call : Option E.Wallet → Answer Failure A × Option E.Wallet)
      → NeverPanics (with_wallet R S C K E call)
  NeverPanics-with_wallet call = record {
    at = λ s.
        or_return-ne-panicked (call s.wallet_manager).0
          (record s { wallet_manager = (call s.wallet_manager).1 });
  }

  pub NeverPanics-look_up :
      {A : Type 0} (l : Lookup A) → l ≢ undeclared → NeverPanics (look_up R S C K E l)
  NeverPanics-look_up absent h = record { at = λ s q. cc }
  NeverPanics-look_up (found a) h = record { at = λ s q. cc }
  NeverPanics-look_up undeclared h = record { at = λ s q. h refl }

  pub proceed-ne-panicked :
      {A B : Type 0} (r : Step Failure A) (next : A → Run R S C K E B) (s : Session R S C K E)
      → r ≢ ended panicked
      → ((a : A) → r ≡ going a → NeverPanics (next a))
      → (proceed R S C K E r next s).0 ≢ ended panicked
  proceed-ne-panicked (going a) next s h k = (k a refl).at s
  proceed-ne-panicked (ended ended_by_clap) next s h k = λ q. cc
  proceed-ne-panicked (ended (returned e)) next s h k = λ q. cc
  proceed-ne-panicked (ended (exited n)) next s h k = λ q. cc
  proceed-ne-panicked (ended panicked) next s h k = λ q. h refl

  pub NeverPanics-bind :
      {A B : Type 0} (run : Run R S C K E A) (next : A → Run R S C K E B)
      → NeverPanics run
      → ((a : A) → NeverPanics (next a))
      → NeverPanics (◌>>=◌ R S C K E run next)
  NeverPanics-bind run next h k = record {
    at = λ s. proceed-ne-panicked (run s).0 next (run s).1 (h.at s) (λ a _. k a);
  }

  pub NeverPanics-cond :
      {A : Type 0} (b : Bool) (first second : Run R S C K E A)
      → NeverPanics first
      → NeverPanics second
      → NeverPanics (if b then first else second)
  NeverPanics-cond true first second h k = h
  NeverPanics-cond false first second h k = k

  -- What clap gave is known to the steps that follow.
  pub NeverPanics-or_end :
      {B : Type 0} (given : Matching K.AppMatches) (next : K.AppMatches → Run R S C K E B)
      → given ≢ parser_panicked
      → ((m : K.AppMatches) → given ≡ matched m → NeverPanics (next m))
      → NeverPanics (◌>>=◌ R S C K E (or_end R S C K E given) next)
  NeverPanics-or_end ended_process next h k = record { at = λ s q. cc }
  NeverPanics-or_end (matched m) next h k = record { at = λ s. (k m refl).at s }
  NeverPanics-or_end parser_panicked next h k = absurd (h refl)

  pub NeverPanics-unwrap :
      {A B : Type 0} (given : Option A) (next : A → Run R S C K E B)
      → given ≢ none
      → ((a : A) → given ≡ some a → NeverPanics (next a))
      → NeverPanics (◌>>=◌ R S C K E (unwrap R S C K E given) next)
  NeverPanics-unwrap none next h k = absurd (h refl)
  NeverPanics-unwrap (some a) next h k = record { at = λ s. (k a refl).at s }

  pub ruleset panic_rules = (
    NeverPanics-give, NeverPanics-print, NeverPanics-no_wallet, NeverPanics-change_net,
    NeverPanics-or_return, NeverPanics-with_wallet, NeverPanics-look_up, NeverPanics-bind,
    NeverPanics-cond,
  )

-- ===== src/Cli/Main/Arms.antt =====
-- What the arms of the `match` in `main` have done where they go on.
use Prim.Native.String.{String}
use text.Mathlib.Text.{◌==◌}
use transfer_hook.Prelude.{
  ⊤, ◌≡◌, refl, ap, ◌∙◌, Bool-cases, true, inl, inr, ◌⊎◌, Option, none, some, List, [], ◌∷◌,
}
use transfer_hook.Solana.Account.{Pubkey}
use transfer_hook.Solana.Sdk.{Runtime, Spl}
use transfer_hook.Cli.Client.{
  Answer, answered, failed, Client, Outcome, done, refused, crashed, Command,
}
use transfer_hook.Cli.Commands.{
  process_create_extra_account_metas, process_update_extra_account_metas,
}
use transfer_hook.Cli.Clap.{Lookup, absent, found, undeclared, Clap, CliConfig, Keys}
use transfer_hook.Cli.Main.{
  Step, going, ended, signature_line, flatten, Session, Run, proceed, ◌>>=◌, give, unwrap,
  or_return, look_up, signer_of, Config, required_pubkey, or_empty, transfer_hook_accounts_of,
  report, send, create_extra_metas, update_extra_metas, dispatch,
}

-- The values of an argument that may be left out.
abbrev pub values_of : {A : Type 0} → Lookup (List A) → List A
values_of absent = []
values_of (found values) = values
values_of undeclared = []

module _ (R : Runtime) (S : Spl) {Failure : Type 0} (C : Client Failure) (K : Clap Failure S.Meta)
    (E : Keys K C) where
  abbrev pub CommandOf : Type 0
  CommandOf =
      Pubkey → Pubkey → List S.Meta → C.Signer → C.Signer → Command Failure C.Net C.Signature

  -- The command ran on the keys and the accounts that the arguments give; it is the last that used
  -- the network, and its signature is the last line printed.
  pub record Reports (command : CommandOf) (matches : K.Matches) (final : Session R S C K E)
      : Type 0 where
    pub program_id : Pubkey
    pub token : Pubkey
    pub metas : List S.Meta
    pub mint_authority : C.Signer
    pub payer : C.Signer
    pub signature : C.Signature
    pub before : Session R S C K E
    pub program_id_given :
        (wallet : Option E.Wallet) × ((E.try_get_pubkey matches "program_id" wallet).0
          ≡ answered (some program_id))
    pub token_given :
        (wallet : Option E.Wallet) × ((E.try_get_pubkey matches "token" wallet).0
          ≡ answered (some token))
    pub metas_given : metas ≡ flatten (values_of (K.get_many matches "transfer_hook_accounts"))
    pub sent : (command program_id token metas mint_authority payer before.net).0 ≡ done signature
    pub left : final.net ≡ (command program_id token metas mint_authority payer before.net).1
    pub shown : final.printed ≡ signature_line signature ∷ before.printed

  -- A run that goes on went through its first part, and ended where the rest ended.
  pub >>=-eq-going :
      {A B : Type 0} (run : Run R S C K E A) (next : A → Run R S C K E B) (s : Session R S C K E)
      {b : B}
      → (◌>>=◌ R S C K E run next s).0 ≡ going b
      → (a : A) × ((run s).0 ≡ going a)
        × ((next a (run s).1).0 ≡ going b)
        × (◌>>=◌ R S C K E run next s ≡ next a (run s).1)
  >>=-eq-going {A} {B} run next s {b} h = by_step (run s).0 refl h
    where
      by_step :
          (r : Step Failure A)
          → (run s).0 ≡ r
          → (proceed R S C K E r next (run s).1).0 ≡ going b
          → (a : A) × ((run s).0 ≡ going a)
            × ((next a (run s).1).0 ≡ going b)
            × (◌>>=◌ R S C K E run next s ≡ next a (run s).1)
      by_step (going a) e k = (a, e, k, rw (e))
      by_step (ended x) e k = cc

  -- An arm of the `match`, on the command that it calls.
  abbrev arm : CommandOf → K.Matches → CliConfig → Config R S C K E → Run R S C K E ⊤
  arm command matches cli_config config =
      ◌>>=◌ R S C K E (required_pubkey R S C K E matches "program_id") λ program_id.
        ◌>>=◌ R S C K E (required_pubkey R S C K E matches "token") λ token.
          ◌>>=◌ R S C K E (transfer_hook_accounts_of R S C K E matches) λ accounts.
            ◌>>=◌ R S C K E (signer_of R S C K E matches cli_config "mint_authority")
              λ mint_authority.
                send R S C K E
                  (command program_id token accounts mint_authority config.default_signer)

  unwrapped :
      (r : Answer Failure (Option Pubkey)) (s : Session R S C K E) {key : Pubkey}
      → (◌>>=◌ R S C K E (or_return R S C K E r) (unwrap R S C K E) s).0 ≡ going key
      → r ≡ answered (some key)
  unwrapped (answered none) s h = cc
  unwrapped (answered (some a)) s h = cc
  unwrapped (failed e) s h = cc

  required_pubkey-eq-going :
      (matches : K.Matches) (id : String) (s : Session R S C K E) {key : Pubkey}
      → (required_pubkey R S C K E matches id s).0 ≡ going key
      → (E.try_get_pubkey matches id s.wallet_manager).0 ≡ answered (some key)
  unfolding required_pubkey
  required_pubkey-eq-going matches id s h =
      unwrapped (E.try_get_pubkey matches id s.wallet_manager).0 _ h

  collected :
      (l : Lookup (List (List S.Meta))) (s : Session R S C K E) {metas : List S.Meta}
      → (◌>>=◌ R S C K E
          (look_up R S C K E l)
          (λ values. give R S C K E (flatten (or_empty R S C K E values)))
          s).0
        ≡ going metas
      → metas ≡ flatten (values_of l)
  collected absent s h = cc
  collected (found values) s h = cc
  collected undeclared s h = cc

  accounts-eq-going :
      (matches : K.Matches) (s : Session R S C K E) {metas : List S.Meta}
      → (transfer_hook_accounts_of R S C K E matches s).0 ≡ going metas
      → metas ≡ flatten (values_of (K.get_many matches "transfer_hook_accounts"))
  unfolding transfer_hook_accounts_of
  accounts-eq-going matches s h = collected (K.get_many matches "transfer_hook_accounts") s h

  report-eq-going :
      (r : Outcome Failure C.Signature) (s : Session R S C K E)
      → (report R S C K E r s).0 ≡ going tt
      → (signature : C.Signature) × (r ≡ done signature)
        × ((report R S C K E r s).1.net ≡ s.net)
        × ((report R S C K E r s).1.printed ≡ signature_line signature ∷ s.printed)
  report-eq-going (done signature) s h = (signature, refl, refl, refl)
  report-eq-going (refused e) s h = cc
  report-eq-going crashed s h = cc

  arm-Reports :
      (command : CommandOf) (matches : K.Matches) (cli_config : CliConfig)
      (config : Config R S C K E) (s : Session R S C K E)
      → (arm command matches cli_config config s).0 ≡ going tt
      → Reports command matches (arm command matches cli_config config s).1
  arm-Reports command matches cli_config config s h =
      let id_step = required_pubkey R S C K E matches "program_id" in
      let token_step = required_pubkey R S C K E matches "token" in
      let accounts_step = transfer_hook_accounts_of R S C K E matches in
      let authority_step = signer_of R S C K E matches cli_config "mint_authority" in
      let (program_id, e₁, r₁, q₁) = >>=-eq-going id_step _ s h in
      let (token, e₂, r₂, q₂) = >>=-eq-going token_step _ (id_step s).1 r₁ in
      let s₂ = (token_step (id_step s).1).1 in
      let (metas, e₃, r₃, q₃) = >>=-eq-going accounts_step _ s₂ r₂ in
      let s₃ = (accounts_step s₂).1 in
      let (mint_authority, e₄, r₄, q₄) = >>=-eq-going authority_step _ s₃ r₃ in
      let s₄ = (authority_step s₃).1 in
      let ran = command program_id token metas mint_authority config.default_signer s₄.net in
      let (signature, sent, left, shown) = report-eq-going ran.0 (record s₄ { net = ran.1 }) r₄ in
      let final = ap (λ end. end.1) (q₁ ∙ q₂ ∙ q₃ ∙ q₄) in
      record {
        program_id = program_id;
        token = token;
        metas = metas;
        mint_authority = mint_authority;
        payer = config.default_signer;
        signature = signature;
        before = s₄;
        program_id_given = (s.wallet_manager, required_pubkey-eq-going matches "program_id" s e₁);
        token_given = ((id_step s).1.wallet_manager, required_pubkey-eq-going matches "token" _ e₂);
        metas_given = accounts-eq-going matches s₂ e₃;
        sent = sent;
        left = ap (λ end. end.net) final ∙ left;
        shown = ap (λ end. end.printed) final ∙ shown;
      }

  abbrev creates : CommandOf
  creates program_id token metas mint_authority payer =
      process_create_extra_account_metas R S C program_id token metas mint_authority payer

  abbrev updates : CommandOf
  updates program_id token metas mint_authority payer =
      process_update_extra_account_metas R S C program_id token metas mint_authority payer

  -- The subcommand that was given, and the command that it stands for.
  abbrev pub RanAs : String → K.Matches → Session R S C K E → Type 0
  RanAs name matches final =
      ((name == "create-extra-metas" ≡ true) × Reports creates matches final)
      ⊎ ((name == "update-extra-metas" ≡ true) × Reports updates matches final)

  pub dispatch-RanAs :
      (name : String) (matches : K.Matches) (cli_config : CliConfig) (config : Config R S C K E)
      (s : Session R S C K E)
      → (dispatch R S C K E name matches cli_config config s).0 ≡ going tt
      → RanAs name matches (dispatch R S C K E name matches cli_config config s).1
  unfolding create_extra_metas update_extra_metas
  dispatch-RanAs name matches cli_config config s h =
      elim (Bool-cases (name == "create-extra-metas")) [
        | inl first ↦
            inl (
              first,
              rw (first) (arm-Reports creates matches cli_config config s (rw (first) at h)),
            )
        | inr elsewhere ↦ elim (Bool-cases (name == "update-extra-metas")) [
          | inl second ↦ inr (
            second,
            rw (elsewhere, second)
                (arm-Reports updates matches cli_config config s (rw (elsewhere, second) at h)),
          )
          | inr nowhere ↦ cc (rw (elsewhere, nowhere) at h)
        ]
      ]

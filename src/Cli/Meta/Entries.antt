-- ===== src/Cli/Meta/Entries.antt =====
-- The accounts that the entries of a configuration file stand for.
use Prim.Native.String.{String}
use transfer_hook.Prelude.{◌≡◌, refl, sym, ◌↔◌, ◌⊎◌, inl, inr, List, [], ◌∷◌, ◌++◌}
use transfer_hook.Solana.Error.{Result, ok, err, panic}
use transfer_hook.Solana.Account.{Pubkey}
use transfer_hook.Cli.Meta.{
  Role, AddressConfig, pubkey, seeds, Config, Parse, value, message, Parsers, parsed, panicked,
  unwrap_parse, unwrap_result, access_of, extra_account_meta_with, extra_account_meta_of,
  extra_account_metas_of,
}
use transfer_hook.Cli.Meta.Routes.{>>=-eq-parsed}

unwrap_parse-eq-parsed :
    {A : Type 0} (p : Parse A) {a : A} → unwrap_parse p ≡ parsed a → p ≡ value a
unwrap_parse-eq-parsed (value a) h = cc
unwrap_parse-eq-parsed (message e) h = cc

unwrap_result-eq-parsed :
    {A : Type 0} (r : Result A) {a : A} → unwrap_result r ≡ parsed a → r ≡ ok a
unwrap_result-eq-parsed (ok a) h = cc
unwrap_result-eq-parsed (err e) h = cc
unwrap_result-eq-parsed panic h = cc

module _ {Meta : Type 0} (P : Parsers Meta) where
  -- The account that an entry stands for: its address or its seeds, with the flags of its role.
  abbrev pub StandsFor : Config P.Seed → Meta → Type 0
  StandsFor config meta =
      let access = access_of config.role in
      ((text : String) × (key : Pubkey) × (config.address_config ≡ pubkey text)
        × (P.pubkey_from_str text ≡ value key)
        × (P.new_with_pubkey key access.is_signer access.is_writable ≡ ok meta))
      ⊎ ((list : List P.Seed) × (config.address_config ≡ seeds list)
          × (P.new_with_seeds list access.is_signer access.is_writable ≡ ok meta))

  -- The accounts stand for the entries, one for each and in their order.
  abbrev pub StandFor : List (Config P.Seed) → List Meta → Type 0
  StandFor [] [] = Unit
  StandFor (config ∷ configs) (meta ∷ metas) = StandsFor config meta × StandFor configs metas
  StandFor _ _ = ⊥

  by_address :
      (a : AddressConfig P.Seed) (role : Role) (meta : Meta)
      → extra_account_meta_with P a (access_of role) ≡ parsed meta
      → StandsFor (record { address_config = a; role = role }) meta
  by_address (pubkey text) role meta h =
      let (key, keyed, made) = >>=-eq-parsed (unwrap_parse (P.pubkey_from_str text)) _ h in
      inl (text, key, refl, unwrap_parse-eq-parsed _ keyed, unwrap_result-eq-parsed _ made)
  by_address (seeds list) role meta h = inr (list, refl, unwrap_result-eq-parsed _ h)

  extra_account_meta_of_iff :
      (config : Config P.Seed) (meta : Meta)
      → (extra_account_meta_of P config ≡ parsed meta) ↔ StandsFor config meta
  extra_account_meta_of_iff config meta = (
    by_address config.address_config config.role meta,
    λ h. elim h [
      | inl (text, key, here, keyed, made) ↦ rw (here, keyed, made)
      | inr (list, here, made) ↦ rw (here, made)
    ],
  )

  pub extra_account_metas_of_iff :
      (configs : List (Config P.Seed)) (metas : List Meta)
      → (extra_account_metas_of P configs ≡ parsed metas) ↔ StandFor configs metas
  extra_account_metas_of_iff [] [] = (λ h. tt, λ h. refl)
  extra_account_metas_of_iff [] (meta ∷ metas) = (λ h. cc, λ h. absurd h)
  extra_account_metas_of_iff (config ∷ configs) [] = (
    λ h.
        let (_, _, rest) = >>=-eq-parsed (extra_account_meta_of P config) _ h in
        let (_, _, ends) = >>=-eq-parsed (extra_account_metas_of P configs) _ rest in cc,
    λ h. absurd h,
  )
  extra_account_metas_of_iff (config ∷ configs) (meta ∷ metas) = (
    (λ h.
        let (m, e₁, rest) = >>=-eq-parsed (extra_account_meta_of P config) _ h in
        let (ms, e₂, ends) = >>=-eq-parsed (extra_account_metas_of P configs) _ rest in
        let (first, others) : (m ≡ meta) × (ms ≡ metas) = (cc, cc) in
        (
          (extra_account_meta_of_iff config meta).0 (rw (sym first, e₁)),
          (extra_account_metas_of_iff configs metas).0 (rw (sym others, e₂)),
        )),
    (λ (here, there). rw (
      (extra_account_meta_of_iff config meta).1 here,
      (extra_account_metas_of_iff configs metas).1 there,
    )),
  )

  pub metas-panicked :
      (before after : List (Config P.Seed)) (config : Config P.Seed) (metas : List Meta)
      → StandFor before metas
      → extra_account_meta_of P config ≡ panicked
      → extra_account_metas_of P (before ++ (config ∷ after)) ≡ panicked
  metas-panicked [] after config metas h bad = rw (bad)
  metas-panicked (c ∷ before) after config [] h bad = absurd h
  metas-panicked (c ∷ before) after config (m ∷ metas) (here, there) bad =
      rw
        ((extra_account_meta_of_iff c m).1 here, metas-panicked before after config metas there bad)

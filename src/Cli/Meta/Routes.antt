-- ===== src/Cli/Meta/Routes.antt =====
-- An account that is given as an address with a role is the one that a configuration file with the
-- same entry gives.
use Prim.Native.String.{String}
use transfer_hook.Prelude.{◌≡◌, refl, false, List, [], ◌∷◌}
use transfer_hook.Solana.Error.{Result, ok, err, panic}
use transfer_hook.Cli.Meta.{
  Role, pubkey, Parse, value, message, Parsers, Parsed, parsed, rejected, panicked, ArgumentError,
  plain, or_reject, ◌>>=◌, is_colon, split_at_colons, extra_account_metas_of, access_of, single,
  parse_pubkey_role_arg, parse_transfer_hook_account_arg,
}

-- No character of the text is a colon.
abbrev pub HasNoColon : String → Type 0
HasNoColon String.[] = Unit
HasNoColon (String.◌∷◌ c text) = (is_colon c ≡ false) × HasNoColon text

-- `first:second`
abbrev pub joined : String → String → String
joined String.[] second = String.◌∷◌ ":" second
joined (String.◌∷◌ c first) second = String.◌∷◌ c (joined first second)

pub split-plain : (text : String) → HasNoColon text → split_at_colons text ≡ text ∷ []
split-plain String.[] h = refl
split-plain (String.◌∷◌ c text) (here, there) = rw (here, split-plain text there)

split-joined :
    (first second : String)
    → HasNoColon first
    → HasNoColon second
    → split_at_colons (joined first second) ≡ first ∷ second ∷ []
split-joined String.[] second h k = rw (split-plain second k)
split-joined (String.◌∷◌ c first) second (here, there) k =
    rw (here, split-joined first second there k)

pub or_reject-eq-parsed :
    {A : Type 0} (p : Parse A) (error : String → ArgumentError) {a : A}
    → or_reject p error ≡ parsed a
    → p ≡ value a
or_reject-eq-parsed (value a) error h = cc
or_reject-eq-parsed (message e) error h = cc

pub >>=-eq-parsed :
    {A B : Type 0} (m : Parsed A) (f : A → Parsed B) {b : B}
    → (m >>= f) ≡ parsed b
    → (a : A) × (m ≡ parsed a) × (f a ≡ parsed b)
>>=-eq-parsed (parsed a) f h = (a, refl, h)
>>=-eq-parsed (rejected e) f h = cc
>>=-eq-parsed panicked f h = cc

module _ {Meta : Type 0} (P : Parsers Meta) where
  single-eq-parsed :
      (r : Result Meta) {metas : List Meta}
      → single P r ≡ parsed metas
      → (meta : Meta) × (r ≡ ok meta) × (metas ≡ meta ∷ [])
  single-eq-parsed (ok meta) h = (meta, refl, cc)
  single-eq-parsed (err e) h = cc
  single-eq-parsed panic h = cc

  -- Where `address:role` is accepted, the role is one of the four, and a configuration file with
  -- that one entry gives the same list of accounts. Neither part may contain a colon.
  pub parse_transfer_hook_account_arg-joined :
      (address role : String)
      → HasNoColon address
      → HasNoColon role
      → {metas : List Meta} → parse_transfer_hook_account_arg P (joined address role) ≡ parsed metas
      → (r : Role) × (P.role_from_str role ≡ value r)
        × (extra_account_metas_of P (record { address_config = pubkey address; role = r } ∷ [])
            ≡ parsed metas)
  unfolding parse_transfer_hook_account_arg parse_pubkey_role_arg
  parse_transfer_hook_account_arg-joined address role h k {metas} accepted =
      let (key, keyed, rest) =
        >>=-eq-parsed (or_reject (P.pubkey_from_str address) plain) _
          (rw (split-joined address role h k) at accepted) in
      let (r, roled, made) = >>=-eq-parsed (or_reject (P.role_from_str role) plain) _ rest in
      let access = access_of r in
      let (meta, built, same) =
        single-eq-parsed (P.new_with_pubkey key access.is_signer access.is_writable) made in
      (
        r,
        or_reject-eq-parsed (P.role_from_str role) plain roled,
        rw (or_reject-eq-parsed (P.pubkey_from_str address) plain keyed, built, same),
      )

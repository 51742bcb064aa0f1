-- ===== src/Interface/Onchain/Grown.antt =====
-- Accounts added to an instruction and to the handles for it, and what a helper reads of them.
use transfer_hook.Prelude.{
  ⊤, ◌≡◌, refl, sym, ◌∙◌, Bool-cases, inl, inr, bytes_eq_iff, false, some, List, [], ◌∷◌, ◌++◌, map,
  append_assoc, append-nil, bytes_eq, length, drop-append, le→ltb, length-append, arith,
}
use mathlib.Core.List.{map-append}
use transfer_hook.Solana.Error.{Result, ok, err, panic}
use transfer_hook.Solana.Account.{Pubkey, AccountInfo, AccountMeta, new_readonly}
use transfer_hook.Solana.Sdk.{IsExtended}
use transfer_hook.Interface.Onchain.{Call, find_key, finished, slice_from, push_account}

-- Accounts were added behind those of the first call, a meta and a handle for each.
abbrev pub Extends : Call → Call → Type 0
Extends before after = IsExtended before.0 after.0 before.1 after.1

-- The handle that `find` gives has the key that was looked for.
pub find_key-eq-some :
    (key : Pubkey) (infos : List AccountInfo) {a : AccountInfo}
    → find_key key infos ≡ some a
    → a.key ≡ key
find_key-eq-some key [] h = cc
find_key-eq-some key (x ∷ xs) h = elim (Bool-cases (bytes_eq x.key key)) [
  | inl e ↦ ground (arith, bytes_eq_iff x.key key, h)
  | inr n ↦ find_key-eq-some key xs (rw n at h)
]

pub push-Extends :
    (before call : Call) (a : AccountInfo) (key : Pubkey)
    → a.key ≡ key
    → Extends before call
    → Extends before (push_account call.0 (new_readonly key false), call.1 ++ (a ∷ []))
push-Extends before call a key same E = record {
  extra_metas = E.extra_metas ++ (new_readonly key false ∷ []);
  extra_infos = E.extra_infos ++ (a ∷ []);
  metas_added =
      rw E.metas_added (append_assoc before.0.accounts E.extra_metas (new_readonly key false ∷ []));
  infos_added = rw E.infos_added (append_assoc before.1 E.extra_infos (a ∷ []));
  same_keys = rw (
    map-append (λ m. m.pubkey) E.extra_metas (new_readonly key false ∷ []),
    map-append (λ m. m.key) E.extra_infos (a ∷ []),
    E.same_keys,
    same,
  );
  same_program = E.same_program;
  same_contents = E.same_contents;
}

pub finished-eq-ok :
    (outcome : Result ⊤ × Call) {after : Call}
    → finished outcome ≡ ok after
    → (outcome.0 ≡ ok tt) × (outcome.1 ≡ after)
finished-eq-ok (ok _, call) h = (refl, cc)
finished-eq-ok (err e, call) h = cc
finished-eq-ok (panic, call) h = cc

-- Behind five items, the slice from the fifth on is what was added.
pub slice_from_5 {ℓ} :
    {A : Type ℓ} (first extra : List A)
    → length first ≡ 5
    → slice_from 5 (first ++ extra) ≡ ok extra
slice_from_5 first extra h =
    rw (le→ltb (length (first ++ extra)) 5 (omega (arith, length-append first extra)))
      (rw (drop-append 5 first extra h))

abbrev pub extended : Call → List AccountMeta → List AccountInfo → Call
extended (instruction, infos) metas more =
    (record instruction { accounts = instruction.accounts ++ metas }, infos ++ more)

pub extended-Extends :
    (cpi : Call) (metas : List AccountMeta) (infos : List AccountInfo)
    → map (λ m. m.pubkey) metas ≡ map (λ a. a.key) infos
    → Extends cpi (extended cpi metas infos)
extended-Extends cpi metas infos same = record {
  extra_metas = metas;
  extra_infos = infos;
  metas_added = refl;
  infos_added = refl;
  same_keys = same;
  same_program = refl;
  same_contents = refl;
}

pub unchanged-Extends : (cpi : Call) → Extends cpi cpi
unchanged-Extends cpi = record {
  extra_metas = [];
  extra_infos = [];
  metas_added = sym (append-nil cpi.0.accounts);
  infos_added = sym (append-nil cpi.1);
  same_keys = refl;
  same_program = refl;
  same_contents = refl;
}

pub Extends-trans : (a b c : Call) → Extends a b → Extends b c → Extends a c
Extends-trans a b c E F = record {
  extra_metas = E.extra_metas ++ F.extra_metas;
  extra_infos = E.extra_infos ++ F.extra_infos;
  metas_added =
      rw (F.metas_added, E.metas_added) (append_assoc a.0.accounts E.extra_metas F.extra_metas);
  infos_added = rw (F.infos_added, E.infos_added) (append_assoc a.1 E.extra_infos F.extra_infos);
  same_keys = rw (
    map-append (λ m. m.pubkey) E.extra_metas F.extra_metas,
    map-append (λ m. m.key) E.extra_infos F.extra_infos,
    E.same_keys,
    F.same_keys,
  );
  same_program = F.same_program ∙ E.same_program;
  same_contents = F.same_contents ∙ E.same_contents;
}

-- ===== src/Suite/ExtraMetas/Built.antt =====
-- What the libraries did where the tests' list was built, and keys that are all different.
use transfer_hook.Prelude.{
  ap, sym, take, zero, suc, ◌≢◌, some, get_elem?, bytes_eq, bytes_eq_ne, bytes_eq_self, ⊤, ℕ, ◌≡◌,
  refl, Bool, true, false, not, ◌&&◌, List, [], ◌∷◌, Bytes, length, replicate, arith,
}
use transfer_hook.Solana.Error.{Result, ok, err, panic, >>=-eq-ok, unwrap}
use transfer_hook.Solana.Account.{Pubkey}
use transfer_hook.Solana.Exec.{contains}
use transfer_hook.Solana.Sdk.{Spl}
use transfer_hook.Solana.Sdk.ExtraAccounts.{ExtraAccounts}
use transfer_hook.Suite.ExtraMetas.{
  extra_meta_1, extra_meta_2, seeds_3, seeds_4, left, extra_metas, setup_validation_data,
}

abbrev pub distinct : List Pubkey → Bool
distinct [] = true
distinct (key ∷ keys) = not (contains keys key) && distinct keys

distinct_parts :
    (key : Pubkey) (keys : List Pubkey)
    → distinct (key ∷ keys) ≡ true
    → (contains keys key ≡ false) × (distinct keys ≡ true)
distinct_parts key keys h = ground arith

bytes_eq_comm : (x y : Bytes) → bytes_eq x y ≡ false → bytes_eq y x ≡ false
bytes_eq_comm x y h = bytes_eq_ne y x (λ e. cc (rw (e, bytes_eq_self x) at h))

contains_at :
    (keys : List Pubkey) (key : Pubkey) (i : ℕ) {x : Pubkey}
    → contains keys key ≡ false
    → get_elem? keys i ≡ some x
    → bytes_eq x key ≡ false
contains_at [] key i h e = cc
contains_at (k ∷ keys) key zero h e = ground arith
contains_at (k ∷ keys) key (suc i) h e = contains_at keys key i (ground arith) e

-- Two places of a list without a repeated key hold two keys.
pub distinct_at :
    (keys : List Pubkey) (i j : ℕ) {x y : Pubkey}
    → distinct keys ≡ true
    → i ≢ j
    → get_elem? keys i ≡ some x
    → get_elem? keys j ≡ some y
    → bytes_eq x y ≡ false
distinct_at [] i j D ne e f = cc
distinct_at (k ∷ keys) zero zero D ne e f = absurd (ne refl)
distinct_at (k ∷ keys) zero (suc j) {x} {y} D ne e f =
    let same : k ≡ x = cc in
    rw (sym same) (bytes_eq_comm y k (contains_at keys k j (distinct_parts k keys D).0 f))
distinct_at (k ∷ keys) (suc i) zero {x} {y} D ne e f =
    let same : k ≡ y = cc in rw (sym same) (contains_at keys k i (distinct_parts k keys D).0 e)
distinct_at (k ∷ keys) (suc i) (suc j) D ne e f =
    distinct_at keys i j (distinct_parts k keys D).1 (λ same. ne (ap suc same)) e f

-- A key is not among those in front of it.
pub distinct_take :
    (keys : List Pubkey) (n : ℕ) {x : Pubkey}
    → distinct keys ≡ true
    → get_elem? keys n ≡ some x
    → contains (take n keys) x ≡ false
distinct_take [] n D e = cc
distinct_take (k ∷ keys) zero D e = refl
distinct_take (k ∷ keys) (suc n) {x} D e =
    rw (distinct_at (k ∷ keys) 0 (suc n) {x = k} {y = x} D (λ same. cc) refl e)
      (distinct_take keys n (distinct_parts k keys D).1 e)

unwrap-eq-ok : {A : Type 0} (r : Result A) {a : A} → unwrap r ≡ ok a → r ≡ ok a
unwrap-eq-ok (ok a) h = h
unwrap-eq-ok (err e) h = cc
unwrap-eq-ok panic h = cc

left-eq-ok : (r : Result ⊤ × Bytes) {bytes : Bytes} → left r ≡ ok bytes → r ≡ (ok tt, bytes)
left-eq-ok (ok _, bytes) h = cc
left-eq-ok (err e, bytes) h = cc
left-eq-ok (panic, bytes) h = cc

module _ (S : Spl) (X : ExtraAccounts S) where
  pub record IsBuilt (bytes : Bytes) : Type 0 where
    pub meta_1 : S.Meta
    pub meta_2 : S.Meta
    pub meta_3 : S.Meta
    pub meta_4 : S.Meta
    pub size : ℕ
    pub made_1 : X.new_with_pubkey extra_meta_1 true false ≡ ok meta_1
    pub made_2 : X.new_with_pubkey extra_meta_2 true false ≡ ok meta_2
    pub made_3 : X.new_with_seeds (seeds_3 S X) false true ≡ ok meta_3
    pub made_4 : X.new_with_seeds (seeds_4 S X) false true ≡ ok meta_4
    pub sized : S.size_of 4 ≡ ok size
    pub written :
        S.init S.execute_discriminator (replicate size 0) (meta_1 ∷ meta_2 ∷ meta_3 ∷ meta_4 ∷ [])
        ≡ (ok tt, bytes)

  pub setup-IsBuilt : {bytes : Bytes} → setup_validation_data S X ≡ ok bytes → IsBuilt bytes
  unfolding setup_validation_data extra_metas
  setup-IsBuilt h =
      let (metas, listed, h') = >>=-eq-ok (extra_metas S X) _ h in
      let (size, sized, wrote) = >>=-eq-ok (unwrap (S.size_of (length metas))) _ h' in
      let (meta_1, made_1, h_1) =
        >>=-eq-ok (unwrap (X.new_with_pubkey extra_meta_1 true false)) _ listed in
      let (meta_2, made_2, h_2) =
        >>=-eq-ok (unwrap (X.new_with_pubkey extra_meta_2 true false)) _ h_1 in
      let (meta_3, made_3, h_3) =
        >>=-eq-ok (unwrap (X.new_with_seeds (seeds_3 S X) false true)) _ h_2 in
      let (meta_4, made_4, h_4) =
        >>=-eq-ok (unwrap (X.new_with_seeds (seeds_4 S X) false true)) _ h_3 in
      let same : (meta_1 ∷ meta_2 ∷ meta_3 ∷ meta_4 ∷ []) ≡ metas = cc in
      record {
        meta_1 = meta_1;
        meta_2 = meta_2;
        meta_3 = meta_3;
        meta_4 = meta_4;
        size = size;
        made_1 = unwrap-eq-ok _ made_1;
        made_2 = unwrap-eq-ok _ made_2;
        made_3 = unwrap-eq-ok _ made_3;
        made_4 = unwrap-eq-ok _ made_4;
        sized = unwrap-eq-ok _ (rw (sym same) at sized);
        written = rw same (left-eq-ok _ (unwrap-eq-ok _ wrote));
      }

-- ===== src/Program/MetaList/Rewritten.antt =====
-- What the handler that updates a list would leave.
use transfer_hook.Prelude.{
  ⊤, ℕ, ◌≡◌, ◌≢◌, sym, ◌∙◌, ap, subst, Bool-cases, true, false, inl, inr, List, Bytes,
  bytes_eq_self, bytes_eq_ne, length, leb, if◌then◌else◌,
}
use transfer_hook.Solana.Error.{Result, ok}
use transfer_hook.Solana.Account.{Pubkey, Account, AccountInfo}
use transfer_hook.Solana.Exec.{World, Exec, update, lift, scoped, ◌>>◌}
use transfer_hook.Solana.Exec.Atomic.{>>-eq-ok, >>=-eq-ok}
use transfer_hook.Solana.Sdk.{Runtime, Resizes, resized, Spl}
use transfer_hook.Program.MetaList.{write_through, rewrite_meta_list}
use transfer_hook.Program.MetaList.Created.{write_through-ok}

module _ (S : Spl) (metas : List S.Meta) (size : ℕ) (old : Bytes) where
  -- What `update` is given, and what it makes of it.
  abbrev pub room : Bytes
  room = if leb (length old) size then resized size old else old

  abbrev pub made : Result ⊤ × Bytes
  made = S.update S.execute_discriminator room metas

  -- The account grows before the list is written, and shrinks after.
  abbrev pub left : Bytes
  left = if leb (length old) size then made.1 else resized size made.1

  made_longer :
      leb (length old) size ≡ true
      → (made ≡ S.update S.execute_discriminator (resized size old) metas) × (left ≡ made.1)
  made_longer h =
      let kept : room ≡ resized size old = rw (h) in
      (ap (λ bytes. S.update S.execute_discriminator bytes metas) kept, rw (h))

  made_shorter :
      leb (length old) size ≡ false
      → (made ≡ S.update S.execute_discriminator old metas) × (left ≡ resized size made.1)
  made_shorter h =
      let kept : room ≡ old = rw (h) in
      (ap (λ bytes. S.update S.execute_discriminator bytes metas) kept, rw (h))

-- The account at `key` holds what `update` made of its bytes, at the size of the new list. It keeps
-- its lamports and its owner, and no other account changed.
pub record HoldsUpdate (S : Spl) (key : Pubkey) (metas : List S.Meta)
    (before after : Pubkey → Account) : Type 0 where
  pub size : ℕ
  pub sized : S.size_of (length metas) ≡ ok size
  pub accepted : (made S metas size (before key).contents).0 ≡ ok tt
  pub held : after key ≡ record (before key) { contents = left S metas size (before key).contents }
  pub others : (k : Pubkey) → k ≢ key → after k ≡ before k

-- One account is changed twice, by functions of what it held.
module _ (k : Pubkey) (before between after : Pubkey → Account) (first second : Account → Account)
    (h : between ≡ update k (first (before k)) before)
    (g : after ≡ update k (second (between k)) between) where
  changed_once : between k ≡ first (before k)
  changed_once = rw (h, bytes_eq_self k)

  changed_twice : after k ≡ second (first (before k))
  changed_twice = rw (g, h, bytes_eq_self k)

  unchanged_twice : (j : Pubkey) → j ≢ k → after j ≡ before j
  unchanged_twice j differ = rw (g, h, bytes_eq_ne j k differ)

-- A step that ends well leaves the next one the world it made.
then_runs :
    (m k : Exec ⊤) (w : World) → (m w).0 ≡ ok tt → ((m >> k) w).1.accounts ≡ (k (m w).1).1.accounts
then_runs m k w h = rw (h)

module _ (R : Runtime) (Z : Resizes R) (S : Spl) (list : AccountInfo) (metas : List S.Meta)
    (size : ℕ) (w : World) where
  abbrev old : Bytes
  old = (w.accounts list.key).contents

  abbrev grows : Exec ⊤
  grows = R.resize list size >> write_through S S.update list metas

  abbrev shrinks : Exec ⊤
  shrinks = scoped (write_through S S.update list metas) >> R.resize list size

  -- What the two steps make of the account.
  abbrev grow : Account → Account
  grow a = record a { contents = resized size a.contents }

  abbrev fill : Account → Account
  fill a = record a { contents = (S.update S.execute_discriminator a.contents metas).1 }

  grows-HoldsUpdate :
      S.size_of (length metas) ≡ ok size
      → leb (length old) size ≡ true
      → (grows w).0 ≡ ok tt
      → HoldsUpdate S list.key metas w.accounts (grows w).1.accounts
  grows-HoldsUpdate sized longer h =
      let (grown, written) =
        >>-eq-ok (R.resize list size) (write_through S S.update list metas) w h in
      let cells = Z.resize_accounts list size w grown in
      let (made_of, left_of) = made_longer S metas size old longer in
      let middle = (R.resize list size w).1 in
      let (accepted, after) = write_through-ok S S.update list metas middle written in
      let runs = then_runs (R.resize list size) (write_through S S.update list metas) w grown in
      let ends = (grows w).1.accounts in
      let once =
        changed_once list.key w.accounts middle.accounts ends grow fill cells (runs ∙ after) in
      record {
        size = size;
        sized = sized;
        accepted = rw (made_of, sym (ap (λ a. a.contents) once), accepted);
        held = rw (
          left_of,
          made_of,
          changed_twice list.key w.accounts middle.accounts ends grow fill cells (runs ∙ after),
        );
        others =
            unchanged_twice list.key w.accounts middle.accounts ends grow fill cells (runs ∙ after);
      }

  shrinks-HoldsUpdate :
      S.size_of (length metas) ≡ ok size
      → leb (length old) size ≡ false
      → (shrinks w).0 ≡ ok tt
      → HoldsUpdate S list.key metas w.accounts (shrinks w).1.accounts
  shrinks-HoldsUpdate sized shorter h =
      let (written, cut) =
        >>-eq-ok (scoped (write_through S S.update list metas)) (R.resize list size) w h in
      let (made_of, left_of) = made_shorter S metas size old shorter in
      let middle = (scoped (write_through S S.update list metas) w).1 in
      let cells = Z.resize_accounts list size middle cut in
      let (accepted, after) = write_through-ok S S.update list metas w written in
      let runs =
        then_runs (scoped (write_through S S.update list metas)) (R.resize list size) w written in
      let ends = (shrinks w).1.accounts in
      record {
        size = size;
        sized = sized;
        accepted = rw (made_of, accepted);
        held = rw (
          left_of,
          made_of,
          changed_twice list.key w.accounts middle.accounts ends fill grow after (runs ∙ cells),
        );
        others =
            unchanged_twice list.key w.accounts middle.accounts ends fill grow after (runs ∙ cells);
      }

  -- What follows the computation of the new size.
  abbrev either : Exec ⊤
  either = if leb (length old) size then grows else shrinks

  either-HoldsUpdate :
      S.size_of (length metas) ≡ ok size
      → (either w).0 ≡ ok tt
      → HoldsUpdate S list.key metas w.accounts (either w).1.accounts
  either-HoldsUpdate sized h = elim (Bool-cases (leb (length old) size)) [
    | inl longer ↦
        let run : either w ≡ grows w = rw (longer) in
        subst (λ final. HoldsUpdate S list.key metas w.accounts final.1.accounts) (sym run)
          (grows-HoldsUpdate sized longer (ap (λ final. final.0) (sym run) ∙ h))
    | inr shorter ↦
        let run : either w ≡ shrinks w = rw (shorter) in
        subst (λ final. HoldsUpdate S list.key metas w.accounts final.1.accounts) (sym run)
          (shrinks-HoldsUpdate sized shorter (ap (λ final. final.0) (sym run) ∙ h))
  ]

module _ (R : Runtime) (Z : Resizes R) (S : Spl) (list : AccountInfo) (metas : List S.Meta)
    (w : World) where
  abbrev rewritten : Result ⊤ × World
  rewritten = rewrite_meta_list R S list (length (w.accounts list.key).contents) metas w

  -- Rewriting the list in place leaves what `update` makes of it.
  pub rewrite-HoldsUpdate :
      rewritten.0 ≡ ok tt → HoldsUpdate S list.key metas w.accounts rewritten.1.accounts
  unfolding rewrite_meta_list
  rewrite-HoldsUpdate h =
      let (size, sized, ran) =
        >>=-eq-ok (lift (S.size_of (length metas))) (λ n. either R Z S list metas n w) w h in
      let run : rewritten ≡ either R Z S list metas size w w = rw (sized) in
      subst (λ final. HoldsUpdate S list.key metas w.accounts final.1.accounts) (sym run)
        (either-HoldsUpdate R Z S list metas size w sized ran)

-- ===== src/Solana/Exec/Atomic.antt =====
-- Steps that write no account, and handlers that write none unless they return. One rule for each
-- way to build a step.
use transfer_hook.Prelude.{⊤, ◌≡◌, ◌≢◌, refl, ap, ◌∙◌, Bool, true, false, List, [], ◌∷◌, arith}
use transfer_hook.Solana.Error.{ProgramError, Result, ok, err, panic}
use transfer_hook.Solana.Account.{AccountInfo}
use transfer_hook.Solana.Exec.{
  World, Exec, continue, ◌>>=◌, lift, gets, fail_if, next_account_info, try_borrow_data,
  try_borrow_mut_data, scoped,
}

pub record ReadsOnly {A : Type 0} (m : Exec A) : Type 0 where
  pub at : (w : World) → (m w).1.accounts ≡ w.accounts

pub record IsAtomic (m : Exec ⊤) : Type 0 where
  pub at : (w : World) → (m w).0 ≢ ok tt → (m w).1.accounts ≡ w.accounts

module _ {A : Type 0} where
  pub ReadsOnly-lift : (r : Result A) → ReadsOnly (lift r)
  ReadsOnly-lift r = record { at = λ w. refl }

  pub ReadsOnly-gets : (f : World → A) → ReadsOnly (gets f)
  ReadsOnly-gets f = record { at = λ w. refl }

  pub ReadsOnly-scoped : (m : Exec A) → ReadsOnly m → ReadsOnly (scoped m)
  ReadsOnly-scoped m h = record { at = λ w. h.at w }

pub ReadsOnly-fail_if : (b : Bool) (e : ProgramError) → ReadsOnly (fail_if b e)
ReadsOnly-fail_if true e = record { at = λ w. refl }
ReadsOnly-fail_if false e = record { at = λ w. refl }

pub ReadsOnly-next : (accounts : List AccountInfo) → ReadsOnly (next_account_info accounts)
ReadsOnly-next [] = record { at = λ w. refl }
ReadsOnly-next (a ∷ rest) = record { at = λ w. refl }

pub ReadsOnly-try_borrow_data : (a : AccountInfo) → ReadsOnly (try_borrow_data a)
ReadsOnly-try_borrow_data a = record { at = λ w. ground arith }

pub ReadsOnly-try_borrow_mut_data : (a : AccountInfo) → ReadsOnly (try_borrow_mut_data a)
ReadsOnly-try_borrow_mut_data a = record { at = λ w. ground arith }

module _ {A B : Type 0} where
  continue-accounts :
      (r : Result A) (f : A → Exec B) (w : World)
      → ((a : A) → ReadsOnly (f a))
      → (continue r f w).1.accounts ≡ w.accounts
  continue-accounts (ok a) f w h = (h a).at w
  continue-accounts (err e) f w h = refl
  continue-accounts panic f w h = refl

  pub ReadsOnly-bind :
      (m : Exec A) (f : A → Exec B)
      → ReadsOnly m
      → ((a : A) → ReadsOnly (f a))
      → ReadsOnly (m >>= f)
  ReadsOnly-bind m f h k = record { at = λ w. continue-accounts (m w).0 f (m w).1 k ∙ h.at w }

pub IsAtomic-ReadsOnly : (m : Exec ⊤) → ReadsOnly m → IsAtomic m
IsAtomic-ReadsOnly m h = record { at = λ w _. h.at w }

pub IsAtomic-scoped : (m : Exec ⊤) → IsAtomic m → IsAtomic (scoped m)
IsAtomic-scoped m h = record { at = λ w e. h.at w e }

module _ {A : Type 0} where
  continue-atomic :
      (r : Result A) (f : A → Exec ⊤) (w : World)
      → ((a : A) → IsAtomic (f a))
      → (continue r f w).0 ≢ ok tt
      → (continue r f w).1.accounts ≡ w.accounts
  continue-atomic (ok a) f w h e = (h a).at w e
  continue-atomic (err x) f w h e = refl
  continue-atomic panic f w h e = refl

  pub IsAtomic-bind :
      (m : Exec A) (f : A → Exec ⊤) → ReadsOnly m → ((a : A) → IsAtomic (f a)) → IsAtomic (m >>= f)
  IsAtomic-bind m f h k = record { at = λ w e. continue-atomic (m w).0 f (m w).1 k e ∙ h.at w }

pub ruleset reads_rules = (
  ReadsOnly-lift, ReadsOnly-gets, ReadsOnly-scoped, ReadsOnly-fail_if, ReadsOnly-next,
  ReadsOnly-try_borrow_data, ReadsOnly-try_borrow_mut_data, ReadsOnly-bind,
)

pub ruleset atomic_rules = (reads_rules, IsAtomic-scoped, IsAtomic-bind)

-- A step that returned went through its first part, and then through the rest.
pub >>=-eq-ok :
    {A B : Type 0} (m : Exec A) (f : A → Exec B) (w : World) {b : B}
    → ((m >>= f) w).0 ≡ ok b
    → (a : A) × ((m w).0 ≡ ok a) × ((f a (m w).1).0 ≡ ok b)
>>=-eq-ok {A} {B} m f w {b} h = go (m w).0 refl h
  where
    go :
        (r : Result A)
        → (m w).0 ≡ r
        → (continue r f (m w).1).0 ≡ ok b
        → (a : A) × ((m w).0 ≡ ok a) × ((f a (m w).1).0 ≡ ok b)
    go (ok a) e k = (a, e, k)
    go (err x) e k = cc
    go panic e k = cc

pub >>-eq-ok :
    {B : Type 0} (m : Exec ⊤) (k : Exec B) (w : World) {b : B}
    → ((m >>= λ _. k) w).0 ≡ ok b
    → ((m w).0 ≡ ok tt) × ((k (m w).1).0 ≡ ok b)
>>-eq-ok m k w h = let (_, e, r) = >>=-eq-ok m (λ _. k) w h in (e, r)

pub fail_if-eq-ok :
    {B : Type 0} (test : Bool) (e : ProgramError) (k : Exec B) (w : World) {b : B}
    → ((fail_if test e >>= λ _. k) w).0 ≡ ok b
    → (test ≡ false) × ((k w).0 ≡ ok b)
fail_if-eq-ok true e k w h = cc
fail_if-eq-ok false e k w h = (refl, h)

-- The run of two steps, where that of the first is known.
pub run_from :
    {A B : Type 0} (m : Exec A) (f : A → Exec B) (w : World) {r : Result A} {w' : World}
    {end : Result B × World}
    → m w ≡ (r, w')
    → continue r f w' ≡ end
    → (m >>= f) w ≡ end
run_from m f w first rest = ap (λ step. continue step.0 f step.1) first ∙ rest

-- ===== src/Solana/Exec/Total.antt =====
-- Steps that never panic on accounts with a property. One rule for each way to build a step.
use transfer_hook.Prelude.{
  ◌≡◌, ◌≢◌, refl, subst, sym, Bool, true, false, List, [], ◌∷◌, Bytes, if◌then◌else◌, arith,
}
use transfer_hook.Solana.Error.{ProgramError, Result, ok, err, panic}
use transfer_hook.Solana.Account.{Pubkey, Account, AccountInfo}
use transfer_hook.Solana.Exec.{
  World, Exec, continue, ◌>>=◌, ◌>>◌, pure, raise, lift, gets, fail_if, next_account_info,
  try_borrow_data, try_borrow_mut_data, write_data, scoped,
}
use transfer_hook.Solana.Exec.Atomic.{
  ReadsOnly, ReadsOnly-try_borrow_data, ReadsOnly-try_borrow_mut_data,
}

module _ {A B : Type 0} where
  continue_at :
      (r : Result A) (f : A → Exec B) (w : World)
      → r ≢ panic
      → ((a : A) → r ≡ ok a → (f a w).0 ≢ panic)
      → (continue r f w).0 ≢ panic
  continue_at (ok a) f w ne h = h a refl
  continue_at (err e) f w ne h = λ p. cc
  continue_at panic f w ne h = absurd (ne refl)

  -- Two steps in a row, at one world.
  pub bind_at :
      (m : Exec A) (f : A → Exec B) (w : World)
      → (m w).0 ≢ panic
      → ((a : A) → (m w).0 ≡ ok a → (f a (m w).1).0 ≢ panic)
      → ((m >>= f) w).0 ≢ panic
  bind_at m f w = continue_at (m w).0 f (m w).1

borrowed_lem :
    (a : AccountInfo) (w : World) {bytes : Bytes}
    → (try_borrow_data a w).0 ≡ ok bytes
    → (w.accounts a.key).contents ≡ bytes
borrowed_lem a w e = ground arith

borrowed_mut_lem :
    (a : AccountInfo) (w : World) {bytes : Bytes}
    → (try_borrow_mut_data a w).0 ≡ ok bytes
    → (w.accounts a.key).contents ≡ bytes
borrowed_mut_lem a w e = ground arith

pub record NeverPanics {A : Type 0} (I : (Pubkey → Account) → Type 0) (m : Exec A) : Type 0 where
  pub at : (w : World) → I w.accounts → (m w).0 ≢ panic

module _ {I : (Pubkey → Account) → Type 0} where
  module _ {A : Type 0} where
    pub NeverPanics-lift : (r : Result A) → r ≢ panic → NeverPanics I (lift r)
    NeverPanics-lift r h = record { at = λ w i. h }

    pub NeverPanics-gets : (f : World → A) → NeverPanics I (gets f)
    NeverPanics-gets f = record { at = λ w i e. cc }

    pub NeverPanics-pure : (a : A) → NeverPanics I (pure a)
    NeverPanics-pure a = record { at = λ w i e. cc }

    pub NeverPanics-raise : (x : ProgramError) → NeverPanics I (raise {A = A} x)
    NeverPanics-raise x = record { at = λ w i e. cc }

    pub NeverPanics-if :
        (test : Bool) (m k : Exec A)
        → NeverPanics I m
        → NeverPanics I k
        → NeverPanics I (if test then m else k)
    NeverPanics-if true m k h g = h
    NeverPanics-if false m k h g = g

    pub NeverPanics-scoped : (m : Exec A) → NeverPanics I m → NeverPanics I (scoped m)
    NeverPanics-scoped m h = record { at = h.at }

    -- Behind a step that writes nothing, the accounts keep the property.
    pub NeverPanics-from :
        {B : Type 0} (m : Exec A) (f : A → Exec B)
        → ReadsOnly m
        → NeverPanics I m
        → ((a : A) (w : World) → I w.accounts → (m w).0 ≡ ok a → NeverPanics I (f a))
        → NeverPanics I (m >>= f)
    NeverPanics-from m f reads h k = record {
      at = λ w i.
          bind_at m f w (h.at w i) (λ a e. (k a w i e).at (m w).1 (subst I (sym (reads.at w)) i));
    }

    pub NeverPanics-bind :
        {B : Type 0} (m : Exec A) (f : A → Exec B)
        → ReadsOnly m
        → NeverPanics I m
        → ((a : A) → NeverPanics I (f a))
        → NeverPanics I (m >>= f)
    NeverPanics-bind m f reads h k = NeverPanics-from m f reads h (λ a w i e. k a)

  pub NeverPanics-fail_if : (b : Bool) (x : ProgramError) → NeverPanics I (fail_if b x)
  NeverPanics-fail_if true x = NeverPanics-raise x
  NeverPanics-fail_if false x = NeverPanics-pure tt

  pub NeverPanics-next : (accounts : List AccountInfo) → NeverPanics I (next_account_info accounts)
  NeverPanics-next [] = record { at = λ w i e. cc }
  NeverPanics-next (a ∷ rest) = record { at = λ w i e. cc }

  pub NeverPanics-try_borrow_data : (a : AccountInfo) → NeverPanics I (try_borrow_data a)
  NeverPanics-try_borrow_data a = record { at = λ w i. ground arith }

  pub NeverPanics-try_borrow_mut_data : (a : AccountInfo) → NeverPanics I (try_borrow_mut_data a)
  NeverPanics-try_borrow_mut_data a = record { at = λ w i. ground arith }

  pub NeverPanics-write_data : (a : AccountInfo) (bytes : _) → NeverPanics I (write_data a bytes)
  NeverPanics-write_data a bytes = record { at = λ w i e. cc }

  module _ {B : Type 0} where
    -- What stands behind a check runs only where the check passes.
    pub NeverPanics-check :
        (test : Bool) (x : ProgramError) (k : Exec B)
        → (test ≡ false → NeverPanics I k)
        → NeverPanics I (fail_if test x >> k)
    NeverPanics-check true x k h = record { at = λ w i e. cc }
    NeverPanics-check false x k h = h refl

    -- What a call returned, where it returned.
    pub NeverPanics-call :
        {A : Type 0} (r : Result A) (f : A → Exec B)
        → r ≢ panic
        → ((a : A) → r ≡ ok a → NeverPanics I (f a))
        → NeverPanics I (lift r >>= f)
    NeverPanics-call r f ne h = record {
      at = λ w i. bind_at (lift r) f w ne (λ a e. (h a e).at w i);
    }

    -- What is borrowed is the data of the account.
    pub NeverPanics-borrow :
        (a : AccountInfo) (f : Bytes → Exec B)
        → ((w : World) → I w.accounts → NeverPanics I (f (w.accounts a.key).contents))
        → NeverPanics I (try_borrow_data a >>= f)
    NeverPanics-borrow a f h =
        NeverPanics-from (try_borrow_data a) f (ReadsOnly-try_borrow_data a)
          (NeverPanics-try_borrow_data a)
          (λ bytes w i e. subst (λ read. NeverPanics I (f read)) (borrowed_lem a w e) (h w i))

    pub NeverPanics-borrow_mut :
        (a : AccountInfo) (f : Bytes → Exec B)
        → ((w : World) → I w.accounts → NeverPanics I (f (w.accounts a.key).contents))
        → NeverPanics I (try_borrow_mut_data a >>= f)
    NeverPanics-borrow_mut a f h =
        NeverPanics-from (try_borrow_mut_data a) f (ReadsOnly-try_borrow_mut_data a)
          (NeverPanics-try_borrow_mut_data a)
          (λ bytes w i e. subst (λ read. NeverPanics I (f read)) (borrowed_mut_lem a w e) (h w i))

-- The rules that ask for nothing but the parts of a step.
pub ruleset total_rules = (
  NeverPanics-gets, NeverPanics-pure, NeverPanics-raise, NeverPanics-scoped, NeverPanics-if,
  NeverPanics-fail_if, NeverPanics-next, NeverPanics-try_borrow_data,
  NeverPanics-try_borrow_mut_data, NeverPanics-write_data, NeverPanics-bind,
)

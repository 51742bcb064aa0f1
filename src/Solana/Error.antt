-- ===== src/Solana/Error.antt =====
-- `ProgramError` of the Solana SDK, and the outcome of a fallible call.
use transfer_hook.Prelude.{ℕ, ◌≡◌, refl}

pub data ProgramError : Type 0 where
  custom : ℕ → ProgramError
  invalid_argument invalid_instruction_data invalid_account_data : ProgramError
  account_data_too_small insufficient_funds incorrect_program_id : ProgramError
  missing_required_signature account_already_initialized uninitialized_account : ProgramError
  not_enough_account_keys account_borrow_failed max_seed_length_exceeded : ProgramError
  invalid_seeds borsh_io_error account_not_rent_exempt unsupported_sysvar : ProgramError
  illegal_owner invalid_realloc arithmetic_overflow : ProgramError

-- A call returns a value, returns an error, or panics.
pub data Result {ℓ} (A : Type ℓ) : Type ℓ where
  ok : A → Result A
  err : ProgramError → Result A
  panic : Result A

abbrev pub IsOk {ℓ} : {A : Type ℓ} → Result A → Type 0
IsOk (ok a) = Unit
IsOk (err e) = ⊥
IsOk panic = ⊥

module _ {ℓ κ} {A : Type ℓ} {B : Type κ} where
  infixl 5 ◌>>=◌
  abbrev pub ◌>>=◌ : Result A → (A → Result B) → Result B
  ok value >>= next = next value
  err error >>= next = err error
  panic >>= next = panic

  -- A chain that returned went through its first call.
  pub >>=-eq-ok :
      (first : Result A) (next : A → Result B) {last : B}
      → (first >>= next) ≡ ok last
      → (value : A) × (first ≡ ok value) × (next value ≡ ok last)
  >>=-eq-ok (ok value) next h = (value, refl, h)
  >>=-eq-ok (err error) next h = cc
  >>=-eq-ok panic next h = cc

-- `Result::unwrap`
abbrev pub unwrap {ℓ} : {A : Type ℓ} → Result A → Result A
unwrap (ok a) = ok a
unwrap (err e) = panic
unwrap panic = panic

-- ===== src/Program/Ledger/Process.antt =====
-- The dispatcher as a step of the ledger.
use native.Mathlib.Decide.{dec_lt}
use transfer_hook.Prelude.{
  ℕ, ◌≡◌, ◌≢◌, refl, ap, subst, List, ◌∷◌, [], Bytes, inl, inr, Bool-cases, arith, ◌==◌,
}
use transfer_hook.Solana.Error.{Result, ok, err, panic}
use transfer_hook.Solana.Account.{system_program_id, Pubkey, AccountInfo}
use transfer_hook.Solana.Exec.{World, IsFresh, continue}
use transfer_hook.Solana.Sdk.{Runtime, RunsSystemProgram, Spl, Token}
use transfer_hook.Interface.Instruction
use transfer_hook.Interface.Instruction.{
  TransferHookInstruction, execute_of, initialize_of, update_of,
}
use transfer_hook.Program.InitializeTransferAccount.{process_initialize_transfer_account}
use transfer_hook.Program.InitializeTransferAccount.Outcome.{initialize_outcome}
use transfer_hook.Program.Process.{process_instruction_of, process}
use transfer_hook.Program.History.{HasKeys}
use transfer_hook.Program.Ledger.{DistinctAddresses, IsLedger}
use transfer_hook.Program.Ledger.Calls.{
  Refines, Refines-same, execute-Refines, list-Refines, created-Refines,
}

module _ (R : Runtime) (S : Spl) (T : Token) (program_id : Pubkey)
    (D : DistinctAddresses R program_id) (L : RunsSystemProgram R)
    (apart : program_id ≢ system_program_id) (w : World) (fresh : IsFresh w)
    (h : IsLedger R program_id w.accounts) where
  abbrev Leaves : List AccountInfo → Bytes → World → Type 0
  Leaves accounts input w' = Refines R S program_id D accounts input w.accounts h w'.accounts

  initialize-Refines :
      (accounts : List AccountInfo) (tail : Bytes)
      → HasKeys accounts
      → (process_initialize_transfer_account R program_id accounts w).0 ≡ ok tt
      → Leaves accounts (255 ∷ tail) (process_initialize_transfer_account R program_id accounts w).1
  initialize-Refines (user ∷ account ∷ system ∷ rest) tail keys r =
      let w' =
        (process_initialize_transfer_account R program_id (user ∷ account ∷ system ∷ rest) w).1 in
      let (signed, address, creates, keeps) =
        initialize_outcome R program_id user account system rest w L fresh keys.0 r in
      elim (dec_lt 0 (w.accounts account.key).lamports) [
        | yes l ↦
            Refines-same R S program_id D (user ∷ account ∷ system ∷ rest) (255 ∷ tail) w.accounts h
              w'.accounts (ap (λ (u : World). u.accounts) (keeps l))
        | no l ↦
            created-Refines R S T program_id D L apart w fresh h user account (system ∷ rest) tail
              w'.accounts signed address (creates (omega arith))
      ]
  initialize-Refines accounts tail keys r = unfold process_initialize_transfer_account in cc

  arm-Refines :
      (accounts : List AccountInfo) (input : Bytes) (r : Result (TransferHookInstruction S.Meta))
      → Instruction.unpack S input ≡ r
      → let run = continue r (process_instruction_of R S T program_id accounts) w in
        run.0 ≡ ok tt → Leaves accounts input run.1
  unfolding process_instruction_of
  arm-Refines accounts input (ok (execute_of amount)) e r =
      execute-Refines R S T program_id D L apart w fresh h accounts input amount e r
  arm-Refines accounts input (ok (initialize_of metas)) e r =
      list-Refines R S T program_id D L apart w fresh h accounts input metas r
  arm-Refines accounts input (ok (update_of metas)) e r =
      Refines-same R S program_id D accounts input w.accounts h w.accounts refl
  arm-Refines accounts input (err x) e r = cc
  arm-Refines accounts input panic e r = cc

  -- A call of the program that returned keeps each transfer account its user's, and is one step of
  -- the ledger.
  pub process-Refines :
      (accounts : List AccountInfo) (input : Bytes)
      → HasKeys accounts
      → (process R S T program_id accounts input w).0 ≡ ok tt
      → Leaves accounts input (process R S T program_id accounts input w).1
  unfolding process
  process-Refines accounts [] keys r = arm-Refines accounts [] (Instruction.unpack S []) refl r
  process-Refines accounts (first ∷ rest) keys r = elim (Bool-cases (first == 255)) [
    | inl e ↦
        let same : 255 ≡ first = ground (arith, e) in
        rw e (
          subst
            (λ (x : ℕ).
              Leaves accounts (x ∷ rest)
                (process_initialize_transfer_account R program_id accounts w).1)
            same (initialize-Refines accounts rest keys (rw e at r)))
    | inr e ↦
        rw e (
          arm-Refines accounts (first ∷ rest) (Instruction.unpack S (first ∷ rest)) refl
            (rw e at r))
  ]

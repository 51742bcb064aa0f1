-- ===== src/Program/Process/Total.antt =====
-- Every call of the program ends with a value or an error.
use transfer_hook.Prelude.{
  ◌≢◌, Bool, true, false, List, [], ◌∷◌, Bytes, bytes_eq, length, ltb, refl, take, drop,
  if◌then◌else◌,
}
use transfer_hook.Solana.Error.{Result, ok, err, panic, invalid_instruction_data, ◌>>=◌}
use transfer_hook.Solana.Account.{Pubkey, AccountInfo}
use transfer_hook.Solana.Exec.{World}
use transfer_hook.Solana.Exec.Total.{
  NeverPanics, NeverPanics-call, NeverPanics-pure, NeverPanics-if,
}
use transfer_hook.Solana.Sdk.{Runtime, Spl, Token, RunsSystemProgram}
use transfer_hook.Solana.Sdk.Errors.{ReturnsErrors}
use transfer_hook.Interface.Instruction
use transfer_hook.Interface.Instruction.{
  TransferHookInstruction, execute_of, initialize_of, update_of, get_first8, ok_or,
}
use transfer_hook.Program.History.{HasKeys}
use transfer_hook.Program.Execute.Total.{Unpacks, execute-NeverPanics}
use transfer_hook.Program.InitializeTransferAccount.Total.{initialize-NeverPanics}
use transfer_hook.Program.MetaList.Total.{ok_or-ne-panic, initialize_list-NeverPanics}
use transfer_hook.Program.Process.{process_instruction_of, process_standard, process}

module _ {A : Type 0} where
  if-ne-panic :
      (test : Bool) {first second : Result A}
      → first ≢ panic
      → second ≢ panic
      → (if test then first else second) ≢ panic
  if-ne-panic true h k = h
  if-ne-panic false h k = k

  bind-ne-panic :
      {B : Type 0} (r : Result B) {next : B → Result A}
      → r ≢ panic
      → ((b : B) → next b ≢ panic)
      → (r >>= next) ≢ panic
  bind-ne-panic (ok b) h k = k b
  bind-ne-panic (err x) h k = λ e. cc
  bind-ne-panic panic h k = absurd (h refl)

module _ (R : Runtime) (S : Spl) (T : Token) (E : ReturnsErrors R S T) (L : RunsSystemProgram R)
    (program_id : Pubkey) where
  unpack-ne-panic : (input : Bytes) → Instruction.unpack S input ≢ panic
  unfolding Instruction.unpack
  unpack-ne-panic input =
      if-ne-panic (ltb (length input) 8) (λ e. cc)
        (if-ne-panic (bytes_eq (take 8 input) S.execute_discriminator)
          (bind-ne-panic (ok_or (get_first8 (drop 8 input)) invalid_instruction_data)
            (ok_or-ne-panic _ _) (λ bytes e. cc))
          (if-ne-panic (bytes_eq (take 8 input) S.initialize_discriminator)
            (bind-ne-panic (S.list_view_unpack (drop 8 input)) (E.list_view_unpack_lem _)
              (λ metas e. cc))
            (if-ne-panic (bytes_eq (take 8 input) S.update_discriminator)
              (bind-ne-panic (S.list_view_unpack (drop 8 input)) (E.list_view_unpack_lem _)
                (λ metas e. cc))
              (λ e. cc))))

  module _ (accounts : List AccountInfo) (keys : HasKeys accounts) where
    instruction-NeverPanics :
        (instruction : TransferHookInstruction S.Meta)
        → NeverPanics
            (Unpacks R S program_id)
            (process_instruction_of R S T program_id accounts instruction)
    unfolding process_instruction_of
    instruction-NeverPanics (execute_of amount) =
        execute-NeverPanics R S T E program_id accounts amount
    instruction-NeverPanics (initialize_of metas) =
        initialize_list-NeverPanics R S T E L program_id accounts metas
    instruction-NeverPanics (update_of metas) = NeverPanics-pure tt

    standard-NeverPanics :
        (input : Bytes)
        → NeverPanics (Unpacks R S program_id) (process_standard R S T program_id accounts input)
    unfolding process_standard
    standard-NeverPanics input =
        NeverPanics-call (Instruction.unpack S input) _ (unpack-ne-panic input)
          (λ instruction _. instruction-NeverPanics instruction)

    -- Where the libraries return errors and do not panic, a call of the system program that
    -- returned has done what it is documented to do, keys are of 32 bytes and the data at the
    -- address of each mint's validation account unpacks: `process` returns or ends with an error,
    -- whatever its accounts and its input.
    pub process_total :
        (input : Bytes) (w : World)
        → Unpacks R S program_id w.accounts
        → (process R S T program_id accounts input w).0 ≢ panic
    unfolding process
    process_total [] w unpacks = (standard-NeverPanics []).at w unpacks
    process_total (first ∷ rest) w unpacks =
        (NeverPanics-if _ _ _ (initialize-NeverPanics R S T E L program_id accounts keys)
            (standard-NeverPanics (first ∷ rest))).at
          w unpacks

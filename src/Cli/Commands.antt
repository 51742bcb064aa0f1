-- ===== src/Cli/Commands.antt =====
-- The commands of clients/cli/src/main.rs.
pub mod Ends
pub mod Landed
pub mod Sent
use transfer_hook.Prelude.{
  ℕ, ◌-◌, ◌≡◌, Bool, not, List, [], ◌∷◌, ◌++◌, bytes_eq, length, ltb, if◌then◌else◌,
}
use transfer_hook.Solana.Account.{system_program_id, Pubkey, Account, Instruction}
use transfer_hook.Solana.Sdk.{Runtime, Spl}
use transfer_hook.Interface.Address.{get_extra_account_metas_address}
use transfer_hook.Interface.Instruction.{
  initialize_extra_account_meta_list, update_extra_account_meta_list,
}
use transfer_hook.Cli.Client.{
  Answer, answered, failed, Client, CommandError, unable_to_fetch_rent_exemption,
  unable_to_get_latest_blockhash, failed_to_sign_transaction, send_transaction, already_exists,
  does_not_exist, Outcome, Command, ◌>>=◌, give, refuse, or_refuse, request, answer, of_result,
}

module _ {Failure : Type 0} where
  -- Whether the account that was found is in use already.
  abbrev pub in_use : Answer Failure Account → Bool
  in_use (answered account) = not (bytes_eq account.owner system_program_id)
  in_use (failed e) = Bool.false

  abbrev pub is_missing : Answer Failure Account → Bool
  is_missing (answered account) = Bool.false
  is_missing (failed e) = Bool.true

module _ {Failure : Type 0} (C : Client Failure) where
  -- `account_info.map(|a| a.lamports).unwrap_or(0)`
  abbrev pub lamports_of : Answer Failure Account → ℕ
  lamports_of (answered account) = account.lamports
  lamports_of (failed e) = 0

  -- The subtraction on `u64` saturates, and so does the one on the natural numbers.
  unfoldable pub calculate_rent_lamports : Pubkey → ℕ → Command Failure C.Net ℕ
  calculate_rent_lamports account_address account_size = do
    required_lamports ←
        request (C.get_minimum_balance_for_rent_exemption account_size)
          unable_to_fetch_rent_exemption
    account_info ← answer (C.get_account account_address)
    give (required_lamports - lamports_of account_info)

  -- The signers: the payer, and the authority where it is another.
  unfoldable pub signers_of : C.Signer → C.Signer → List C.Signer
  signers_of payer mint_authority =
      if not (bytes_eq (C.pubkey payer) (C.pubkey mint_authority))
      then payer ∷ mint_authority ∷ []
      else payer ∷ []

  unfoldable pub sign_and_send_transaction :
      C.Transaction → C.Signer → C.Signer → Command Failure C.Net C.Signature
  unfolding signers_of
  sign_and_send_transaction transaction payer mint_authority = do
    blockhash ← request C.get_latest_blockhash unable_to_get_latest_blockhash
    signed ← (λ n. (
      or_refuse (C.try_sign transaction (signers_of payer mint_authority) blockhash)
          failed_to_sign_transaction,
      n,
    ))
    request (C.send_and_confirm_transaction signed) send_transaction

module _ (R : Runtime) (S : Spl) {Failure : Type 0} (C : Client Failure) where
  -- The instruction, behind a transfer of the lamports that rent lacks.
  unfoldable pub funded_instructions : C.Signer → Pubkey → ℕ → Instruction → List Instruction
  funded_instructions payer address lamports instruction =
      (if ltb 0 lamports then R.transfer (C.pubkey payer) address lamports ∷ [] else [])
      ++ (instruction ∷ [])

  unfoldable pub build_transaction_with_rent_transfer :
      C.Signer → Pubkey → List S.Meta → Instruction → Command Failure C.Net C.Transaction
  unfolding calculate_rent_lamports funded_instructions
  build_transaction_with_rent_transfer payer address metas instruction = do
    account_size ← (λ n. (of_result (S.size_of (length metas)), n))
    transfer_lamports ← calculate_rent_lamports C address account_size
    give (
        C.new_with_payer (funded_instructions payer address transfer_lamports instruction)
          (C.pubkey payer))

  -- The end of both commands.
  unfoldable pub send_instruction :
      C.Signer → C.Signer → Pubkey → List S.Meta → Instruction → Command Failure C.Net C.Signature
  unfolding build_transaction_with_rent_transfer sign_and_send_transaction
  send_instruction payer mint_authority address metas instruction = do
    transaction ← build_transaction_with_rent_transfer payer address metas instruction
    sign_and_send_transaction C transaction payer mint_authority

  unfoldable pub process_create_extra_account_metas :
      Pubkey → Pubkey → List S.Meta → C.Signer → C.Signer → Command Failure C.Net C.Signature
  unfolding send_instruction initialize_extra_account_meta_list
  process_create_extra_account_metas program_id token extra_account_metas mint_authority payer = do
    let address = get_extra_account_metas_address R token program_id
    found ← answer (C.get_account address)
    if in_use found
        then refuse (already_exists token program_id)
        else send_instruction payer mint_authority address extra_account_metas (
            initialize_extra_account_meta_list S program_id address token (C.pubkey mint_authority)
              extra_account_metas)

  unfoldable pub process_update_extra_account_metas :
      Pubkey → Pubkey → List S.Meta → C.Signer → C.Signer → Command Failure C.Net C.Signature
  unfolding send_instruction update_extra_account_meta_list
  process_update_extra_account_metas program_id token extra_account_metas mint_authority payer = do
    let address = get_extra_account_metas_address R token program_id
    found ← answer (C.get_account address)
    if is_missing found
        then refuse (does_not_exist token program_id)
        else send_instruction payer mint_authority address extra_account_metas (
            update_extra_account_meta_list S program_id address token (C.pubkey mint_authority)
              extra_account_metas)

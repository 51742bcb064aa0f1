-- ===== src/Cli/Commands/Sent.antt =====
-- What the commands send where they return a signature.
use transfer_hook.Prelude.{
  ℕ, ◌+◌, ◌-◌, ◌≤◌, ◌≡◌, ◌⊎◌, inl, inr, refl, Bool-cases, false, List, length, arith,
}
use transfer_hook.Solana.Error.{ok}
use transfer_hook.Solana.Account.{Pubkey, Instruction}
use transfer_hook.Solana.Sdk.{Runtime, Spl}
use transfer_hook.Interface.Address.{get_extra_account_metas_address}
use transfer_hook.Interface.Instruction.{
  initialize_extra_account_meta_list, update_extra_account_meta_list,
}
use transfer_hook.Cli.Client.{
  answered, Client, unable_to_fetch_rent_exemption, unable_to_get_latest_blockhash,
  failed_to_sign_transaction, send_transaction, done, Command, or_refuse, request, of_result,
  >>=-eq-done, or_refuse-eq-done, of_result-eq-done,
}
use transfer_hook.Cli.Commands.{
  lamports_of, calculate_rent_lamports, signers_of, sign_and_send_transaction, funded_instructions,
  build_transaction_with_rent_transfer, send_instruction, in_use, is_missing,
  process_create_extra_account_metas, process_update_extra_account_metas,
}

-- The lamports that are lacking at the address, as the client was told from the state `n` on:
-- together with the balance there they suffice for rent, and they are no more than that.
pub record IsLacking {Failure : Type 0} (C : Client Failure) (address : Pubkey) (size : ℕ)
    (lamports : ℕ) (n : C.Net) : Type 0 where
  pub required : ℕ
  pub balance : ℕ
  pub told : (C.get_minimum_balance_for_rent_exemption size n).0 ≡ answered required
  pub found :
      balance
      ≡ lamports_of C (C.get_account address (C.get_minimum_balance_for_rent_exemption size n).1).0
  pub enough : required ≤ lamports + balance
  pub no_more : (lamports ≡ 0) ⊎ (lamports + balance ≡ required)

-- A transaction was sent: the instruction, behind a transfer of the lacking lamports where there
-- are any, paid for by the payer and signed by the payer and the authority.
pub record IsSent (R : Runtime) (S : Spl) {Failure : Type 0} (C : Client Failure)
    (payer authority : C.Signer) (address : Pubkey) (metas : List S.Meta)
    (instruction : Instruction) (signature : C.Signature) (n : C.Net) : Type 0 where
  pub size : ℕ
  pub sized : S.size_of (length metas) ≡ ok size
  pub lamports : ℕ
  pub lacking : IsLacking C address size lamports n
  pub blockhash : C.Blockhash
  pub signed : C.Transaction
  pub signs :
      C.try_sign
        (C.new_with_payer
          (funded_instructions R S C payer address lamports instruction)
          (C.pubkey payer))
        (signers_of C payer authority)
        blockhash
      ≡ answered signed
  pub before : C.Net
  pub sends : (C.send_and_confirm_transaction signed before).0 ≡ answered signature

module _ {Failure : Type 0} (C : Client Failure) where
  calculate_rent_lamports-IsLacking :
      (address : Pubkey) (size : ℕ) (n : C.Net) {lamports : ℕ}
      → (calculate_rent_lamports C address size n).0 ≡ done lamports
      → IsLacking C address size lamports n
  unfolding calculate_rent_lamports
  calculate_rent_lamports-IsLacking address size n {lamports} h =
      let ask =
        request (C.get_minimum_balance_for_rent_exemption size) unable_to_fetch_rent_exemption in
      let (required, told, rest) = >>=-eq-done ask _ n h in
      let balance = lamports_of C (C.get_account address (ask n).1).0 in
      let same : required - balance ≡ lamports = cc in
      record {
        required = required;
        balance = balance;
        told = or_refuse-eq-done _ unable_to_fetch_rent_exemption told;
        found = refl;
        enough = omega (arith, same);
        no_more = ground (arith, same);
      }

  -- The steps that a transaction went through which was signed and sent.
  sign_and_send_steps :
      (transaction : C.Transaction) (payer authority : C.Signer) (n : C.Net)
      {signature : C.Signature}
      → (sign_and_send_transaction C transaction payer authority n).0 ≡ done signature
      → (blockhash : C.Blockhash) × (signed : C.Transaction) × (before : C.Net) × (C.try_sign
            transaction
            (signers_of C payer authority)
            blockhash
          ≡ answered signed)
        × ((C.send_and_confirm_transaction signed before).0 ≡ answered signature)
  unfolding sign_and_send_transaction
  sign_and_send_steps transaction payer authority n h =
      let ask = request C.get_latest_blockhash unable_to_get_latest_blockhash in
      let (blockhash, _, rest) = >>=-eq-done ask _ n h in
      let sign : Command Failure C.Net C.Transaction = λ m. (
        or_refuse (C.try_sign transaction (signers_of C payer authority) blockhash)
            failed_to_sign_transaction,
        m,
      ) in
      let (signed, signs, sends) = >>=-eq-done sign _ (ask n).1 rest in
      (
        blockhash,
        signed,
        (ask n).1,
        or_refuse-eq-done _ failed_to_sign_transaction signs,
        or_refuse-eq-done _ send_transaction sends,
      )

module _ (R : Runtime) (S : Spl) {Failure : Type 0} (C : Client Failure)
    (payer authority : C.Signer) (address : Pubkey) (metas : List S.Meta)
    (instruction : Instruction) where
  build_steps :
      (n : C.Net) {transaction : C.Transaction}
      → (build_transaction_with_rent_transfer R S C payer address metas instruction n).0
        ≡ done transaction
      → (size : ℕ) × (lamports : ℕ) × (S.size_of (length metas) ≡ ok size)
        × IsLacking C address size lamports n
        × (transaction
            ≡ C.new_with_payer
                (funded_instructions R S C payer address lamports instruction)
                (C.pubkey payer))
  unfolding build_transaction_with_rent_transfer
  build_steps n h =
      let (size, sized, rest) =
        >>=-eq-done (λ m. (of_result (S.size_of (length metas)), m)) _ n h in
      let (lamports, lacks, built) =
        >>=-eq-done (calculate_rent_lamports C address size) _ n rest in
      (
        size,
        lamports,
        of_result-eq-done (S.size_of (length metas)) sized,
        calculate_rent_lamports-IsLacking C address size n lacks,
        cc,
      )

  send_instruction-IsSent :
      (n : C.Net) {signature : C.Signature}
      → (send_instruction R S C payer authority address metas instruction n).0 ≡ done signature
      → IsSent R S C payer authority address metas instruction signature n
  unfolding send_instruction
  send_instruction-IsSent n h =
      let build = build_transaction_with_rent_transfer R S C payer address metas instruction in
      let (transaction, built, rest) = >>=-eq-done build _ n h in
      let (size, lamports, sized, lacking, made) = build_steps n built in
      let (blockhash, signed, before, signs, sends) =
        sign_and_send_steps C transaction payer authority (build n).1 rest in
      record {
        size = size;
        sized = sized;
        lamports = lamports;
        lacking = lacking;
        blockhash = blockhash;
        signed = signed;
        signs = cc;
        before = before;
        sends = sends;
      }

module _ (R : Runtime) (S : Spl) {Failure : Type 0} (C : Client Failure) (program_id token : Pubkey)
    (metas : List S.Meta) (authority payer : C.Signer) (n : C.Net) where
  abbrev address : Pubkey
  address = get_extra_account_metas_address R token program_id

  -- Where the command that creates a list returns a signature, the account at the derived address
  -- was not found or was the system program's, and the transaction that was sent holds the
  -- instruction that initializes the list, behind a transfer of what rent lacked.
  pub process_create_extra_account_metas-IsSent :
      {signature : C.Signature}
      → (process_create_extra_account_metas R S C program_id token metas authority payer n).0
        ≡ done signature
      → (in_use (C.get_account address n).0 ≡ false)
        × IsSent R S C payer authority address metas
            (initialize_extra_account_meta_list S program_id address token
              (C.pubkey authority)
              metas)
            signature
            (C.get_account address n).1
  unfolding process_create_extra_account_metas
  process_create_extra_account_metas-IsSent h =
      elim (Bool-cases (in_use (C.get_account address n).0)) [
        | inl e ↦ cc (rw e at h)
        | inr e ↦ (
          e,
          send_instruction-IsSent R S C payer authority address metas _ (C.get_account address n).1
              (rw e at h),
        )
      ]

  -- Where the command that updates a list returns a signature, the account at the derived address
  -- was found, and the transaction that was sent holds the instruction that updates the list,
  -- behind a transfer of what rent lacked.
  pub process_update_extra_account_metas-IsSent :
      {signature : C.Signature}
      → (process_update_extra_account_metas R S C program_id token metas authority payer n).0
        ≡ done signature
      → (is_missing (C.get_account address n).0 ≡ false)
        × IsSent R S C payer authority address metas
            (update_extra_account_meta_list S program_id address token (C.pubkey authority) metas)
            signature
            (C.get_account address n).1
  unfolding process_update_extra_account_metas
  process_update_extra_account_metas-IsSent h =
      elim (Bool-cases (is_missing (C.get_account address n).0)) [
        | inl e ↦ cc (rw e at h)
        | inr e ↦ (
          e,
          send_instruction-IsSent R S C payer authority address metas _ (C.get_account address n).1
              (rw e at h),
        )
      ]

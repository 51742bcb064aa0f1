-- ===== src/Examples/Commands.antt =====
-- The theorems on the client's commands at concrete commands.
use transfer_hook.Prelude.{⊤, ℕ, suc, ◌≡◌, refl, false, List, [], ◌∷◌}
use transfer_hook.Solana.Account.{Pubkey, Account, Instruction}
use transfer_hook.Interface.Address.{get_extra_account_metas_address}
use transfer_hook.Interface.Instruction.{
  initialize_extra_account_meta_list, update_extra_account_meta_list,
}
use transfer_hook.Cli.Client.{Answer, answered, failed, Client, done}
use transfer_hook.Cli.Commands.{
  calculate_rent_lamports, sign_and_send_transaction, build_transaction_with_rent_transfer,
  send_instruction, in_use, is_missing, process_create_extra_account_metas,
  process_update_extra_account_metas,
}
use transfer_hook.Cli.Commands.Sent.{
  IsSent, process_create_extra_account_metas-IsSent, process_update_extra_account_metas-IsSent,
}
use transfer_hook.Program.MetaList.{mint_id}
use transfer_hook.Examples.Libraries.{runtime, spl}
use transfer_hook.Examples.Accounts.{account, program_key, user_key, authority_key}

-- A client that counts its requests. Every account that it asks for is answered alike, rent is a
-- lamport for each byte, a signature is the number of the request.
abbrev client : Answer ⊤ Account → Client ⊤
client found = record {
  Net = ℕ;
  Signer = Pubkey;
  Transaction = List Instruction × (Pubkey × List Pubkey);
  Blockhash = ℕ;
  Signature = ℕ;
  pubkey = λ signer. signer;
  get_minimum_balance_for_rent_exemption = λ size n. (answered size, suc n);
  get_account = λ address n. (found, suc n);
  get_latest_blockhash = λ n. (answered n, suc n);
  send_and_confirm_transaction = λ transaction n. (answered n, suc n);
  new_with_payer = λ instructions payer. (instructions, (payer, []));
  try_sign = λ transaction signers blockhash. answered (transaction.0, (transaction.1.0, signers));
}

abbrev new_list : Client ⊤
new_list = client (failed tt)

abbrev pub old_list : Client ⊤
old_list = client (answered (account 5 [] program_key))

create_returns :
    (process_create_extra_account_metas runtime spl new_list program_key mint_id
      (4 ∷ 6 ∷ [])
      authority_key
      user_key
      0).0
    ≡ done 4
unfolding process_create_extra_account_metas send_instruction build_transaction_with_rent_transfer
    sign_and_send_transaction calculate_rent_lamports
create_returns = refl

update_returns :
    (process_update_extra_account_metas runtime spl old_list program_key mint_id
      (4 ∷ 6 ∷ [])
      authority_key
      user_key
      0).0
    ≡ done 4
unfolding process_update_extra_account_metas send_instruction build_transaction_with_rent_transfer
    sign_and_send_transaction calculate_rent_lamports
update_returns = refl

process_create_extra_account_metas-IsSent_example :
    let address = get_extra_account_metas_address runtime mint_id program_key in
    (in_use {Failure = ⊤} (failed tt) ≡ false)
    × IsSent runtime spl new_list user_key authority_key address
        (4 ∷ 6 ∷ [])
        (initialize_extra_account_meta_list spl program_key address mint_id authority_key
          (4 ∷ 6 ∷ []))
        4
        1
process_create_extra_account_metas-IsSent_example =
    process_create_extra_account_metas-IsSent runtime spl new_list program_key mint_id (4 ∷ 6 ∷ [])
      authority_key user_key 0 create_returns

process_update_extra_account_metas-IsSent_example :
    let address = get_extra_account_metas_address runtime mint_id program_key in
    (is_missing {Failure = ⊤} (answered (account 5 [] program_key)) ≡ false)
    × IsSent runtime spl old_list user_key authority_key address
        (4 ∷ 6 ∷ [])
        (update_extra_account_meta_list spl program_key address mint_id authority_key (4 ∷ 6 ∷ []))
        4
        1
process_update_extra_account_metas-IsSent_example =
    process_update_extra_account_metas-IsSent runtime spl old_list program_key mint_id (4 ∷ 6 ∷ [])
      authority_key user_key 0 update_returns

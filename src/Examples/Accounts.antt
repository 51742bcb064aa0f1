-- ===== src/Examples/Accounts.antt =====
-- Concrete keys, handles and worlds.
use transfer_hook.Prelude.{ℕ, Bool, true, false, [], ◌∷◌, ◌++◌, Bytes, replicate, to_le_bytes}
use transfer_hook.Solana.Account.{system_program_id, Pubkey, Account, AccountInfo}
use transfer_hook.Solana.Exec.{World, update}
use transfer_hook.Program.MetaList.{mint_id}
use transfer_hook.Program.Execute.Outcome.{Handles}
use transfer_hook.Examples.Libraries.{address_of, spl}

abbrev pub key : ℕ → Pubkey
key n = replicate 32 n

abbrev pub handle : Pubkey → Bool → AccountInfo
handle k signer = record { key = k; is_signer = signer; is_writable = true }

abbrev pub account : ℕ → Bytes → Pubkey → Account
account lamports contents owner = record { lamports = lamports; contents = contents; owner = owner }

abbrev pub program_key : Pubkey
program_key = key 9

abbrev pub user_key : Pubkey
user_key = key 1

abbrev pub authority_key : Pubkey
authority_key = key 5

-- "extra-account-metas" sums to 1925.
abbrev pub metas_key : Pubkey
metas_key = address_of ((1925 ∷ []) ∷ mint_id ∷ (255 ∷ []) ∷ []) program_key

abbrev pub counter_key : Pubkey
counter_key = address_of (user_key ∷ (255 ∷ []) ∷ []) program_key

abbrev pub handles : Handles
handles = record {
  source = handle (key 2) false;
  mint = handle mint_id false;
  destination = handle (key 3) false;
  authority = handle user_key true;
  metas = handle metas_key false;
  transfer = handle counter_key false;
  others = [];
}

-- Two token accounts in a transfer, and the mint.
abbrev pub tokens : Pubkey → Account
tokens = update (key 2) (account 10 (1 ∷ []) (key 7)) (
    update (key 3) (account 10 (1 ∷ []) (key 7))
      (update mint_id (account 10 authority_key (key 7)) (λ k. account 0 [] system_program_id)))

abbrev pub list_bytes : Bytes
list_bytes = spl.execute_discriminator ++ to_le_bytes 8 0

abbrev pub world : (Pubkey → Account) → World
world cells = record { accounts = cells; shared = []; exclusive = [] }

-- Nothing of the program's is there yet.
abbrev pub empty_world : World
empty_world = world tokens

-- The list of the mint is there, and a counter of 7 for the user.
abbrev pub counter_bytes : Bytes
counter_bytes = user_key ++ to_le_bytes 8 7

abbrev pub ready_world : World
ready_world = world (
    update metas_key (account 10 list_bytes program_key)
      (update counter_key (account 10 counter_bytes program_key) tokens))

-- Somebody sent lamports to the address of the counter.
abbrev pub funded_world : World
funded_world = world (update counter_key (account 1 [] system_program_id) tokens)

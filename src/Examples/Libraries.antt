-- ===== src/Examples/Libraries.antt =====
-- A concrete function for each library call. They are small, and they keep the documented laws.
use transfer_hook.Prelude.{
  map, ⊤, ℕ, zero, suc, ◌+◌, ◌-◌, ◌*◌, ◌%◌, true, false, ◌&&◌, some, none, List, [], ◌∷◌, ◌++◌,
  Bytes, bytes_eq, length, take, drop, replicate, leb, ◌==◌, if◌then◌else◌, to_le_bytes,
  from_le_bytes,
}
use transfer_hook.Solana.Error.{
  custom, Result, ok, err, invalid_account_data, invalid_instruction_data,
}
use transfer_hook.Solana.Account.{
  system_program_id, Pubkey, AccountMeta, Instruction, new_writable, new_readonly,
}
use transfer_hook.Solana.Exec.{Exec, update}
use transfer_hook.Solana.Sdk.{Runtime, Spl, Token}

abbrev pub total : Bytes → ℕ
total [] = 0
total (b ∷ bs) = b + total bs

abbrev pub total_of : List Bytes → ℕ
total_of [] = 0
total_of (s ∷ seeds) = total s + total_of seeds

-- An address from seeds: their sum, 32 times.
abbrev pub address_of : List Bytes → Pubkey → Pubkey
address_of seeds program_id = replicate 32 ((total_of seeds + total program_id) % 256)

-- The system program on the instructions below.
abbrev pub run_system : Bytes → List AccountMeta → Exec ⊤
run_system (zero ∷ lamports ∷ space ∷ owner) (from ∷ to ∷ []) w =
    if bytes_eq (w.accounts to.pubkey).owner system_program_id
      && leb (w.accounts to.pubkey).lamports 0
    then (
      ok tt,
      record w {
        accounts =
            update to.pubkey
              (record { lamports = lamports; contents = replicate space 0; owner = owner })
              (update from.pubkey
                (record (w.accounts from.pubkey) {
                  lamports = (w.accounts from.pubkey).lamports - lamports;
                })
                w.accounts);
      },
    )
    else (err (custom 0), w)
run_system (suc zero ∷ space ∷ []) (key ∷ []) w =
    if bytes_eq (w.accounts key.pubkey).owner system_program_id
    then (
      ok tt,
      record w {
        accounts =
            update key.pubkey (record (w.accounts key.pubkey) { contents = replicate space 0 })
              w.accounts;
      },
    )
    else (err (custom 0), w)
run_system (suc (suc _) ∷ owner) (key ∷ []) w = (
  ok tt,
  record w {
    accounts = update key.pubkey (record (w.accounts key.pubkey) { owner = owner }) w.accounts;
  },
)
run_system _ _ w = (err invalid_instruction_data, w)

abbrev writable_all : List Pubkey → List AccountMeta
writable_all [] = []
writable_all (k ∷ ks) = new_writable k true ∷ writable_all ks

abbrev system_call : Bytes → List Pubkey → Instruction
system_call contents keys = record {
  program_id = system_program_id;
  accounts = writable_all keys;
  contents = contents;
}

abbrev pub runtime : Runtime
runtime = record {
  find_program_address =
      λ seeds program_id. (address_of (seeds ++ ((255 ∷ []) ∷ [])) program_id, 255);
  create_program_address = λ seeds program_id. some (address_of seeds program_id);
  minimum_balance = λ space. (space + 128) * 6960;
  create_account =
      λ from to lamports space owner. system_call (0 ∷ lamports ∷ space ∷ owner) (from ∷ to ∷ []);
  allocate = λ key space. system_call (1 ∷ space ∷ []) (key ∷ []);
  assign = λ key owner. system_call (2 ∷ owner) (key ∷ []);
  transfer = λ from to lamports. system_call (3 ∷ lamports ∷ []) (from ∷ to ∷ []);
  invoke = λ instruction infos. run_system instruction.contents instruction.accounts;
  invoke_signed = λ instruction infos seeds. run_system instruction.contents instruction.accounts;
  resize = λ a size w. (
    ok tt,
    record w {
      accounts =
          update a.key
            (record (w.accounts a.key) {
              contents = take size ((w.accounts a.key).contents ++ replicate size 0);
            })
            w.accounts;
    },
  );
}

-- An extra account is one byte here; the account is the discriminator, a count and the bytes.
abbrev pub write_list : Bytes → Bytes → List ℕ → Result ⊤ × Bytes
write_list discriminator old metas =
    if length old == length metas + 16
    then (ok tt, discriminator ++ to_le_bytes 8 (length metas) ++ metas)
    else (err invalid_account_data, old)

abbrev pub spl : Spl
spl = record {
  Meta = ℕ;
  TlvState = Bytes;
  execute_discriminator = 105 ∷ 37 ∷ 101 ∷ 197 ∷ 75 ∷ 251 ∷ 102 ∷ 26 ∷ [];
  initialize_discriminator = 43 ∷ 34 ∷ 13 ∷ 49 ∷ 167 ∷ 88 ∷ 235 ∷ 235 ∷ [];
  update_discriminator = 157 ∷ 105 ∷ 42 ∷ 146 ∷ 102 ∷ 85 ∷ 241 ∷ 174 ∷ [];
  list_view_unpack = λ bytes.
      if length (drop 4 bytes) == from_le_bytes (take 4 bytes)
      then ok (drop 4 bytes)
      else err invalid_account_data;
  pod_slice_to_bytes = λ metas. metas;
  size_of = λ n. ok (n + 16);
  init = write_list;
  update = write_list;
  check_account_infos = λ discriminator cells accounts input program_id bytes.
      if leb 5 (length accounts) then ok tt else err invalid_account_data;
  add_to_cpi_instruction = λ discriminator cells instruction infos bytes additional. (
    ok tt,
    (
      record instruction {
        accounts = instruction.accounts ++ map (λ a. new_readonly a.key false) additional;
      },
      infos ++ additional,
    ),
  );
  tlv_unpack = λ bytes. ok bytes;
  unpack_with_tlv_state = λ discriminator bytes.
      if bytes_eq (take 8 bytes) discriminator
      then ok (drop 16 bytes)
      else err invalid_account_data;
}

-- A token account is a byte for its flag, and a mint is its authority's key.
abbrev pub token : Token
token = record {
  TokenAccount = Bytes;
  Mint = Bytes;
  unpack_account = λ bytes. ok bytes;
  unpack_mint = λ bytes. ok bytes;
  transferring = λ bytes. ok (bytes_eq bytes (1 ∷ []));
  mint_authority = λ bytes. if length bytes == 32 then some bytes else none;
}

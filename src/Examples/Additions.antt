-- ===== src/Examples/Additions.antt =====
-- The concrete libraries that read a list add accounts behind those that are there, and never panic.
use transfer_hook.Prelude.{
  ⊤, ◌≡◌, ◌≢◌, refl, sym, ap, ◌∙◌, none, some, Option, List, [], ◌∷◌, ◌++◌, map, append_assoc,
  append-nil, Bytes,
}
use transfer_hook.Solana.Error.{Result, ok, panic}
use transfer_hook.Solana.Account.{AccountInfo, AccountMeta, Instruction}
use transfer_hook.Solana.Sdk.{ResolvesAccounts}
use transfer_hook.Interface.Onchain.{Call, find_key, push_account}
use transfer_hook.Interface.Onchain.Grown.{
  Extends, find_key-eq-some, unchanged-Extends, Extends-trans,
}
use transfer_hook.Interface.Onchain.Total.{ReturnsErrors}
use transfer_hook.Interface.Offchain.{Fetched, done, panicked}
use transfer_hook.Interface.Offchain.Outcome.{ExtendsInstructions}
use transfer_hook.Examples.Encoding.{metas_in}
use transfer_hook.Examples.Resolver.{lists, with_info, with_account, account_of, add_all}
use transfer_hook.Examples.Completer
use transfer_hook.Examples.Completer.{client, complete_all}

one-Extends :
    (call : Call) (account : AccountMeta) (info : AccountInfo)
    → info.key ≡ account.pubkey
    → Extends call (push_account call.0 account, call.1 ++ (info ∷ []))
one-Extends call account info same = record {
  extra_metas = account ∷ [];
  extra_infos = info ∷ [];
  metas_added = refl;
  infos_added = refl;
  same_keys = ap (λ k. k ∷ []) (sym same);
  same_program = refl;
  same_contents = refl;
}

-- A rest that only adds.
abbrev Adds : (Call → Result ⊤ × Call) → Type 0
Adds rest = (call : Call) → (rest call).0 ≡ ok tt → Extends call (rest call).1

Adds-with_info :
    (account : AccountMeta) (found : Option AccountInfo) (rest : Call → Result ⊤ × Call)
    → ((info : AccountInfo) → found ≡ some info → info.key ≡ account.pubkey)
    → Adds rest
    → Adds (with_info account found rest)
Adds-with_info account none rest same k call h = cc
Adds-with_info account (some info) rest same k call h =
    let after : Call = (push_account call.0 account, call.1 ++ (info ∷ [])) in
    Extends-trans call after (rest after).1 (one-Extends call account info (same info refl))
      (k after h)

Adds-with_account :
    (others : List AccountInfo) (found : Option AccountMeta) (rest : Call → Result ⊤ × Call)
    → Adds rest
    → Adds (with_account found others rest)
Adds-with_account others none rest k call h = cc
Adds-with_account others (some account) rest k call h =
    Adds-with_info account (find_key account.pubkey others) rest
      (λ info e. find_key-eq-some account.pubkey others e) k call h

Adds-add_all : (others : List AccountInfo) (metas : List Bytes) → Adds (add_all others metas)
Adds-add_all others [] call h = unchanged-Extends call
Adds-add_all others (meta ∷ metas) call h =
    Adds-with_account others (account_of call.0 (map (λ a. a.key) call.1) meta)
      (add_all others metas) (Adds-add_all others metas) call h

pub lists-ResolvesAccounts : ResolvesAccounts lists
lists-ResolvesAccounts = record {
  add_to_cpi_instruction_lem = λ discriminator w before infos bytes others h.
      Adds-add_all others (metas_in bytes) (before, infos) h;
}

-- A rest that only adds, for a client.
abbrev Grows : (Instruction → Fetched ⊤ Instruction) → Type 0
Grows rest =
    (before after : Instruction)
    → rest before ≡ done after
    → (extra : List AccountMeta) × (after.accounts ≡ before.accounts ++ extra)

Grows-with_account :
    (found : Option AccountMeta) (rest : Instruction → Fetched ⊤ Instruction)
    → Grows rest
    → Grows (Completer.with_account found rest)
Grows-with_account none rest k before after h = cc
Grows-with_account (some account) rest k before after h =
    let (extra, grown) = k (push_account before account) after h in
    (account ∷ extra, grown ∙ append_assoc before.accounts (account ∷ []) extra)

Grows-complete_all : (metas : List Bytes) → Grows (complete_all metas)
Grows-complete_all [] before after h =
    let same : before ≡ after = cc in
    ([], ap (λ i. i.accounts) (sym same) ∙ sym (append-nil before.accounts))
Grows-complete_all (meta ∷ metas) before after h =
    Grows-with_account (account_of before (map (λ m. m.pubkey) before.accounts) meta)
      (complete_all metas) (Grows-complete_all metas) before after h

pub client-ExtendsInstructions : ExtendsInstructions client
client-ExtendsInstructions = record {
  add_to_instruction_lem = λ discriminator before fetch bytes {after} h.
      Grows-complete_all (metas_in bytes) before after h;
}

with_info-ne-panic :
    (account : AccountMeta) (found : Option AccountInfo) (rest : Call → Result ⊤ × Call)
    → ((call : Call) → (rest call).0 ≢ panic)
    → (call : Call) → (with_info account found rest call).0 ≢ panic
with_info-ne-panic account none rest k call = λ h. cc
with_info-ne-panic account (some info) rest k call = k _

with_account-ne-panic :
    (others : List AccountInfo) (found : Option AccountMeta) (rest : Call → Result ⊤ × Call)
    → ((call : Call) → (rest call).0 ≢ panic)
    → (call : Call) → (with_account found others rest call).0 ≢ panic
with_account-ne-panic others none rest k call = λ h. cc
with_account-ne-panic others (some account) rest k call =
    with_info-ne-panic account (find_key account.pubkey others) rest k call

add_all-ne-panic :
    (others : List AccountInfo) (metas : List Bytes) (call : Call)
    → (add_all others metas call).0 ≢ panic
add_all-ne-panic others [] call = λ h. cc
add_all-ne-panic others (meta ∷ metas) call =
    with_account-ne-panic others (account_of call.0 (map (λ a. a.key) call.1) meta)
      (add_all others metas) (add_all-ne-panic others metas) call

pub lists-ReturnsErrors : ReturnsErrors lists
lists-ReturnsErrors discriminator w instruction infos bytes others =
    add_all-ne-panic others (metas_in bytes) (instruction, infos)

client_with_account-ne-panicked :
    (found : Option AccountMeta) (rest : Instruction → Fetched ⊤ Instruction)
    → ((instruction : Instruction) → rest instruction ≢ panicked)
    → (instruction : Instruction) → Completer.with_account found rest instruction ≢ panicked
client_with_account-ne-panicked none rest k instruction = λ h. cc
client_with_account-ne-panicked (some account) rest k instruction = k _

pub complete_all-ne-panicked :
    (metas : List Bytes) (instruction : Instruction) → complete_all metas instruction ≢ panicked
complete_all-ne-panicked [] instruction = λ h. cc
complete_all-ne-panicked (meta ∷ metas) instruction =
    client_with_account-ne-panicked
      (account_of instruction (map (λ m. m.pubkey) instruction.accounts) meta) (complete_all metas)
      (complete_all-ne-panicked metas) instruction

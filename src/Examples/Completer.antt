-- ===== src/Examples/Completer.antt =====
-- A client's library that completes instructions in order, over the concrete lists.
use transfer_hook.Prelude.{
  ⊤, ◌≡◌, refl, sym, ap, ◌∙◌, none, some, Option, List, [], ◌∷◌, ◌++◌, map, append_assoc,
  append-nil, Bytes, length,
}
use transfer_hook.Solana.Error.{custom}
use transfer_hook.Solana.Account.{AccountMeta, Instruction}
use transfer_hook.Interface.Onchain.{push_account}
use transfer_hook.Interface.Offchain.{done, failed, of_program, Fetched, Resolver}
use transfer_hook.Interface.Offchain.Resolved.{Completes, none_left, next, CompletesInOrder}
use transfer_hook.Examples.Libraries.{runtime}
use transfer_hook.Examples.Resolver.{account_of, stands_lem, lists, extras}
use transfer_hook.Examples.Encoding.{flatten, unflatten-flatten, metas_in}

abbrev pub with_account :
    Option AccountMeta → (Instruction → Fetched ⊤ Instruction) → Instruction → Fetched ⊤ Instruction
with_account none rest instruction = failed (of_program (custom 2))
with_account (some account) rest instruction = rest (push_account instruction account)

abbrev pub complete_all : List Bytes → Instruction → Fetched ⊤ Instruction
complete_all [] instruction = done instruction
complete_all (meta ∷ metas) instruction =
    with_account (account_of instruction (map (λ m. m.pubkey) instruction.accounts) meta)
      (complete_all metas) instruction

abbrev pub client : Resolver ⊤
client = record {
  add_to_instruction =
      λ discriminator instruction fetch bytes. complete_all (metas_in bytes) instruction;
}

complete_all_lem :
    {metas : List Bytes} {instruction : Instruction} {more : List AccountMeta}
    → Completes runtime lists extras metas instruction more
    → complete_all metas instruction
      ≡ done (record instruction { accounts = instruction.accounts ++ more })
complete_all_lem {instruction = instruction} none_left = rw (append-nil instruction.accounts) refl
complete_all_lem {instruction = instruction}
      (next {account = account} {more = more} stands new rest) =
    rw (stands_lem instruction (map (λ m. m.pubkey) instruction.accounts) stands) (
      complete_all_lem rest
      ∙ ap (λ accounts. done (record instruction { accounts = accounts }))
          (append_assoc instruction.accounts (account ∷ []) more))

pub client-CompletesInOrder : CompletesInOrder runtime lists extras client
client-CompletesInOrder = record {
  in_order_lem = λ discriminator bytes size metas instruction fetch written fetches there.
      let same : (length metas ∷ flatten metas) ≡ bytes = cc in
      rw (sym same) (rw (unflatten-flatten metas) (complete_all_lem there));
}

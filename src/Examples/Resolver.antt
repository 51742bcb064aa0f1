-- ===== src/Examples/Resolver.antt =====
-- Concrete functions for the lists of extra accounts, with the laws that they keep. An extra account
-- is a few numbers: a tag, its flags, and a key or the seeds.
use transfer_hook.Prelude.{
  ⊤, ℕ, zero, suc, ◌+◌, ◌^◌, ◌<◌, ◌≡◌, refl, sym, ap, ◌∙◌, Bool, true, false, none, some, Option,
  List, [], ◌∷◌, ◌++◌, map, append_assoc, append-nil, Bytes, length, take, drop, take-append,
  drop-append, get_elem?, leb, le→leb, ◌==◌, if◌then◌else◌, to_le_bytes, from_le_bytes,
  length-to_le_bytes, from_le_bytes-to_le_bytes,
}
use transfer_hook.Solana.Error.{Result, ok, err, panic, custom, invalid_account_data}
use transfer_hook.Solana.Account.{Pubkey, AccountInfo, AccountMeta, Instruction}
use transfer_hook.Solana.Sdk.{Spl, IsCodec}
use transfer_hook.Solana.Sdk.ExtraAccounts.{
  ExtraAccounts, SeedBytes, of_data, of_key, SeedsBytes, no_seeds, seed_of, StandsFor, fixed,
  derived,
}
use transfer_hook.Interface.Onchain.{Call, find_key, finished, push_account}
use transfer_hook.Interface.Onchain.Resolved.{
  Extras, onto, grown, Resolves, none_left, next, missing, ResolvesInOrder,
}
use transfer_hook.Examples.Libraries.{runtime, spl}
use transfer_hook.Examples.Encoding.{
  flatten, unflatten, unflatten-flatten, metas_in, slice_bytes, view_of, view-slice,
}

abbrev bit : Bool → ℕ
bit true = 1
bit false = 0

bit_lem : (b : Bool) → (bit b == 1) ≡ b
bit_lem true = refl
bit_lem false = refl

abbrev seed_bytes : Bytes → List Pubkey → Bytes → Option Bytes
seed_bytes contents keys (zero ∷ index ∷ []) = get_elem? keys index
seed_bytes contents keys (suc zero ∷ index ∷ count ∷ []) =
    if leb (index + count) (length contents) then some (take count (drop index contents)) else none
seed_bytes contents keys _ = none

abbrev both : Option Bytes → Option (List Bytes) → Option (List Bytes)
both (some bytes) (some more) = some (bytes ∷ more)
both _ _ = none

abbrev seeds_bytes : Bytes → List Pubkey → List Bytes → Option (List Bytes)
seeds_bytes contents keys [] = some []
seeds_bytes contents keys (seed ∷ seeds) =
    both (seed_bytes contents keys seed) (seeds_bytes contents keys seeds)

abbrev address_of_seeds : Instruction → Bool → Bool → Option (List Bytes) → Option AccountMeta
address_of_seeds instruction signer writable none = none
address_of_seeds instruction signer writable (some seeds) = some (record {
  pubkey = (runtime.find_program_address seeds instruction.program_id).0;
  is_signer = signer;
  is_writable = writable;
})

abbrev pub account_of : Instruction → List Pubkey → Bytes → Option AccountMeta
account_of instruction keys (zero ∷ signer ∷ writable ∷ key) =
    some (record { pubkey = key; is_signer = signer == 1; is_writable = writable == 1 })
account_of instruction keys (suc zero ∷ signer ∷ writable ∷ count ∷ bytes) =
    address_of_seeds instruction (signer == 1) (writable == 1)
      (seeds_bytes instruction.contents keys (unflatten count bytes))
account_of instruction keys _ = none

abbrev pub with_info :
    AccountMeta → Option AccountInfo → (Call → Result ⊤ × Call) → Call → Result ⊤ × Call
with_info account none rest call = (err (custom 1), call)
with_info account (some info) rest call = rest (push_account call.0 account, call.1 ++ (info ∷ []))

abbrev pub with_account :
    Option AccountMeta → List AccountInfo → (Call → Result ⊤ × Call) → Call → Result ⊤ × Call
with_account none additional rest call = (err invalid_account_data, call)
with_account (some account) additional rest call =
    with_info account (find_key account.pubkey additional) rest call

abbrev pub add_all : List AccountInfo → List Bytes → Call → Result ⊤ × Call
add_all additional [] call = (ok tt, call)
add_all additional (meta ∷ metas) call =
    with_account (account_of call.0 (map (λ a. a.key) call.1) meta) additional
      (add_all additional metas) call

abbrev pub lists : Spl
lists = record {
  Meta = Bytes;
  TlvState = Bytes;
  execute_discriminator = spl.execute_discriminator;
  initialize_discriminator = spl.initialize_discriminator;
  update_discriminator = spl.update_discriminator;
  list_view_unpack = λ bytes. ok (view_of (from_le_bytes (take 4 bytes)) (drop 4 bytes));
  pod_slice_to_bytes = slice_bytes;
  size_of = λ n. ok (n + 16);
  init = λ discriminator old metas. (ok tt, length metas ∷ flatten metas);
  update = λ discriminator old metas. (ok tt, length metas ∷ flatten metas);
  check_account_infos = λ discriminator cells accounts input program_id bytes. ok tt;
  add_to_cpi_instruction = λ discriminator w instruction infos bytes additional.
      add_all additional (metas_in bytes) (instruction, infos);
  tlv_unpack = λ bytes. ok bytes;
  unpack_with_tlv_state = λ discriminator bytes. ok (metas_in bytes);
}

abbrev pub extras : ExtraAccounts lists
extras = record {
  Seed = Bytes;
  literal = λ bytes. 2 ∷ bytes;
  instruction_data = λ index count. 1 ∷ index ∷ count ∷ [];
  account_key = λ index. 0 ∷ index ∷ [];
  account_data = λ account index count. 3 ∷ account ∷ index ∷ count ∷ [];
  new_with_pubkey = λ key signer writable. ok (0 ∷ bit signer ∷ bit writable ∷ key);
  new_with_seeds =
      λ seeds signer writable. ok (1 ∷ bit signer ∷ bit writable ∷ length seeds ∷ flatten seeds);
  incorrect_account = custom 1;
}

lists_unpack :
    (metas : List Bytes)
    → length metas < 2 ^ 32
    → lists.list_view_unpack (to_le_bytes 4 (length metas) ++ slice_bytes metas) ≡ ok metas
lists_unpack metas h =
    let count = to_le_bytes 4 (length metas) in
    rw
      (
        drop-append 4 count (slice_bytes metas) (length-to_le_bytes 4 (length metas)),
        take-append 4 count (slice_bytes metas) (length-to_le_bytes 4 (length metas)),
        from_le_bytes-to_le_bytes 4 (length metas) h,
      )
      (ap ok (view-slice metas))

pub lists-IsCodec : IsCodec lists
lists-IsCodec = record {
  length-execute = refl;
  length-initialize = refl;
  length-update = refl;
  execute-ne-initialize = λ e. cc;
  execute-ne-update = λ e. cc;
  initialize-ne-update = λ e. cc;
  list_view_unpack-pod_slice_to_bytes = lists_unpack;
}

module _ (contents : Bytes) (keys : List Pubkey) where
  seed_lem :
      {seed bytes : Bytes}
      → SeedBytes runtime lists extras contents keys seed bytes
      → seed_bytes contents keys seed ≡ some bytes
  seed_lem (of_data index count h) = rw (le→leb (index + count) (length contents) h) refl
  seed_lem (of_key index e) = e

  seeds_lem :
      {seeds bytes : List Bytes}
      → SeedsBytes runtime lists extras contents keys seeds bytes
      → seeds_bytes contents keys seeds ≡ some bytes
  seeds_lem no_seeds = refl
  seeds_lem (seed_of first rest) = rw (seed_lem first, seeds_lem rest) refl

pub stands_lem :
    (instruction : Instruction) (keys : List Pubkey) {meta : Bytes} {account : AccountMeta}
    → StandsFor runtime lists extras instruction keys meta account
    → account_of instruction keys meta ≡ some account
stands_lem instruction keys {meta} (fixed key signer writable made) =
    let same : (0 ∷ bit signer ∷ bit writable ∷ key) ≡ meta = cc in
    rw (sym same) (rw (bit_lem signer, bit_lem writable) refl)
stands_lem instruction keys {meta} (derived seeds signer writable made read) =
    let same : (1 ∷ bit signer ∷ bit writable ∷ length seeds ∷ flatten seeds) ≡ meta = cc in
    rw (sym same) (
      rw
        (
          bit_lem signer,
          bit_lem writable,
          unflatten-flatten seeds,
          seeds_lem instruction.contents keys read,
        )
        refl)

grown-onto :
    (call : Call) (account : AccountMeta) (info : AccountInfo) (result : Result Extras)
    → grown (push_account call.0 account, call.1 ++ (info ∷ [])) result
      ≡ grown call (onto account info result)
grown-onto call account info (ok (metas, infos)) =
    rw (append_assoc call.0.accounts (account ∷ []) metas, append_assoc call.1 (info ∷ []) infos)
      refl
grown-onto call account info (err e) = refl
grown-onto call account info panic = refl

add_all_lem :
    (additional : List AccountInfo) {metas : List Bytes} {call : Call} {result : Result Extras}
    → Resolves runtime lists extras additional metas call result
    → finished (add_all additional metas call) ≡ grown call result
add_all_lem additional {call = call} none_left =
    rw (append-nil call.0.accounts, append-nil call.1) refl
add_all_lem additional {call = call}
      (next {account = account} {info = info} {result = result} stands new found rest) =
    rw (stands_lem call.0 (map (λ a. a.key) call.1) stands, found)
      (add_all_lem additional rest ∙ grown-onto call account info result)
add_all_lem additional {call = call} (missing stands new gone) =
    rw (stands_lem call.0 (map (λ a. a.key) call.1) stands, gone) refl

pub lists-ResolvesInOrder : ResolvesInOrder runtime lists extras
lists-ResolvesInOrder = record {
  in_order_lem = λ discriminator bytes size metas w call additional written free there.
      let same : (length metas ∷ flatten metas) ≡ bytes = cc in
      rw (sym same) (rw (unflatten-flatten metas) (add_all_lem additional there));
}

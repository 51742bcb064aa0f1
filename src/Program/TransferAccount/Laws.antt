-- ===== src/Program/TransferAccount/Laws.antt =====
-- The layout of a transfer account, and that reading it gives what was written.
use native.Mathlib.Decide.{dec_le}
use transfer_hook.Prelude.{
  ℕ, ◌^◌, ◌≤◌, ◌<◌, ◌≡◌, sym, ◌∙◌, ap, ◌++◌, arith, Bytes, length, take, drop, slice, lt→ltb,
  le→ltb, to_le_bytes, from_le_bytes, length-append, length-take, length-drop, take-append,
  drop-append, drop-drop, length-to_le_bytes, from_le_bytes-to_le_bytes,
}
use transfer_hook.Solana.Error.{ok, err, panic, invalid_account_data}
use transfer_hook.Solana.Account.{Pubkey}
use transfer_hook.Solana.Slice.{
  slice_of_lem, length-slice, copy_from_slice_lem, copy_from_slice_short,
}
use transfer_hook.Program.TransferAccount.{pack, unpack, update_transfered}

-- What `unpack` reads off an account that is long enough, and what it says of a shorter one.
pub unpack_cases :
    (src : Bytes)
    → (length src < 40 → unpack src ≡ err invalid_account_data)
      × (40 ≤ length src → unpack src ≡ ok (slice 0 32 src, from_le_bytes (slice 32 40 src)))
unfolding unpack
unpack_cases src = (
  λ h. rw (lt→ltb (length src) 40 h),
  λ h.
      rw
        (
          le→ltb (length src) 40 h,
          slice_of_lem 0 32 src (omega arith) (omega arith),
          slice_of_lem 32 40 src (omega arith) (omega arith),
        )
        (ground (
          arith,
          length-slice 0 32 src (omega arith) (omega arith),
          length-slice 32 40 src (omega arith) (omega arith),
        )),
)

-- An account in its three parts is read part by part.
unpack_parts :
    (owner count rest : Bytes)
    → length owner ≡ 32
    → length count ≡ 8
    → unpack (owner ++ (count ++ rest)) ≡ ok (owner, from_le_bytes count)
unpack_parts owner count rest ho hc = rw (
  (unpack_cases (owner ++ (count ++ rest))).1
      (omega (arith, length-append owner (count ++ rest), length-append count rest)),
  take-append 32 owner (count ++ rest) ho,
  drop-append 32 owner (count ++ rest) ho,
  take-append 8 count rest hc,
)

unpack_count :
    (owner : Bytes) (n : ℕ) (rest : Bytes)
    → length owner ≡ 32
    → n < 2 ^ 64
    → unpack (owner ++ (to_le_bytes 8 n ++ rest)) ≡ ok (owner, n)
unpack_count owner n rest ho hn = rw (
  unpack_parts owner (to_le_bytes 8 n) rest ho (length-to_le_bytes 8 n),
  from_le_bytes-to_le_bytes 8 n hn,
)

drop_layout :
    (owner : Bytes) (n : ℕ) (rest : Bytes)
    → length owner ≡ 32
    → drop 40 (owner ++ (to_le_bytes 8 n ++ rest)) ≡ rest
drop_layout owner n rest ho =
    sym (drop-drop 8 32 (owner ++ (to_le_bytes 8 n ++ rest)))
    ∙ ap (drop 8) (drop-append 32 owner (to_le_bytes 8 n ++ rest) ho)
    ∙ drop-append 8 (to_le_bytes 8 n) rest (length-to_le_bytes 8 n)

length_layout :
    (owner : Bytes) (n : ℕ) (dst : Bytes)
    → length owner ≡ 32
    → 40 ≤ length dst
    → length (owner ++ (to_le_bytes 8 n ++ drop 40 dst)) ≡ length dst
length_layout owner n dst ho h = omega (
  arith,
  length-append owner (to_le_bytes 8 n ++ drop 40 dst),
  length-append (to_le_bytes 8 n) (drop 40 dst),
  length-to_le_bytes 8 n,
  length-drop 40 dst,
)

-- An account that unpacks is long enough, and its owner is its first 32 bytes.
pub unpack-eq-ok :
    (src : Bytes) {owner : Pubkey} {n : ℕ}
    → unpack src ≡ ok (owner, n)
    → (40 ≤ length src) × (owner ≡ take 32 src) × (n ≡ from_le_bytes (slice 32 40 src))
unpack-eq-ok src read = elim (dec_le 40 (length src)) [
  | yes h ↦ (h, cc ((unpack_cases src).1 h), cc ((unpack_cases src).1 h))
  | no h ↦ cc ((unpack_cases src).0 (omega arith))
]

-- Writing the count into an account whose first part is 32 bytes long.
pub update_parts :
    (src : Bytes) (n : ℕ)
    → 40 ≤ length src
    → update_transfered src n ≡ ok (take 32 src ++ (to_le_bytes 8 n ++ drop 40 src))
unfolding update_transfered
update_parts src n h =
    copy_from_slice_lem src 32 40 (to_le_bytes 8 n) (omega arith) (omega arith)
      (length-to_le_bytes 8 n)

drop_owner : (owner dst : Bytes) → length owner ≡ 32 → drop 40 (owner ++ drop 32 dst) ≡ drop 40 dst
drop_owner owner dst ho =
    sym (drop-drop 8 32 (owner ++ drop 32 dst))
    ∙ ap (drop 8) (drop-append 32 owner (drop 32 dst) ho)
    ∙ drop-drop 8 32 dst

pub pack_parts :
    (owner : Pubkey) (n : ℕ) (dst : Bytes)
    → length owner ≡ 32
    → 40 ≤ length dst
    → pack owner n dst ≡ ok (owner ++ (to_le_bytes 8 n ++ drop 40 dst))
unfolding pack
pack_parts owner n dst ho h =
    rw (copy_from_slice_lem dst 0 32 owner (omega arith) (omega arith) ho) (
      rw
        (
          copy_from_slice_lem (owner ++ drop 32 dst) 32 40 (to_le_bytes 8 n) (omega arith)
              (omega (arith, length-append owner (drop 32 dst), length-drop 32 dst))
              (length-to_le_bytes 8 n),
          take-append 32 owner (drop 32 dst) ho,
        )
        (rw (drop_owner owner dst ho)))

-- Packing an owner of 32 bytes and a count that is a `u64` into a buffer of 40 bytes or more
-- returns; the buffer keeps its length and what lies behind the first 40 bytes, and unpacking it
-- gives the owner and the count that were packed.
pub unpack-pack_account :
    (owner : Pubkey) (n : ℕ) (dst : Bytes)
    → length owner ≡ 32
    → n < 2 ^ 64
    → 40 ≤ length dst
    → (dst' : Bytes) × (pack owner n dst ≡ ok dst')
      × (unpack dst' ≡ ok (owner, n))
      × (length dst' ≡ length dst)
      × (drop 40 dst' ≡ drop 40 dst)
unpack-pack_account owner n dst ho hn h =
    let count = to_le_bytes 8 n in
    let rest = drop 40 dst in
    (
      owner ++ (count ++ rest),
      pack_parts owner n dst ho h,
      unpack_count owner n rest ho hn,
      length_layout owner n dst ho h,
      drop_layout owner n rest ho,
    )

-- Updating an account that unpacks to a count that is a `u64` returns; the account keeps its
-- length, its owner and what lies behind the first 40 bytes, and unpacks to the new count.
pub unpack-update_transfered :
    (src : Bytes) {owner : Pubkey} {old : ℕ} (n : ℕ)
    → unpack src ≡ ok (owner, old)
    → n < 2 ^ 64
    → (src' : Bytes) × (update_transfered src n ≡ ok src')
      × (unpack src' ≡ ok (owner, n))
      × (length src' ≡ length src)
      × (drop 40 src' ≡ drop 40 src)
unpack-update_transfered src {owner} n read hn =
    let (h, first, _) = unpack-eq-ok src read in
    let long : length (take 32 src) ≡ 32 = omega (arith, length-take 32 src) in
    (
      take 32 src ++ (to_le_bytes 8 n ++ drop 40 src),
      update_parts src n h,
      rw first (unpack_count (take 32 src) n (drop 40 src) long hn),
      length_layout (take 32 src) n src long h,
      drop_layout (take 32 src) n (drop 40 src) long,
    )

-- A buffer below 40 bytes is never packed, with an owner of 32 bytes, or updated: both calls
-- panic.
pub pack_short :
    (owner : Pubkey) (n : ℕ) (dst : Bytes)
    → length owner ≡ 32
    → length dst < 40
    → (pack owner n dst ≡ panic) × (update_transfered dst n ≡ panic)
unfolding pack update_transfered
pack_short owner n dst ho h =
    (pack_panics, copy_from_slice_short dst 32 40 (to_le_bytes 8 n) (omega arith))
  where
    pack_panics : pack owner n dst ≡ panic
    pack_panics = elim (dec_le 32 (length dst)) [
      | yes k ↦ rw (copy_from_slice_lem dst 0 32 owner (omega arith) (omega arith) ho) (
          copy_from_slice_short (owner ++ drop 32 dst) 32 40 (to_le_bytes 8 n)
            (omega (arith, length-append owner (drop 32 dst), length-drop 32 dst)))
      | no k ↦ rw (copy_from_slice_short dst 0 32 owner (omega arith))
    ]

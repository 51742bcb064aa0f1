-- ===== src/Interface/Instruction/RoundTrip.antt =====
-- Unpacking what was packed, and what unpacking accepts.
use transfer_hook.Prelude.{
  ℕ, ◌^◌, ◌≤◌, ◌<◌, ◌≡◌, ◌↔◌, length-drop, sym, List, [], ◌++◌, append-nil, arith, Bytes, length,
  take, drop, le→ltb, bytes_eq_self, bytes_eq_ne, bytes_eq_iff, to_le_bytes, from_le_bytes,
  length-append, take-append, drop-append, length-to_le_bytes, from_le_bytes-to_le_bytes,
}
use native.Mathlib.Nat.{mod-eq_of_lt}
use transfer_hook.Solana.Error.{ok}
use transfer_hook.Solana.Sdk.{Spl, IsCodec}
use transfer_hook.Interface.Instruction.{
  TransferHookInstruction, execute_of, initialize_of, update_of, unpack, pack, pack_metas,
}

module _ (S : Spl) where
  -- What fits its field: a `u64` amount, a list that a `u32` counts.
  abbrev pub IsEncodable : TransferHookInstruction S.Meta → Type 0
  IsEncodable (execute_of amount) = amount < 2 ^ 64
  IsEncodable (initialize_of metas) = length metas < 2 ^ 32
  IsEncodable (update_of metas) = length metas < 2 ^ 32

  module _ (L : IsCodec S) where
    open L use {
      length-execute, length-initialize, length-update, execute-ne-initialize, execute-ne-update,
      initialize-ne-update,
    }

    -- `unpack` on a discriminator of eight bytes and the bytes behind it.
    unpack-execute :
        (rest : Bytes)
        → 8 ≤ length rest
        → unpack S (S.execute_discriminator ++ rest) ≡ ok (execute_of (from_le_bytes (take 8 rest)))
    unfolding unpack
    unpack-execute rest h =
        rw
          (
            le→ltb (length (S.execute_discriminator ++ rest)) 8
                (omega (arith, length-append S.execute_discriminator rest)),
            take-append 8 S.execute_discriminator rest length-execute,
            drop-append 8 S.execute_discriminator rest length-execute,
            bytes_eq_self S.execute_discriminator,
          )
          (ground arith)

    -- What stands behind the amount is ignored.
    pub unpack-execute_amount :
        (amount : ℕ) (rest : Bytes)
        → amount < 2 ^ 64
        → unpack S (S.execute_discriminator ++ (to_le_bytes 8 amount ++ rest))
          ≡ ok (execute_of amount)
    unpack-execute_amount amount rest h = rw (
      unpack-execute (to_le_bytes 8 amount ++ rest)
          (omega (arith, length-append (to_le_bytes 8 amount) rest, length-to_le_bytes 8 amount)),
      take-append 8 (to_le_bytes 8 amount) rest (length-to_le_bytes 8 amount),
      from_le_bytes-to_le_bytes 8 amount h,
    )

    unpack-list :
        (metas : List S.Meta)
        → length metas < 2 ^ 32
        → S.list_view_unpack (pack_metas S metas) ≡ ok metas
    unpack-list metas h = rw (mod-eq_of_lt h) (L.list_view_unpack-pod_slice_to_bytes metas h)

    unpack-initialize :
        (metas : List S.Meta)
        → length metas < 2 ^ 32
        → unpack S (S.initialize_discriminator ++ pack_metas S metas) ≡ ok (initialize_of metas)
    unfolding unpack
    unpack-initialize metas h = rw (
      le→ltb (length (S.initialize_discriminator ++ pack_metas S metas)) 8
          (omega (arith, length-append S.initialize_discriminator (pack_metas S metas))),
      take-append 8 S.initialize_discriminator (pack_metas S metas) length-initialize,
      drop-append 8 S.initialize_discriminator (pack_metas S metas) length-initialize,
      bytes_eq_ne _ _ (λ e. execute-ne-initialize (sym e)),
      bytes_eq_self S.initialize_discriminator,
      unpack-list metas h,
    )

    unpack-update :
        (metas : List S.Meta)
        → length metas < 2 ^ 32
        → unpack S (S.update_discriminator ++ pack_metas S metas) ≡ ok (update_of metas)
    unfolding unpack
    unpack-update metas h = rw (
      le→ltb (length (S.update_discriminator ++ pack_metas S metas)) 8
          (omega (arith, length-append S.update_discriminator (pack_metas S metas))),
      take-append 8 S.update_discriminator (pack_metas S metas) length-update,
      drop-append 8 S.update_discriminator (pack_metas S metas) length-update,
      bytes_eq_ne _ _ (λ e. execute-ne-update (sym e)),
      bytes_eq_ne _ _ (λ e. initialize-ne-update (sym e)),
      bytes_eq_self S.update_discriminator,
      unpack-list metas h,
    )

    -- Where the three discriminators have eight bytes each and differ, and a list view reads back
    -- what it holds: an instruction whose amount is a `u64` or whose list a `u32` counts is
    -- unpacked from its packed bytes, whichever of the three it is.
    pub unpack-pack_instruction :
        (i : TransferHookInstruction S.Meta) → IsEncodable i → unpack S (pack S i) ≡ ok i
    unfolding pack
    unpack-pack_instruction (execute_of amount) h =
        rw (append-nil (to_le_bytes 8 amount)) at (unpack-execute_amount amount [] h)
    unpack-pack_instruction (initialize_of metas) h = unpack-initialize metas h
    unpack-pack_instruction (update_of metas) h = unpack-update metas h

  -- Unpacking gives an `Execute` exactly when the input has 16 bytes or more and begins with its
  -- discriminator; the amount is then the next eight bytes, the least significant first.
  pub unpack-eq-execute :
      (input : Bytes) (amount : ℕ)
      → (unpack S input ≡ ok (execute_of amount)) ↔ (
          (16 ≤ length input)
          × (take 8 input ≡ S.execute_discriminator)
          × (amount ≡ from_le_bytes (take 8 (drop 8 input))))
  unfolding unpack
  unpack-eq-execute input amount = (
    λ h. ground (arith, length-drop 8 input, bytes_eq_iff (take 8 input) S.execute_discriminator),
    λ h. ground (arith, length-drop 8 input, bytes_eq_iff (take 8 input) S.execute_discriminator),
  )

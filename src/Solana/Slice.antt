-- ===== src/Solana/Slice.antt =====
-- Indexing and copying of Rust slices: outside the bounds they panic.
use transfer_hook.Prelude.{
  ℕ, ◌-◌, ◌≤◌, ◌≡◌, ◌&&◌, ◌++◌, arith, leb, ◌==◌, if◌then◌else◌, le→leb, Bytes, length, take, drop,
  slice, length-take, length-drop,
}
use transfer_hook.Solana.Error.{Result, ok, panic}

-- `src[start..stop]`
unfoldable pub slice_of : ℕ → ℕ → Bytes → Result Bytes
slice_of start stop src =
    if leb start stop && leb stop (length src) then ok (slice start stop src) else panic

-- `dst[start..stop].copy_from_slice(src)`: what `dst` is afterwards.
unfoldable pub copy_from_slice : Bytes → ℕ → ℕ → Bytes → Result Bytes
copy_from_slice dst start stop src =
    if leb start stop && leb stop (length dst) && length src == stop - start
    then ok (take start dst ++ (src ++ drop stop dst))
    else panic

pub slice_of_lem :
    (start stop : ℕ) (src : Bytes)
    → start ≤ stop
    → stop ≤ length src
    → slice_of start stop src ≡ ok (slice start stop src)
unfolding slice_of
slice_of_lem start stop src h k = rw (le→leb start stop h, le→leb stop (length src) k)

pub copy_from_slice_lem :
    (dst : Bytes) (start stop : ℕ) (src : Bytes)
    → start ≤ stop
    → stop ≤ length dst
    → length src ≡ stop - start
    → copy_from_slice dst start stop src ≡ ok (take start dst ++ (src ++ drop stop dst))
unfolding copy_from_slice
copy_from_slice_lem dst start stop src h k e = ground arith

pub copy_from_slice_short :
    (dst : Bytes) (start stop : ℕ) (src : Bytes)
    → ¬ (stop ≤ length dst)
    → copy_from_slice dst start stop src ≡ panic
unfolding copy_from_slice
copy_from_slice_short dst start stop src h = ground arith

pub length-slice :
    (start stop : ℕ) (src : Bytes)
    → start ≤ stop
    → stop ≤ length src
    → length (slice start stop src) ≡ stop - start
length-slice start stop src h k =
    omega (arith, length-take (stop - start) (drop start src), length-drop start src)

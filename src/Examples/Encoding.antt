-- ===== src/Examples/Encoding.antt =====
-- Lists of byte strings as one byte string, and the way back.
use transfer_hook.Prelude.{
  ℕ, zero, suc, ◌≡◌, refl, List, [], ◌∷◌, ◌++◌, Bytes, length, take, drop, take-append, drop-append,
}

-- Each list of numbers behind its length.
abbrev pub flatten : List Bytes → Bytes
flatten [] = []
flatten (bytes ∷ rest) = length bytes ∷ (bytes ++ flatten rest)

abbrev pub unflatten : ℕ → Bytes → List Bytes
unflatten zero bytes = []
unflatten (suc n) [] = []
unflatten (suc n) (size ∷ bytes) = take size bytes ∷ unflatten n (drop size bytes)

pub unflatten-flatten : (lists : List Bytes) → unflatten (length lists) (flatten lists) ≡ lists
unflatten-flatten [] = refl
unflatten-flatten (bytes ∷ rest) =
    rw
      (
        take-append (length bytes) bytes (flatten rest) refl,
        drop-append (length bytes) bytes (flatten rest) refl,
        unflatten-flatten rest,
      )
      refl

-- The metas behind a discriminator and a count.
abbrev pub metas_in : Bytes → List Bytes
metas_in [] = []
metas_in (count ∷ bytes) = unflatten count bytes

-- One extra account is its bytes.
abbrev pub slice_bytes : List Bytes → Bytes
slice_bytes (bytes ∷ []) = bytes
slice_bytes metas = flatten metas

abbrev pub view_of : ℕ → Bytes → List Bytes
view_of (suc zero) bytes = bytes ∷ []
view_of count bytes = unflatten count bytes

pub view-slice : (metas : List Bytes) → view_of (length metas) (slice_bytes metas) ≡ metas
view-slice [] = refl
view-slice (bytes ∷ []) = refl
view-slice (first ∷ second ∷ rest) = unflatten-flatten (first ∷ second ∷ rest)

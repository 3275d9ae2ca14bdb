-- ===== src/DataSets/Flip.antt =====
-- data_sets.c: `flipFloat`, `flipDouble`, `flipEndianess32`, `flipDoubles` and `flipStrings`, on the
-- memory in which the data stand.
use rover_workspace.Prelude.{
  ℕ, zero, suc, ◌+◌, ◌/◌, bit_and, ◌&&◌, List, [], ◌∷◌, ◌==◌, if◌then◌else◌,
}
use rover_workspace.Prelude.Int.{ℤ, pos, pos_part, ◌-ℤ◌, leb_ℤ}
use rover_workspace.Prelude.Memory.{Memory, store}

-- The four bytes at `p` in the other order: `flipFloat`, and `SWAP32` of the word at `p`.
unfoldable pub flip_float : Memory → ℕ → Memory
flip_float m p =
    store (store (store (store m (p + 3) (m p)) (p + 2) (m (p + 1))) (p + 1) (m (p + 2))) p
      (m (p + 3))

-- The two words of a double change places; their own bytes stay.
unfoldable pub flip_double : Memory → ℕ → Memory
flip_double m p =
    let low =
      store (store (store (store m p (m (p + 4))) (p + 1) (m (p + 5))) (p + 2) (m (p + 6))) (p + 3)
        (m (p + 7)) in
    store (store (store (store low (p + 4) (m p)) (p + 5) (m (p + 1))) (p + 6) (m (p + 2))) (p + 7)
      (m (p + 3))

-- `SWAP64` of the word at `p`.
unfoldable pub flip_uint64 : Memory → ℕ → Memory
unfolding flip_double flip_float
flip_uint64 m p = flip_float (flip_float (flip_double m p) p) (p + 4)

-- `while (dataPtr < dataPtrEnd)`, over the words that are left
unfoldable pub flip_words : ℕ → Memory → ℕ → Memory
flip_words zero m p = m
flip_words (suc n) m p = flip_words n (flip_float m p) (p + 4)

-- A length that is no multiple of four changes nothing.
unfoldable pub flip_endianess32 : Memory → (p data_length : ℕ) → Memory
unfolding flip_words
flip_endianess32 m p data_length =
    if bit_and data_length 3 == 0 then flip_words (data_length / 4) m p else m

-- `offsets` are the `offsetsLength` entries of the table.
unfoldable pub flip_doubles : Memory → (p : ℕ) → (data_length offset : ℤ) → List ℕ → Memory
flip_doubles m p data_length offset [] = m
flip_doubles m p data_length offset (entry ∷ offsets) =
    let at : ℤ = pos (bit_and entry 0x7FFF) -ℤ offset in
    let q = p + pos_part at in
    let inside = leb_ℤ (pos 0) at && leb_ℤ at (data_length -ℤ pos 8) in
    let m' : Memory =
      if inside
      then (if bit_and entry 0x8000 == 0 then flip_double m q else flip_uint64 m q)
      else m in
    flip_doubles m' p data_length offset offsets

-- Pairs of an offset and a length.
unfoldable pub flip_strings : Memory → (p : ℕ) → (data_length offset : ℤ) → List ℕ → Memory
flip_strings m p data_length offset [] = m
flip_strings m p data_length offset (start ∷ []) = m
flip_strings m p data_length offset (start ∷ size ∷ offsets) =
    let at : ℤ = pos start -ℤ offset in
    let inside = leb_ℤ (pos 0) at && leb_ℤ at (data_length -ℤ pos size) in
    let m' : Memory = if inside then flip_endianess32 m (p + pos_part at) size else m in
    flip_strings m' p data_length offset offsets

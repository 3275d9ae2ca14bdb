-- ===== src/Nmea/Streams/Fields.antt =====
-- protocol_nmea.cpp: the numbers that `nmea_parse_ascb` reads are those of its fields.
use rover_workspace.Prelude.{
  ℕ, zero, suc, ◌≡◌, refl, ◌∙◌, ◌%◌, ◌^◌, false, some, List, [], ◌∷◌, has, Distinct, get_elem?-has,
  get_elem?, arith, ◌==◌, if◌then◌else◌,
}
use rover_workspace.Nmea.Streams.{put, ascii_find_next_field, current, read_periods}

-- The text of the field that stands `n` commas further on
unfoldable pub skip_fields : ℕ → List ℕ → List ℕ
skip_fields zero ptr = ptr
skip_fields (suc n) ptr = skip_fields n (ascii_find_next_field ptr)

module _ (atoi : List ℕ → ℕ) where
  -- The number of a field, and 0 for an empty one
  abbrev pub field_value : List ℕ → ℕ
  field_value field = if current field == b',' then 0 else atoi field % 2 ^ 16

  read_periods-other :
      (ids ptr : List ℕ) (tmp : ℕ → ℕ) (id : ℕ)
      → has id ids ≡ false
      → read_periods atoi ids ptr tmp id ≡ tmp id
  unfolding read_periods
  read_periods-other [] ptr tmp id out = refl
  read_periods-other (x ∷ ids) ptr tmp id out =
      let next = ascii_find_next_field ptr in
      read_periods-other ids next
        (if current next == b',' then tmp else put tmp x (atoi next % 2 ^ 16)) id (ground arith)
      ∙ ground arith

  pub read_periods-field :
      (ids ptr : List ℕ) (tmp : ℕ → ℕ) (k id : ℕ)
      → Distinct ids
      → get_elem? ids k ≡ some id
      → tmp id ≡ 0
      → read_periods atoi ids ptr tmp id ≡ field_value (skip_fields (suc k) ptr)
  unfolding read_periods skip_fields
  read_periods-field [] ptr tmp k id apart e blank = absurd (cc e)
  read_periods-field (x ∷ ids) ptr tmp zero id apart e blank =
      let next = ascii_find_next_field ptr in
      let same : x ≡ id = ground (arith, e) in
      read_periods-other ids next
        (if current next == b',' then tmp else put tmp x (atoi next % 2 ^ 16)) id
        (ground (arith, apart.0))
      ∙ ground arith
  read_periods-field (x ∷ ids) ptr tmp (suc k) id apart e blank =
      let next = ascii_find_next_field ptr in
      let in_rest = get_elem?-has ids k id e in
      read_periods-field ids next
        (if current next == b',' then tmp else put tmp x (atoi next % 2 ^ 16)) k id apart.1 e
        (ground (arith, apart.0, in_rest))

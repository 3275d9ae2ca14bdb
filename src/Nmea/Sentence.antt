-- ===== src/Nmea/Sentence.antt =====
-- protocol_nmea.cpp: what the writers of all sentences share: `ssnprintf`, `nmea_sprint`,
-- `nmea_compute_checksum` and `nmea_sprint_footer`. A text that `vsnprintf` makes of a format is a
-- list of characters. Sizes and offsets are not negative.
pub mod Accepted
use rover_workspace.Prelude.{
  ℕ, zero, suc, ◌+◌, ◌-◌, ◌/◌, ◌%◌, bit_xor, List, [], ◌∷◌, ◌++◌, length, take, ltb, leb, ◌==◌,
  if◌then◌else◌,
}
use rover_workspace.Prelude.Memory.{Memory, write_bytes}

-- `vsnprintf(buf, size, ...)` for a size that is not 0 writes what fits, and a NUL behind it.
abbrev pub printed : Memory → (buf size : ℕ) → List ℕ → Memory
printed m buf size text = write_bytes m buf (take (size - 1) text ++ 0 ∷ [])

-- The result is the length of the whole text, whether it fits or not.
unfoldable pub ssnprintf : Memory → (buf buf_size : ℕ) → List ℕ → ℕ × Memory
ssnprintf m buf buf_size text =
    if buf_size == 0 then (0, m) else (length text, printed m buf buf_size text)

-- The new offset, and the memory
unfoldable pub nmea_sprint : Memory → (buf buf_size offset : ℕ) → List ℕ → ℕ × Memory
nmea_sprint m buf buf_size offset text =
    if leb buf_size offset
    then (offset, m)
    else (offset + length text, printed m (buf + offset) (buf_size - offset) text)

-- `checksum ^= *ptr`, over `n` bytes
unfoldable pub checksum_loop : Memory → (ptr n checksum : ℕ) → ℕ
checksum_loop m ptr zero checksum = checksum
checksum_loop m ptr (suc n) checksum = checksum_loop m (ptr + 1) n (bit_xor checksum (m ptr))

unfoldable pub nmea_compute_checksum : Memory → (str size : ℕ) → ℕ
nmea_compute_checksum m str size = checksum_loop m str size 0

-- A digit of "%X"
unfoldable pub hex_digit : ℕ → ℕ
hex_digit d = if ltb d 10 then b'0' + d else b'A' + (d - 10)

-- "*%.2X\r\n", for a number below 256
abbrev pub footer_text : ℕ → List ℕ
footer_text c = b'*' ∷ hex_digit (c / 16) ∷ hex_digit (c % 16) ∷ 13 ∷ 10 ∷ []

-- The new `n`, and the memory
unfoldable pub nmea_sprint_footer : Memory → (a a_size n : ℕ) → ℕ × Memory
nmea_sprint_footer m a a_size n =
    let check_sum = nmea_compute_checksum m (a + 1) n in
    let (l, m') = ssnprintf m (a + n) (a_size - n) (footer_text check_sum) in (n + l, m')

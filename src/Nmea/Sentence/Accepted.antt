-- ===== src/Nmea/Sentence/Accepted.antt =====
-- protocol_nmea.cpp and ISComm.c: the footer that the writers put is the one the parser expects.
use rover_workspace.Prelude.{
  ℕ, zero, suc, ◌+◌, ◌-◌, ◌/◌, ◌%◌, ◌<◌, ◌≤◌, ◌≡◌, refl, ap, ◌∙◌, bit_xor, true, [], ◌∷◌, ◌++◌,
  take, take_all, inl, false, ltb, ◌==◌, arith,
}
use rover_workspace.Prelude.Bits.{holds_below, holds_below-lt, bit_xor-lt, bit_xor_zero}
use rover_workspace.Prelude.Int.{pos, eqb_ℤ}
use rover_workspace.Prelude.Memory.{Memory, write_bytes, write_bytes-outside, write_bytes-Holds}
use rover_workspace.Nmea.Sentence.{
  ssnprintf, checksum_loop, nmea_compute_checksum, hex_digit, footer_text, nmea_sprint_footer,
}
use rover_workspace.Comm.{Comm, ptype_nmea}
use rover_workspace.Comm.Checksums.{strtol_16}
use rover_workspace.Comm.Packets.{reset_parser, found, xor_bytes, process_ascii_pkt}

hex_digits-strtol :
    (c : ℕ) → c < 256 → eqb_ℤ (strtol_16 (hex_digit (c / 16)) (hex_digit (c % 16))) (pos c) ≡ true
unfolding hex_digit strtol_16 holds_below
hex_digits-strtol c below =
    holds_below-lt (λ c. eqb_ℤ (strtol_16 (hex_digit (c / 16)) (hex_digit (c % 16))) (pos c)) 256
      refl c below

-- The sum of the bytes and a NUL behind them is that of the bytes.
checksum-xor_bytes :
    (m : Memory) (p n check : ℕ)
    → m (p + n) ≡ 0
    → checksum_loop m p (suc n) check ≡ xor_bytes m p n check
unfolding checksum_loop xor_bytes
checksum-xor_bytes m p zero check e =
    let none : m p ≡ 0 = ap m (omega arith) ∙ e in rw none (bit_xor_zero check)
checksum-xor_bytes m p (suc n) check e =
    checksum-xor_bytes m (p + 1) n (bit_xor check (m p)) (ap m (omega arith) ∙ e)

xor_bytes-lt :
    (m : Memory) (p n check : ℕ) → ((q : ℕ) → m q < 256) → check < 256 → xor_bytes m p n check < 256
unfolding xor_bytes
xor_bytes-lt m p zero check octets small = small
xor_bytes-lt m p (suc n) check octets small =
    xor_bytes-lt m (p + 1) n (bit_xor check (m p)) octets
      (bit_xor-lt 8 check (m p) small (octets p))

-- The bytes that a sum reads may stand in another memory.
xor_bytes_same :
    (m m' : Memory) (p n check : ℕ)
    → ((q : ℕ) → q < p + n → m' q ≡ m q)
    → xor_bytes m' p n check ≡ xor_bytes m p n check
unfolding xor_bytes
xor_bytes_same m m' p zero check same = refl
xor_bytes_same m m' p (suc n) check same =
    rw (same p (omega arith))
      (xor_bytes_same m m' (p + 1) n (bit_xor check (m p)) (λ q h. same q (omega arith)))

-- The sum of the characters between the dollar and the footer
sum : Memory → (a n : ℕ) → ℕ
sum m a n = xor_bytes m (a + 1) (n - 1) 0

-- The parser accepts what ends with the sum in two digits and two characters more.
process_ascii_pkt-accepts :
    (m : Memory) (c : Comm) (a n s : ℕ)
    → 2 < n
    → c.buf.head ≡ a
    → c.buf.scan ≡ a + (n + 5)
    → m (a + n + 1) ≡ hex_digit (s / 16)
    → m (a + n + 1 + 1) ≡ hex_digit (s % 16)
    → sum m a n ≡ s
    → s < 256
    → process_ascii_pkt m c ≡ (ptype_nmea, reset_parser (found c))
unfolding process_ascii_pkt sum
process_ascii_pkt-accepts m c a n s some starts at_end high low total small =
    let long : ltb 7 (a + (n + 5) - a) ≡ true = ground arith in
    let p : a + (n + 5) - 4 ≡ a + n + 1 = omega arith in
    let q : a + (n + 5) - 3 ≡ a + n + 1 + 1 = omega arith in
    let r : a + (n + 5) - 5 - (a + 1) ≡ n - 1 = omega arith in
    rw (starts, at_end, long, p, q, r, high, low, total, hex_digits-strtol s small) refl

module _ (m : Memory) (a a_size n : ℕ) (octets : (q : ℕ) → m q < 256) (ends : m (a + n) ≡ 0)
    (some : 0 < n) (room : n + 6 ≤ a_size) where
  checksum_is : nmea_compute_checksum m (a + 1) n ≡ sum m a n
  unfolding nmea_compute_checksum sum
  checksum_is =
      let e : n ≡ suc (n - 1) = omega arith in
      ap (λ k. checksum_loop m (a + 1) k 0) e
      ∙ checksum-xor_bytes m (a + 1) (n - 1) 0 (ap m (omega arith) ∙ ends)

  footer_is :
      nmea_sprint_footer m a a_size n
      ≡ (n + 5, write_bytes m (a + n) (footer_text (sum m a n) ++ 0 ∷ []))
  unfolding nmea_sprint_footer ssnprintf
  footer_is =
      let fits : (a_size - n == 0) ≡ false = ground arith in
      let whole : take (a_size - n - 1) (footer_text (sum m a n)) ≡ footer_text (sum m a n) =
        take_all _ _ (omega arith) in
      rw (checksum_is, fits, whole) refl

  sum-lt : sum m a n < 256
  unfolding sum
  sum-lt = xor_bytes-lt m (a + 1) (n - 1) 0 octets (omega arith)

  sum_same : sum (write_bytes m (a + n) (footer_text (sum m a n) ++ 0 ∷ [])) a n ≡ sum m a n
  unfolding sum
  sum_same =
      xor_bytes_same m _ (a + 1) (n - 1) 0
        (λ q h. write_bytes-outside m (a + n) _ q (inl (omega arith)))

-- A sentence of `n` characters from the dollar on, with the NUL of `nmea_sprint` behind it and room
-- for the footer in the buffer, is a valid NMEA message for `processAsciiPkt` once
-- `nmea_sprint_footer` has put its footer, and its length is what the writer returns.
pub process_ascii_pkt-footer :
    (m : Memory) (a a_size n : ℕ) (c : Comm)
    → ((q : ℕ) → m q < 256)
    → m (a + n) ≡ 0
    → 2 < n
    → n + 6 ≤ a_size
    → c.buf.head ≡ a
    → c.buf.scan ≡ a + (nmea_sprint_footer m a a_size n).0
    → process_ascii_pkt (nmea_sprint_footer m a a_size n).1 c ≡ (ptype_nmea, reset_parser (found c))
process_ascii_pkt-footer m a a_size n c octets ends some room head scan =
    let e = footer_is m a a_size n octets ends (omega arith) room in
    let (s0, (s1, (s2, others))) =
      write_bytes-Holds m (a + n) (footer_text (sum m a n) ++ 0 ∷ []) in
    let fine =
      process_ascii_pkt-accepts _ c a n (sum m a n) some head (scan ∙ ap (λ r. a + r.0) e) s1 s2
        (sum_same m a a_size n octets ends (omega arith) room)
        (sum-lt m a a_size n octets ends (omega arith) room) in
    rw e fine

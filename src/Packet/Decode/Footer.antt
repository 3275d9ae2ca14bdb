-- ===== src/Packet/Decode/Footer.antt =====
-- The footer scan on the three checksum bytes of a frame, escaped or not.
use rover_workspace.Prelude.{
  ℕ, zero, suc, ◌+◌, ◌-◌, ◌*◌, ◌/◌, ◌%◌, ◌^◌, ◌≤◌, ◌<◌, bit_and, ◌≡◌, ◌≢◌, refl, ◌∙◌, ap, true,
  false, [], ◌∷◌, inl, inr, arith, length, length-append, ◌==◌, lt→ltb, ==_iff, Bool-cases,
}
use rover_workspace.Prelude.Bits.{bit_or-add, holds_below, holds_below-lt}
use rover_workspace.Prelude.Word.{not8, not8-not8, shl32}
use rover_workspace.Prelude.Memory.{Memory, Holds, Holds-append}
use rover_workspace.Packet.{PacketFtr, is_special, psc_reserved_key, psc_end_byte}
use rover_workspace.Packet.Encode.Frame.{escape, footer_bytes}
use rover_workspace.Packet.Decode.{
  FooterState, stop_byte, cksum1, cksum1_encoded, cksum2, cksum2_encoded, cksum3, cksum3_encoded,
  done, is_done, FooterScan, footer_step, footer_loop, zero_ftr, ftr_checksum,
  is_decode_binary_packet_footer,
}

-- A byte on the wire that ends at `q` (and begins above `p`): as it is, or after the marker.
pub data Wire (m : Memory) (v p q : ℕ) : Type 0 where
  plain : q ≡ p + 1 → m q ≡ v → v ≢ psc_reserved_key → Wire m v p q
  marked :
      q ≡ p + 2
      → m q ≡ not8 v
      → m (p + 1) ≡ psc_reserved_key
      → not8 v ≢ psc_reserved_key
      → Wire m v p q

-- A byte that needs no marker is not the marker, and neither is the inverse of one that does.
special-ne-key : (v : ℕ) → is_special v ≡ true → not8 v ≢ psc_reserved_key
special-ne-key v e = ground arith

ordinary-ne-key : (v : ℕ) → is_special v ≡ false → v ≢ psc_reserved_key
ordinary-ne-key v e = ground arith

pub escape-Wire :
    (m : Memory) (v p : ℕ)
    → v < 256
    → Holds m (p + 1) (escape true v)
    → Wire m v p (p + length (escape true v))
unfolding escape
escape-Wire m v p small h = elim (Bool-cases (is_special v)) [
  | inl e ↦
      let held : Holds m (p + 1) (psc_reserved_key ∷ not8 v ∷ []) = rw e at h in
      rw e (marked refl (ap m (omega arith) ∙ held.1.0) held.0 (special-ne-key v e))
  | inr e ↦
      let held : Holds m (p + 1) ((v % 256) ∷ []) = rw e at h in
      rw e (plain refl (held.0 ∙ omega arith) (ordinary-ne-key v e))
]

pub Wire-ne-key : {m : Memory} {v p q : ℕ} → Wire m v p q → m q ≢ psc_reserved_key
Wire-ne-key (plain at is ne) = omega arith
Wire-ne-key (marked at is key ne) = omega arith

abbrev scan : FooterState → ℕ → PacketFtr → FooterScan
scan state current ftr = record { state = state; current = current; ftr = ftr }

module _ (m : Memory) (src : ℕ) where
  loop_step :
      (k : ℕ) (state : FooterState) (current : ℕ) (ftr : PacketFtr)
      → is_done state ≡ false
      → src < current
      → footer_loop (suc k) m src (scan state current ftr)
        ≡ footer_loop k m src (footer_step m state current ftr)
  unfolding footer_loop
  loop_step k state current ftr e h = rw (e, lt→ltb src current h)

  loop_done :
      (k current : ℕ) (ftr : PacketFtr)
      → footer_loop k m src (scan done current ftr) ≡ scan done current ftr
  unfolding footer_loop
  loop_done zero current ftr = refl
  loop_done (suc k) current ftr = refl

  read_cksum1 :
      (n : ℕ) (ftr : PacketFtr) {v p q : ℕ}
      → 2 ≤ n
      → Wire m v p q
      → m p ≢ psc_reserved_key
      → v < 256
      → src < p
      → (n' : ℕ) × (n ≤ n' + 2)
        × (footer_loop n m src (scan cksum1 q ftr)
            ≡ footer_loop n' m src (scan cksum2 p (record ftr { cksum1 = v })))
  unfolding footer_step
  read_cksum1 zero ftr h w ne small above = absurd (omega arith)
  read_cksum1 (suc zero) ftr h w ne small above = absurd (omega arith)
  read_cksum1 (suc (suc k)) ftr {v} {p} {q} h (plain at is other) ne small above =
      let step : footer_step m cksum1 q ftr ≡ scan cksum2 p (record ftr { cksum1 = v }) =
        ground (arith) in
      (
        suc k,
        omega arith,
        loop_step (suc k) cksum1 q ftr refl (omega arith) ∙ ap (footer_loop (suc k) m src) step,
      )
  read_cksum1 (suc (suc k)) ftr {v} {p} {q} h (marked at is key other) ne small above =
      let first : footer_step m cksum1 q ftr
          ≡ scan cksum1_encoded (p + 1) (record ftr { cksum1 = m q }) =
        ground arith in
      let second : footer_step m cksum1_encoded (p + 1) (record ftr { cksum1 = m q })
          ≡ scan cksum2 p (record ftr { cksum1 = v }) =
        ground (arith, not8-not8 v small) in
      (
        k,
        omega arith,
        loop_step (suc k) cksum1 q ftr refl (omega arith)
            ∙ ap (footer_loop (suc k) m src) first
            ∙ loop_step k cksum1_encoded _ _ refl (omega arith)
            ∙ ap (footer_loop k m src) second,
      )

  read_cksum2 :
      (n : ℕ) (ftr : PacketFtr) {v p q : ℕ}
      → 2 ≤ n
      → Wire m v p q
      → m p ≢ psc_reserved_key
      → v < 256
      → src < p
      → (n' : ℕ) × (n ≤ n' + 2)
        × (footer_loop n m src (scan cksum2 q ftr)
            ≡ footer_loop n' m src (scan cksum3 p (record ftr { cksum2 = v })))
  unfolding footer_step
  read_cksum2 zero ftr h w ne small above = absurd (omega arith)
  read_cksum2 (suc zero) ftr h w ne small above = absurd (omega arith)
  read_cksum2 (suc (suc k)) ftr {v} {p} {q} h (plain at is other) ne small above =
      let step : footer_step m cksum2 q ftr ≡ scan cksum3 p (record ftr { cksum2 = v }) =
        ground (arith) in
      (
        suc k,
        omega arith,
        loop_step (suc k) cksum2 q ftr refl (omega arith) ∙ ap (footer_loop (suc k) m src) step,
      )
  read_cksum2 (suc (suc k)) ftr {v} {p} {q} h (marked at is key other) ne small above =
      let first : footer_step m cksum2 q ftr
          ≡ scan cksum2_encoded (p + 1) (record ftr { cksum2 = m q }) =
        ground arith in
      let second : footer_step m cksum2_encoded (p + 1) (record ftr { cksum2 = m q })
          ≡ scan cksum3 p (record ftr { cksum2 = v }) =
        ground (arith, not8-not8 v small) in
      (
        k,
        omega arith,
        loop_step (suc k) cksum2 q ftr refl (omega arith)
            ∙ ap (footer_loop (suc k) m src) first
            ∙ loop_step k cksum2_encoded _ _ refl (omega arith)
            ∙ ap (footer_loop k m src) second,
      )

  read_cksum3 :
      (n : ℕ) (ftr : PacketFtr) {v p q : ℕ}
      → 2 ≤ n
      → Wire m v p q
      → m p ≢ psc_reserved_key
      → v < 256
      → src < p
      → (n' : ℕ) × (n ≤ n' + 2)
        × (footer_loop n m src (scan cksum3 q ftr)
            ≡ footer_loop n' m src (scan done (p + 1) (record ftr { cksum3 = v })))
  unfolding footer_step
  read_cksum3 zero ftr h w ne small above = absurd (omega arith)
  read_cksum3 (suc zero) ftr h w ne small above = absurd (omega arith)
  read_cksum3 (suc (suc k)) ftr {v} {p} {q} h (plain at is other) ne small above =
      let step : footer_step m cksum3 q ftr ≡ scan done (p + 1) (record ftr { cksum3 = v }) =
        ground (arith) in
      (
        suc k,
        omega arith,
        loop_step (suc k) cksum3 q ftr refl (omega arith) ∙ ap (footer_loop (suc k) m src) step,
      )
  read_cksum3 (suc (suc k)) ftr {v} {p} {q} h (marked at is key other) ne small above =
      let first : footer_step m cksum3 q ftr ≡ scan cksum3_encoded q (record ftr { cksum3 = m q }) =
        ground arith in
      let second : footer_step m cksum3_encoded q (record ftr { cksum3 = m q })
          ≡ scan done (p + 1) (record ftr { cksum3 = v }) =
        ground (arith, not8-not8 v small) in
      (
        k,
        omega arith,
        loop_step (suc k) cksum3 q ftr refl (omega arith)
            ∙ ap (footer_loop (suc k) m src) first
            ∙ loop_step k cksum3_encoded _ _ refl (omega arith)
            ∙ ap (footer_loop k m src) second,
      )

mask_table : holds_below (λ x. bit_and 0x0000FF00 (shl32 x 8) == x * 2 ^ 8) 256 ≡ true
unfolding holds_below
mask_table = refl

mask_table_high : holds_below (λ x. bit_and 0x00FF0000 (shl32 x 16) == x * 2 ^ 16) 256 ≡ true
unfolding holds_below
mask_table_high = refl

mask : (x : ℕ) → x < 256 → bit_and 0x0000FF00 (shl32 x 8) ≡ x * 2 ^ 8
mask x h = (==_iff _ _).0 (holds_below-lt _ 256 mask_table x h)

mask_high : (x : ℕ) → x < 256 → bit_and 0x00FF0000 (shl32 x 16) ≡ x * 2 ^ 16
mask_high x h = (==_iff _ _).0 (holds_below-lt _ 256 mask_table_high x h)

-- The footer of a checksum, high byte first.
abbrev pub ftr_of : ℕ → PacketFtr
ftr_of check = record {
  cksum3 = check / 2 ^ 16 % 256;
  cksum2 = check / 2 ^ 8 % 256;
  cksum1 = check % 256;
  stop_byte = psc_end_byte;
}

-- The three bytes make up the checksum again.
ftr_checksum_lem : (check : ℕ) → check < 2 ^ 24 → ftr_checksum (ftr_of check) ≡ check
ftr_checksum_lem check small =
    let c1 = check % 256 in
    let c2 = check / 2 ^ 8 % 256 in
    let c3 = check / 2 ^ 16 % 256 in
    rw
      (
        mask c2 (omega arith),
        mask_high c3 (omega arith),
        bit_or-add 8 c1 c2 (omega arith),
        bit_or-add 16 (c1 + c2 * 2 ^ 8) c3 (omega arith),
      )
      (omega arith)

Wire-lt : {m : Memory} {v p q : ℕ} → Wire m v p q → p < q
Wire-lt (plain at is ne) = omega arith
Wire-lt (marked at is key ne) = omega arith

-- The whole scan, from the end byte to the first of the checksum bytes.
scan_lem :
    (m : Memory) (src c1 c2 c3 p q3 q2 q1 : ℕ)
    → src < p
    → m p ≢ psc_reserved_key
    → c1 < 256
    → c2 < 256
    → c3 < 256
    → Wire m c3 p q3
    → Wire m c2 q3 q2
    → Wire m c1 q2 q1
    → m (q1 + 1) ≡ psc_end_byte
    → footer_loop 7 m src (scan stop_byte (q1 + 1) zero_ftr)
      ≡ scan done
          (p + 1)
          (record { cksum3 = c3; cksum2 = c2; cksum1 = c1; stop_byte = psc_end_byte })
unfolding footer_step
scan_lem m src c1 c2 c3 p q3 q2 q1 above ne small1 small2 small3 w3 w2 w1 last =
    let f0 : PacketFtr = record zero_ftr { stop_byte = psc_end_byte } in
    let f1 : PacketFtr = record f0 { cksum1 = c1 } in
    let f2 : PacketFtr = record f1 { cksum2 = c2 } in
    let lt3 = Wire-lt w3 in
    let lt2 = Wire-lt w2 in
    let lt1 = Wire-lt w1 in
    let (n1, b1, r1) =
      read_cksum1 m src 6 f0 (omega arith) w1 (Wire-ne-key w2) small1 (omega arith) in
    let (n2, b2, r2) =
      read_cksum2 m src n1 f1 (omega arith) w2 (Wire-ne-key w3) small2 (omega arith) in
    let (n3, b3, r3) = read_cksum3 m src n2 f2 (omega arith) w3 ne small3 above in
    let start : footer_step m stop_byte (q1 + 1) zero_ftr ≡ scan cksum1 q1 f0 = ground arith in
    loop_step m src 6 stop_byte (q1 + 1) zero_ftr refl (omega arith)
    ∙ ap (footer_loop 6 m src) start
    ∙ r1
    ∙ r2
    ∙ r3
    ∙ loop_done m src n3 (p + 1) _

-- Where the bytes from `p + 1` on are the footer of a frame with a checksum of 24 bits, and the byte at
-- `p`, behind the start of the packet, is no marker, the scan finds that the footer begins at `p + 1` and reads its checksum.
pub footer-decode :
    (m : Memory) (src p check : ℕ)
    → src < p
    → m p ≢ psc_reserved_key
    → check < 2 ^ 24
    → Holds m (p + 1) (footer_bytes true check)
    → is_decode_binary_packet_footer m src (p + 1 + length (footer_bytes true check))
      ≡ (ftr_of check, p + 1, check)
unfolding is_decode_binary_packet_footer
footer-decode m src p check above ne small held =
    let c1 = check % 256 in
    let c2 = check / 2 ^ 8 % 256 in
    let c3 = check / 2 ^ 16 % 256 in
    let e3 = escape true c3 in
    let e2 = escape true c2 in
    let e1 = escape true c1 in
    let q3 = p + length e3 in
    let q2 = q3 + length e2 in
    let q1 = q2 + length e1 in
    let h3 = (Holds-append m (p + 1) (q3 + 1) e3 _ (omega arith)).0 held in
    let h2 = (Holds-append m (q3 + 1) (q2 + 1) e2 _ (omega arith)).0 h3.1 in
    let h1 = (Holds-append m (q2 + 1) (q1 + 1) e1 _ (omega arith)).0 h2.1 in
    let w3 = escape-Wire m c3 p (omega arith) h3.0 in
    let w2 = escape-Wire m c2 q3 (omega arith) h2.0 in
    let w1 = escape-Wire m c1 q2 (omega arith) h1.0 in
    let size : p + 1 + length (footer_bytes true check) - 1 ≡ q1 + 1 =
      simp length-append (omega arith) in
    let whole =
      scan_lem m src c1 c2 c3 p q3 q2 q1 above ne (omega arith) (omega arith) (omega arith) w3 w2 w1
        h1.1.0 in
    rw (size, whole) (ap (λ (c : ℕ). (ftr_of check, p + 1, c)) (ftr_checksum_lem check small))

-- ===== src/Packet/Decode.antt =====
-- ISComm.c: `is_decode_binary_packet_footer`, `is_decode_binary_packet_byte` and
-- `is_decode_binary_packet`. The decoder reads and writes one memory, since a packet is decoded on
-- top of the buffer that it stands in.
pub mod Footer
use rover_workspace.Prelude.{
  ℕ, zero, suc, ◌+◌, ◌-◌, ◌*◌, ◌%◌, ◌^◌, bit_and, bit_or, bit_xor, Bool, true, false, not, ◌&&◌,
  Option, none, some, ltb, ◌==◌, if◌then◌else◌,
}
use rover_workspace.Prelude.Word.{not8, shl32}
use rover_workspace.Prelude.Memory.{Memory, store}
use rover_workspace.Packet.{
  PacketHdr, PacketFtr, Packet, is_corrupt, psc_reserved_key, cpu_is_little_endian,
  cm_pkt_flags_endianness_mask, max_pkt_body_size, checksum_seed,
}
use rover_workspace.Packet.Encode.{next_shift}
use rover_workspace.Packet.Swap.{swap_packet}

-- The states 0 to 7 of the footer's state machine.
pub data FooterState : Type 0 where
  stop_byte cksum1 cksum1_encoded cksum2 cksum2_encoded cksum3 cksum3_encoded done : FooterState

abbrev pub is_done : FooterState → Bool
is_done done = true
is_done _ = false

pub record FooterScan : Type 0 where
  pub state : FooterState
  pub current : ℕ
  pub ftr : PacketFtr

-- One round of the `switch`.
unfoldable pub footer_step : Memory → FooterState → ℕ → PacketFtr → FooterScan
footer_step m stop_byte p f = record {
  state = cksum1;
  current = p - 1;
  ftr = record f { stop_byte = m p };
}
footer_step m cksum1 p f = record {
  state = if m (p - 1) == psc_reserved_key then cksum1_encoded else cksum2;
  current = p - 1;
  ftr = record f { cksum1 = m p };
}
footer_step m cksum1_encoded p f = record {
  state = cksum2;
  current = p - 1;
  ftr = record f { cksum1 = not8 f.cksum1 };
}
footer_step m cksum2 p f = record {
  state = if m (p - 1) == psc_reserved_key then cksum2_encoded else cksum3;
  current = p - 1;
  ftr = record f { cksum2 = m p };
}
footer_step m cksum2_encoded p f = record {
  state = cksum3;
  current = p - 1;
  ftr = record f { cksum2 = not8 f.cksum2 };
}
footer_step m cksum3 p f = record {
  state = if m (p - 1) == psc_reserved_key then cksum3_encoded else done;
  current = p;
  ftr = record f { cksum3 = m p };
}
footer_step m cksum3_encoded p f = record {
  state = done;
  current = p - 1;
  ftr = record f { cksum3 = not8 f.cksum3 };
}
footer_step m done p f = record { state = done; current = p; ftr = f }

-- `while (state != 7 && currentPtr > ptrSrc)`, for at most `fuel` rounds
unfoldable pub footer_loop : ℕ → Memory → ℕ → FooterScan → FooterScan
footer_loop zero m src s = s
footer_loop (suc fuel) m src s =
    let rest = footer_loop fuel m src (footer_step m s.state s.current s.ftr) in
    if not (is_done s.state) && ltb src s.current then rest else s

abbrev pub zero_ftr : PacketFtr
zero_ftr = record { cksum3 = 0; cksum2 = 0; cksum1 = 0; stop_byte = 0 }

-- The checksum that the footer carries.
abbrev pub ftr_checksum : PacketFtr → ℕ
ftr_checksum f =
    bit_or (bit_or f.cksum1 (bit_and 0x0000FF00 (shl32 f.cksum2 8)))
      (bit_and 0x00FF0000 (shl32 f.cksum3 16))

-- The footer, where it begins (`*ptrSrcEnd`), and `*checksum`. No state comes twice, so that seven
-- rounds are enough.
unfoldable pub is_decode_binary_packet_footer : Memory → (src src_end : ℕ) → PacketFtr × ℕ × ℕ
is_decode_binary_packet_footer m src src_end =
    let s =
      footer_loop 7 m src (record { state = stop_byte; current = src_end - 1; ftr = zero_ftr }) in
    (s.ftr, s.current, ftr_checksum s.ftr)

-- The byte decoded at `src`: where the next one begins, the byte, and the new checksum.
unfoldable pub is_decode_binary_packet_byte : Memory → (src check shift : ℕ) → Option (ℕ × ℕ × ℕ)
is_decode_binary_packet_byte m src check shift =
    if is_corrupt (m src)
    then none
    else (if m src == psc_reserved_key
        then (let val = not8 (m (src + 1)) in some (src + 2, val, bit_xor check (shl32 val shift)))
        else some (src + 1, m src, bit_xor check (shl32 (m src) shift)))

-- Where the loop over the body stops: whether it met no corrupt byte, the memory, the end of what it
-- wrote, and the checksum.
pub record BodyDecoded : Type 0 where
  pub fine : Bool
  pub memory : Memory
  pub dest : ℕ
  pub check : ℕ

-- `while (ptrSrc < ptrSrcEnd)`. A round takes at least one byte, so that `ptrSrcEnd - ptrSrc` rounds
-- are enough.
unfoldable pub decode_body : ℕ → Memory → (src src_end dest check shifter : ℕ) → BodyDecoded
decode_body zero m src src_end dest check shifter = record {
  fine = true;
  memory = m;
  dest = dest;
  check = check;
}
decode_body (suc fuel) m src src_end dest check shifter =
    if ltb src src_end
    then elim (is_decode_binary_packet_byte m src check shifter) [
      | none ↦ record { fine = false; memory = m; dest = dest; check = check }
      | some (src', val, check') ↦
          decode_body fuel (store m dest val) src' src_end (dest + 1) check' (next_shift shifter)
    ]
    else record { fine = true; memory = m; dest = dest; check = check }

-- What the decoder returns (`false` is -1), with the memory and `*pkt` as it leaves them.
pub record Decoded : Type 0 where
  pub fine : Bool
  pub memory : Memory
  pub packet : Packet

-- After the loop over the body: the checks, and the swap for a packet of the other byte order.
unfoldable pub check_body : BodyDecoded → (actual : ℕ) → Packet → Decoded
check_body b actual pkt =
    if not b.fine
    then record { fine = false; memory = b.memory; packet = pkt }
    else if not (actual == b.check)
    then record { fine = false; memory = b.memory; packet = pkt }
    else let pkt' : Packet = record pkt { body_size = b.dest - pkt.body_ptr } in
      if ltb max_pkt_body_size pkt'.body_size
      then record { fine = false; memory = b.memory; packet = pkt' }
      else if not (pkt'.body_size == 0)
          && not (bit_and pkt'.hdr.flags cm_pkt_flags_endianness_mask == cpu_is_little_endian)
      then record { fine = true; memory = swap_packet b.memory pkt'; packet = pkt' }
      else record { fine = true; memory = b.memory; packet = pkt' }

unfoldable pub is_decode_binary_packet : Memory → Packet → (pbuf pbuf_size : ℕ) → Decoded
is_decode_binary_packet m pkt pbuf pbuf_size =
    if ltb pbuf_size 8
    then record { fine = false; memory = m; packet = pkt }
    else let (ftr, src_end, actual) = is_decode_binary_packet_footer m pbuf (pbuf + pbuf_size) in
      let hdr0 : PacketHdr = record (pkt.hdr) { start_byte = m pbuf } in
      elim (is_decode_binary_packet_byte m (pbuf + 1) checksum_seed 0) [
        | none ↦ record { fine = false; memory = m; packet = record pkt { hdr = hdr0 } }
        | some (src1, pid, check1) ↦
            let hdr1 : PacketHdr = record hdr0 { pid = pid } in
            elim (is_decode_binary_packet_byte m src1 check1 8) [
              | none ↦ record { fine = false; memory = m; packet = record pkt { hdr = hdr1 } }
              | some (src2, counter, check2) ↦
                  let hdr2 : PacketHdr = record hdr1 { counter = counter } in
                  elim (is_decode_binary_packet_byte m src2 check2 16) [
                    | none ↦ record { fine = false; memory = m; packet = record pkt { hdr = hdr2 } }
                    | some (src3, flags, check3) ↦
                        check_body
                          (decode_body (src_end - src3) m src3 src_end pkt.body_ptr check3 0) actual
                          (record pkt { hdr = record hdr2 { flags = flags } })
                  ]
            ]
      ]

-- ===== src/Packet/RoundTrip.antt =====
-- `is_decode_binary_packet` on a frame, and on what `is_encode_binary_packet` wrote.
pub mod Body
use rover_workspace.Prelude.{
  ℕ, ◌+◌, ◌-◌, ◌/◌, ◌%◌, ◌^◌, ◌≤◌, ◌<◌, bit_and, bit_or, bit_xor, ◌≡◌, ◌≢◌, refl, ◌∙◌, ap, Bool,
  true, false, Option, none, some, List, [], ◌∷◌, ◌++◌, arith, length, length-append, ltb,
  le→not-ltb, inl, if◌then◌else◌, ◌==◌,
}
use rover_workspace.Prelude.Bits.{bit_or-lt, bit_or_mod_two, bit_and-one}
use rover_workspace.Prelude.Word.{shl32}
use rover_workspace.Prelude.Memory.{Memory, Holds, Holds-append}
use rover_workspace.Packet.{
  PacketHdr, Packet, psc_start_byte, psc_reserved_key, checksum_seed, max_pkt_body_size,
  cm_pkt_flags_endianness_mask, cpu_is_little_endian, cm_pkt_flags_checksum_24_bit,
}
use rover_workspace.Packet.Encode.{wire_flags, is_encode_binary_packet}
use rover_workspace.Packet.Encode.Frame.{
  escape, escape_all, body_check, header_check, header_bytes, footer_bytes, frame, length-escape,
  length-footer_bytes,
}
use rover_workspace.Packet.Encode.Room.{encode-some}
use rover_workspace.Packet.Decode.{
  BodyDecoded, Decoded, decode_body, check_body, is_decode_binary_packet,
  is_decode_binary_packet_footer, is_decode_binary_packet_byte,
}
use rover_workspace.Packet.Decode.Footer.{footer-decode, ftr_of}
use Body.{
  IsBytes, decode-escape, last-ne-key, Decodes, decode_body-escape_all, body_check-lt,
  header_check-lt,
}

-- The header of a frame, as the decoder reports it.
abbrev pub received : PacketHdr → ℕ → PacketHdr
received hdr flags = record hdr { start_byte = psc_start_byte; flags = flags }

-- What a successful decoding leaves: the header, the size of the body, and the body in memory.
pub record Received (hdr : PacketHdr) (flags : ℕ) (body : List ℕ) (pkt : Packet) (r : Decoded)
    : Type 0 where
  pub fine : r.fine ≡ true
  pub packet :
      r.packet
      ≡ record { hdr = received hdr flags; body_ptr = pkt.body_ptr; body_size = length body }
  pub held : Holds r.memory pkt.body_ptr body

check_body-Received :
    (m : Memory) (hdr : PacketHdr) (flags check : ℕ) (body : List ℕ) (pkt : Packet)
    (b : BodyDecoded)
    → Decodes m pkt.body_ptr check 0 body b
    → length body ≤ max_pkt_body_size
    → bit_and flags cm_pkt_flags_endianness_mask ≡ cpu_is_little_endian
    → Received hdr flags body pkt
        (check_body b (body_check check 0 body) (record pkt { hdr = received hdr flags }))
unfolding check_body
check_body-Received m hdr flags check body pkt b d small little = record {
  fine = ground (arith, d.fine, d.sum, d.dest_end);
  packet = ground (arith, d.fine, d.sum, d.dest_end);
  held = rw kept d.held;
}
  where
    kept :
        (check_body b (body_check check 0 body) (record pkt { hdr = received hdr flags })).memory
        ≡ b.memory
    kept = ground (arith, d.fine, d.sum, d.dest_end)

-- The footer of a packet of `size` bytes whose body ends at `end`, with no marker just before `end`.
footer_at :
    (m : Memory) (pbuf size end check : ℕ)
    → pbuf + 1 < end
    → pbuf + size ≡ end + length (footer_bytes true check)
    → m (end - 1) ≢ psc_reserved_key
    → check < 2 ^ 24
    → Holds m end (footer_bytes true check)
    → is_decode_binary_packet_footer m pbuf (pbuf + size) ≡ (ftr_of check, end, check)
footer_at m pbuf size end check above e ne small h =
    let back : end ≡ end - 1 + 1 = omega arith in
    let held : Holds m (end - 1 + 1) (footer_bytes true check) = rw (← back) h in
    rw (e, back) (footer-decode m pbuf (end - 1) check (omega arith) ne small held)

-- Where `pbuf` holds the frame of a header and a body of bytes, with the little endian flag set, and
-- `pkt->body.ptr` does not lie behind `pbuf`, the decoder succeeds: it reports that header and that
-- body, and has written the body to `pkt->body.ptr`, over the frame or not.
pub decode-frame :
    (m : Memory) (pkt : Packet) (pbuf : ℕ) (hdr : PacketHdr) (flags : ℕ) (body : List ℕ)
    → hdr.pid < 256
    → hdr.counter < 256
    → flags < 256
    → bit_and flags cm_pkt_flags_endianness_mask ≡ cpu_is_little_endian
    → length body ≤ max_pkt_body_size
    → IsBytes body
    → pkt.body_ptr ≤ pbuf
    → Holds m pbuf (frame true hdr flags body)
    → Received hdr flags body pkt
        (is_decode_binary_packet m pkt pbuf (length (frame true hdr flags body)))
unfolding is_decode_binary_packet frame escape_all
decode-frame m pkt pbuf hdr flags body pid ctr fl little small bytes apart h =
    let e_pid = escape true hdr.pid in
    let e_ctr = escape true hdr.counter in
    let e_fl = escape true flags in
    let check0 = header_check hdr flags in
    let check = body_check check0 0 body in
    let check1 = bit_xor checksum_seed hdr.pid in
    let check2 = bit_xor check1 (shl32 hdr.counter 8) in
    let e_body = escape_all true body in
    let e_ftr = footer_bytes true check in
    let s2 = pbuf + 1 + length e_pid in
    let s3 = s2 + length e_ctr in
    let s4 = s3 + length e_fl in
    let s5 = s4 + length e_body in
    let p = s5 - 1 in
    let one1 = length-escape true hdr.pid in
    let one2 = length-escape true hdr.counter in
    let one3 = length-escape true flags in
    let sizes : length (e_pid ++ (e_ctr ++ e_fl)) ≡ length e_pid + length e_ctr + length e_fl =
      simp length-append (omega arith) in
    let whole : length (frame true hdr flags body)
        ≡ 1 + length (e_pid ++ (e_ctr ++ e_fl)) + length e_body + length e_ftr =
      simp length-append (omega arith) in
    let (head, tail) =
      (Holds-append m (pbuf + 1) s4 (e_pid ++ (e_ctr ++ e_fl)) _ (omega arith)).0 h.1 in
    let (h_pid, h_more) = (Holds-append m (pbuf + 1) s2 e_pid _ refl).0 head in
    let (h_ctr, h_fl) = (Holds-append m s2 s3 e_ctr _ refl).0 h_more in
    let (h_body, h_ftr) = (Holds-append m s4 s5 e_body _ refl).0 tail in
    let before : s3 - 1 + 1 ≡ s3 = omega arith in
    let h_last : Holds m (s3 - 1 + 1) (escape_all true (flags ∷ body)) =
      rw before ((Holds-append m s3 s4 e_fl e_body refl).1 (h_fl, h_body)) in
    let at : s3 - 1 + length (escape_all true (flags ∷ body)) ≡ s5 - 1 =
      omega (arith, length-append e_fl e_body) in
    let last : m (s5 - 1) ≢ psc_reserved_key =
      rw at at (last-ne-key m (s3 - 1) flags body (fl, bytes) h_last) in
    let small_check =
      body_check-lt check0 0 body (header_check-lt hdr flags pid ctr fl) (inl refl) bytes in
    let unshifted : shl32 hdr.pid 0 ≡ hdr.pid = omega arith in
    let first_byte : is_decode_binary_packet_byte m (pbuf + 1) checksum_seed 0
        ≡ some (s2, hdr.pid, check1) =
      decode-escape m (pbuf + 1) checksum_seed 0 hdr.pid pid h_pid
      ∙ ap (λ (c : ℕ). some (s2, hdr.pid, bit_xor checksum_seed c)) unshifted in
    let ftr =
      footer_at m pbuf (length (frame true hdr flags body)) s5 check (omega arith) (omega arith)
        last small_check h_ftr in
    let loop =
      decode_body-escape_all (s5 - s4) m s4 s5 pkt.body_ptr check0 0 body refl (omega arith)
        (omega arith) bytes h_body in
    rw
      (
        le→not-ltb 8 (length (frame true hdr flags body))
            (omega (arith, length-footer_bytes true check)),
        first_byte,
        decode-escape m s2 check1 8 hdr.counter ctr h_ctr,
        decode-escape m s3 check2 16 flags fl h_fl,
        ftr,
        h.0,
      )
      (check_body-Received m hdr flags check0 body pkt _ loop small little)

-- The flags that the encoder puts on the wire say little endian.
wire_flags-little :
    (hdr : PacketHdr) (additional : ℕ)
    → bit_and (wire_flags hdr additional) cm_pkt_flags_endianness_mask ≡ cpu_is_little_endian
wire_flags-little hdr additional =
    let inner = bit_or hdr.flags additional in
    omega (
      arith,
      bit_and-one (wire_flags hdr additional),
      bit_or_mod_two (bit_or inner cpu_is_little_endian) cm_pkt_flags_checksum_24_bit,
      bit_or_mod_two inner cpu_is_little_endian,
    )

pub wire_flags-lt :
    (hdr : PacketHdr) (additional : ℕ)
    → hdr.flags < 256
    → additional < 256
    → wire_flags hdr additional < 256
wire_flags-lt hdr additional h k =
    bit_or-lt 8 _ _ (bit_or-lt 8 _ _ (bit_or-lt 8 hdr.flags additional h k) (omega arith))
      (omega arith)

-- Whatever `is_encode_binary_packet` returns successfully, with the packet encoding enabled and for
-- a header and a body of bytes, `is_decode_binary_packet` takes apart again: where memory holds
-- the bytes written, and the destination of the body does not lie behind them, the decoder given
-- the returned size reports the same packet id and counter, the flags that were sent, and the
-- same body.
pub decode-encode :
    (limit : ℕ) (hdr : PacketHdr) (additional : ℕ) (body : List ℕ) (n : ℕ)
    → hdr.pid < 256
    → hdr.counter < 256
    → hdr.flags < 256
    → additional < 256
    → IsBytes body
    → (is_encode_binary_packet true limit hdr additional body).result ≡ some n
    → (m : Memory) (pkt : Packet) (pbuf : ℕ) → pkt.body_ptr ≤ pbuf
    → Holds m pbuf (is_encode_binary_packet true limit hdr additional body).written
    → Received hdr (wire_flags hdr additional) body pkt (is_decode_binary_packet m pkt pbuf n)
decode-encode limit hdr additional body n pid ctr fl add bytes sent m pkt pbuf apart held =
    let (small, size, is) = encode-some true limit hdr additional body n sent in
    rw size (
      decode-frame m pkt pbuf hdr (wire_flags hdr additional) body pid ctr
        (wire_flags-lt hdr additional fl add) (wire_flags-little hdr additional) small bytes apart
        (rw is at held))

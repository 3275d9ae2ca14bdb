-- ===== src/Comm/Packets.antt =====
-- ISComm.c: what is done with the bytes from `head` to `scan`: `processInertialSensePkt`,
-- `processAsciiPkt`, `processUbloxByte` and `processRtcm3Byte`.
use rover_workspace.Prelude.{
  ℕ, zero, suc, ◌+◌, ◌-◌, ◌*◌, ◌%◌, ◌^◌, bit_xor, not, ◌&&◌, ◌||◌, ltb, leb, ◌==◌, if◌then◌else◌,
}
use rover_workspace.Prelude.Int.{ℤ, pos, negsuc, ◌+ℤ◌, eqb_ℤ}
use rover_workspace.Prelude.Memory.{Memory, bytes, write_bytes, load32}
use rover_workspace.Packet.{
  Packet, pid_ack, pid_nack, pid_get_data, pid_data, pid_set_data, pid_stop_broadcasts_all_ports,
  pid_stop_did_broadcast, pid_stop_broadcasts_current_port, ublox_start_byte2,
}
use rover_workspace.Packet.Decode.{Decoded, is_decode_binary_packet}
use rover_workspace.Comm.{
  Protocol, ptype_none, ptype_parse_error, ptype_ack, ptype_cmd, ptype_data, ptype_nmea,
  ptype_ublox, ptype_rtcm3, DataHdr, Comm, inc32, is_set,
}
use rover_workspace.Comm.Checksums.{calculate_24_bit_crcq, get_bits_as_uint32, strtol_16}

abbrev pub max_dataset_size : ℕ
max_dataset_size = 1024

-- `*((p_data_hdr_t*)p)`
abbrev pub load_hdr : Memory → ℕ → DataHdr
load_hdr m p = record { id = load32 m p; size = load32 m (p + 4); offset = load32 m (p + 8) }

unfoldable pub reset_parser : Comm → Comm
reset_parser c = record c { has_start_byte = 0; buf = record (c.buf) { head = c.buf.scan } }

-- `instance->rxErrorCount++; return _PTYPE_PARSE_ERROR;`
abbrev pub parse_error : Comm → Protocol × Comm
parse_error c = (ptype_parse_error, record c { rx_error_count = inc32 c.rx_error_count })

-- The `switch` over the packet id, for a packet that was decoded; `hdr` is the
-- data header that begins the body.
unfoldable pub switch_pid : DataHdr → Comm → Protocol × Comm
switch_pid hdr c0 =
    let c : Comm = record c0 { ack_needed = 0; data_ptr = 0 } in
    let pid = c.pkt.hdr.pid in
    let in_bounds = ltb 0 hdr.id && leb hdr.size max_dataset_size in
    let payload = c.pkt.body_ptr + 12 in
    if pid == pid_set_data || pid == pid_data
    then (if in_bounds
        then (
          ptype_data,
          record c {
            data_hdr = hdr;
            ack_needed = if pid == pid_set_data then pid_ack else 0;
            data_ptr = payload;
          },
        )
        else parse_error (record c { data_hdr = hdr; ack_needed = pid_nack }))
    else if pid == pid_get_data
    then (if in_bounds
        then (ptype_cmd, record c { data_hdr = hdr; data_ptr = payload })
        else parse_error (record c { data_hdr = hdr }))
    else if pid == pid_stop_broadcasts_all_ports
        || pid == pid_stop_did_broadcast
        || pid == pid_stop_broadcasts_current_port
    then (ptype_cmd, c)
    else if pid == pid_ack || pid == pid_nack
    then (ptype_ack, c)
    else parse_error c

unfoldable pub process_pid : Memory → Comm → Protocol × Comm
process_pid m c = switch_pid (load_hdr m c.pkt.body_ptr) c

-- What the decoder made of the packet, in the instance after the reset.
unfoldable pub handle_decoded : Comm → Decoded → Protocol × Memory × Comm
handle_decoded c d =
    let c1 : Comm = record c { pkt = d.packet } in
    let r = if d.fine then process_pid d.memory c1 else parse_error c1 in (r.0, d.memory, r.1)

-- The packet is decoded in the alternate buffer if there is one, and else on top of the receive buffer.
unfoldable pub process_inertial_sense_pkt : Memory → Comm → Protocol × Memory × Comm
process_inertial_sense_pkt m c =
    let pkt_size = c.buf.scan - c.buf.head in
    let alt = is_set c.alt_decode_buf in
    let m1 = if alt then write_bytes m c.alt_decode_buf (bytes m c.buf.head pkt_size) else m in
    let head = if alt then c.alt_decode_buf else c.buf.head in
    let pkt : Packet = record (c.pkt) {
      body_ptr = if alt then c.alt_decode_buf else c.buf.start;
    } in
    let c1 = reset_parser (record c { pkt_ptr = c.buf.head }) in
    handle_decoded c1 (is_decode_binary_packet m1 pkt head pkt_size)

-- The pointers and the header of a message that is valid as a whole.
abbrev pub found : Comm → Comm
found c = record c {
  data_ptr = c.buf.head;
  data_hdr = record { id = 0; size = (c.buf.scan - c.buf.head) % 2 ^ 32; offset = 0 };
  pkt_ptr = c.buf.head;
}

-- `dataCheckSum ^= (int)*ptr`, over `n` bytes
unfoldable pub xor_bytes : Memory → (p n check : ℕ) → ℕ
xor_bytes m p zero check = check
xor_bytes m p (suc n) check = xor_bytes m (p + 1) n (bit_xor check (m p))

-- `strtol` reads the two characters before the line's end, over whose first byte a NUL is put meanwhile.
unfoldable pub process_ascii_pkt : Memory → Comm → Protocol × Comm
process_ascii_pkt m c =
    let head = c.buf.head in
    let scan = c.buf.scan in
    let actual = strtol_16 (m (scan - 4)) (m (scan - 3)) in
    let check = xor_bytes m (head + 1) (scan - 5 - (head + 1)) 0 in
    if ltb 7 (scan - head) && eqb_ℤ actual (pos check)
    then (ptype_nmea, reset_parser (found c))
    else parse_error (reset_parser c)

-- `calcChecksum1 += *ptr; calcChecksum2 += calcChecksum1;` over `n` bytes
unfoldable pub ublox_sums : Memory → (p n a b : ℕ) → ℕ × ℕ
ublox_sums m p zero a b = (a, b)
ublox_sums m p (suc n) a b = let a' = (a + m p) % 256 in ublox_sums m (p + 1) n a' ((b + a') % 256)

-- `buf.size - 6`, of an unsigned size
abbrev pub size_less_six : Comm → ℕ
size_less_six c = (c.buf.size + 2 ^ 32 - 6) % 2 ^ 32

abbrev pub next_state : Comm → Comm
next_state c = record c { parse_state = c.parse_state +ℤ pos 1 }

-- `-(n)`
abbrev pub neg : ℕ → ℤ
neg zero = pos 0
neg (suc n) = negsuc n

-- The two checksum bytes are the last ones.
unfoldable pub ublox_end : Memory → Comm → Protocol × Comm
ublox_end m c =
    let scan = c.buf.scan in
    let sums = ublox_sums m (c.buf.head + 2) (scan - 2 - (c.buf.head + 2)) 0 0 in
    if m (scan - 2) == sums.0 && m (scan - 1) == sums.1
    then (ptype_ublox, reset_parser (found c))
    else parse_error (reset_parser c)

unfoldable pub process_ublox_byte : Memory → Comm → Protocol × Comm
process_ublox_byte m c =
    let scan = c.buf.scan in
    let state = c.parse_state in
    let len = m (scan - 2) + 2 ^ 8 * m (scan - 1) in
    let c' = next_state c in
    if eqb_ℤ state (pos 1) && not (m (scan - 1) == ublox_start_byte2)
    then parse_error (reset_parser c)
    else if eqb_ℤ state (pos 0)
        || eqb_ℤ state (pos 1)
        || eqb_ℤ state (pos 2)
        || eqb_ℤ state (pos 3)
        || eqb_ℤ state (pos 4)
    then (ptype_none, c')
    else if eqb_ℤ state (pos 5)
    then (if ltb (size_less_six c) len
        then parse_error (reset_parser c)
        else (ptype_none, record c { parse_state = neg (len + 2) }))
    else if eqb_ℤ c'.parse_state (pos 0)
    then ublox_end m c'
    else (ptype_none, c')

-- The last three bytes are the checksum.
unfoldable pub rtcm3_end : Memory → Comm → Protocol × Comm
rtcm3_end m c =
    let len_without_crc = c.buf.scan - c.buf.head - 3 in
    let actual = calculate_24_bit_crcq m c.buf.head len_without_crc in
    let correct = get_bits_as_uint32 m (c.buf.head + len_without_crc) 0 24 in
    if actual == correct
    then (ptype_rtcm3, reset_parser (found c))
    else parse_error (reset_parser c)

unfoldable pub process_rtcm3_byte : Memory → Comm → Protocol × Comm
process_rtcm3_byte m c =
    let state = c.parse_state in
    let msg_length = get_bits_as_uint32 m c.buf.head 14 10 in
    let c' = next_state c in
    if eqb_ℤ state (pos 0) || eqb_ℤ state (pos 1)
    then (ptype_none, c')
    else if eqb_ℤ state (pos 2)
    then (if ltb 1023 msg_length || ltb (size_less_six c) msg_length
        then parse_error (reset_parser c)
        else (ptype_none, record c { parse_state = neg (msg_length + 3) }))
    else if eqb_ℤ c'.parse_state (pos 0)
    then rtcm3_end m c'
    else (ptype_none, c')

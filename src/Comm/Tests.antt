-- ===== src/Comm/Tests.antt =====
-- The parser at concrete instances.
use rover_workspace.Prelude.{
  ℕ, ◌+◌, ◌<◌, ◌≡◌, ◌==◌, if◌then◌else◌, refl, true, false, some, map, List, [], ◌∷◌, inl, inr,
  arith,
}
use rover_workspace.Prelude.Memory.{Memory, write_bytes, write_bytes-Holds}
use rover_workspace.Packet.{pid_set_data}
use rover_workspace.Packet.Encode.{
  encode_byte_add_to_buffer, encode_checked, put_checked, encode_body, encode_header, encode_footer,
  encode_packet, is_encode_binary_packet,
}
use rover_workspace.Packet.RoundTrip.Body.{IsBytes}
use rover_workspace.Comm.{Comm, ptype_none, ptype_data, ptype_nmea, minus_one}
use rover_workspace.Comm.Parse.{is_comm_init, is_comm_free, is_comm_parse_timeout}
use rover_workspace.Comm.Send.{Sent, send, send_data, validate_baud_rate, is_listed}
use rover_workspace.Comm.Checksums.{get_bits_as_uint32, get_bits_loop, strtol_16}
use rover_workspace.Prelude.Int.{pos}
use rover_workspace.Comm.Pointers.{InOrder}
use rover_workspace.Comm.Room.{flush_behind}
use rover_workspace.Comm.Run.{receive, init-receive-InOrder}
use rover_workspace.Comm.Packets.{reset_parser, found, process_ascii_pkt}
use rover_workspace.Nmea.Sentence.{ssnprintf, nmea_sprint_footer}
use rover_workspace.Nmea.Sentence.Accepted.{process_ascii_pkt-footer}
use rover_workspace.Comm.Receive.{Delivered, parse-send_data}

abbrev zeros : Memory
zeros _ = 0

get_bits_test : get_bits_as_uint32 (λ p. p) 0xD3 14 10 ≡ 0x0D5
unfolding get_bits_as_uint32 get_bits_loop
get_bits_test = refl

strtol_test : strtol_16 0x35 0x42 ≡ pos 0x5B
unfolding strtol_16
strtol_test = refl

baud_rate_test :
    map validate_baud_rate (115200 ∷ 115201 ∷ 1000000 ∷ 10000001 ∷ [])
    ≡ true ∷ false ∷ true ∷ false ∷ []
unfolding validate_baud_rate is_listed
baud_rate_test = refl

-- An instance with a buffer of 200 bytes at 1000, of which those from 1010 on wait.
abbrev instance_at : (has_start_byte head scan tail : ℕ) → Comm
instance_at has_start_byte head scan tail = record {
  buf = record { start = 1000; end_ptr = 1200; size = 200; head = head; tail = tail; scan = scan };
  config = record {
    enable_isb = true;
    enable_ascii = true;
    enable_ublox = true;
    enable_rtcm3 = true;
  };
  tx_pkt_count = 0;
  rx_error_count = 0;
  has_start_byte = has_start_byte;
  parse_state = minus_one;
  parse_time_ms = 0;
  data_hdr = record { id = 0; size = 0; offset = 0 };
  data_ptr = 0;
  pkt_ptr = 0;
  alt_decode_buf = 0;
  ack_needed = 0;
  pkt = record {
    hdr = record { start_byte = 0; pid = 0; counter = 0; flags = 0 };
    body_ptr = 0;
    body_size = 0;
  };
}

abbrev waiting : Comm
waiting = instance_at 0 1010 1010 1060

waiting-InOrder : InOrder waiting
waiting-InOrder = record {
  ends = refl;
  head_low = omega arith;
  head_scan = omega arith;
  scan_tail = omega arith;
  tail_end = omega arith;
  begun = inl refl;
}

abbrev payload : List ℕ
payload = 0x24 ∷ 0x01 ∷ 0xFD ∷ []

payload-IsBytes : IsBytes payload
payload-IsBytes = (omega arith, (omega arith, (omega arith, tt)))

abbrev sent : Sent
sent = send true waiting pid_set_data (12 ∷ 0 ∷ 0 ∷ 0 ∷ 3 ∷ 0 ∷ 0 ∷ 0 ∷ 8 ∷ 0 ∷ 0 ∷ 0 ∷ payload)

sent_is : send_data true waiting 12 8 payload pid_set_data ≡ some sent
unfolding send_data
sent_is = refl

-- Two bytes of the three are escaped.
sent_size : sent.encoded.result ≡ some 25
unfolding send is_encode_binary_packet encode_packet encode_header encode_body encode_footer
    encode_checked put_checked encode_byte_add_to_buffer
sent_size = refl

abbrev written : List ℕ
written = sent.encoded.written

parse-send_data_example :
    let r = is_comm_parse_timeout (write_bytes zeros 1010 written) waiting 5 in
    (r.ptype ≡ ptype_data)
    × Delivered pid_set_data 12 8 payload r.memory r.comm
    × (r.comm.buf.scan ≡ 1010 + 25)
parse-send_data_example =
    parse-send_data waiting 12 8 payload pid_set_data 25 sent (inr refl) (omega arith) (omega arith)
      (omega arith) payload-IsBytes sent_is sent_size (write_bytes zeros 1010 written) waiting 5
      waiting-InOrder refl refl refl (omega arith) (write_bytes-Holds zeros 1010 written)

-- Full, in the middle of a packet that began in the first third
abbrev full : Comm
full = instance_at 0xFF 1010 1200 1200

full-InOrder : InOrder full
full-InOrder = record {
  ends = refl;
  head_low = omega arith;
  head_scan = omega arith;
  scan_tail = omega arith;
  tail_end = omega arith;
  begun = inr (omega arith);
}

flush_behind_example :
    let f = is_comm_free zeros full in
    let r = is_comm_parse_timeout f.memory f.comm 500 in
    (r.ptype ≡ ptype_none) × (r.comm.buf.scan ≡ r.comm.buf.tail + 1)
flush_behind_example =
    flush_behind zeros full 500 full-InOrder (refl, omega arith) (λ e. absurd (omega arith))
      (omega arith)

init-receive-InOrder_example :
    let (m', c') = is_comm_init zeros waiting 3000 16 in
    InOrder (receive m' c' ((0xFF, 1) ∷ (0x04, 2) ∷ (0xFE, 200) ∷ [])).1
init-receive-InOrder_example =
    init-receive-InOrder zeros waiting 3000 16 ((0xFF, 1) ∷ (0x04, 2) ∷ (0xFE, 200) ∷ [])
      (omega arith)

-- "$INFO" at 1010
abbrev sentence : Memory
sentence q =
    if q == 1010
    then b'$'
    else if q == 1011
    then b'I'
    else if q == 1012
    then b'N'
    else if q == 1013
    then b'F'
    else if q == 1014
    then b'O'
    else 0

sentence-lt : (q : ℕ) → sentence q < 256
sentence-lt q = ground arith

process_ascii_pkt-footer_info :
    process_ascii_pkt (nmea_sprint_footer sentence 1010 20 5).1 (instance_at b'$' 1010 1020 1060)
    ≡ (ptype_nmea, reset_parser (found (instance_at b'$' 1010 1020 1060)))
unfolding nmea_sprint_footer ssnprintf
process_ascii_pkt-footer_info =
    process_ascii_pkt-footer sentence 1010 20 5 (instance_at b'$' 1010 1020 1060) sentence-lt refl
      (omega arith) (omega arith) refl refl

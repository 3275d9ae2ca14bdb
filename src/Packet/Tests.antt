-- ===== src/Packet/Tests.antt =====
-- The packet code at concrete packets.
use rover_workspace.Prelude.{
  ℕ, ◌+◌, ◌≤◌, ◌≡◌, refl, true, none, some, List, [], ◌∷◌, ◌++◌, arith, length, leb, if◌then◌else◌,
}
use rover_workspace.Prelude.Memory.{Memory, write_bytes, write_bytes-Holds}
use rover_workspace.Packet.{
  PacketHdr, Packet, psc_start_byte, psc_reserved_key, pkt_buf_size, pid_data,
}
use rover_workspace.Prelude.Word.{not8}
use rover_workspace.Packet.Encode.{
  encode_byte_add_to_buffer, encode_checked, put_checked, encode_body, encode_header, encode_footer,
  encode_packet, is_encode_binary_packet, wire_flags,
}
use rover_workspace.Packet.Encode.Frame.{escape, escape_all, header_bytes, footer_bytes, frame}
use rover_workspace.Packet.Encode.Room.{encode-frame, encode-pkt_buf_size}
use rover_workspace.Packet.Decode.{is_decode_binary_packet}
use rover_workspace.Packet.RoundTrip.{Received, decode-encode}
use rover_workspace.Packet.RoundTrip.Body.{IsBytes}
use rover_workspace.Packet.Overrun.{encode_within, encode_overrun}

abbrev header : PacketHdr
header = record { start_byte = psc_start_byte; pid = pid_data; counter = 0xFF; flags = 0 }

-- Special bytes among others
abbrev payload : List ℕ
payload = 0x24 ∷ 0x01 ∷ 0xFD ∷ 0x0A ∷ []

abbrev zeros : Memory
zeros _ = 0

-- The body is to be decoded on top of the packet.
abbrev packet_at : ℕ → Packet
packet_at p = record { hdr = header; body_ptr = p; body_size = 0 }

payload-IsBytes : IsBytes payload
payload-IsBytes = (omega arith, (omega arith, (omega arith, (omega arith, tt))))

encoded_size : (is_encode_binary_packet true pkt_buf_size header 0 payload).result ≡ some 16
unfolding is_encode_binary_packet encode_packet encode_header encode_body encode_footer
    encode_checked put_checked encode_byte_add_to_buffer
encoded_size = refl

encoded_bytes :
    (is_encode_binary_packet true pkt_buf_size header 0 (0x24 ∷ [])).written
    ≡ 0xFF ∷ 0x04 ∷ 0xFD ∷ 0x00 ∷ 0x11 ∷ 0xFD ∷ 0xDB ∷ 0xBB ∷ 0x55 ∷ 0x8A ∷ 0xFE ∷ []
unfolding is_encode_binary_packet encode_packet encode_header encode_body encode_footer
    encode_checked put_checked encode_byte_add_to_buffer
encoded_bytes = refl

abbrev written : List ℕ
written = (is_encode_binary_packet true pkt_buf_size header 0 payload).written

decode-encode_example :
    Received header
      (wire_flags header 0)
      payload
      (packet_at 100)
      (is_decode_binary_packet (write_bytes zeros 100 written) (packet_at 100) 100 16)
decode-encode_example =
    decode-encode pkt_buf_size header 0 payload 16 (omega arith) (omega arith) (omega arith)
      (omega arith) payload-IsBytes encoded_size (write_bytes zeros 100 written) (packet_at 100) 100
      (omega arith) (write_bytes-Holds zeros 100 written)

abbrev sent : List ℕ
sent = frame true header 0x11 payload

encode-frame_example :
    let packet = frame true header (wire_flags header 0) payload in
    let out = is_encode_binary_packet true 15 header 0 payload in
    (out.result ≡ (if leb (length packet) 15 then some (length packet) else none))
    × (length packet ≤ 15 → out.written ≡ packet)
encode-frame_example = encode-frame true 15 header 0 payload (omega arith)

encode-pkt_buf_size_example :
    let packet = frame true header (wire_flags header 0) payload in
    is_encode_binary_packet true pkt_buf_size header 0 payload
    ≡ record { result = some (length packet); written = packet }
encode-pkt_buf_size_example =
    encode-pkt_buf_size true pkt_buf_size header 0 payload (omega arith) (omega arith)

abbrev footer : List ℕ
footer = footer_bytes true 0xFD0024

encode_within_example : length (is_encode_binary_packet true 5 header 0 payload).written ≤ 5 + 1
encode_within_example = encode_within true 5 header 0 payload

-- 9 bytes of room: the header, with an escaped counter, the escaped 0x24, 0x01 and one byte more.
encode_overrun_example :
    let front =
      header_bytes true header (wire_flags header 0) ++ escape_all true (0x24 ∷ 0x01 ∷ []) in
    let out = is_encode_binary_packet true 9 header 0 payload in
    (out.result ≡ none)
    × (out.written ≡ front ++ psc_reserved_key ∷ not8 0xFD ∷ [])
    × (length out.written ≡ 10)
unfolding escape escape_all
encode_overrun_example =
    encode_overrun 9 header 0 (0x24 ∷ 0x01 ∷ []) (0x0A ∷ []) 0xFD (omega arith) refl refl

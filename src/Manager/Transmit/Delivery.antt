-- ===== src/Manager/Transmit/Delivery.antt =====
-- Data from `comManagerSendDataInstance` and its two variants, on all branches and up to the parser.
use rover_workspace.Prelude.{
  ℕ, ◌+◌, ◌-◌, ◌^◌, ◌≤◌, ◌<◌, min, ◌≡◌, refl, sym, ap, ◌∙◌, inl, inr, true, false, some, List, [],
  ◌∷◌, ◌++◌, arith, length, take_all, lt→ltb, le→not-ltb, le→leb,
}
use rover_workspace.Prelude.Memory.{Memory, Holds, bytes, length-bytes}
use rover_workspace.Prelude.Bits.{bit_or-lt}
use rover_workspace.Packet.{PacketHdr, psc_start_byte, pkt_buf_size}
use rover_workspace.Packet.Encode.{wire_flags}
use rover_workspace.Packet.Encode.Frame.{frame, length-frame}
use rover_workspace.Packet.Encode.Room.{encode-frame}
use rover_workspace.Comm.{Comm, DataHdr, ptype_data}
use rover_workspace.Comm.Send.{data_hdr_bytes}
use rover_workspace.Comm.Parse.{is_comm_parse_timeout}
use rover_workspace.Comm.Pointers.{InOrder}
use rover_workspace.Comm.Receive.{Delivered, IsData, parse-encode}
use rover_workspace.Packet.RoundTrip.Body.{IsBytes}
use rover_workspace.Manager.{Manager, Reply, max_p_data_body_size}
use rover_workspace.Manager.Transmit.{
  send_data_of, com_manager_send, send_data_packet, send_with_data_hdr, send_bytes, port_number,
}
use rover_workspace.Manager.Transmit.Frames.{
  wire_packet, counted, counted_hdr, port_flags, send_packet-frame,
}

-- The packet header of the data.
abbrev pub data_pkt_hdr : (pid pkt_flags : ℕ) → PacketHdr
data_pkt_hdr pid pkt_flags = record {
  start_byte = psc_start_byte;
  pid = pid;
  counter = 0;
  flags = pkt_flags;
}

abbrev pub data_body : Manager → (data_id data_ptr data_size data_offset : ℕ) → List ℕ
data_body cm data_id data_ptr data_size data_offset =
    data_hdr_bytes data_id data_size data_offset ++ bytes cm.memory data_ptr data_size

pub small_data :
    (cm : Manager) (p_handle : ℕ) (hdr : PacketHdr) (d : DataHdr) (payload : List ℕ)
    → cm.send_packet_callback ≡ true
    → length payload ≡ d.size
    → d.size ≤ max_p_data_body_size
    → send_with_data_hdr cm p_handle hdr (some d) payload ≡ record {
      ok = true;
      manager =
          send_bytes
            (counted cm p_handle)
            p_handle
            (wire_packet cm p_handle hdr (data_hdr_bytes d.id d.size d.offset ++ payload) 0);
    }
small_data cm p_handle hdr d payload callback len small =
    let whole : min d.size max_p_data_body_size ≡ d.size = omega arith in
    let body = data_hdr_bytes d.id d.size d.offset ++ payload in
    rw (whole, le→not-ltb d.size d.size (omega arith), take_all d.size payload (omega arith))
      (rw (send_packet-frame cm p_handle hdr body 0 (omega arith) callback) refl)

large_data :
    (cm : Manager) (p_handle : ℕ) (hdr : PacketHdr) (d : DataHdr) (payload : List ℕ)
    → max_p_data_body_size < d.size
    → send_with_data_hdr cm p_handle hdr (some d) payload ≡ record { ok = false; manager = cm }
large_data cm p_handle hdr d payload large =
    let part : min d.size max_p_data_body_size ≡ max_p_data_body_size = omega arith in
    rw (part, lt→ltb max_p_data_body_size d.size large)

dispatch_data :
    (cm : Manager) (p_handle pid pkt_flags : ℕ) (d : DataHdr) (payload : List ℕ)
    → IsData pid
    → cm.send_packet_callback ≡ true
    → com_manager_send cm p_handle pid (some d) payload pkt_flags
      ≡ send_with_data_hdr cm p_handle (data_pkt_hdr pid pkt_flags) (some d) payload
unfolding com_manager_send send_data_packet
dispatch_data cm p_handle pid pkt_flags d payload (inl e) callback = rw (callback, e)
dispatch_data cm p_handle pid pkt_flags d payload (inr e) callback = rw (callback, e)

-- With a send callback, sending data with PID_DATA or PID_SET_DATA returns 0, hands the callback exactly one
-- packet, the frame of the data header and the data with the counter and the flags of the
-- port, and counts it, when there are at most MAX_P_DATA_BODY_SIZE bytes; more bytes return -1 and
-- leave the manager as it is.
pub send_data-frame :
    (cm : Manager) (p_handle pid pkt_flags data_id data_ptr data_size data_offset : ℕ)
    → IsData pid
    → cm.send_packet_callback ≡ true
    → let r = send_data_of pid pkt_flags cm p_handle data_id data_ptr data_size data_offset in
      let body = data_body cm data_id data_ptr data_size data_offset in
      let packet = wire_packet cm p_handle (data_pkt_hdr pid pkt_flags) body 0 in
      (data_size ≤ max_p_data_body_size
        → r ≡ record { ok = true; manager = send_bytes (counted cm p_handle) p_handle packet })
      × (max_p_data_body_size < data_size → r ≡ record { ok = false; manager = cm })
send_data-frame cm p_handle pid pkt_flags data_id data_ptr data_size data_offset is_data callback =
    let d : DataHdr = record { id = data_id; size = data_size; offset = data_offset } in
    let payload = bytes cm.memory data_ptr data_size in
    let hdr = data_pkt_hdr pid pkt_flags in
    let there = dispatch_data cm p_handle pid pkt_flags d payload is_data callback in
    (
      λ small.
          there
          ∙ small_data cm p_handle hdr d payload callback
              (length-bytes cm.memory data_ptr data_size) small,
      λ large. there ∙ large_data cm p_handle hdr d payload large,
    )

-- The frame of the data, where it waits at the scan pointer of a parser.
wire_packet-Delivered :
    (cm : Manager) (p_handle pid pkt_flags id offset : ℕ) (payload : List ℕ)
    → cm.encoding ≡ true
    → IsData pid
    → pkt_flags < 256
    → port_flags cm p_handle 0 < 256
    → 0 < id
    → id < 2 ^ 32
    → offset < 2 ^ 32
    → length payload ≤ max_p_data_body_size
    → IsBytes payload
    → let body = data_hdr_bytes id (length payload) offset ++ payload in
      let packet = wire_packet cm p_handle (data_pkt_hdr pid pkt_flags) body 0 in
      (m : Memory) (c : Comm) (time_ms : ℕ)
      → InOrder c
      → c.has_start_byte ≡ 0
      → c.config.enable_isb ≡ true
      → c.alt_decode_buf ≡ 0
      → c.buf.scan + length packet ≤ c.buf.tail
      → Holds m c.buf.scan packet
      → let r = is_comm_parse_timeout m c time_ms in
        (r.ptype ≡ ptype_data)
        × Delivered pid id offset payload r.memory r.comm
        × (r.comm.buf.scan ≡ c.buf.scan + length packet)
wire_packet-Delivered cm p_handle pid pkt_flags id offset payload on is_data fl port_fl some_id s1
      s3 small bytes m c time_ms v idle enabled in_place room held =
    let body = data_hdr_bytes id (length payload) offset ++ payload in
    let hdr = counted_hdr cm p_handle (data_pkt_hdr pid pkt_flags) in
    let flags = port_flags cm p_handle 0 in
    let packet = frame true hdr (wire_flags hdr flags) body in
    let fits : length packet ≤ pkt_buf_size - 1 =
      omega (arith, length-frame true hdr (wire_flags hdr flags) body) in
    let (result, written) = encode-frame true (pkt_buf_size - 1) hdr flags body (omega arith) in
    let got = rw (le→leb (length packet) (pkt_buf_size - 1) fits) at result in
    let room' : c.buf.scan + length packet ≤ c.buf.tail = rw on at room in
    let held' : Holds m c.buf.scan packet = rw on at held in
    rw on (
      parse-encode (pkt_buf_size - 1) hdr flags id offset payload (length packet) (omega arith) fl
        port_fl is_data some_id s1 s3 (omega arith) bytes got m c time_ms v idle enabled in_place
        room' (rw (written fits) held'))

-- With the packet encoding enabled and a send callback, for a data id that is not 0 and numbers in
-- the range of their types, at most MAX_P_DATA_BODY_SIZE data sent with PID_DATA or PID_SET_DATA
-- reach the other side: the callback is given one packet, and where its bytes
-- stand at the scan pointer of an instance that waits for a message, accepts binary packets and
-- decodes in place, `is_comm_parse_timeout` returns _PTYPE_INERTIAL_SENSE_DATA at once, with the data header and the
-- data that were sent, exactly the packet consumed, and an acknowledgement due for PID_SET_DATA only.
pub send_data-Delivered :
    (cm : Manager) (p_handle pid pkt_flags data_id data_ptr data_size data_offset : ℕ)
    → cm.encoding ≡ true
    → cm.send_packet_callback ≡ true
    → IsData pid
    → pkt_flags < 256
    → port_number (λ q. q.status.flags) cm p_handle < 256
    → 0 < data_id
    → data_id < 2 ^ 32
    → data_offset < 2 ^ 32
    → data_size ≤ max_p_data_body_size
    → IsBytes (bytes cm.memory data_ptr data_size)
    → let reply = send_data_of pid pkt_flags cm p_handle data_id data_ptr data_size data_offset in
      (packet : List ℕ) × (reply.manager.sent
        ≡ cm.sent ++ record { p_handle = p_handle; packet = packet } ∷ [])
      × ((m : Memory) (c : Comm) (time_ms : ℕ)
          → InOrder c
          → c.has_start_byte ≡ 0
          → c.config.enable_isb ≡ true
          → c.alt_decode_buf ≡ 0
          → c.buf.scan + length packet ≤ c.buf.tail
          → Holds m c.buf.scan packet
          → let r = is_comm_parse_timeout m c time_ms in
            (r.ptype ≡ ptype_data)
            × Delivered pid data_id data_offset (bytes cm.memory data_ptr data_size) r.memory r.comm
            × (r.comm.buf.scan ≡ c.buf.scan + length packet))
send_data-Delivered cm p_handle pid pkt_flags data_id data_ptr data_size data_offset on callback
      is_data fl port_fl some_id s1 s3 small all =
    let payload = bytes cm.memory data_ptr data_size in
    let len = length-bytes cm.memory data_ptr data_size in
    let body = data_hdr_bytes data_id (length payload) data_offset ++ payload in
    let packet = wire_packet cm p_handle (data_pkt_hdr pid pkt_flags) body 0 in
    let is =
      (send_data-frame cm p_handle pid pkt_flags data_id data_ptr data_size data_offset is_data
          callback).0
        small in
    (
      packet,
      ap (λ (r : Reply). r.manager.sent) is
          ∙ ap
              (λ n.
                cm.sent
                ++ record {
                  p_handle = p_handle;
                  packet =
                      wire_packet cm p_handle (data_pkt_hdr pid pkt_flags)
                        (data_hdr_bytes data_id n data_offset ++ payload) 0;
                }
                  ∷ [])
              (sym len),
      wire_packet-Delivered cm p_handle pid pkt_flags data_id data_offset payload on is_data fl
          (bit_or-lt 8 0 _ (omega arith) port_fl) some_id s1 s3 (omega arith) all,
    )

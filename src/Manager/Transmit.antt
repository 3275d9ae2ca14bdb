-- ===== src/Manager/Transmit.antt =====
-- com_manager.c: the functions that put a packet together and send it. The bytes at a body or data
-- pointer are a list, of as many bytes as the packet takes from there.
pub mod Frames
pub mod Acks
pub mod Delivery
use rover_workspace.Prelude.{
  ℕ, ◌-◌, ◌/◌, ◌%◌, ◌^◌, min, bit_or, Bool, true, false, Option, none, some, List, [], ◌∷◌, ◌++◌,
  map, length, take, get_or, modify, ltb, ◌==◌, ◌||◌, not, if◌then◌else◌,
}
use rover_workspace.Prelude.Memory.{Memory, bytes}
use rover_workspace.Packet.{
  PacketHdr, psc_start_byte, pid_data, pid_set_data, pid_get_data, pid_stop_did_broadcast,
  pkt_buf_size, cm_pkt_flags_raw_data_no_swap,
}
use rover_workspace.Packet.Encode.{is_encode_binary_packet}
use rover_workspace.Comm.{DataHdr, inc32}
use rover_workspace.Comm.Send.{word_bytes, data_hdr_bytes}
use rover_workspace.Manager.{Manager, Port, Sending, Reply, DataGet, max_p_data_body_size, did_rmc}

-- A number of `cmInstance->ports[pHandle]`. The code does not check `pHandle`, and no port is 0 here.
abbrev pub port_number : (Port → ℕ) → Manager → (p_handle : ℕ) → ℕ
port_number f cm p_handle = get_or (map f cm.ports) p_handle 0

-- `port->comm.txPktCount++`
abbrev pub count_tx : Port → Port
count_tx port = record port {
  comm = record (port.comm) { tx_pkt_count = inc32 port.comm.tx_pkt_count };
}

-- The bytes of a packet (`none` is -1), the header with the counter in it, and the manager.
pub record Framed : Type 0 where
  pub packet : Option (List ℕ)
  pub hdr : PacketHdr
  pub manager : Manager

-- `pkt->size` bytes of `pkt->buf`, unless they are fewer than 8.
abbrev pub packet_of : Option ℕ → List ℕ → Option (List ℕ)
packet_of none written = none
packet_of (some n) written = if ltb n 8 then none else some (take n written)

unfoldable pub encode_binary_packet :
    Manager → (p_handle : ℕ) → PacketHdr → (body : List ℕ) → (additional_pkt_flags : ℕ) → Framed
encode_binary_packet cm p_handle d_pkt body additional_pkt_flags =
    let hdr : PacketHdr = record d_pkt {
      counter = port_number (λ q. q.comm.tx_pkt_count) cm p_handle % 2 ^ 8;
    } in
    let flags = bit_or additional_pkt_flags (port_number (λ q. q.status.flags) cm p_handle) in
    let e = is_encode_binary_packet cm.encoding (pkt_buf_size - 1) hdr flags body in
    record {
      packet = packet_of e.result e.written;
      hdr = hdr;
      manager = record cm { ports = modify cm.ports p_handle count_tx };
    }

-- `sendPacketCallback(cmInstance, pHandle, buffer.buf, buffer.size)`
abbrev pub send_bytes : Manager → ℕ → List ℕ → Manager
send_bytes cm p_handle packet = record cm {
  sent = cm.sent ++ record { p_handle = p_handle; packet = packet } ∷ [];
}

-- The header that the caller's packet is left with, with what is returned and the manager.
pub record PacketSent : Type 0 where
  pub ok : Bool
  pub hdr : PacketHdr
  pub manager : Manager

abbrev pub deliver : Framed → (p_handle : ℕ) → PacketSent
deliver f p_handle = elim (f.packet) [
  | none ↦ record { ok = false; hdr = f.hdr; manager = f.manager }
  | some packet ↦ record {
    ok = true;
    hdr = f.hdr;
    manager =
        if f.manager.send_packet_callback then send_bytes f.manager p_handle packet else f.manager;
  }
]

unfoldable pub send_packet :
    Manager → (p_handle : ℕ) → PacketHdr → (body : List ℕ) → (additional_pkt_flags : ℕ) → PacketSent
send_packet cm p_handle d_pkt body additional_pkt_flags =
    deliver (encode_binary_packet cm p_handle d_pkt body additional_pkt_flags) p_handle

-- pkt_info_t: no `body_hdr` is a size of 0 there, and `tx_data` are the bytes at `txData.ptr`.
pub record PktInfo : Type 0 where
  pub hdr : PacketHdr
  pub body_hdr : Option DataHdr
  pub tx_data : List ℕ

abbrev pub reply_of : PacketSent → Reply
reply_of s = record { ok = s.ok; manager = s.manager }

-- The case of PID_DATA and PID_SET_DATA: data larger than one packet are refused.
abbrev pub send_with_data_hdr : Manager → ℕ → PacketHdr → Option DataHdr → List ℕ → Reply
send_with_data_hdr cm p_handle hdr none tx_data = record { ok = false; manager = cm }
send_with_data_hdr cm p_handle hdr (some d) tx_data =
    let size = min d.size max_p_data_body_size in
    if ltb size d.size
    then record { ok = false; manager = cm }
    else reply_of
        (send_packet cm p_handle hdr (data_hdr_bytes d.id size d.offset ++ take size tx_data) 0)

unfoldable pub send_data_packet : Manager → (p_handle : ℕ) → PktInfo → Reply
send_data_packet cm p_handle msg =
    if not cm.send_packet_callback
    then record { ok = false; manager = cm }
    else if msg.hdr.pid == pid_data || msg.hdr.pid == pid_set_data
    then send_with_data_hdr cm p_handle msg.hdr msg.body_hdr msg.tx_data
    else reply_of (send_packet cm p_handle msg.hdr msg.tx_data 0)

unfoldable pub com_manager_send :
    Manager
    → (p_handle pkt_info : ℕ) → (body_hdr : Option DataHdr) → (tx_data : List ℕ) → (pkt_flags : ℕ)
    → Reply
com_manager_send cm p_handle pkt_info body_hdr tx_data pkt_flags =
    send_data_packet cm p_handle (record {
      hdr = record { start_byte = psc_start_byte; pid = pkt_info; counter = 0; flags = pkt_flags };
      body_hdr = body_hdr;
      tx_data = tx_data;
    })

unfoldable pub com_manager_get_data : Manager → (p_handle : ℕ) → DataGet → Manager
com_manager_get_data cm p_handle request =
    (com_manager_send cm p_handle pid_get_data none
      (data_hdr_bytes request.id request.size request.offset
        ++ word_bytes request.bc_period_multiple)
      0).manager

-- The three functions that send `dataSize` bytes at `dataPtr`.
abbrev pub send_data_of :
    (pid pkt_flags : ℕ) → Manager → (p_handle data_id data_ptr data_size data_offset : ℕ) → Reply
send_data_of pid pkt_flags cm p_handle data_id data_ptr data_size data_offset =
    com_manager_send cm p_handle pid
      (some (record { id = data_id; size = data_size; offset = data_offset }))
      (bytes cm.memory data_ptr data_size) pkt_flags

unfoldable pub com_manager_send_data :
    Manager → (p_handle data_id data_ptr data_size data_offset : ℕ) → Reply
com_manager_send_data = send_data_of pid_set_data 0

unfoldable pub com_manager_send_data_no_ack :
    Manager → (p_handle data_id data_ptr data_size data_offset : ℕ) → Reply
com_manager_send_data_no_ack = send_data_of pid_data 0

unfoldable pub com_manager_send_raw_data :
    Manager → (p_handle data_id data_ptr data_size data_offset : ℕ) → Reply
com_manager_send_raw_data = send_data_of pid_set_data cm_pkt_flags_raw_data_no_swap

-- The RMC bits and options, an `rmc_t`, are sent as the data set DID_RMC.
unfoldable pub com_manager_get_data_rmc : Manager → (p_handle rmc_bits rmc_options : ℕ) → Manager
com_manager_get_data_rmc cm p_handle rmc_bits rmc_options =
    let rmc = word_bytes rmc_bits ++ (word_bytes (rmc_bits / 2 ^ 32) ++ word_bytes rmc_options) in
    let d : DataHdr = record { id = did_rmc; size = 12; offset = 0 } in
    (com_manager_send cm p_handle pid_set_data (some d) rmc 0).manager

-- `written` is what the callback returns.
unfoldable pub com_manager_send_raw :
    Manager → (p_handle data_ptr data_size : ℕ) → (written : ℕ) → Reply
com_manager_send_raw cm p_handle data_ptr data_size written =
    if not cm.send_packet_callback then record { ok = false; manager = cm } else record {
      ok = not (written == 0);
      manager = send_bytes cm p_handle (bytes cm.memory data_ptr data_size);
    }

unfoldable pub com_manager_disable_data : Manager → (p_handle data_id : ℕ) → Reply
com_manager_disable_data cm p_handle data_id =
    com_manager_send cm p_handle pid_stop_did_broadcast none (word_bytes data_id) 0

-- `hdr` and `bytes` are the packet's header and the bytes at its body pointer.
unfoldable pub send_ack :
    Manager → (p_handle : ℕ) → (hdr : PacketHdr) → (data_hdr : DataHdr) → (pid_ack : ℕ) → Manager
send_ack cm p_handle hdr data_hdr pid_ack =
    let ack = word_bytes hdr.pid ++ word_bytes hdr.counter in
    let body =
      if hdr.pid == pid_set_data
      then ack ++ data_hdr_bytes data_hdr.id data_hdr.size data_hdr.offset
      else ack in
    (com_manager_send cm p_handle pid_ack none body 0).manager

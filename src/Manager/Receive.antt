-- ===== src/Manager/Receive.antt =====
-- com_manager.c: `processBinaryRxPacket`, what the manager does with a packet that has come in.
pub mod Store
pub mod Stored
pub mod Acknowledged
use rover_workspace.Prelude.{
  ℕ, ◌+◌, ◌-◌, ◌%◌, ◌^◌, min, bit_or, Bool, true, false, not, ◌&&◌, ◌||◌, Option, none, some, List,
  modify, ltb, leb, ◌==◌, if◌then◌else◌,
}
use rover_workspace.Prelude.Int.{ℤ, pos, negsuc}
use rover_workspace.Prelude.Memory.{Memory, write_bytes, load32}
use rover_workspace.Packet.{
  Packet, pid_ack, pid_nack, pid_get_data, pid_data, pid_set_data, pid_stop_broadcasts_all_ports,
  pid_stop_broadcasts_current_port, pid_stop_did_broadcast,
}
use rover_workspace.Comm.{DataHdr, inc32}
use rover_workspace.Comm.Send.{word_bytes, copy_data_p_to_struct_p2}
use rover_workspace.Manager.{
  Manager, Port, Status, RegisteredData, Reply, load_data_hdr, did_count_uins,
  cm_pkt_flags_rx_valid_data,
}
use rover_workspace.Manager.Transmit.{send_ack}
use rover_workspace.Manager.Broadcasts.{com_manager_disable_broadcasts, disable_did_broadcast}
use rover_workspace.Manager.Retries.{update_packet_retry_data, update_packet_retry_ack}
use rover_workspace.Manager.Requests.{com_manager_get_data_request}

-- The status of the port when a packet has been read.
abbrev pub note_packet : Port → Port
note_packet port = record port {
  status = record (port.status) {
    flags = bit_or port.status.flags cm_pkt_flags_rx_valid_data;
    read_counter = 0;
    rx_pkt_count = inc32 port.status.rx_pkt_count;
  };
}

-- The size of the data that fit into the registered data set; `none` is the early `return -1`. The
-- difference is an `int`, and `_MIN` is taken with its lowest byte.
unfoldable pub trim_size : (data_size : ℕ) → DataHdr → Option ℕ
trim_size data_size d =
    let size = (data_size + 2 ^ 32 - d.offset) % 2 ^ 32 in
    if not (data_size == 0) && ltb data_size ((d.offset + d.size) % 2 ^ 32)
    then (if ltb size 4 || leb (2 ^ 31) size then none else some (min d.size (size % 2 ^ 8)))
    else some (d.size)

-- `copyDataPToStructP`: too much data leave the structure as it is.
unfoldable pub copy_data_p_to_struct_p : Memory → (sptr data_ptr maxsize : ℕ) → Option Memory
copy_data_p_to_struct_p m sptr data_ptr maxsize =
    copy_data_p_to_struct_p2 m sptr (load_data_hdr m data_ptr) (data_ptr + 12) maxsize

abbrev pub or_same : Memory → Option Memory → Memory
or_same m none = m
or_same m (some m') = m'

-- A callback that is given the data, when there is one.
abbrev pub call_post : Option (Memory → ℕ → ℕ → Memory) → (p_handle data_ptr : ℕ) → Memory → Memory
call_post none p_handle data_ptr m = m
call_post (some f) p_handle data_ptr m = f m p_handle data_ptr

-- The registered data set is written, and its callback called.
unfoldable pub store_data : RegisteredData → (p_handle data_ptr : ℕ) → Memory → Memory
store_data reg p_handle data_ptr m = call_post reg.pst_rx_fnc p_handle data_ptr (
    if reg.rx_ptr == 0
    then m
    else or_same m (copy_data_p_to_struct_p m reg.rx_ptr data_ptr reg.size))

-- `dataHdr->size = ...` in the packet, when the data are trimmed.
abbrev pub store_size : (data_ptr size : ℕ) → DataHdr → Memory → Memory
store_size data_ptr size d m =
    if size == d.size then m else write_bytes m (data_ptr + 4) (word_bytes size)

-- The memory with the data of the size that is kept.
abbrev pub store_trimmed :
    RegisteredData → (p_handle data_ptr : ℕ) → (kept : Option ℕ) → DataHdr → Memory → Option Memory
store_trimmed reg p_handle data_ptr none d m = none
store_trimmed reg p_handle data_ptr (some size) d m =
    some (store_data reg p_handle data_ptr (store_size data_ptr size d m))

-- The general callback is called for data that were not refused.
abbrev pub report : Manager → (p_handle data_ptr : ℕ) → Option Memory → Option Memory
report cm p_handle data_ptr none = none
report cm p_handle data_ptr (some m) = some (call_post cm.pst_rx_fnc p_handle data_ptr m)

-- The memory after the data at `data_ptr` have been trimmed, stored and reported.
unfoldable pub deliver_data : Manager → (p_handle data_ptr : ℕ) → Option Memory
deliver_data cm p_handle data_ptr =
    let d = load_data_hdr cm.memory data_ptr in
    let reg = cm.reg_data d.id in
    report cm p_handle data_ptr (
      if ltb d.id did_count_uins
      then store_trimmed reg p_handle data_ptr (trim_size reg.size d) d cm.memory
      else some (cm.memory))

-- The case of PID_SET_DATA and PID_DATA.
unfoldable pub process_data : Manager → (p_handle : ℕ) → Packet → Option Memory → Reply
process_data cm p_handle pkt none = record { ok = false; manager = cm }
process_data cm p_handle pkt (some m) =
    let done = update_packet_retry_data (record cm { memory = m }) pkt.body_ptr in
    record {
      ok = true;
      manager =
          if pkt.hdr.pid == pid_set_data
          then send_ack done p_handle pkt.hdr (load_data_hdr m pkt.body_ptr) pid_ack
          else done;
    }

-- The case of PID_GET_DATA.
unfoldable pub process_get_data : Manager → (p_handle : ℕ) → Packet → Manager
process_get_data cm p_handle pkt =
    let d = load_data_hdr cm.memory pkt.body_ptr in
    let r = com_manager_get_data_request cm p_handle (record {
      id = d.id;
      size = d.size;
      offset = d.offset;
      bc_period_multiple = load32 cm.memory (pkt.body_ptr + 12);
    }) in
    if r.ok then r.manager else send_ack r.manager p_handle pkt.hdr d pid_nack

-- The callbacks for stopped broadcasts and for acknowledgements, when there are any.
abbrev pub tell_stopped :
    Option (Memory → (p_handle : ℤ) → Memory) → (stopped : ℤ) → Manager → Manager
tell_stopped none stopped cm = cm
tell_stopped (some f) stopped cm = record cm { memory = f cm.memory stopped }

abbrev pub tell_ack :
    Option (Memory → (p_handle : ℕ) → (ack_ptr pid : ℕ) → Memory)
    → (p_handle : ℕ) → Packet
    → Manager
    → Manager
tell_ack none p_handle pkt cm = cm
tell_ack (some f) p_handle pkt cm = record cm {
  memory = f cm.memory p_handle pkt.body_ptr pkt.hdr.pid;
}

-- The cases of PID_STOP_BROADCASTS_ALL_PORTS (-1) and PID_STOP_BROADCASTS_CURRENT_PORT.
unfoldable pub process_stop : Manager → (p_handle : ℕ) → Packet → (stopped : ℤ) → Manager
process_stop cm p_handle pkt stopped =
    let off = com_manager_disable_broadcasts cm stopped in
    let told = tell_stopped off.disable_bcast_fnc stopped off in
    send_ack told p_handle pkt.hdr (load_data_hdr told.memory pkt.body_ptr) pid_ack

-- The case of PID_NACK and PID_ACK.
unfoldable pub process_ack : Manager → (p_handle : ℕ) → Packet → Manager
process_ack cm p_handle pkt =
    let answered = update_packet_retry_ack cm pkt.body_ptr in
    tell_ack answered.pst_ack_fnc p_handle pkt answered

unfoldable pub process_binary_rx_packet : Manager → (p_handle : ℕ) → Packet → Reply
process_binary_rx_packet cm0 p_handle pkt =
    let cm : Manager = record cm0 { ports = modify cm0.ports p_handle note_packet } in
    let pid = pkt.hdr.pid in
    if pid == pid_set_data || pid == pid_data
    then process_data cm p_handle pkt (deliver_data cm p_handle pkt.body_ptr)
    else if pid == pid_get_data
    then record { ok = true; manager = process_get_data cm p_handle pkt }
    else if pid == pid_stop_broadcasts_all_ports
    then record { ok = true; manager = process_stop cm p_handle pkt (negsuc 0) }
    else if pid == pid_stop_broadcasts_current_port
    then record { ok = true; manager = process_stop cm p_handle pkt (pos p_handle) }
    else if pid == pid_stop_did_broadcast
    then record {
      ok = true;
      manager = disable_did_broadcast cm p_handle (load32 cm.memory pkt.body_ptr);
    }
    else if pid == pid_nack || pid == pid_ack
    then record { ok = true; manager = process_ack cm p_handle pkt }
    else record { ok = false; manager = cm }

-- ===== src/Manager/Listen.antt =====
-- com_manager.c: `comManagerStepRxInstance`, what comes in on a port, and what the manager tells and is
-- told of its ports and handlers.
pub mod Answers
pub mod Sound
use rover_workspace.Prelude.{
  ℕ, suc, ◌+◌, ◌-◌, ◌%◌, ◌^◌, ◌≡◌, ◌≢◌, Bool, true, false, not, ◌&&◌, ◌||◌, ◌<◌, ◌≤◌, Option, none,
  some, List, modify, get_elem?, length, ltb, ◌==◌, if◌then◌else◌, bit_and,
}
use rover_workspace.Prelude.Int.{ℤ, pos, ltb_ℤ, leb_ℤ, pos_part}
use rover_workspace.Prelude.Memory.{Memory, write_bytes}
use rover_workspace.Comm.{
  Protocol, ptype_none, ptype_parse_error, ptype_ack, ptype_cmd, ptype_data, ptype_nmea,
  ptype_ublox, ptype_rtcm3, Comm, inc32,
}
use rover_workspace.Comm.Parse.{is_comm_free, is_comm_parse_timeout, Freed, Parsed}
use rover_workspace.Manager.{
  Manager, Port, Status, Reply, MsgHandler, DataGet, cm_pkt_flags_rx_valid_data,
}
use rover_workspace.Manager.Receive.{process_binary_rx_packet}

-- `ok` is `error == 0`. The data are at `dataPtr + dataHdr.offset`; no handler is no error.
abbrev pub call_handler : Manager → (p_handle : ℕ) → Comm → Option MsgHandler → Reply
call_handler cm p_handle c none = record { ok = true; manager = cm }
call_handler cm p_handle c (some f) =
    let (error, m) = f cm.memory p_handle (c.data_ptr + c.data_hdr.offset) c.data_hdr.size in
    record { ok = not error; manager = record cm { memory = m } }

-- The `switch` over what the parser has found.
unfoldable pub dispatch : Manager → (p_handle : ℕ) → Comm → Protocol → Reply
dispatch cm p_handle c ptype_parse_error = record { ok = false; manager = cm }
dispatch cm p_handle c ptype_data = process_binary_rx_packet cm p_handle c.pkt
dispatch cm p_handle c ptype_cmd = process_binary_rx_packet cm p_handle c.pkt
dispatch cm p_handle c ptype_ublox = call_handler cm p_handle c cm.msg_handler_ublox
dispatch cm p_handle c ptype_rtcm3 = call_handler cm p_handle c cm.msg_handler_rtcm3
dispatch cm p_handle c ptype_nmea = call_handler cm p_handle c cm.msg_handler_ascii
dispatch cm p_handle c p = record { ok = true; manager = cm }

-- The status of the port after an error.
abbrev pub note_error : Port → Port
note_error port = record port {
  status = record (port.status) {
    read_counter = (port.status.read_counter + 32) % 2 ^ 32;
    rx_error = 2 ^ 32 - 1;
    communication_error_count = inc32 port.status.communication_error_count;
  };
}

unfoldable pub after_dispatch : (p_handle : ℕ) → Reply → Manager
after_dispatch p_handle r =
    if r.ok
    then r.manager
    else record (r.manager) { ports = modify r.manager.ports p_handle note_error }

-- What the parser leaves of the memory and of the port's instance.
unfoldable pub parsed : Manager → (p_handle : ℕ) → Parsed → Manager
parsed cm p_handle r = record cm {
  memory = r.memory;
  ports = modify cm.ports p_handle (λ port. record port { comm = r.comm });
}

-- One round of the loop for what the parser has found.
abbrev pub handled : Manager → (p_handle : ℕ) → Parsed → Manager
handled cm p_handle r =
    after_dispatch p_handle (dispatch (parsed cm p_handle r) p_handle r.comm r.ptype)

-- The `while` loop over the messages in the buffer, from the manager before it to that behind it.
pub data RxLoop (p_handle time_ms : ℕ) : Manager → Manager → Type 0 where
  ends :
      (cm : Manager) (port : Port)
      → get_elem? cm.ports p_handle ≡ some port
      → (is_comm_parse_timeout cm.memory port.comm time_ms).ptype ≡ ptype_none
      → RxLoop p_handle time_ms cm
          (parsed cm p_handle (is_comm_parse_timeout cm.memory port.comm time_ms))
  message :
      (cm cm' : Manager) (port : Port)
      → get_elem? cm.ports p_handle ≡ some port
      → (is_comm_parse_timeout cm.memory port.comm time_ms).ptype ≢ ptype_none
      → RxLoop p_handle time_ms
          (handled cm p_handle (is_comm_parse_timeout cm.memory port.comm time_ms))
          cm'
      → RxLoop p_handle time_ms cm cm'

-- Behind the loop: too much has come in without a packet.
abbrev pub note_silence : Port → Port
note_silence port = record port {
  status = record (port.status) {
    flags =
        if not (bit_and port.status.flags cm_pkt_flags_rx_valid_data == 0)
          && ltb 128 port.status.read_counter
        then bit_and port.status.flags (255 - cm_pkt_flags_rx_valid_data)
        else port.status.flags;
  };
}

abbrev pub silenced : (p_handle : ℕ) → Manager → Manager
silenced p_handle cm = record cm { ports = modify cm.ports p_handle note_silence }

-- The room that `is_comm_free` makes.
unfoldable pub freed : Manager → (p_handle : ℕ) → Freed → Manager
freed cm p_handle f = record cm {
  memory = f.memory;
  ports = modify cm.ports p_handle (λ port. record port { comm = f.comm });
}

-- `buf.tail += n`
abbrev pub grow : ℕ → Comm → Comm
grow n c = record c { buf = record (c.buf) { tail = c.buf.tail + n } }

-- The bytes that the read callback has put behind the tail.
unfoldable pub filled : Manager → (p_handle : ℕ) → Freed → List ℕ → Manager
filled cm p_handle f read = record cm {
  memory = write_bytes f.memory f.comm.buf.tail read;
  ports = modify cm.ports p_handle (λ port. record port { comm = grow (length read) f.comm });
}

-- One port: the read callback reads nothing, or bytes for which there is room.
pub data RxPort (p_handle time_ms : ℕ) : Manager → Manager → Type 0 where
  nothing :
      (cm : Manager) (port : Port)
      → get_elem? cm.ports p_handle ≡ some port
      → RxPort p_handle time_ms cm
          (silenced p_handle (freed cm p_handle (is_comm_free cm.memory port.comm)))
  some_bytes :
      (cm cm' : Manager) (port : Port) (read : List ℕ)
      → get_elem? cm.ports p_handle ≡ some port
      → 0 < length read
      → length read ≤ (is_comm_free cm.memory port.comm).bytes_free
      → RxLoop p_handle time_ms (filled cm p_handle (is_comm_free cm.memory port.comm) read) cm'
      → RxPort p_handle time_ms cm (silenced p_handle cm')

-- `comManagerStepRxInstance` with a read callback, from the port `p_handle` on, for `left` ports.
pub data RxStep (time_ms : ℕ) : (p_handle left : ℕ) → Manager → Manager → Type 0 where
  no_more : (p_handle : ℕ) (cm : Manager) → RxStep time_ms p_handle 0 cm cm
  one_more :
      (p_handle left : ℕ) (cm cm1 cm' : Manager)
      → RxPort p_handle time_ms cm cm1
      → RxStep time_ms (p_handle + 1) left cm1 cm'
      → RxStep time_ms p_handle (suc left) cm cm'

-- `comManagerGetStatusInstance`: the index of the port with the status; `none` is NULL.
unfoldable pub com_manager_get_status : Manager → (p_handle : ℤ) → Option Status
com_manager_get_status cm p_handle =
    if ltb_ℤ p_handle (pos 0) || leb_ℤ (pos (length cm.ports)) p_handle
    then none
    else elim (get_elem? cm.ports (pos_part p_handle)) [
      | none ↦ none
      | some port ↦ some (port.status)
    ]

unfoldable pub com_manager_set_callbacks :
    Manager
    → Option (Memory → (p_handle : ℕ) → DataGet → Bool × Memory)
    → (ascii ublox rtcm3 : Option MsgHandler) → Manager
com_manager_set_callbacks cm rmc ascii ublox rtcm3 = record cm {
  msg_handler_rmc = rmc;
  msg_handler_ascii = ascii;
  msg_handler_ublox = ublox;
  msg_handler_rtcm3 = rtcm3;
}

-- ===== src/Manager/Setup.antt =====
-- com_manager.c: `initComManagerInstanceInternal`. `readFnc` is not a field: a receive step is told what is read.
pub mod Ready
use rover_workspace.Prelude.{
  ℕ, zero, suc, ◌+◌, ◌≤◌, ◌<◌, min, ◌≡◌, refl, inl, Bool, true, false, ◌||◌, Option, none, some,
  List, [], ◌∷◌, arith, length, take, replicate, ltb, leb, ◌==◌, if◌then◌else◌, Bool-cases, inr,
}
use rover_workspace.Prelude.Int.{ℤ, pos, negsuc, leb_ℤ, pos_part, ◌≤ℤ◌}
use rover_workspace.Prelude.Memory.{Memory}
use rover_workspace.Packet.{pkt_buf_size}
use rover_workspace.Comm.Parse.{is_comm_init}
use rover_workspace.Manager.{
  Manager, Port, Status, BroadcastMsg, EnsuredPkt, RegisteredData, Sending, Reply,
  max_num_bcast_msgs, no_more_retries,
}

-- The arguments: how many messages and ensured packets the buffers have room for (`none` is NULL), the ports, and the
-- addresses of their `comm_buffer`.
pub record InitArgs : Type 0 where
  pub num_handles : ℤ
  pub max_ensured_packets : ℤ
  pub step_period_milliseconds : ℕ
  pub retry_count : ℤ
  pub send_fnc : Bool
  pub tx_free_fnc : Option (List Sending → (p_handle : ℕ) → ℕ)
  pub pst_rx_fnc : Option (Memory → (p_handle : ℕ) → (data_ptr : ℕ) → Memory)
  pub pst_ack_fnc : Option (Memory → (p_handle : ℕ) → (ack_ptr pid : ℕ) → Memory)
  pub disable_bcast_fnc : Option (Memory → (p_handle : ℤ) → Memory)
  pub broadcast_room : Option ℕ
  pub ensured_room : Option ℕ
  pub cm_ports : List Port
  pub comm_buffers : ℕ → ℕ

abbrev pub blank_status : Status
blank_status = record {
  read_counter = 0;
  rx_pkt_count = 0;
  rx_error = 0;
  communication_error_count = 0;
  flags = 0;
}

abbrev pub blank_msg : BroadcastMsg
blank_msg = record {
  hdr = record { start_byte = 0; pid = 0; counter = 0; flags = 0 };
  body_hdr_size = 0;
  tx_ptr = 0;
  tx_size = 0;
  data_hdr = record { id = 0; size = 0; offset = 0 };
  counter = pos 0;
  period = pos 0;
  p_handle = 0;
}

abbrev pub blank_ensured : EnsuredPkt
blank_ensured = record {
  hdr = record { start_byte = 0; pid = 0; counter = 0; flags = 0 };
  body_size = 0;
  pkt_body = replicate pkt_buf_size 0;
  counter = no_more_retries;
  p_handle = 0;
}

-- `is_comm_init` and a blank status for each port, from the `i`th on.
unfoldable pub init_ports :
    (comm_buffers : ℕ → ℕ) → (i : ℕ) → Memory → List Port → Memory × List Port
init_ports comm_buffers i m [] = (m, [])
init_ports comm_buffers i m (port ∷ ports) =
    let (m1, comm) = is_comm_init m port.comm (comm_buffers i) pkt_buf_size in
    let (m2, ports') = init_ports comm_buffers (i + 1) m1 ports in
    (m2, record { comm = comm; status = blank_status } ∷ ports')

-- A buffer that is there, with room for so many.
abbrev pub has_room_for : ℕ → Option ℕ → Bool
has_room_for n none = false
has_room_for n (some room) = leb n room

-- The fields that are assigned first. `cmMsgHandlerRmc` is not. `maxEnsuredPackets` is the length of the list:
-- none for 0 or less. With a greater count than before, the slots of an older buffer are those that it
-- has, until the new buffer is taken.
unfoldable pub assign : Manager → InitArgs → Manager
assign cm a = record cm {
  ensured_packets = take (pos_part a.max_ensured_packets) cm.ensured_packets;
  send_packet_callback = a.send_fnc;
  tx_free_callback = a.tx_free_fnc;
  pst_rx_fnc = a.pst_rx_fnc;
  pst_ack_fnc = a.pst_ack_fnc;
  disable_bcast_fnc = a.disable_bcast_fnc;
  step_period_milliseconds = a.step_period_milliseconds;
  ensure_retry_count = a.retry_count;
  msg_handler_ascii = none;
  msg_handler_ublox = none;
  msg_handler_rtcm3 = none;
}

-- The tables and the ports; at most 1024 of them.
unfoldable pub init_buffers : Manager → InitArgs → Reply
init_buffers cm a =
    let count = min (pos_part a.num_handles) 1024 in
    let (m, ports) = init_ports a.comm_buffers 0 cm.memory (take count a.cm_ports) in
    let ready : Manager = record cm {
      broadcast_messages = replicate max_num_bcast_msgs blank_msg;
      memory = m;
      ports = ports;
    } in
    let slots = pos_part a.max_ensured_packets in
    if leb_ℤ a.max_ensured_packets (pos 0)
    then record { ok = true; manager = ready }
    else if has_room_for slots a.ensured_room
    then record {
      ok = true;
      manager = record ready { ensured_packets = replicate slots blank_ensured };
    }
    else record { ok = false; manager = ready }

unfoldable pub init_com_manager : Manager → InitArgs → Reply
init_com_manager cm a =
    let assigned = assign cm a in
    if leb_ℤ a.num_handles (pos 0)
    then record { ok = false; manager = cm }
    else if has_room_for max_num_bcast_msgs a.broadcast_room
    then init_buffers assigned a
    else record { ok = false; manager = assigned }

-- `memset(cmInstance, 0, sizeof(com_manager_t))`; what is not in the instance stays.
abbrev pub cleared : Manager → Manager
cleared cm = record cm {
  send_packet_callback = false;
  tx_free_callback = none;
  pst_rx_fnc = none;
  pst_ack_fnc = none;
  disable_bcast_fnc = none;
  msg_handler_rmc = none;
  msg_handler_ascii = none;
  msg_handler_ublox = none;
  msg_handler_rtcm3 = none;
  reg_data = λ id. record {
    tx_ptr = 0;
    rx_ptr = 0;
    size = 0;
    pre_tx_fnc = none;
    pst_rx_fnc = none;
    pkt_flags = 0;
  };
  ports = [];
  ensured_packets = [];
  broadcast_messages = [];
  last_ensured_packet_index = 0;
  user_pointer = 0;
  step_period_milliseconds = 0;
  ensure_retry_count = pos 0;
}

unfoldable pub com_manager_init_instance : Manager → InitArgs → Reply
com_manager_init_instance cm a = init_com_manager (cleared cm) a

unfoldable pub com_manager_assign_user_pointer : Manager → (user_pointer : ℕ) → Manager
com_manager_assign_user_pointer cm user_pointer = record cm { user_pointer = user_pointer }

-- ISComm.c: `is_enable_packet_encoding`
unfoldable pub is_enable_packet_encoding : Manager → (enabled : Bool) → Manager
is_enable_packet_encoding cm enabled = record cm { encoding = enabled }

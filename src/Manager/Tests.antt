-- ===== src/Manager/Tests.antt =====
-- The manager at concrete states.
use rover_workspace.Prelude.{
  ℕ, ◌+◌, ◌≤◌, ◌≡◌, refl, inl, inr, true, none, some, List, [], ◌∷◌, ◌++◌, arith, get_elem?, length,
  ◌==◌, if◌then◌else◌,
}
use rover_workspace.Prelude.Int.{pos, negsuc}
use rover_workspace.Prelude.Memory.{Memory, Holds, bytes, load32, write_bytes, store}
use rover_workspace.Packet.RoundTrip.Body.{IsBytes}
use rover_workspace.Packet.{Packet, pid_set_data}
use rover_workspace.Comm.{Comm, ptype_none, ptype_data, minus_one}
use rover_workspace.Comm.Parse.{
  is_comm_parse_timeout, is_comm_free, give_up, parse_loop, parse_round, finish,
}
use rover_workspace.Comm.Pointers.{InOrder}
use rover_workspace.Comm.Receive.{Delivered}
use rover_workspace.Manager.{
  load_data_hdr, Manager, Port, EnsuredPkt, BroadcastMsg, RegisteredData, DataGet,
}
use rover_workspace.Manager.Transmit.{send_data_of}
use rover_workspace.Manager.Transmit.Frames.{Extends}
use rover_workspace.Manager.Transmit.Delivery.{send_data-Delivered}
use rover_workspace.Manager.Broadcasts.{com_manager_disable_broadcasts}
use rover_workspace.Manager.Retries.{step_packet_retry, update_packet_retry_ack}
use rover_workspace.Manager.Retries.Ending.{IsEnded}
use rover_workspace.Manager.Retries.Answered.{NoneFor, update_ack-NoneFor}
use rover_workspace.Manager.Setup.{InitArgs, init_com_manager, init_buffers}
use rover_workspace.Manager.Setup.Ready.{IsReady, init_com_manager-IsReady}
use rover_workspace.Manager.Listen.{
  ends, some_bytes, one_more, no_more, silenced, filled, grow, parsed,
}
use rover_workspace.Manager.Listen.Sound.{RxStep-Sound}
use rover_workspace.Manager.Retries.Run.{
  Sound, send_ensured, step, data_received, ack_received, retry_events, retry_events-IsEnded,
}
use rover_workspace.Manager.Retries.Resend.{
  step_every_slot, step_packet_retry-every, SentOf, step_packet_retries, retry_resent,
}
use rover_workspace.Manager.Requests.{com_manager_get_data_request}
use rover_workspace.Manager.Requests.Ranges.{AllInRange, get_data_request-AllInRange}
use rover_workspace.Manager.Step.Stopped.{OtherPort, steps_broadcasts, disable_broadcasts-Extends}
use rover_workspace.Manager.Step.Due.{BroadcastOf}
use rover_workspace.Manager.Step.Rounds.{memory_at, broadcast_due}
use rover_workspace.Manager.Receive.{trim_size, process_binary_rx_packet}
use rover_workspace.Manager.Receive.Store.{deliver_data-outside}
use rover_workspace.Manager.Receive.Stored.{Fits, stored, deliver_data-stored}
use rover_workspace.Manager.Receive.Acknowledged.{Acknowledged, set_data-Acknowledged}

abbrev comm : Comm
comm = record {
  buf = record { start = 1000; end_ptr = 3048; size = 2048; head = 1000; tail = 1000; scan = 1000 };
  config = record {
    enable_isb = true;
    enable_ascii = true;
    enable_ublox = true;
    enable_rtcm3 = true;
  };
  tx_pkt_count = 0;
  rx_error_count = 0;
  has_start_byte = 0;
  parse_state = minus_one;
  parse_time_ms = 0;
  data_hdr = record { id = 0; size = 0; offset = 0 };
  data_ptr = 1000;
  pkt_ptr = 1000;
  alt_decode_buf = 0;
  ack_needed = 0;
  pkt = record {
    hdr = record { start_byte = 0; pid = 0; counter = 0; flags = 0 };
    body_ptr = 1000;
    body_size = 0;
  };
}

abbrev port : Port
port = record {
  comm = comm;
  status = record {
    read_counter = 0;
    rx_pkt_count = 0;
    rx_error = 0;
    communication_error_count = 0;
    flags = 2;
  };
}

-- At 500 the body of a packet: data for the id 5, of 4 bytes, from the offset 2 on.
abbrev memory : Memory
memory q =
    if q == 500
    then 5
    else if q == 504
    then 4
    else if q == 508
    then 2
    else if q == 512
    then 17
    else if q == 513
    then 18
    else 0

-- 20 bytes at 700 are registered for every id.
abbrev registered : RegisteredData
registered = record {
  tx_ptr = 700;
  rx_ptr = 700;
  size = 20;
  pre_tx_fnc = none;
  pst_rx_fnc = none;
  pkt_flags = 0;
}

abbrev retry : EnsuredPkt
retry = record {
  hdr = record { start_byte = 255; pid = 6; counter = 0; flags = 0 };
  body_size = 0;
  pkt_body = 0 ∷ 0 ∷ [];
  counter = pos 2;
  p_handle = 0;
}

abbrev unused : EnsuredPkt
unused = record {
  hdr = record { start_byte = 0; pid = 0; counter = 0; flags = 0 };
  body_size = 0;
  pkt_body = 0 ∷ 0 ∷ [];
  counter = negsuc 1;
  p_handle = 0;
}

-- Every third step, and due at the third from here.
abbrev broadcast : BroadcastMsg
broadcast = record {
  hdr = record { start_byte = 255; pid = 4; counter = 0; flags = 0 };
  body_hdr_size = 12;
  tx_ptr = 700;
  tx_size = 20;
  data_hdr = record { id = 5; size = 20; offset = 0 };
  counter = pos 0;
  period = pos 3;
  p_handle = 0;
}

abbrev free_msg : BroadcastMsg
free_msg = record {
  hdr = record { start_byte = 0; pid = 0; counter = 0; flags = 0 };
  body_hdr_size = 0;
  tx_ptr = 0;
  tx_size = 0;
  data_hdr = record { id = 0; size = 0; offset = 0 };
  counter = pos 0;
  period = pos 0;
  p_handle = 0;
}

abbrev manager : Manager
manager = record {
  encoding = true;
  send_packet_callback = true;
  tx_free_callback = none;
  pst_rx_fnc = none;
  pst_ack_fnc = none;
  disable_bcast_fnc = none;
  msg_handler_rmc = none;
  msg_handler_ascii = none;
  msg_handler_ublox = none;
  msg_handler_rtcm3 = none;
  reg_data = λ _. registered;
  ports = port ∷ [];
  ensured_packets = retry ∷ unused ∷ [];
  broadcast_messages = broadcast ∷ free_msg ∷ [];
  last_ensured_packet_index = 0;
  user_pointer = 0;
  step_period_milliseconds = 1;
  ensure_retry_count = pos 5;
  memory = memory;
  sent = [];
}

manager-IsEnded : IsEnded manager.ensured_packets
manager-IsEnded = (λ e. absurd (cc e), (λ _. tt, tt))

retry_events-IsEnded_example :
    let events = send_ensured 0 3 (5 ∷ 0 ∷ []) ∷ step ∷ data_received 500 ∷ ack_received 500 ∷ [] in
    IsEnded (retry_events manager events).ensured_packets
retry_events-IsEnded_example =
    retry_events-IsEnded manager
      (send_ensured 0 3 (5 ∷ 0 ∷ []) ∷ step ∷ data_received 500 ∷ ack_received 500 ∷ [])
      (omega arith) manager-IsEnded

step_packet_retry-every_example : step_packet_retry manager ≡ (
    let (cm', es) = step_every_slot manager manager.ensured_packets in
    record cm' { ensured_packets = es })
step_packet_retry-every_example = step_packet_retry-every manager manager-IsEnded

retry_resent_example : let cm' = step_packet_retries 2 manager in SentOf cm'.encoding retry cm'.sent
retry_resent_example =
    retry_resent manager 0 1 retry (omega arith) manager-IsEnded refl refl refl (omega arith)

disable_broadcasts-Extends_example :
    let stopped = com_manager_disable_broadcasts manager (pos 0) in
    Extends (OtherPort (pos 0)) stopped (steps_broadcasts 7 stopped)
disable_broadcasts-Extends_example = disable_broadcasts-Extends manager (pos 0) 7

broadcast_due_example :
    let last = steps_broadcasts 2 manager in
    let cm' = steps_broadcasts 3 manager in
    BroadcastOf cm'.encoding (memory_at last last.broadcast_messages 0) broadcast cm'.sent
broadcast_due_example =
    broadcast_due manager 0 3 1 2 broadcast refl refl refl
      (record { pid = refl; body_hdr = omega arith; small = omega arith }) refl refl (omega arith)
      refl refl

abbrev request : DataGet
request = record { id = 7; size = 4; offset = 0; bc_period_multiple = 10 }

get_data_request-AllInRange_example :
    let r = (com_manager_get_data_request manager 0 request).manager in
    (r.reg_data ≡ manager.reg_data) × AllInRange manager.reg_data r.broadcast_messages
get_data_request-AllInRange_example =
    get_data_request-AllInRange manager 0 request (λ cm' id p_handle msg. refl) (omega arith)
      (omega arith, (omega arith, tt))

abbrev wrapping_request : DataGet
wrapping_request = record { id = 7; size = 8; offset = 4294967292; bc_period_multiple = 0 }

-- 300 of 600 bytes fit, and 44 are kept.
trimmed : trim_size 400 (record { id = 5; size = 600; offset = 100 }) ≡ some 44
unfolding trim_size
trimmed = refl

all_bytes : IsBytes (bytes manager.memory 512 4)
unfolding bytes
all_bytes = (omega arith, (omega arith, (omega arith, (omega arith, tt))))

abbrev packet : Packet
packet = record {
  hdr = record { start_byte = 255; pid = 5; counter = 9; flags = 0 };
  body_ptr = 500;
  body_size = 16;
}

manager-Fits : Fits manager 500
manager-Fits = record {
  known = omega arith;
  there = omega arith;
  small = omega arith;
  fits = omega arith;
  quiet = refl;
  reg_quiet = refl;
}

set_data-Acknowledged_example :
    Acknowledged manager 0 packet (process_binary_rx_packet manager 0 packet)
set_data-Acknowledged_example =
    set_data-Acknowledged manager 0 packet refl refl manager-Fits (inl (omega arith))

deliver_data-outside_example : stored manager 500 800 ≡ 0
deliver_data-outside_example =
    deliver_data-outside manager 0 500 800 (stored manager 500) refl refl (omega arith)
      (deliver_data-stored manager 0 500 manager-Fits) (inr (omega arith)) (inr (omega arith))

-- A receiver with the packet at its scan pointer is what the last part speaks of.
send_data-Delivered_example :
    let reply = send_data_of pid_set_data 0 manager 0 5 512 4 2 in
    (packet : List ℕ) × (reply.manager.sent
      ≡ manager.sent ++ record { p_handle = 0; packet = packet } ∷ [])
    × ((m : Memory) (c : Comm) (time_ms : ℕ)
        → InOrder c
        → c.has_start_byte ≡ 0
        → c.config.enable_isb ≡ true
        → c.alt_decode_buf ≡ 0
        → c.buf.scan + length packet ≤ c.buf.tail
        → Holds m c.buf.scan packet
        → let r = is_comm_parse_timeout m c time_ms in
          (r.ptype ≡ ptype_data)
          × Delivered pid_set_data 5 2 (bytes manager.memory 512 4) r.memory r.comm
          × (r.comm.buf.scan ≡ c.buf.scan + length packet))
send_data-Delivered_example =
    send_data-Delivered manager 0 pid_set_data 0 5 512 4 2 refl refl (inr refl) (omega arith)
      (omega arith) (omega arith) (omega arith) (omega arith) (omega arith) all_bytes

update_ack-NoneFor_example :
    NoneFor
      (load32 manager.memory 500)
      (load_data_hdr manager.memory 508)
      (update_packet_retry_ack manager 500).ensured_packets
update_ack-NoneFor_example = update_ack-NoneFor manager 500 manager-IsEnded

abbrev init_args : InitArgs
init_args = record {
  num_handles = pos 1;
  max_ensured_packets = pos 3;
  step_period_milliseconds = 1;
  retry_count = pos 5;
  send_fnc = true;
  tx_free_fnc = none;
  pst_rx_fnc = none;
  pst_ack_fnc = none;
  disable_bcast_fnc = none;
  broadcast_room = some 12;
  ensured_room = some 3;
  cm_ports = port ∷ [];
  comm_buffers = λ i. 1000;
}

init_succeeds : (init_com_manager manager init_args).ok ≡ true
unfolding init_com_manager init_buffers
init_succeeds = refl

init_com_manager-IsReady_example : IsReady init_args (init_com_manager manager init_args).manager
init_com_manager-IsReady_example = init_com_manager-IsReady manager init_args init_succeeds

-- One byte comes in that begins no message.
abbrev heard : Manager
heard = filled manager 0 (is_comm_free manager.memory comm) (0 ∷ [])

abbrev heard_port : Port
heard_port = record port { comm = grow 1 (is_comm_free manager.memory comm).comm }

there : get_elem? heard.ports 0 ≡ some heard_port
unfolding filled
there = refl

no_message : (is_comm_parse_timeout heard.memory heard_port.comm 10).ptype ≡ ptype_none
unfolding is_comm_free is_comm_parse_timeout give_up parse_loop parse_round finish filled
    write_bytes store
no_message = refl

room : 1 ≤ (is_comm_free manager.memory comm).bytes_free
unfolding is_comm_free
room = omega arith

abbrev after_byte : Manager
after_byte = silenced 0 (parsed heard 0 (is_comm_parse_timeout heard.memory heard_port.comm 10))

RxStep-Sound_example : Sound after_byte
RxStep-Sound_example =
    RxStep-Sound 10 0 1
      (one_more 0 0 manager _ _
        (some_bytes manager _ port (0 ∷ []) refl (omega arith) room
          (ends heard heard_port there no_message))
        (no_more 1 _))
      (omega arith, manager-IsEnded)

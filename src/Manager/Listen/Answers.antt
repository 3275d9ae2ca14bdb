-- ===== src/Manager/Listen/Answers.antt =====
-- The list of ensured packets, when a packet that has come in is answered.
use rover_workspace.Prelude.{
  ℕ, inl, inr, Bool, true, false, ◌||◌, Option, none, some, modify, ◌==◌, leb, if◌then◌else◌,
  Bool-cases,
}
use rover_workspace.Prelude.Int.{ℤ, pos, negsuc}
use rover_workspace.Prelude.Memory.{Memory, load32}
use rover_workspace.Packet.{
  Packet, PacketHdr, pid_ack, pid_nack, pid_get_data, pid_data, pid_set_data,
  pid_stop_broadcasts_all_ports, pid_stop_broadcasts_current_port, pid_stop_did_broadcast,
}
use rover_workspace.Comm.{DataHdr}
use rover_workspace.Manager.{
  Manager, Reply, DataGet, Prepared, BroadcastMsg, did_count_uins, did_reference_imu,
}
use rover_workspace.Manager.Transmit.{send_ack, com_manager_send}
use rover_workspace.Manager.Transmit.Frames.{Extends}
use rover_workspace.Manager.Broadcasts.{
  com_manager_disable_broadcasts, disable_did_broadcast, ask_rmc,
}
use rover_workspace.Manager.Retries.Run.{
  Sound, retry_event, retry_event-Sound, data_received, ack_received,
}
use rover_workspace.Manager.Requests.{
  send_msg, com_manager_get_data_request, unless_handled, request_broadcast, take_msg,
  answer_request,
}
use rover_workspace.Manager.Receive.{
  process_data, process_get_data, process_stop, tell_stopped, tell_ack, note_packet, process_ack,
  process_binary_rx_packet, deliver_data,
}
use rover_workspace.Manager.Step.Stopped.{send_data_packet-Extends, send_msg-Extends}

abbrev Any : ℕ → Type 0
Any p = Unit {0}

Sound-Extends : (cm cm' : Manager) → Extends Any cm cm' → Sound cm → Sound cm'
Sound-Extends cm cm' x v = (rw x.retry_count v.0, rw x.ensured v.1)

send_ack-Sound :
    (cm : Manager) (p_handle : ℕ) (hdr : PacketHdr) (d : DataHdr) (pid : ℕ)
    → Sound cm
    → Sound (send_ack cm p_handle hdr d pid)
unfolding send_ack com_manager_send
send_ack-Sound cm p_handle hdr d pid v =
    Sound-Extends cm _ (send_data_packet-Extends Any cm p_handle _ tt) v

pub if-Sound : (a b : Manager) (t : Bool) → Sound a → Sound b → Sound (if t then a else b)
if-Sound a b true v w = v
if-Sound a b false v w = w

process_data-Sound :
    (cm : Manager) (p_handle : ℕ) (pkt : Packet) (o : Option Memory)
    → Sound cm
    → Sound (process_data cm p_handle pkt o).manager
unfolding process_data retry_event
process_data-Sound cm p_handle pkt none v = v
process_data-Sound cm p_handle pkt (some m) v =
    let stored : Manager = record cm { memory = m } in
    let done = retry_event-Sound stored (data_received pkt.body_ptr) v in
    if-Sound _ (retry_event stored (data_received pkt.body_ptr)) (pkt.hdr.pid == pid_set_data)
      (send_ack-Sound _ p_handle pkt.hdr _ pid_ack done) done

answer_request-Sound :
    (cm : Manager) (p_handle slot period : ℕ) (prepared : Prepared) (msg : BroadcastMsg)
    → Sound cm
    → Sound (answer_request cm p_handle slot period prepared msg).manager
unfolding answer_request
answer_request-Sound cm p_handle slot period prepared msg0 v =
    let msg : BroadcastMsg = record msg0 { data_hdr = prepared.data_hdr } in
    let cm1 : Manager = record cm { memory = prepared.memory } in
    if-Sound (send_msg cm1 p_handle msg) cm1 _
      (Sound-Extends cm1 _ (send_msg-Extends Any cm1 p_handle msg tt) v) v

take_msg-Sound :
    (cm : Manager) (p_handle slot : ℕ) (req : DataGet) (o : Option BroadcastMsg)
    → Sound cm
    → Sound (take_msg cm p_handle slot req o).manager
unfolding take_msg
take_msg-Sound cm p_handle slot req none v = v
take_msg-Sound cm p_handle slot req (some taken) v =
    elim (Bool-cases (req.id == did_reference_imu)) [
      | inl ref ↦ rw ref v
      | inr other ↦ rw other (answer_request-Sound cm p_handle slot _ _ _ v)
    ]

ask_rmc-Sound :
    (cm : Manager) (p_handle : ℕ) (req : DataGet)
    (o : Option (Memory → ℕ → DataGet → Bool × Memory))
    → Sound cm
    → Sound (unless_handled p_handle req (ask_rmc o cm p_handle req)).manager
unfolding request_broadcast
ask_rmc-Sound cm p_handle req none v = take_msg-Sound cm p_handle _ _ _ v
ask_rmc-Sound cm p_handle req (some f) v = let r = f cm.memory p_handle req in after_rmc r.0 r.1
  where
    after_rmc :
        (handled : Bool) (m : Memory)
        → Sound (unless_handled p_handle req (handled, record cm { memory = m })).manager
    after_rmc true m = v
    after_rmc false m = take_msg-Sound (record cm { memory = m }) p_handle _ _ _ v

get_data_request-Sound :
    (cm : Manager) (p_handle : ℕ) (req : DataGet)
    → Sound cm
    → Sound (com_manager_get_data_request cm p_handle req).manager
unfolding com_manager_get_data_request
get_data_request-Sound cm p_handle req v = elim (Bool-cases (leb did_count_uins req.id)) [
  | inl unknown ↦ rw unknown v
  | inr known ↦ rw known (ask_rmc-Sound cm p_handle req cm.msg_handler_rmc v)
]

process_get_data-Sound :
    (cm : Manager) (p_handle : ℕ) (pkt : Packet)
    → Sound cm
    → Sound (process_get_data cm p_handle pkt)
unfolding process_get_data
process_get_data-Sound cm p_handle pkt v =
    let r = get_data_request-Sound cm p_handle _ v in
    if-Sound _ _ _ r (send_ack-Sound _ p_handle pkt.hdr _ pid_nack r)

tell_stopped-Sound :
    (cm : Manager) (o : Option (Memory → ℤ → Memory)) (stopped : ℤ)
    → Sound cm
    → Sound (tell_stopped o stopped cm)
tell_stopped-Sound cm none stopped v = v
tell_stopped-Sound cm (some f) stopped v = v

tell_ack-Sound :
    (cm : Manager) (o : Option (Memory → ℕ → ℕ → ℕ → Memory)) (p_handle : ℕ) (pkt : Packet)
    → Sound cm
    → Sound (tell_ack o p_handle pkt cm)
tell_ack-Sound cm none p_handle pkt v = v
tell_ack-Sound cm (some f) p_handle pkt v = v

process_stop-Sound :
    (cm : Manager) (p_handle : ℕ) (pkt : Packet) (stopped : ℤ)
    → Sound cm
    → Sound (process_stop cm p_handle pkt stopped)
unfolding process_stop com_manager_disable_broadcasts
process_stop-Sound cm p_handle pkt stopped v =
    let off = com_manager_disable_broadcasts cm stopped in
    send_ack-Sound (tell_stopped off.disable_bcast_fnc stopped off) p_handle pkt.hdr _ pid_ack
      (tell_stopped-Sound off off.disable_bcast_fnc stopped v)

process_ack-Sound :
    (cm : Manager) (p_handle : ℕ) (pkt : Packet) → Sound cm → Sound (process_ack cm p_handle pkt)
unfolding process_ack retry_event
process_ack-Sound cm p_handle pkt v =
    let answered = retry_event cm (ack_received pkt.body_ptr) in
    tell_ack-Sound answered answered.pst_ack_fnc p_handle pkt
      (retry_event-Sound cm (ack_received pkt.body_ptr) v)

disable_did_broadcast-Sound :
    (cm : Manager) (p_handle id : ℕ) → Sound cm → Sound (disable_did_broadcast cm p_handle id)
unfolding disable_did_broadcast
disable_did_broadcast-Sound cm p_handle id v = told cm.msg_handler_rmc _ _ v
  where
    told :
        (o : Option (Memory → ℕ → DataGet → Bool × Memory)) (cm : Manager) (req : DataGet)
        → Sound cm
        → Sound (ask_rmc o cm p_handle req).1
    told none cm req v = v
    told (some f) cm req v = v

if_reply-Sound :
    (a b : Reply) (t : Bool)
    → Sound a.manager
    → Sound b.manager
    → Sound (if t then a else b).manager
if_reply-Sound a b true v w = v
if_reply-Sound a b false v w = w

pub process_binary-Sound :
    (cm : Manager) (p_handle : ℕ) (pkt : Packet)
    → Sound cm
    → Sound (process_binary_rx_packet cm p_handle pkt).manager
unfolding process_binary_rx_packet
process_binary-Sound cm0 p_handle pkt v =
    let cm : Manager = record cm0 { ports = modify cm0.ports p_handle note_packet } in
    let pid = pkt.hdr.pid in
    if_reply-Sound (process_data cm p_handle pkt (deliver_data cm p_handle pkt.body_ptr)) _
      (pid == pid_set_data || pid == pid_data) (process_data-Sound cm p_handle pkt _ v)
      (if_reply-Sound (record { ok = true; manager = process_get_data cm p_handle pkt }) _
        (pid == pid_get_data) (process_get_data-Sound cm p_handle pkt v)
        (if_reply-Sound (record { ok = true; manager = process_stop cm p_handle pkt (negsuc 0) }) _
          (pid == pid_stop_broadcasts_all_ports) (process_stop-Sound cm p_handle pkt (negsuc 0) v)
          (if_reply-Sound
            (record { ok = true; manager = process_stop cm p_handle pkt (pos p_handle) }) _
            (pid == pid_stop_broadcasts_current_port)
            (process_stop-Sound cm p_handle pkt (pos p_handle) v)
            (if_reply-Sound
              (record {
                ok = true;
                manager = disable_did_broadcast cm p_handle (load32 cm.memory pkt.body_ptr);
              })
              _ (pid == pid_stop_did_broadcast)
              (disable_did_broadcast-Sound cm p_handle (load32 cm.memory pkt.body_ptr) v)
              (if_reply-Sound (record { ok = true; manager = process_ack cm p_handle pkt })
                (record { ok = false; manager = cm }) (pid == pid_nack || pid == pid_ack)
                (process_ack-Sound cm p_handle pkt v) v)))))

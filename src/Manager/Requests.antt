-- ===== src/Manager/Requests.antt =====
-- com_manager.c: a request for data, `comManagerGetDataRequestInstance`, and the registration of data.
pub mod Slots
pub mod Ranges
use rover_workspace.Prelude.{
  ℕ, ◌+◌, ◌-◌, ◌%◌, ◌^◌, Bool, true, false, ◌&&◌, ◌||◌, not, Option, none, some, List, modify,
  get_elem?, ltb, leb, ◌==◌, if◌then◌else◌,
}
use rover_workspace.Prelude.Int.{pos}
use rover_workspace.Prelude.Memory.{bytes}
use rover_workspace.Packet.{psc_start_byte, pid_data}
use rover_workspace.Manager.{
  Manager, BroadcastMsg, RegisteredData, DataGet, Reply, Prepared, did_count_uins,
  did_reference_imu, min_request_period_ms, max_request_period_ms,
}
use rover_workspace.Manager.Transmit.{send_data_packet}
use rover_workspace.Manager.Broadcasts.{
  enable_broadcast_msg, disable_broadcast_msg, call_rmc, choose_slot,
}

-- The whole data set when neither size nor offset is given, or when the range does not fit.
unfoldable pub constrain_range : (data_size : ℕ) → DataGet → DataGet
constrain_range data_size req =
    let whole : DataGet = record req { offset = 0; size = data_size } in
    let filled : DataGet =
      if req.size == 0 && req.offset == 0 then record req { size = data_size } else req in
    if ltb data_size ((filled.offset + filled.size) % 2 ^ 32) then whole else filled

-- `_LIMIT2` of the period, unless it is 0.
unfoldable pub constrain_period : ℕ → ℕ
constrain_period n =
    if n == 0
    then 0
    else if ltb n min_request_period_ms
    then min_request_period_ms
    else if ltb max_request_period_ms n
    then max_request_period_ms
    else n

-- What a request makes of the message that it takes.
unfoldable pub fill_msg : RegisteredData → (p_handle : ℕ) → DataGet → BroadcastMsg → BroadcastMsg
fill_msg reg p_handle req msg = record msg {
  p_handle = p_handle;
  hdr = record (msg.hdr) { start_byte = psc_start_byte; pid = pid_data; flags = reg.pkt_flags };
  data_hdr = record { id = req.id; size = req.size; offset = req.offset };
  body_hdr_size = 12;
  tx_size = req.size;
  tx_ptr = if reg.tx_ptr == 0 then 0 else reg.tx_ptr + req.offset;
}

-- `preTxFnc`, when there is one.
abbrev pub prepare : Manager → RegisteredData → (p_handle : ℕ) → BroadcastMsg → Prepared
prepare cm reg p_handle msg = elim (reg.pre_tx_fnc) [
  | none ↦ record { send_data = true; data_hdr = msg.data_hdr; memory = cm.memory }
  | some f ↦ f cm.memory p_handle msg.data_hdr
]

-- `sendDataPacket` of a message: its data header is the body header.
unfoldable pub send_msg : Manager → (p_handle : ℕ) → BroadcastMsg → Manager
send_msg cm p_handle msg =
    (send_data_packet cm p_handle (record {
      hdr = msg.hdr;
      body_hdr = if msg.body_hdr_size == 0 then none else some (msg.data_hdr);
      tx_data = bytes cm.memory msg.tx_ptr msg.data_hdr.size;
    })).manager

-- There is room for the message, as far as the manager is told.
unfoldable pub has_room : Manager → (p_handle : ℕ) → (tx_size : ℕ) → Bool
has_room cm p_handle tx_size = elim (cm.tx_free_callback) [
  | none ↦ true
  | some f ↦ leb tx_size (f cm.sent p_handle)
]

-- The end of a request: the message is sent now, and comes into the table as `msg'`.
unfoldable pub answer_request :
    Manager → (p_handle : ℕ) → (slot : ℕ) → (period_multiple : ℕ) → Prepared → BroadcastMsg → Reply
answer_request cm p_handle slot period_multiple prepared msg0 =
    let msg : BroadcastMsg = record msg0 { data_hdr = prepared.data_hdr } in
    let prepared_cm : Manager = record cm { memory = prepared.memory } in
    let room = has_room prepared_cm p_handle msg.tx_size in
    let sent_cm =
      if room && prepared.send_data then send_msg prepared_cm p_handle msg else prepared_cm in
    let enabled = enable_broadcast_msg cm.step_period_milliseconds msg period_multiple in
    let msg' = if ltb 0 period_multiple || not room then enabled else disable_broadcast_msg msg in
    record {
      ok = true;
      manager = record sent_cm {
        broadcast_messages = modify cm.broadcast_messages slot (λ _. msg');
      };
    }

-- A message is taken and filled; DID_REFERENCE_IMU goes no further, and leaves it so.
unfoldable pub take_msg :
    Manager → (p_handle : ℕ) → (slot : ℕ) → DataGet → Option BroadcastMsg → Reply
take_msg cm p_handle slot req none = record { ok = false; manager = cm }
take_msg cm p_handle slot req (some taken) =
    let reg = cm.reg_data req.id in
    let msg = fill_msg reg p_handle req taken in
    let prepared = prepare cm reg p_handle msg in
    if req.id == did_reference_imu
    then record {
      ok = false;
      manager = record cm {
        memory = prepared.memory;
        broadcast_messages =
            modify cm.broadcast_messages slot (λ _. record msg { data_hdr = prepared.data_hdr });
      };
    }
    else answer_request cm p_handle slot (constrain_period req.bc_period_multiple) prepared msg

-- The request after the real-time message control has not taken it.
unfoldable pub request_broadcast : Manager → (p_handle : ℕ) → DataGet → Reply
request_broadcast cm p_handle req0 =
    let req = constrain_range (cm.reg_data req0.id).size req0 in
    let slot = choose_slot p_handle req cm.broadcast_messages in
    take_msg cm p_handle slot req (get_elem? cm.broadcast_messages slot)

abbrev pub unless_handled : (p_handle : ℕ) → DataGet → Bool × Manager → Reply
unless_handled p_handle req (true, cm) = record { ok = true; manager = cm }
unless_handled p_handle req (false, cm) = request_broadcast cm p_handle req

unfoldable pub com_manager_get_data_request : Manager → (p_handle : ℕ) → DataGet → Reply
com_manager_get_data_request cm p_handle req =
    if leb did_count_uins req.id
    then record { ok = false; manager = cm }
    else unless_handled p_handle req (call_rmc cm p_handle req)

unfoldable pub com_manager_register : Manager → (data_id : ℕ) → RegisteredData → Manager
com_manager_register cm data_id reg =
    if leb did_count_uins data_id
    then cm
    else record cm { reg_data = λ id. if id == data_id then reg else cm.reg_data id }

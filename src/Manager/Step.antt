-- ===== src/Manager/Step.antt =====
-- com_manager.c: `stepComManagerSendMessagesInstance`, the periodic sending of messages and retries.
pub mod Stopped
pub mod Due
pub mod Rounds
use rover_workspace.Prelude.{
  ℕ, Bool, true, false, ◌&&◌, Option, none, some, List, [], ◌∷◌, ltb, leb, if◌then◌else◌,
}
use rover_workspace.Prelude.Int.{pos, leb_ℤ, ltb_ℤ, eqb_ℤ, inc_ℤ}
use rover_workspace.Comm.{DataHdr}
use rover_workspace.Manager.{Manager, BroadcastMsg, Prepared, did_count_uins, msg_period_send_once}
use rover_workspace.Manager.Broadcasts.{disable_broadcast_msg}
use rover_workspace.Manager.Retries.{step_packet_retry}
use rover_workspace.Manager.Requests.{prepare, send_msg, has_room}

-- `preTxFnc` is called for the ids of the table only.
unfoldable pub prepare_msg : Manager → BroadcastMsg → Prepared
prepare_msg cm msg =
    if ltb msg.data_hdr.id did_count_uins
    then prepare cm (cm.reg_data msg.data_hdr.id) msg.p_handle msg
    else record { send_data = true; data_hdr = msg.data_hdr; memory = cm.memory }

-- A message whose counter has run out.
unfoldable pub fire_msg : Manager → BroadcastMsg → Manager × BroadcastMsg
fire_msg cm msg0 =
    let prepared = prepare_msg cm msg0 in
    let msg : BroadcastMsg = record msg0 { data_hdr = prepared.data_hdr } in
    let prepared_cm : Manager = record cm { memory = prepared.memory } in
    (if prepared.send_data then send_msg prepared_cm msg.p_handle msg else prepared_cm, msg)

-- One round of the loop, with room for the message.
unfoldable pub step_msg : Manager → BroadcastMsg → Manager × BroadcastMsg
step_msg cm msg =
    if eqb_ℤ msg.period msg_period_send_once
    then (send_msg cm msg.p_handle msg, disable_broadcast_msg msg)
    else if ltb_ℤ (pos 0) msg.period
    then (if leb_ℤ msg.period (inc_ℤ msg.counter)
        then fire_msg cm (record msg { counter = pos 0 })
        else (cm, record msg { counter = inc_ℤ msg.counter }))
    else (cm, msg)

-- The loop ends at the first message that there is no room for.
unfoldable pub step_msgs : Manager → List BroadcastMsg → Manager × List BroadcastMsg
step_msgs cm [] = (cm, [])
step_msgs cm (msg ∷ msgs) =
    let (cm1, msg') = step_msg cm msg in
    let (cm2, msgs') = step_msgs cm1 msgs in
    if has_room cm msg.p_handle msg.tx_size then (cm2, msg' ∷ msgs') else (cm, msg ∷ msgs)

unfoldable pub step_broadcasts : Manager → Manager
step_broadcasts cm =
    let (cm', msgs) = step_msgs cm cm.broadcast_messages in record cm' { broadcast_messages = msgs }

unfoldable pub com_manager_step_tx : Manager → Manager
com_manager_step_tx cm = step_packet_retry (step_broadcasts cm)

-- ===== src/Manager/Broadcasts.antt =====
-- com_manager.c: the table of the messages that are broadcast.
use rover_workspace.Prelude.{
  ℕ, suc, ◌-◌, ◌/◌, Bool, false, ◌&&◌, ◌||◌, Option, none, some, List, [], ◌∷◌, map, length, ltb,
  ◌==◌, if◌then◌else◌,
}
use rover_workspace.Prelude.Int.{ℤ, pos, negsuc, ltb_ℤ, leb_ℤ, eqb_ℤ}
use rover_workspace.Prelude.Memory.{Memory}
use rover_workspace.Manager.{
  Manager, BroadcastMsg, DataGet, msg_period_send_once, msg_period_disabled,
}

unfoldable pub enable_broadcast_msg :
    (step_period_milliseconds : ℕ) → BroadcastMsg → (period_multiple : ℕ) → BroadcastMsg
enable_broadcast_msg step_period_milliseconds msg period_multiple = record msg {
  period =
      if ltb 0 period_multiple
      then pos (period_multiple / step_period_milliseconds)
      else msg_period_send_once;
  counter = negsuc 0;
}

unfoldable pub disable_broadcast_msg : BroadcastMsg → BroadcastMsg
disable_broadcast_msg msg = record msg { period = msg_period_disabled }

-- `pHandle < 0 || bcPtr->pHandle == pHandle`
abbrev pub on_port : ℤ → BroadcastMsg → Bool
on_port p_handle msg = ltb_ℤ p_handle (pos 0) || eqb_ℤ (pos msg.p_handle) p_handle

unfoldable pub com_manager_disable_broadcasts : Manager → (p_handle : ℤ) → Manager
unfolding disable_broadcast_msg
com_manager_disable_broadcasts cm p_handle = record cm {
  broadcast_messages =
      map (λ msg. if on_port p_handle msg then disable_broadcast_msg msg else msg)
        cm.broadcast_messages;
}

-- The handler of the real-time message control is asked to stop the data too.
abbrev pub ask_rmc :
    Option (Memory → (p_handle : ℕ) → DataGet → Bool × Memory)
    → Manager
    → (p_handle : ℕ) → DataGet
    → Bool × Manager
ask_rmc none cm p_handle req = (false, cm)
ask_rmc (some f) cm p_handle req =
    let (handled, m) = f cm.memory p_handle req in (handled, record cm { memory = m })

abbrev pub call_rmc : Manager → (p_handle : ℕ) → DataGet → Bool × Manager
call_rmc cm = ask_rmc cm.msg_handler_rmc cm

unfoldable pub disable_did_broadcast : Manager → (p_handle id : ℕ) → Manager
unfolding disable_broadcast_msg
disable_did_broadcast cm p_handle id =
    let stopped : Manager = record cm {
      broadcast_messages =
          map
            (λ msg.
              if on_port (pos p_handle) msg && msg.data_hdr.id == id
              then disable_broadcast_msg msg
              else msg)
            cm.broadcast_messages;
    } in
    (call_rmc stopped p_handle (record { id = id; size = 0; offset = 0; bc_period_multiple = 0 })).1

-- The search for a message of the same port, data and range.
abbrev pub same_request : (p_handle : ℕ) → DataGet → BroadcastMsg → Bool
same_request p_handle req msg =
    msg.p_handle == p_handle
    && msg.data_hdr.id == req.id
    && msg.data_hdr.size == req.size
    && msg.data_hdr.offset == req.offset

-- `bcPtr->period <= MSG_PERIOD_DISABLED`
abbrev pub available : BroadcastMsg → Bool
available msg = leb_ℤ msg.period msg_period_disabled

-- The index of the first message that passes a test.
unfoldable pub find_index : (BroadcastMsg → Bool) → List BroadcastMsg → Option ℕ
find_index p [] = none
find_index p (msg ∷ msgs) =
    let rest = find_index p msgs in
    if p msg then some 0 else elim rest [ none ↦ none | some i ↦ some (suc i) ]

-- The message that a request takes: the matching one, else an available one, else the last.
abbrev pub choice : (count : ℕ) → (match free : Option ℕ) → ℕ
choice count (some i) free = i
choice count none (some i) = i
choice count none none = count - 1

unfoldable pub choose_slot : (p_handle : ℕ) → DataGet → List BroadcastMsg → ℕ
choose_slot p_handle req msgs =
    choice (length msgs) (find_index (same_request p_handle req) msgs) (find_index available msgs)

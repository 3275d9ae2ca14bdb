-- ===== src/Manager/Step/Due.antt =====
-- When a message of the table is broadcast.
use rover_workspace.Prelude.{
  ℕ, ◌≤◌, ◌<◌, ◌≡◌, refl, sym, subst, ap, ◌∙◌, inl, inr, Bool, true, Option, none, some, List, [],
  ◌∷◌, ◌++◌, arith, ltb, ◌==◌, if◌then◌else◌, Bool-cases, not-zero, append_assoc,
}
use rover_workspace.Prelude.Int.{pos, inc_ℤ}
use rover_workspace.Prelude.Memory.{Memory, bytes, length-bytes}
use rover_workspace.Packet.{pid_data}
use rover_workspace.Packet.Encode.{wire_flags}
use rover_workspace.Packet.Encode.Frame.{frame}
use rover_workspace.Comm.{DataHdr}
use rover_workspace.Comm.Send.{data_hdr_bytes}
use rover_workspace.Manager.{
  Manager, BroadcastMsg, Sending, Reply, did_count_uins, max_p_data_body_size,
}
use rover_workspace.Manager.Transmit.{send_data_packet, send_with_data_hdr, send_bytes, PktInfo}
use rover_workspace.Manager.Transmit.Frames.{Extends, counted, wire_packet, counted_hdr, port_flags}
use rover_workspace.Manager.Transmit.Delivery.{small_data}
use rover_workspace.Manager.Requests.{send_msg, has_room}
use rover_workspace.Manager.Step.{prepare_msg, fire_msg, step_msg, step_msgs}
use rover_workspace.Manager.Step.Stopped.{Fine, step_msg-Fine, step_msgs-Fine, AllOffOr}

-- A packet of the message among the calls of the callback: the frame of its data header and of the
-- data that a memory has at its pointer, with some counter and flags.
pub record BroadcastOf (enabled : Bool) (memory : Memory) (msg : BroadcastMsg) (sent : List Sending)
    : Type 0 where
  pub counter : ℕ
  pub flags : ℕ
  pub before : List Sending
  pub after : List Sending
  pub is :
      sent
      ≡ before
        ++ record {
          p_handle = msg.p_handle;
          packet =
              frame enabled
                (record (msg.hdr) { counter = counter })
                flags
                (data_hdr_bytes msg.data_hdr.id msg.data_hdr.size msg.data_hdr.offset
                  ++ bytes memory msg.tx_ptr msg.data_hdr.size);
        }
          ∷ after

pub BroadcastOf-Extends :
    (P : ℕ → Type 0) (cm cm' : Manager) (memory : Memory) (msg : BroadcastMsg)
    → BroadcastOf cm.encoding memory msg cm.sent
    → Extends P cm cm'
    → BroadcastOf cm'.encoding memory msg cm'.sent
BroadcastOf-Extends P cm cm' memory msg s x = record {
  counter = s.counter;
  flags = s.flags;
  before = s.before;
  after = s.after ++ x.more;
  is = rw x.encoding (x.sent ∙ (ap (λ l. l ++ x.more) s.is ∙ append_assoc s.before _ x.more));
}

-- What a message in use looks like, with data that fit into one packet.
pub record IsSendable (msg : BroadcastMsg) : Type 0 where
  pub pid : msg.hdr.pid ≡ pid_data
  pub body_hdr : 0 < msg.body_hdr_size
  pub small : msg.data_hdr.size ≤ max_p_data_body_size

abbrev pub Any : ℕ → Type 0
Any p = Unit {0}

msgs-AllOffOr : (msgs : List BroadcastMsg) → AllOffOr Any msgs
msgs-AllOffOr [] = tt
msgs-AllOffOr (msg ∷ msgs) = (inr tt, msgs-AllOffOr msgs)

pub step_msg-Extends : (cm : Manager) (msg : BroadcastMsg) → Extends Any cm (step_msg cm msg).0
unfolding Fine
step_msg-Extends cm msg = (step_msg-Fine Any cm msg (inr tt)).0

pub step_msgs-Extends :
    (cm : Manager) (msgs : List BroadcastMsg) → Extends Any cm (step_msgs cm msgs).0
step_msgs-Extends cm msgs = (step_msgs-Fine Any cm msgs (msgs-AllOffOr msgs)).0

pub room :
    (cm : Manager) (p_handle tx_size : ℕ)
    → cm.tx_free_callback ≡ none
    → has_room cm p_handle tx_size ≡ true
unfolding has_room
room cm p_handle tx_size free = rw free

data_dispatch :
    (cm : Manager) (p_handle : ℕ) (info : PktInfo)
    → cm.send_packet_callback ≡ true
    → info.hdr.pid ≡ pid_data
    → send_data_packet cm p_handle info
      ≡ send_with_data_hdr cm p_handle info.hdr info.body_hdr info.tx_data
unfolding send_data_packet
data_dispatch cm p_handle info callback pid = simp (callback, pid)

-- The packet of a message is sent whole.
send_msg-frame :
    (cm : Manager) (msg : BroadcastMsg)
    → IsSendable msg
    → cm.send_packet_callback ≡ true
    → send_msg cm msg.p_handle msg
      ≡ send_bytes (counted cm msg.p_handle) msg.p_handle (
          wire_packet cm msg.p_handle msg.hdr
            (data_hdr_bytes msg.data_hdr.id msg.data_hdr.size msg.data_hdr.offset
              ++ bytes cm.memory msg.tx_ptr msg.data_hdr.size)
            0)
unfolding send_msg
send_msg-frame cm msg v callback =
    let payload = bytes cm.memory msg.tx_ptr msg.data_hdr.size in
    let body = if msg.body_hdr_size == 0 then none else some (msg.data_hdr) in
    let used : body ≡ some (msg.data_hdr) = simp (not-zero msg.body_hdr_size v.body_hdr) in
    ap (λ (r : Reply). r.manager)
      (data_dispatch cm msg.p_handle (record { hdr = msg.hdr; body_hdr = body; tx_data = payload })
          callback v.pid
        ∙ ap (λ (d : Option DataHdr). send_with_data_hdr cm msg.p_handle msg.hdr d payload) used
        ∙ small_data cm msg.p_handle msg.hdr msg.data_hdr payload callback
            (length-bytes cm.memory msg.tx_ptr msg.data_hdr.size) v.small)

send_msg-BroadcastOf :
    (cm : Manager) (msg : BroadcastMsg)
    → IsSendable msg
    → cm.send_packet_callback ≡ true
    → let cm' = send_msg cm msg.p_handle msg in BroadcastOf cm'.encoding cm.memory msg cm'.sent
send_msg-BroadcastOf cm msg v callback =
    let hdr = counted_hdr cm msg.p_handle msg.hdr in
    subst (λ (r : Manager). BroadcastOf r.encoding cm.memory msg r.sent)
      (sym (send_msg-frame cm msg v callback))
      (record {
        counter = hdr.counter;
        flags = wire_flags hdr (port_flags cm msg.p_handle 0);
        before = cm.sent;
        after = [];
        is = refl;
      })

pub msg_waits :
    (cm : Manager) (msg : BroadcastMsg) (p k : ℕ)
    → msg.period ≡ pos p
    → inc_ℤ msg.counter ≡ pos k
    → k < p
    → step_msg cm msg ≡ (cm, record msg { counter = pos k })
unfolding step_msg
msg_waits cm msg p k period count less = ground arith

msg_fires_is :
    (cm : Manager) (msg : BroadcastMsg) (p : ℕ)
    → msg.period ≡ pos p
    → 0 < p
    → inc_ℤ msg.counter ≡ pos p
    → step_msg cm msg ≡ fire_msg cm (record msg { counter = pos 0 })
unfolding step_msg
msg_fires_is cm msg p period some_p count = ground arith

-- With no callback to prepare the data, they are sent.
fire_msg-send :
    (cm : Manager) (msg : BroadcastMsg)
    → (cm.reg_data msg.data_hdr.id).pre_tx_fnc ≡ none
    → fire_msg cm msg ≡ (send_msg cm msg.p_handle msg, msg)
unfolding fire_msg prepare_msg
fire_msg-send cm msg pre = elim (Bool-cases (ltb msg.data_hdr.id did_count_uins)) [
  | inl known ↦ rw (known, pre)
  | inr unknown ↦ rw unknown
]

pub msg_fires :
    (cm : Manager) (msg : BroadcastMsg) (p : ℕ)
    → IsSendable msg
    → cm.send_packet_callback ≡ true
    → (cm.reg_data msg.data_hdr.id).pre_tx_fnc ≡ none
    → msg.period ≡ pos p
    → 0 < p
    → inc_ℤ msg.counter ≡ pos p
    → BroadcastOf (step_msg cm msg).0.encoding cm.memory msg (step_msg cm msg).0.sent
msg_fires cm msg p v callback pre period some_p count =
    let reset : BroadcastMsg = record msg { counter = pos 0 } in
    let b =
      send_msg-BroadcastOf cm reset (record { pid = v.pid; body_hdr = v.body_hdr; small = v.small })
        callback in
    subst (λ (r : Manager × BroadcastMsg). BroadcastOf r.0.encoding cm.memory msg r.0.sent)
      (sym (msg_fires_is cm msg p period some_p count ∙ fire_msg-send cm reset pre))
      (record {
        counter = b.counter;
        flags = b.flags;
        before = b.before;
        after = b.after;
        is = b.is;
      })

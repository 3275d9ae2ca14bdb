-- ===== src/Manager/Step/Rounds.antt =====
-- The steps until a message of the table is broadcast.
use rover_workspace.Prelude.{
  ℕ, zero, suc, ◌+◌, ◌<◌, ◌≡◌, refl, sym, subst, ap, ◌∙◌, true, none, some, List, [], ◌∷◌, arith,
  get_elem?, take,
}
use rover_workspace.Prelude.Memory.{Memory}
use rover_workspace.Prelude.Int.{pos, inc_ℤ}
use rover_workspace.Manager.{Manager, BroadcastMsg, RegisteredData}
use rover_workspace.Manager.Step.{step_msg, step_msgs, step_broadcasts}
use rover_workspace.Manager.Step.Stopped.{steps_broadcasts}
use rover_workspace.Manager.Step.Due.{
  BroadcastOf, BroadcastOf-Extends, IsSendable, Any, step_msg-Extends, step_msgs-Extends, room,
  msg_waits, msg_fires,
}

step_msgs-wait :
    (cm : Manager) (msgs : List BroadcastMsg) (i p k : ℕ) (msg : BroadcastMsg)
    → cm.tx_free_callback ≡ none
    → get_elem? msgs i ≡ some msg
    → msg.period ≡ pos p
    → inc_ℤ msg.counter ≡ pos k
    → k < p
    → get_elem? (step_msgs cm msgs).1 i ≡ some (record msg { counter = pos k })
unfolding step_msgs
step_msgs-wait cm [] i p k msg free h period count less = absurd (cc h)
step_msgs-wait cm (x ∷ msgs) zero p k msg free h period count less =
    let same : x ≡ msg = cc h in
    let is = msg_waits cm msg p k period count less in
    rw (room cm x.p_handle x.tx_size free) (
      ap some (
        ap (λ (y : BroadcastMsg). (step_msg cm y).1) same
        ∙ ap (λ (r : Manager × BroadcastMsg). r.1) is))
step_msgs-wait cm (x ∷ msgs) (suc i) p k msg free h period count less =
    rw (room cm x.p_handle x.tx_size free) (
      step_msgs-wait (step_msg cm x).0 msgs i p k msg ((step_msg-Extends cm x).tx_free ∙ free) h
        period count less)

-- The memory when the message at a place of a table has its turn, behind those before it
abbrev pub memory_at : Manager → List BroadcastMsg → (i : ℕ) → Memory
memory_at cm msgs i = (step_msgs cm (take i msgs)).0.memory

memory_at-suc :
    (cm : Manager) (x : BroadcastMsg) (msgs : List BroadcastMsg) (i : ℕ)
    → cm.tx_free_callback ≡ none
    → memory_at cm (x ∷ msgs) (suc i) ≡ memory_at (step_msg cm x).0 msgs i
unfolding step_msgs
memory_at-suc cm x msgs i free = ground (arith, room cm x.p_handle x.tx_size free)

step_msgs-fire :
    (cm : Manager) (msgs : List BroadcastMsg) (i p : ℕ) (msg : BroadcastMsg)
    → cm.tx_free_callback ≡ none
    → cm.send_packet_callback ≡ true
    → (cm.reg_data msg.data_hdr.id).pre_tx_fnc ≡ none
    → IsSendable msg
    → get_elem? msgs i ≡ some msg
    → msg.period ≡ pos p
    → 0 < p
    → inc_ℤ msg.counter ≡ pos p
    → let cm' = (step_msgs cm msgs).0 in BroadcastOf cm'.encoding (memory_at cm msgs i) msg cm'.sent
unfolding step_msgs
step_msgs-fire cm [] i p msg free callback pre v h period some_p count = absurd (cc h)
step_msgs-fire cm (x ∷ msgs) zero p msg free callback pre v h period some_p count =
    let same : x ≡ msg = cc h in
    let fired =
      subst
        (λ (y : BroadcastMsg).
          BroadcastOf (step_msg cm y).0.encoding cm.memory msg (step_msg cm y).0.sent)
        (sym same) (msg_fires cm msg p v callback pre period some_p count) in
    rw (room cm x.p_handle x.tx_size free) (
      BroadcastOf-Extends Any (step_msg cm x).0 _ cm.memory msg fired
        (step_msgs-Extends (step_msg cm x).0 msgs))
step_msgs-fire cm (x ∷ msgs) (suc i) p msg free callback pre v h period some_p count =
    let e = step_msg-Extends cm x in
    let pre' =
      subst (λ (f : ℕ → RegisteredData). (f msg.data_hdr.id).pre_tx_fnc ≡ none) (sym e.reg) pre in
    rw (memory_at-suc cm x msgs i free, room cm x.p_handle x.tx_size free)
      (step_msgs-fire (step_msg cm x).0 msgs i p msg (e.tx_free ∙ free) (e.callback ∙ callback) pre'
        v h period some_p count)

-- With a send callback and no callback for the room in the send buffer, a message of the table with
-- period p > 0, the counter k - 1, a filled header, at most MAX_P_DATA_BODY_SIZE data and no
-- callback to prepare them is broadcast when it is due: after n + 1 steps, for k + n = p, the send
-- callback has been given the frame of its data header and of the data at its pointer, with some
-- counter and flags, for its port. The data are those in the memory in the last of these steps, when the
-- messages before it in the table have had their turn.
pub broadcast_due :
    (cm : Manager) (i p k n : ℕ) (msg : BroadcastMsg)
    → cm.tx_free_callback ≡ none
    → cm.send_packet_callback ≡ true
    → (cm.reg_data msg.data_hdr.id).pre_tx_fnc ≡ none
    → IsSendable msg
    → get_elem? cm.broadcast_messages i ≡ some msg
    → msg.period ≡ pos p
    → 0 < p
    → inc_ℤ msg.counter ≡ pos k
    → k + n ≡ p
    → let last = steps_broadcasts n cm in
      let cm' = steps_broadcasts (suc n) cm in
      BroadcastOf cm'.encoding (memory_at last last.broadcast_messages i) msg cm'.sent
unfolding steps_broadcasts step_broadcasts
broadcast_due cm i p k zero msg free callback pre v h period some_p count sum =
    let due : inc_ℤ msg.counter ≡ pos p = count ∙ ap pos (omega arith) in
    step_msgs-fire cm cm.broadcast_messages i p msg free callback pre v h period some_p due
broadcast_due cm i p k (suc n) msg free callback pre v h period some_p count sum =
    let e = step_msgs-Extends cm cm.broadcast_messages in
    let pre' =
      subst (λ (f : ℕ → RegisteredData). (f msg.data_hdr.id).pre_tx_fnc ≡ none) (sym e.reg) pre in
    let b =
      broadcast_due (step_broadcasts cm) i p (suc k) n (record msg { counter = pos k })
        (e.tx_free ∙ free) (e.callback ∙ callback) pre'
        (record { pid = v.pid; body_hdr = v.body_hdr; small = v.small })
        (step_msgs-wait cm cm.broadcast_messages i p k msg free h period count (omega arith)) period
        some_p refl (omega arith) in
    record { counter = b.counter; flags = b.flags; before = b.before; after = b.after; is = b.is }

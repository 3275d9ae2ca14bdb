-- ===== src/Manager/Step/Stopped.antt =====
-- `comManagerDisableBroadcastsInstance`: the ports on which nothing is broadcast from then on.
use rover_workspace.Prelude.{
  ℕ, zero, suc, ◌≡◌, refl, ◌⊎◌, inl, inr, Bool, true, false, ◌||◌, Option, none, some, List, [],
  ◌∷◌, map, if◌then◌else◌, Bool-cases,
}
use rover_workspace.Prelude.Int.{ℤ, pos, eqb_ℤ, ltb_ℤ, leb_ℤ, inc_ℤ}
use rover_workspace.Manager.{Manager, BroadcastMsg, Reply, msg_period_send_once}
use rover_workspace.Manager.Transmit.{send_data_packet, send_with_data_hdr, PktInfo}
use rover_workspace.Packet.{PacketHdr}
use rover_workspace.Comm.{DataHdr}
use rover_workspace.Manager.Transmit.Frames.{
  Extends, Extends-same, Extends-trans, send_packet-Extends, if-Extends,
}
use rover_workspace.Manager.Broadcasts.{
  disable_broadcast_msg, on_port, com_manager_disable_broadcasts,
}
use rover_workspace.Manager.Requests.{send_msg, has_room}
use rover_workspace.Manager.Step.{prepare_msg, fire_msg, step_msg, step_msgs, step_broadcasts}

-- A message is off, or for a port with a property.
abbrev pub OffOr : (ℕ → Type 0) → BroadcastMsg → Type 0
OffOr P msg = (msg.period ≡ pos 0) ⊎ P msg.p_handle

abbrev pub AllOffOr : (ℕ → Type 0) → List BroadcastMsg → Type 0
AllOffOr P [] = Unit {0}
AllOffOr P (msg ∷ msgs) = OffOr P msg × AllOffOr P msgs

module _ (P : ℕ → Type 0) where
  if_reply-Extends :
      (cm : Manager) (r1 r2 : Reply) (b : Bool)
      → Extends P cm r1.manager
      → Extends P cm r2.manager
      → Extends P cm (if b then r1 else r2).manager
  if_reply-Extends cm r1 r2 true e f = e
  if_reply-Extends cm r1 r2 false e f = f

  send_with_data_hdr-Extends :
      (cm : Manager) (p_handle : ℕ) (hdr : PacketHdr) (d : Option DataHdr) (tx_data : List ℕ)
      → P p_handle
      → Extends P cm (send_with_data_hdr cm p_handle hdr d tx_data).manager
  send_with_data_hdr-Extends cm p_handle hdr none tx_data on =
      Extends-same P cm cm refl refl refl refl refl refl refl
  send_with_data_hdr-Extends cm p_handle hdr (some d) tx_data on =
      if_reply-Extends cm (record { ok = false; manager = cm }) _ _
        (Extends-same P cm cm refl refl refl refl refl refl refl)
        (send_packet-Extends P cm p_handle hdr _ 0 on)

  pub send_data_packet-Extends :
      (cm : Manager) (p_handle : ℕ) (msg : PktInfo)
      → P p_handle
      → Extends P cm (send_data_packet cm p_handle msg).manager
  unfolding send_data_packet
  send_data_packet-Extends cm p_handle msg on =
      if_reply-Extends cm (record { ok = false; manager = cm }) _ _
        (Extends-same P cm cm refl refl refl refl refl refl refl)
        (if_reply-Extends cm (send_with_data_hdr cm p_handle msg.hdr msg.body_hdr msg.tx_data) _ _
          (send_with_data_hdr-Extends cm p_handle msg.hdr msg.body_hdr msg.tx_data on)
          (send_packet-Extends P cm p_handle msg.hdr msg.tx_data 0 on))

  pub send_msg-Extends :
      (cm : Manager) (p_handle : ℕ) (msg : BroadcastMsg)
      → P p_handle
      → Extends P cm (send_msg cm p_handle msg)
  unfolding send_msg
  send_msg-Extends cm p_handle msg on = send_data_packet-Extends cm p_handle _ on

  pub fire_msg-Extends :
      (cm : Manager) (msg : BroadcastMsg) → P msg.p_handle → Extends P cm (fire_msg cm msg).0
  unfolding fire_msg
  fire_msg-Extends cm msg on =
      let prepared = prepare_msg cm msg in
      let cm1 : Manager = record cm { memory = prepared.memory } in
      let same = Extends-same P cm cm1 refl refl refl refl refl refl refl in
      if-Extends P cm _ cm1 prepared.send_data
        (Extends-trans same
          (send_msg-Extends cm1 msg.p_handle (record msg { data_hdr = prepared.data_hdr }) on))
        same

  -- A pair of a manager and a message that is fine.
  unfoldable pub Fine : Manager → Manager × BroadcastMsg → Type 0
  Fine cm r = Extends P cm r.0 × OffOr P r.1

  if-Fine :
      (cm : Manager) (r1 r2 : Manager × BroadcastMsg) (b : Bool)
      → (b ≡ true → Fine cm r1)
      → (b ≡ false → Fine cm r2)
      → Fine cm (if b then r1 else r2)
  if-Fine cm r1 r2 true e f = e refl
  if-Fine cm r1 r2 false e f = f refl

  idle : (cm : Manager) (msg : BroadcastMsg) → msg.period ≡ pos 0 → step_msg cm msg ≡ (cm, msg)
  unfolding step_msg
  idle cm msg off = rw off

  pub step_msg-Fine : (cm : Manager) (msg : BroadcastMsg) → OffOr P msg → Fine cm (step_msg cm msg)
  unfolding step_msg Fine disable_broadcast_msg fire_msg
  step_msg-Fine cm msg (inl off) =
      rw (idle cm msg off) (Extends-same P cm cm refl refl refl refl refl refl refl, inl off)
  step_msg-Fine cm msg (inr on) =
      let same = Extends-same P cm cm refl refl refl refl refl refl refl in
      let off : Manager × BroadcastMsg =
        (send_msg cm msg.p_handle msg, disable_broadcast_msg msg) in
      let reset : BroadcastMsg = record msg { counter = pos 0 } in
      let fired = fire_msg cm reset in
      let waits : Manager × BroadcastMsg = (cm, record msg { counter = inc_ℤ msg.counter }) in
      let expired = leb_ℤ msg.period (inc_ℤ msg.counter) in
      let periodic = if expired then fired else waits in
      let is_periodic = ltb_ℤ (pos 0) msg.period in
      if-Fine cm off (if is_periodic then periodic else (cm, msg))
        (eqb_ℤ msg.period msg_period_send_once)
        (λ e. (send_msg-Extends cm msg.p_handle msg on, inl refl))
        (λ e.
          if-Fine cm periodic (cm, msg) is_periodic
            (λ e.
              if-Fine cm fired waits expired (λ e. (fire_msg-Extends cm reset on, inr on))
                (λ e. (same, inr on)))
            (λ e. (same, inr on)))

  -- A round of the loop leaves messages that are off, or for such ports.
  pub step_msgs-Fine :
      (cm : Manager) (msgs : List BroadcastMsg)
      → AllOffOr P msgs
      → Extends P cm (step_msgs cm msgs).0 × AllOffOr P (step_msgs cm msgs).1
  unfolding step_msgs Fine
  step_msgs-Fine cm [] all = (Extends-same P cm cm refl refl refl refl refl refl refl, tt)
  step_msgs-Fine cm (msg ∷ msgs) all =
      let (x, off) = step_msg-Fine cm msg all.0 in
      let (xs, offs) = step_msgs-Fine (step_msg cm msg).0 msgs all.1 in
      elim (Bool-cases (has_room cm msg.p_handle msg.tx_size)) [
        | inl room ↦ rw room (Extends-trans x xs, (off, offs))
        | inr full ↦ rw full (Extends-same P cm cm refl refl refl refl refl refl refl, all)
      ]

-- `stepComManagerSendMessagesInstance` without its retries, `n` times.
unfoldable pub steps_broadcasts : ℕ → Manager → Manager
steps_broadcasts zero cm = cm
steps_broadcasts (suc n) cm = steps_broadcasts n (step_broadcasts cm)

steps_broadcasts-Extends :
    (P : ℕ → Type 0) (n : ℕ) (cm : Manager)
    → AllOffOr P cm.broadcast_messages
    → Extends P cm (steps_broadcasts n cm)
unfolding steps_broadcasts step_broadcasts
steps_broadcasts-Extends P zero cm all = Extends-same P cm cm refl refl refl refl refl refl refl
steps_broadcasts-Extends P (suc n) cm all =
    let (x, offs) = step_msgs-Fine P cm cm.broadcast_messages all in
    let y = steps_broadcasts-Extends P n (step_broadcasts cm) offs in
    let x' : Extends P cm (step_broadcasts cm) = record {
      more = x.more;
      on_ports = x.on_ports;
      sent = x.sent;
      encoding = x.encoding;
      callback = x.callback;
      tx_free = x.tx_free;
      reg = x.reg;
      ensured = x.ensured;
      retry_count = x.retry_count;
    } in
    Extends-trans x' y

-- Not one of the ports that are stopped.
abbrev pub OtherPort : ℤ → ℕ → Type 0
OtherPort p_handle q = (ltb_ℤ p_handle (pos 0) || eqb_ℤ (pos q) p_handle) ≡ false

disabled-AllOffOr :
    (p_handle : ℤ) (msgs : List BroadcastMsg)
    → AllOffOr
        (OtherPort p_handle)
        (map (λ msg. if on_port p_handle msg then disable_broadcast_msg msg else msg) msgs)
unfolding disable_broadcast_msg
disabled-AllOffOr p_handle [] = tt
disabled-AllOffOr p_handle (msg ∷ msgs) = (
  elim (Bool-cases (on_port p_handle msg)) [
    | inl on ↦ rw on (inl refl)
    | inr other ↦ rw other (inr other)
  ],
  disabled-AllOffOr p_handle msgs,
)

-- After `comManagerDisableBroadcastsInstance` for a port, or for all ports (a negative handle), however
-- many times the broadcasts are stepped, and whatever the other callbacks do, every
-- packet that the broadcasts hand to the send callback is for a port that was not stopped:
-- for all ports, none is handed over.
pub disable_broadcasts-Extends :
    (cm : Manager) (p_handle : ℤ) (n : ℕ)
    → let stopped = com_manager_disable_broadcasts cm p_handle in
      Extends (OtherPort p_handle) stopped (steps_broadcasts n stopped)
unfolding com_manager_disable_broadcasts
disable_broadcasts-Extends cm p_handle n =
    steps_broadcasts-Extends (OtherPort p_handle) n (com_manager_disable_broadcasts cm p_handle)
      (disabled-AllOffOr p_handle cm.broadcast_messages)

-- ===== src/Manager/Retries/Run.antt =====
-- What happens to the list of ensured packets, one event after the other.
use rover_workspace.Prelude.{
  ℕ, zero, suc, ◌≡◌, refl, sym, ◌∙◌, inl, inr, Option, none, some, List, [], ◌∷◌, arith, modify,
  Bool-cases, Option-cases,
}
use rover_workspace.Prelude.Int.{pos, ◌≤ℤ◌}
use rover_workspace.Manager.{Manager, EnsuredPkt}
use rover_workspace.Manager.Transmit.{encode_binary_packet, send_packet}
use rover_workspace.Manager.Retries.{
  is_last, step_slot, step_slots, step_packet_retry, register_packet_retry, send_slot,
  com_manager_send_ensured, update_packet_retry_data, update_packet_retry_ack,
}
use rover_workspace.Manager.Retries.Ending.{
  AllLast, IsEnded, step_slot-ensure_retry_count, step_slots-IsEnded, register-IsEnded,
  update_slots-IsEnded, updated-IsEnded,
}

-- An event of the list; the pointers are those of the bodies of packets that come in.
pub data RetryEvent : Type 0 where
  send_ensured : (p_handle pid : ℕ) → (new : List ℕ) → RetryEvent
  step : RetryEvent
  data_received ack_received : (body_ptr : ℕ) → RetryEvent

unfoldable pub retry_event : Manager → RetryEvent → Manager
retry_event cm (send_ensured p_handle pid new) =
    (com_manager_send_ensured cm p_handle pid new).manager
retry_event cm step = step_packet_retry cm
retry_event cm (data_received body_ptr) = update_packet_retry_data cm body_ptr
retry_event cm (ack_received body_ptr) = update_packet_retry_ack cm body_ptr

unfoldable pub retry_events : Manager → List RetryEvent → Manager
retry_events cm [] = cm
retry_events cm (ev ∷ evs) = retry_events (retry_event cm ev) evs

-- What the events keep.
abbrev pub Sound : Manager → Type 0
Sound cm = (pos 0 ≤ℤ cm.ensure_retry_count) × IsEnded cm.ensured_packets

-- A change that leaves the counters as they are.
same_counter-AllLast :
    (f : EnsuredPkt → EnsuredPkt) (es : List EnsuredPkt) (i : ℕ)
    → ((e : EnsuredPkt) → is_last (f e) ≡ is_last e)
    → AllLast es
    → AllLast (modify es i f)
same_counter-AllLast f [] i h v = tt
same_counter-AllLast f (e ∷ es) zero h v = (h e ∙ v.0, v.1)
same_counter-AllLast f (e ∷ es) (suc i) h v = (v.0, same_counter-AllLast f es i h v.1)

same_counter-IsEnded :
    (f : EnsuredPkt → EnsuredPkt) (es : List EnsuredPkt) (i : ℕ)
    → ((e : EnsuredPkt) → is_last (f e) ≡ is_last e)
    → IsEnded es
    → IsEnded (modify es i f)
same_counter-IsEnded f [] i h v = tt
same_counter-IsEnded f (e ∷ es) zero h v = (λ l. v.0 (sym (h e) ∙ l), v.1)
same_counter-IsEnded f (e ∷ es) (suc i) h v =
    (λ l. same_counter-AllLast f es i h (v.0 l), same_counter-IsEnded f es i h v.1)

pub step_slots-ensure_retry_count :
    (cm : Manager) (es : List EnsuredPkt)
    → (step_slots cm es).0.ensure_retry_count ≡ cm.ensure_retry_count
unfolding step_slots
step_slots-ensure_retry_count cm [] = refl
step_slots-ensure_retry_count cm (e ∷ es) = elim (Bool-cases (is_last e)) [
  | inl last ↦ rw last
  | inr more ↦
      rw more
        (step_slots-ensure_retry_count (step_slot cm e).0 es ∙ step_slot-ensure_retry_count cm e)
]

send_packet-ensure_retry_count :
    (cm : Manager) (p_handle : ℕ) (e : EnsuredPkt) (body : List ℕ)
    → (send_packet cm p_handle e.hdr body 0).manager.ensure_retry_count ≡ cm.ensure_retry_count
unfolding send_packet encode_binary_packet
send_packet-ensure_retry_count cm p_handle e body = ground arith

send_slot-Sound :
    (cm : Manager) (p_handle i : ℕ) (o : Option EnsuredPkt)
    → Sound cm
    → Sound (send_slot cm p_handle i o).manager
unfolding send_slot
send_slot-Sound cm p_handle i none v = v
send_slot-Sound cm p_handle i (some e) v = (
  rw (send_packet-ensure_retry_count cm p_handle e _) v.0,
  same_counter-IsEnded _ cm.ensured_packets i (λ e. refl) v.1,
)

register-ensure_retry_count :
    (cm : Manager) (p_handle pid : ℕ) (new : List ℕ)
    → (register_packet_retry cm p_handle pid new).manager.ensure_retry_count ≡ cm.ensure_retry_count
unfolding register_packet_retry
register-ensure_retry_count cm p_handle pid new = ground arith

send_ensured-Sound :
    (cm : Manager) (p_handle pid : ℕ) (new : List ℕ)
    → Sound cm
    → Sound (com_manager_send_ensured cm p_handle pid new).manager
unfolding com_manager_send_ensured
send_ensured-Sound cm p_handle pid new v =
    let r = register_packet_retry cm p_handle pid new in
    let kept : Sound r.manager = (
      rw (register-ensure_retry_count cm p_handle pid new) v.0,
      register-IsEnded cm p_handle pid new v.0 v.1,
    ) in
    elim (Option-cases (r.slot)) [
      | inl refused ↦ rw refused kept
      | inr (i, found) ↦ rw found (send_slot-Sound r.manager p_handle i _ kept)
    ]

pub retry_event-Sound : (cm : Manager) (ev : RetryEvent) → Sound cm → Sound (retry_event cm ev)
unfolding retry_event step_packet_retry update_packet_retry_data update_packet_retry_ack
retry_event-Sound cm (send_ensured p_handle pid new) v = send_ensured-Sound cm p_handle pid new v
retry_event-Sound cm step v = (
  rw (step_slots-ensure_retry_count cm cm.ensured_packets) v.0,
  step_slots-IsEnded cm cm.ensured_packets v.0 v.1,
)
retry_event-Sound cm (data_received body_ptr) v =
    (v.0, updated-IsEnded _ (update_slots-IsEnded _ cm.ensured_packets (λ e h. ground arith) v.1))
retry_event-Sound cm (ack_received body_ptr) v =
    (v.0, updated-IsEnded _ (update_slots-IsEnded _ cm.ensured_packets (λ e h. ground arith) v.1))

-- From a list of ensured packets in which only slots with -2 follow a slot with -2, and with a retry
-- count of 0 or more, any sequence of ensured sends, steps and received data and
-- acknowledgements leads to such a list again.
pub retry_events-IsEnded :
    (cm : Manager) (evs : List RetryEvent)
    → pos 0 ≤ℤ cm.ensure_retry_count
    → IsEnded cm.ensured_packets
    → IsEnded (retry_events cm evs).ensured_packets
unfolding retry_events
retry_events-IsEnded cm [] count v = v
retry_events-IsEnded cm (ev ∷ evs) count v =
    let next = retry_event-Sound cm ev (count, v) in
    retry_events-IsEnded (retry_event cm ev) evs next.0 next.1

-- ===== src/Manager/Retries/Answered.antt =====
-- The slots that an acknowledgement ends.
use rover_workspace.Prelude.{
  ℕ, ◌+◌, ◌≡◌, refl, ap, ◌∙◌, inl, inr, Bool, true, false, not, ◌&&◌, ◌||◌, ◌==◌, ◌%◌, ◌^◌, List,
  [], ◌∷◌, arith, Bool-cases,
}
use rover_workspace.Prelude.Int.{eqb_ℤ}
use rover_workspace.Prelude.Memory.{load32}
use rover_workspace.Packet.{pid_set_data}
use rover_workspace.Comm.{DataHdr}
use rover_workspace.Manager.{Manager, EnsuredPkt, load_data_hdr, retry_disabled}
use rover_workspace.Manager.Retries.{
  is_last, is_enabled, update_slots, mark_end, updated, answer_ack, word_at,
  update_packet_retry_ack,
}
use rover_workspace.Manager.Retries.Ending.{AllLast, IsEnded}

-- The packet of a slot is the one that an acknowledgement is for: the same packet id, and for
-- PID_SET_DATA the same data header.
abbrev pub is_for : (pkt_info : ℕ) → DataHdr → EnsuredPkt → Bool
is_for pkt_info d e =
    pkt_info == e.hdr.pid
    && (not (pkt_info % 2 ^ 8 == pid_set_data)
        || word_at e.pkt_body 0 == d.id
          && word_at e.pkt_body 4 == d.size
          && word_at e.pkt_body 8 == d.offset)

-- No slot of the list is enabled for such a packet.
abbrev pub NoneFor : (pkt_info : ℕ) → DataHdr → List EnsuredPkt → Type 0
NoneFor pkt_info d [] = Unit {0}
NoneFor pkt_info d (e ∷ es) =
    ((is_enabled e && is_for pkt_info d e) ≡ false) × NoneFor pkt_info d es

last-NoneFor :
    (pkt_info : ℕ) (d : DataHdr) (es : List EnsuredPkt) → AllLast es → NoneFor pkt_info d es
last-NoneFor pkt_info d [] all = tt
last-NoneFor pkt_info d (e ∷ es) all =
    let last = all.0 in (ground arith, last-NoneFor pkt_info d es all.1)

and_false : (b : Bool) → (b && false) ≡ false
and_false true = refl
and_false false = refl

disabled_off : (e : EnsuredPkt) → eqb_ℤ e.counter retry_disabled ≡ true → is_enabled e ≡ false
disabled_off e h = ground arith

answer_ack-off :
    (pkt_info : ℕ) (d : DataHdr) (e : EnsuredPkt)
    → (is_enabled (answer_ack pkt_info d e) && is_for pkt_info d (answer_ack pkt_info d e)) ≡ false
answer_ack-off pkt_info d e = elim (Bool-cases (eqb_ℤ e.counter retry_disabled)) [
  | inl off ↦ rw (off, disabled_off e off)
  | inr on ↦ elim (Bool-cases (is_for pkt_info d e)) [
    | inl mine ↦ rw (on, mine)
    | inr other ↦
        let none_of_it = ap (λ b. is_enabled e && b) other ∙ and_false (is_enabled e) in
        rw (on, other) none_of_it
  ]
]

update_slots-NoneFor :
    (pkt_info : ℕ) (d : DataHdr) (es : List EnsuredPkt)
    → IsEnded es
    → NoneFor pkt_info d (update_slots (answer_ack pkt_info d) es).1
unfolding update_slots
update_slots-NoneFor pkt_info d [] v = tt
update_slots-NoneFor pkt_info d (e ∷ es) v = elim (Bool-cases (is_last e)) [
  | inl last ↦ rw last (last-NoneFor pkt_info d (e ∷ es) (last, v.0 last))
  | inr more ↦ rw more (answer_ack-off pkt_info d e, update_slots-NoneFor pkt_info d es v.1)
]

mark_end-NoneFor :
    (pkt_info : ℕ) (d : DataHdr) (es : List EnsuredPkt)
    → NoneFor pkt_info d es
    → NoneFor pkt_info d (mark_end es).1
unfolding mark_end
mark_end-NoneFor pkt_info d [] h = tt
mark_end-NoneFor pkt_info d (e ∷ es) h =
    let rest = mark_end-NoneFor pkt_info d es h.1 in
    elim (Bool-cases ((mark_end es).0 && not (is_enabled e))) [
      | inl go ↦ rw go (refl, rest)
      | inr stop ↦ rw stop (h.0, rest)
    ]

updated-NoneFor :
    (pkt_info : ℕ) (d : DataHdr) (r : Bool × List EnsuredPkt)
    → NoneFor pkt_info d r.1
    → NoneFor pkt_info d (updated r)
updated-NoneFor pkt_info d (true, es) h = h
updated-NoneFor pkt_info d (false, es) h = mark_end-NoneFor pkt_info d es h

-- Where only slots with -2 follow a slot with -2, `updatePacketRetryAck` leaves no enabled retry of a packet
-- that the acknowledgement is for: of the packet id that it names, and for PID_SET_DATA with the data
-- header that it repeats.
pub update_ack-NoneFor :
    (cm : Manager) (body_ptr : ℕ)
    → IsEnded cm.ensured_packets
    → NoneFor
        (load32 cm.memory body_ptr)
        (load_data_hdr cm.memory (body_ptr + 8))
        (update_packet_retry_ack cm body_ptr).ensured_packets
unfolding update_packet_retry_ack
update_ack-NoneFor cm body_ptr v =
    updated-NoneFor _ _ _ (update_slots-NoneFor _ _ cm.ensured_packets v)

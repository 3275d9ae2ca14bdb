-- ===== src/Manager/Retries/Resend.antt =====
-- `stepPacketRetry`: which slots it reaches, and when a packet is sent again.
use rover_workspace.Prelude.{
  ℕ, zero, suc, ◌≤◌, ◌≡◌, refl, ap, ◌∙◌, inl, inr, Bool, true, false, some, List, [], ◌∷◌, ◌++◌,
  arith, length, get_elem?, if◌then◌else◌, Bool-cases, append_assoc,
}
use rover_workspace.Prelude.Int.{pos, ◌≤ℤ◌}
use rover_workspace.Packet.{max_pkt_body_size}
use rover_workspace.Packet.Encode.{wire_flags}
use rover_workspace.Packet.Encode.Frame.{frame}
use rover_workspace.Manager.{Manager, EnsuredPkt, Sending}
use rover_workspace.Manager.Transmit.Frames.{
  counted_hdr, port_flags, send_packet-frame, Extends, Extends-same, Extends-trans,
  send_packet-Extends,
}
use rover_workspace.Manager.Retries.{
  is_last, is_enabled, body_of, step_slot, step_slots, step_packet_retry,
}
use rover_workspace.Manager.Retries.Ending.{AllLast, IsEnded, step_slots-IsEnded}
use rover_workspace.Manager.Retries.Run.{step_slots-ensure_retry_count}

-- Every slot is stepped, with no early return.
unfoldable pub step_every_slot : Manager → List EnsuredPkt → Manager × List EnsuredPkt
step_every_slot cm [] = (cm, [])
step_every_slot cm (e ∷ es) =
    let (cm1, e1) = step_slot cm e in let (cm2, es2) = step_every_slot cm1 es in (cm2, e1 ∷ es2)

last_slot : (cm : Manager) (e : EnsuredPkt) → is_last e ≡ true → step_slot cm e ≡ (cm, e)
unfolding step_slot
last_slot cm e last = ground arith

last_slots : (cm : Manager) (es : List EnsuredPkt) → AllLast es → step_every_slot cm es ≡ (cm, es)
unfolding step_every_slot
last_slots cm [] all = refl
last_slots cm (e ∷ es) all = rw (last_slot cm e all.0, last_slots cm es all.1)

step_slots-every :
    (cm : Manager) (es : List EnsuredPkt) → IsEnded es → step_slots cm es ≡ step_every_slot cm es
unfolding step_slots step_every_slot
step_slots-every cm [] v = refl
step_slots-every cm (e ∷ es) v = elim (Bool-cases (is_last e)) [
  | inl last ↦ rw last (rw (last_slot cm e last, last_slots cm es (v.0 last)) refl)
  | inr more ↦ rw (more, step_slots-every (step_slot cm e).0 es v.1)
]

-- Where only slots with -2 follow a slot with -2, the early return of `stepPacketRetry` skips
-- nothing: the step is the one that visits every slot, with the same packets sent in the same
-- order and the same slots left.
pub step_packet_retry-every :
    (cm : Manager)
    → IsEnded cm.ensured_packets
    → step_packet_retry cm ≡ (
        let (cm', es) = step_every_slot cm cm.ensured_packets in
        record cm' { ensured_packets = es })
unfolding step_packet_retry
step_packet_retry-every cm v =
    ap (λ (r : Manager × List EnsuredPkt). record (r.0) { ensured_packets = r.1 })
      (step_slots-every cm cm.ensured_packets v)

-- Any port.
abbrev Any : ℕ → Type 0
Any p = Unit {0}

if_slot-Extends :
    (cm : Manager) (r1 r2 : Manager × EnsuredPkt) (b : Bool)
    → Extends Any cm r1.0
    → Extends Any cm r2.0
    → Extends Any cm (if b then r1 else r2).0
if_slot-Extends cm r1 r2 true p q = p
if_slot-Extends cm r1 r2 false p q = q

step_slot-Extends : (cm : Manager) (e : EnsuredPkt) → Extends Any cm (step_slot cm e).0
unfolding step_slot
step_slot-Extends cm e =
    let s = send_packet-Extends Any cm e.p_handle e.hdr (body_of e) 0 tt in
    let same = Extends-same Any cm cm refl refl refl refl refl refl refl in
    if_slot-Extends cm _ _ (is_enabled e) (if_slot-Extends cm _ _ _ s same) same

step_slots-Extends : (cm : Manager) (es : List EnsuredPkt) → Extends Any cm (step_slots cm es).0
unfolding step_slots
step_slots-Extends cm [] = Extends-same Any cm cm refl refl refl refl refl refl refl
step_slots-Extends cm (e ∷ es) = elim (Bool-cases (is_last e)) [
  | inl last ↦ rw last (Extends-same Any cm cm refl refl refl refl refl refl refl)
  | inr more ↦
      rw more (Extends-trans (step_slot-Extends cm e) (step_slots-Extends (step_slot cm e).0 es))
]

AllLast-get :
    (es : List EnsuredPkt) (i : ℕ) (e : EnsuredPkt)
    → AllLast es
    → get_elem? es i ≡ some e
    → is_last e ≡ true
AllLast-get [] i e all h = absurd (cc h)
AllLast-get (x ∷ es) zero e all h = let same : x ≡ e = cc h in rw same at all.0
AllLast-get (x ∷ es) (suc i) e all h = AllLast-get es i e all.1 h

-- A slot that stands before an enabled one is not the end.
before_enabled :
    (x : EnsuredPkt) (es : List EnsuredPkt) (i n : ℕ) (e : EnsuredPkt)
    → IsEnded (x ∷ es)
    → get_elem? es i ≡ some e
    → e.counter ≡ pos n
    → is_last x ≡ false
before_enabled x es i n e v h count = elim (Bool-cases (is_last x)) [
  | inr more ↦ more
  | inl last ↦ let l = AllLast-get es i e (v.0 last) h in absurd (ground arith)
]

slot_waits :
    (cm : Manager) (e : EnsuredPkt) (k : ℕ)
    → e.counter ≡ pos (suc (suc k))
    → (is_last e ≡ false) × ((step_slot cm e).1 ≡ record e { counter = pos (suc k) })
unfolding step_slot
slot_waits cm e k count = ground arith

-- A counter above 1 is counted down, and nothing else of the slot changes.
step_slots-wait :
    (cm : Manager) (es : List EnsuredPkt) (i k : ℕ) (e : EnsuredPkt)
    → IsEnded es
    → get_elem? es i ≡ some e
    → e.counter ≡ pos (suc (suc k))
    → get_elem? (step_slots cm es).1 i ≡ some (record e { counter = pos (suc k) })
unfolding step_slots
step_slots-wait cm [] i k e v h count = absurd (cc h)
step_slots-wait cm (x ∷ es) zero k e v h count =
    let same : x ≡ e = cc h in let (more, next) = slot_waits cm e k count in rw (same, more, next)
step_slots-wait cm (x ∷ es) (suc i) k e v h count =
    let more = before_enabled x es i _ e v h count in
    rw more (step_slots-wait (step_slot cm x).0 es i k e v.1 h count)

-- A packet of the slot among the calls of the callback: its frame, with some counter and flags.
pub record SentOf (enabled : Bool) (e : EnsuredPkt) (sent : List Sending) : Type 0 where
  pub counter : ℕ
  pub flags : ℕ
  pub before : List Sending
  pub after : List Sending
  pub is :
      sent
      ≡ before
        ++ record {
          p_handle = e.p_handle;
          packet = frame enabled (record (e.hdr) { counter = counter }) flags (body_of e);
        }
          ∷ after

SentOf-Extends :
    (cm cm' : Manager) (e : EnsuredPkt)
    → SentOf cm.encoding e cm.sent
    → Extends Any cm cm'
    → SentOf cm'.encoding e cm'.sent
SentOf-Extends cm cm' e s x = record {
  counter = s.counter;
  flags = s.flags;
  before = s.before;
  after = s.after ++ x.more;
  is = rw x.encoding (x.sent ∙ (ap (λ l. l ++ x.more) s.is ∙ append_assoc s.before _ x.more));
}

slot_fires :
    (cm : Manager) (e : EnsuredPkt)
    → e.counter ≡ pos 1
    → cm.send_packet_callback ≡ true
    → length (body_of e) ≤ max_pkt_body_size
    → (is_last e ≡ false) × SentOf (step_slot cm e).0.encoding e (step_slot cm e).0.sent
unfolding step_slot
slot_fires cm e count callback small =
    let hdr = counted_hdr cm e.p_handle e.hdr in
    (
      ground arith,
      rw (count, send_packet-frame cm e.p_handle e.hdr (body_of e) 0 small callback)
          (record {
            counter = hdr.counter;
            flags = wire_flags hdr (port_flags cm e.p_handle 0);
            before = cm.sent;
            after = [];
            is = refl;
          }),
    )

step_slots-fire :
    (cm : Manager) (es : List EnsuredPkt) (i : ℕ) (e : EnsuredPkt)
    → IsEnded es
    → get_elem? es i ≡ some e
    → e.counter ≡ pos 1
    → cm.send_packet_callback ≡ true
    → length (body_of e) ≤ max_pkt_body_size
    → SentOf (step_slots cm es).0.encoding e (step_slots cm es).0.sent
unfolding step_slots
step_slots-fire cm [] i e v h count callback small = absurd (cc h)
step_slots-fire cm (x ∷ es) zero e v h count callback small =
    let same : x ≡ e = cc h in
    let (more, fired) = slot_fires cm e count callback small in
    rw (same, more)
      (SentOf-Extends (step_slot cm e).0 _ e fired (step_slots-Extends (step_slot cm e).0 es))
step_slots-fire cm (x ∷ es) (suc i) e v h count callback small =
    let more = before_enabled x es i _ e v h count in
    let x_step = step_slot-Extends cm x in
    rw more
      (step_slots-fire (step_slot cm x).0 es i e v.1 h count (x_step.callback ∙ callback) small)

-- `stepPacketRetry`, again and again.
unfoldable pub step_packet_retries : ℕ → Manager → Manager
step_packet_retries zero cm = cm
step_packet_retries (suc n) cm = step_packet_retries n (step_packet_retry cm)

-- In a list of ensured packets where only slots with -2 follow a slot with -2, with a send callback
-- and a retry count of 0 or more, a slot whose counter is n + 1, with a body of at most
-- MAX_PKT_BODY_SIZE bytes, has been sent again after n + 1 steps with nothing received: the
-- callback has been given the frame of its packet id and body, for its port.
pub retry_resent :
    (cm : Manager) (i n : ℕ) (e : EnsuredPkt)
    → pos 0 ≤ℤ cm.ensure_retry_count
    → IsEnded cm.ensured_packets
    → cm.send_packet_callback ≡ true
    → get_elem? cm.ensured_packets i ≡ some e
    → e.counter ≡ pos (suc n)
    → length (body_of e) ≤ max_pkt_body_size
    → let cm' = step_packet_retries (suc n) cm in SentOf cm'.encoding e cm'.sent
unfolding step_packet_retries step_packet_retry
retry_resent cm i zero e count_ok v callback h count small =
    step_slots-fire cm cm.ensured_packets i e v h count callback small
retry_resent cm i (suc n) e count_ok v callback h count small =
    let es = cm.ensured_packets in
    let x = step_slots-Extends cm es in
    let r =
      retry_resent (step_packet_retry cm) i n (record e { counter = pos (suc n) })
        (rw (step_slots-ensure_retry_count cm es) count_ok) (step_slots-IsEnded cm es count_ok v)
        (x.callback ∙ callback) (step_slots-wait cm es i n e v h count) refl small in
    record { counter = r.counter; flags = r.flags; before = r.before; after = r.after; is = r.is }

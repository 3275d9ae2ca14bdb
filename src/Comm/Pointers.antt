-- ===== src/Comm/Pointers.antt =====
-- What the parser does to the pointers of the receive buffer.
use rover_workspace.Prelude.{
  ℕ, zero, suc, ◌+◌, ◌-◌, ◌≤◌, ◌<◌, ◌≡◌, ◌≢◌, refl, sym, ap, ◌∙◌, Bool, true, false, not, ◌||◌,
  none, some, ◌⊎◌, inl, inr, arith, ltb, ◌==◌, if◌then◌else◌, Bool-cases, Option-cases, ltb→lt,
  not-ltb→le,
}
use rover_workspace.Prelude.Int.{eqb_ℤ}
use rover_workspace.Prelude.Memory.{Memory}
use rover_workspace.Packet.{
  psc_start_byte, psc_end_byte, psc_ascii_start_byte, psc_ascii_end_byte, ublox_start_byte1,
  rtcm3_start_byte,
}
use rover_workspace.Packet.Decode.{Decoded}
use rover_workspace.Comm.{Protocol, ptype_none, Comm, minus_one}
use rover_workspace.Comm.Packets.{
  parse_error, reset_parser, process_pid, switch_pid, handle_decoded, process_inertial_sense_pkt,
  process_ascii_pkt, process_ublox_byte, ublox_end, process_rtcm3_byte, rtcm3_end,
}
use rover_workspace.Comm.Parse.{
  Round, process_byte, parse_round, parse_loop, give_up, is_comm_parse_timeout, finish, starts,
  returns_unless_none, returns, goes_on,
}

-- The bytes from `head` to `scan` have been looked at, and those up to `tail` have come in. A message
-- that has begun stands at `head`.
pub record InOrder (c : Comm) : Type 0 where
  pub ends : c.buf.end_ptr ≡ c.buf.start + c.buf.size
  pub head_low : c.buf.start ≤ c.buf.head
  pub head_scan : c.buf.head ≤ c.buf.scan
  pub scan_tail : c.buf.scan ≤ c.buf.tail
  pub tail_end : c.buf.tail ≤ c.buf.end_ptr
  pub begun : (c.has_start_byte ≡ 0) ⊎ (c.buf.head < c.buf.tail)

-- What the handling of a byte does to the buffer: the head stays or moves up to the scan.
record Settles (c c' : Comm) : Type 0 where
  start : c'.buf.start ≡ c.buf.start
  end_ptr : c'.buf.end_ptr ≡ c.buf.end_ptr
  size : c'.buf.size ≡ c.buf.size
  tail : c'.buf.tail ≡ c.buf.tail
  scan : c'.buf.scan ≡ c.buf.scan
  head : (c'.buf.head ≡ c.buf.head) ⊎ (c'.buf.head ≡ c.buf.scan)
  begun : (c'.has_start_byte ≡ 0) ⊎ (c'.buf.head ≡ c.buf.head)

Settles-InOrder : {c c' : Comm} → Settles c c' → InOrder c → c.buf.head < c.buf.scan → InOrder c'
Settles-InOrder s v h = record {
  ends = omega (arith, s.start, s.end_ptr, s.size, v.ends);
  head_low = ground (arith, s.start, s.head, v.head_low);
  head_scan = ground (arith, s.scan, s.head);
  scan_tail = omega (arith, s.scan, s.tail, v.scan_tail);
  tail_end = omega (arith, s.end_ptr, s.tail, v.tail_end);
  begun = ground (arith, s.begun, s.scan, s.tail, v.scan_tail);
}

pid-Settles : (m : Memory) (c : Comm) → Settles c (process_pid m c).1
unfolding process_pid switch_pid
pid-Settles m c = ground arith

ascii-Settles : (m : Memory) (c : Comm) → Settles c (process_ascii_pkt m c).1
unfolding process_ascii_pkt reset_parser
ascii-Settles m c = ground arith

ublox-Settles : (m : Memory) (c : Comm) → Settles c (process_ublox_byte m c).1
unfolding process_ublox_byte ublox_end reset_parser
ublox-Settles m c = ground arith

rtcm3-Settles : (m : Memory) (c : Comm) → Settles c (process_rtcm3_byte m c).1
unfolding process_rtcm3_byte rtcm3_end reset_parser
rtcm3-Settles m c = ground arith

-- Only the head and the start byte differ between the instances before and after the reset.
decoded-Settles :
    (c : Comm) (pkt_ptr : ℕ) (d : Decoded)
    → Settles c (handle_decoded (reset_parser (record c { pkt_ptr = pkt_ptr })) d).2
unfolding handle_decoded process_pid switch_pid reset_parser
decoded-Settles c pkt_ptr d = ground arith

isb-Settles : (m : Memory) (c : Comm) → Settles c (process_inertial_sense_pkt m c).2
unfolding process_inertial_sense_pkt
isb-Settles m c = decoded-Settles c c.buf.head _

-- A round that settles; its result is never _PTYPE_NONE.
record SettlesIn (c : Comm) (r : Round) : Type 0 where
  settles : Settles c r.comm
  definite : r.ptype ≢ some ptype_none

some_ne : {p : Protocol} → p ≢ ptype_none → some p ≢ some ptype_none
some_ne ne e = ne (cc e)

returned :
    {c : Comm} (m : Memory) (r : Protocol × Comm)
    → Settles c r.1
    → r.0 ≢ ptype_none
    → SettlesIn c (returns m r)
returned m (p, c') s ne = record { settles = s; definite = some_ne ne }

isb-definite : (m : Memory) (c : Comm) → (process_inertial_sense_pkt m c).0 ≢ ptype_none
unfolding process_inertial_sense_pkt handle_decoded process_pid switch_pid
isb-definite m c e = ground arith

ascii-definite : (m : Memory) (c : Comm) → (process_ascii_pkt m c).0 ≢ ptype_none
unfolding process_ascii_pkt
ascii-definite m c e = ground arith

unless_none-Settles :
    {c : Comm} (m : Memory) (r : Protocol × Comm)
    → Settles c r.1
    → SettlesIn c (returns_unless_none m r)
unless_none-Settles {c} m (p, c') s =
    elim p as (λ (k : Protocol). SettlesIn c (returns_unless_none m (k, c'))) [
      | ptype_none ↦ record { settles = s; definite = λ e. cc e }
      | _ ↦ record { settles = s; definite = λ e. cc e }
    ]

either-Settles :
    {c : Comm} (test : Bool) (x y : Round)
    → SettlesIn c x
    → SettlesIn c y
    → SettlesIn c (if test then x else y)
either-Settles true x y s t = s
either-Settles false x y s t = t

byte-Settles : (m : Memory) (c : Comm) (byte : ℕ) → SettlesIn c (process_byte m c byte)
unfolding process_byte
byte-Settles m c byte =
    let same : Settles c c = ground arith in
    let stay : SettlesIn c (goes_on m c) = record { settles = same; definite = λ e. cc e } in
    let invalid = parse_error (record c { has_start_byte = 0; parse_state = minus_one }) in
    let binary =
      either-Settles (byte == psc_end_byte) _ _
        (returned (process_inertial_sense_pkt m c).1
          ((process_inertial_sense_pkt m c).0, (process_inertial_sense_pkt m c).2) (isb-Settles m c)
          (isb-definite m c))
        stay in
    let bad =
      either-Settles (byte == psc_start_byte || byte == psc_end_byte || byte == 0) _ _
        (returned m invalid (ground arith) (λ e. cc e)) stay in
    let ascii =
      either-Settles (byte == psc_ascii_end_byte) _ _
        (returned m (process_ascii_pkt m c) (ascii-Settles m c) (ascii-definite m c)) bad in
    let rtcm3 =
      either-Settles (c.has_start_byte == rtcm3_start_byte) _ _
        (unless_none-Settles m (process_rtcm3_byte m c) (rtcm3-Settles m c)) stay in
    let ublox =
      either-Settles (c.has_start_byte == ublox_start_byte1) _ _
        (unless_none-Settles m (process_ublox_byte m c) (ublox-Settles m c)) rtcm3 in
    either-Settles (c.has_start_byte == psc_start_byte) _ _ binary
      (either-Settles (c.has_start_byte == psc_ascii_start_byte) _ _ ascii ublox)

-- What a round does to the pointers.
record Advances (c : Comm) (r : Round) : Type 0 where
  order : InOrder r.comm
  tail : r.comm.buf.tail ≡ c.buf.tail
  size : r.comm.buf.size ≡ c.buf.size
  scanned : r.ptype ≡ none → r.comm.buf.scan ≡ c.buf.scan + 1
  definite : r.ptype ≢ some ptype_none

either-Advances :
    {c : Comm} (test : Bool) (x y : Round)
    → (test ≡ true → Advances c x)
    → (test ≡ false → Advances c y)
    → Advances c (if test then x else y)
either-Advances true x y s t = s refl
either-Advances false x y s t = t refl

byte-Advances :
    (m : Memory) (c c1 : Comm) (byte : ℕ)
    → InOrder c1
    → c1.buf.head < c1.buf.scan
    → c1.buf.scan ≡ c.buf.scan + 1
    → c1.buf.tail ≡ c.buf.tail
    → c1.buf.size ≡ c.buf.size
    → Advances c (process_byte m c1 byte)
byte-Advances m c c1 byte v h e e' e'' =
    let done = byte-Settles m c1 byte in
    let s = done.settles in
    record {
      definite = done.definite;
      order = Settles-InOrder s v h;
      tail = s.tail ∙ e';
      size = s.size ∙ e'';
      scanned = λ _. s.scan ∙ e;
    }

round-Advances :
    (m : Memory) (c : Comm) → InOrder c → c.buf.scan < c.buf.tail → Advances c (parse_round m c)
unfolding parse_round
round-Advances m c v h =
    either-Advances (c.has_start_byte == 0) _ _
      (λ idle.
        either-Advances (starts c.config (m c.buf.scan)) _ _
          (λ _. byte-Advances m c _ _ (ground arith) (omega arith) refl refl refl)
          (λ _.
            either-Advances (not (eqb_ℤ c.parse_state minus_one)) _ _
              (λ _. record {
                order = ground arith;
                tail = refl;
                size = refl;
                scanned = λ e. absurd (cc e);
                definite = λ e. cc e;
              })
              (λ _. record {
                order = ground arith;
                tail = refl;
                size = refl;
                scanned = λ _. refl;
                definite = λ e. cc e;
              })))
      (λ busy. byte-Advances m c _ _ (ground arith) (omega arith) refl refl refl)

-- The loop ends with a result, or when every byte has been scanned.
record Scans (c : Comm) (r : Round) : Type 0 where
  order : InOrder r.comm
  tail : r.comm.buf.tail ≡ c.buf.tail
  size : r.comm.buf.size ≡ c.buf.size
  all : r.ptype ≡ none → r.comm.buf.scan ≡ r.comm.buf.tail
  definite : r.ptype ≢ some ptype_none

loop-Scans :
    (fuel : ℕ) (m : Memory) (c : Comm)
    → InOrder c
    → c.buf.tail ≤ c.buf.scan + fuel
    → Scans c (parse_loop fuel m c)
unfolding parse_loop
loop-Scans zero m c v enough = record {
  order = v;
  tail = refl;
  size = refl;
  all = λ _. omega (arith, v.scan_tail);
  definite = λ e. cc e;
}
loop-Scans (suc fuel) m c v enough = elim (Bool-cases (ltb c.buf.scan c.buf.tail)) [
  | inr e ↦
      let end : c.buf.scan ≡ c.buf.tail =
        omega (arith, v.scan_tail, not-ltb→le c.buf.scan c.buf.tail e) in
      rw e (record { order = v; tail = refl; size = refl; all = λ _. end; definite = λ e. cc e })
  | inl e ↦
      let a = round-Advances m c v (ltb→lt c.buf.scan c.buf.tail e) in
      rw e (elim (Option-cases ((parse_round m c).ptype)) [
        | inl none_yet ↦
            let r = parse_round m c in
            let rest =
              loop-Scans fuel r.memory r.comm a.order (omega (arith, a.tail, a.scanned none_yet)) in
            rw none_yet (record {
              order = rest.order;
              tail = rest.tail ∙ a.tail;
              size = rest.size ∙ a.size;
              all = rest.all;
              definite = rest.definite;
            })
        | inr (p, is) ↦ rw is (record {
          order = a.order;
          tail = a.tail;
          size = a.size;
          all = λ lost. absurd (let e2 : some p ≡ none = sym is ∙ lost in cc e2);
          definite = a.definite;
        })
      ])
]

give_up-InOrder : (c : Comm) (time_ms : ℕ) → InOrder c → InOrder (give_up c time_ms)
unfolding give_up
give_up-InOrder c time_ms v = ground arith

give_up-tail : (c : Comm) (time_ms : ℕ) → (give_up c time_ms).buf.tail ≡ c.buf.tail
unfolding give_up
give_up-tail c time_ms = ground arith

give_up-size : (c : Comm) (time_ms : ℕ) → (give_up c time_ms).buf.size ≡ c.buf.size
unfolding give_up
give_up-size c time_ms = ground arith

-- `is_comm_parse_timeout` keeps pointers of the receive buffer that are in order so, whatever bytes have
-- come in, and leaves the tail where it is; and when it returns that there is no message yet,
-- it has looked at every byte.
pub parse-InOrder :
    (m : Memory) (c : Comm) (time_ms : ℕ)
    → InOrder c
    → let r = is_comm_parse_timeout m c time_ms in
      InOrder r.comm
      × (r.comm.buf.tail ≡ c.buf.tail)
      × (r.ptype ≡ ptype_none → r.comm.buf.scan ≡ c.buf.tail)
unfolding is_comm_parse_timeout finish
parse-InOrder m c time_ms v =
    let c1 = give_up c time_ms in
    let r = parse_loop (c1.buf.tail - c1.buf.scan) m c1 in
    let s =
      loop-Scans (c1.buf.tail - c1.buf.scan) m c1 (give_up-InOrder c time_ms v) (omega arith) in
    elim (Option-cases (r.ptype)) [
      | inl e ↦ rw e (ground (arith, s.order, s.tail, s.all e, give_up-tail c time_ms))
      | inr (p, e) ↦
          rw e (
            s.order,
            s.tail ∙ give_up-tail c time_ms,
            λ lost. absurd (s.definite (e ∙ ap some lost)),
          )
    ]

pub parse-size :
    (m : Memory) (c : Comm) (time_ms : ℕ)
    → InOrder c
    → (is_comm_parse_timeout m c time_ms).comm.buf.size ≡ c.buf.size
unfolding is_comm_parse_timeout finish
parse-size m c time_ms v =
    let c1 = give_up c time_ms in
    let r = parse_loop (c1.buf.tail - c1.buf.scan) m c1 in
    let s =
      loop-Scans (c1.buf.tail - c1.buf.scan) m c1 (give_up-InOrder c time_ms v) (omega arith) in
    elim (Option-cases (r.ptype)) [
      | inl e ↦ rw e (ground (arith, s.size, give_up-size c time_ms))
      | inr (p, e) ↦ rw e (s.size ∙ give_up-size c time_ms)
    ]

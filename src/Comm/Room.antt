-- ===== src/Comm/Room.antt =====
-- `is_comm_free` and `is_comm_parse_byte_timeout`: the room for the next byte.
use rover_workspace.Prelude.{
  ℕ, ◌+◌, ◌-◌, ◌/◌, ◌%◌, ◌^◌, ◌≤◌, ◌<◌, ◌≡◌, ◌≢◌, refl, sym, ◌∙◌, ap, List, ◌⊎◌, inl, inr, arith,
  ltb, ◌==◌, Bool-cases, lt→ltb,
}
use rover_workspace.Prelude.Memory.{Memory, bytes, write_bytes, bytes-write_bytes, length-bytes}
use rover_workspace.Comm.{Comm, ptype_none}
use rover_workspace.Comm.Parse.{
  Freed, is_comm_free, give_up, parse_loop, finish, goes_on, is_comm_parse_timeout,
  is_comm_parse_byte_timeout, pkt_parser_timeout_ms,
}
use rover_workspace.Comm.Pointers.{InOrder, parse-InOrder, parse-size}

-- The bytes that have come in and do not belong to a message that was returned.
abbrev pub pending : Memory → Comm → List ℕ
pending m c = bytes m c.buf.head (c.buf.tail - c.buf.head)

-- The buffer is full of the bytes of a message that began in its first third.
abbrev pub Flushes : Comm → Type 0
Flushes c = (c.buf.tail ≡ c.buf.end_ptr) × (c.buf.head - c.buf.start < c.buf.size / 3)

-- What `is_comm_free` promises.
pub record Frees (m : Memory) (c : Comm) (f : Freed) : Type 0 where
  pub free : f.bytes_free ≡ f.comm.buf.end_ptr - f.comm.buf.tail
  pub room : 0 < f.bytes_free
  pub kept : Flushes c ⊎ (pending f.memory f.comm ≡ pending m c)
  pub order : Flushes c ⊎ InOrder f.comm

module _ (m : Memory) {c : Comm} (v : InOrder c) (size : 3 ≤ c.buf.size) where
  moved :
      bytes
        (write_bytes m c.buf.start (bytes m c.buf.head (c.buf.tail - c.buf.head)))
        c.buf.start
        (c.buf.tail - c.buf.head)
      ≡ bytes m c.buf.head (c.buf.tail - c.buf.head)
  moved =
      let n = c.buf.tail - c.buf.head in
      let xs = bytes m c.buf.head n in
      ap (bytes (write_bytes m c.buf.start xs) c.buf.start) (sym (length-bytes m c.buf.head n))
      ∙ bytes-write_bytes m c.buf.start xs

  free_kept : Flushes c ⊎ (pending (is_comm_free m c).memory (is_comm_free m c).comm ≡ pending m c)
  unfolding is_comm_free
  free_kept = elim (Bool-cases (c.buf.end_ptr - c.buf.tail == 0)) [
    | inr e ↦ rw e (inr refl)
    | inl e ↦ elim (Bool-cases (ltb (c.buf.head - c.buf.start) (c.buf.size / 3))) [
      | inl e' ↦ inl (ground (arith, v.tail_end))
      | inr e' ↦
          let at : c.buf.head - (c.buf.head - c.buf.start) ≡ c.buf.start = omega arith in
          let left : c.buf.tail - (c.buf.head - c.buf.start) - c.buf.start
              ≡ c.buf.tail - c.buf.head =
            omega arith in
          rw (e, e', at, left) (inr moved)
    ]
  ]

  free_order : Flushes c ⊎ InOrder (is_comm_free m c).comm
  unfolding is_comm_free
  free_order = elim (Bool-cases (c.buf.end_ptr - c.buf.tail == 0)) [
    | inr e ↦ rw e (inr v)
    | inl e ↦ elim (Bool-cases (ltb (c.buf.head - c.buf.start) (c.buf.size / 3))) [
      | inl e' ↦ inl (ground (arith, v.tail_end))
      | inr e' ↦
          rw (e, e')
            (inr
              (ground (arith, v.ends, v.head_low, v.head_scan, v.scan_tail, v.tail_end, v.begun)))
    ]
  ]

  added-InOrder :
      let f = is_comm_free m c in
      let b = f.comm.buf in InOrder (record (f.comm) { buf = record b { tail = b.tail + 1 } })
  unfolding is_comm_free
  added-InOrder = ground (arith, v.ends, v.head_low, v.head_scan, v.scan_tail, v.tail_end, v.begun)

  -- `is_comm_free` makes room for at least one byte in a buffer of three bytes or more whose pointers
  -- are in order, and returns how many fit. The bytes that wait keep their values and the
  -- pointers their order, unless the buffer is full with a message that began in its first third.
  pub is_comm_free-Frees : Frees m c (is_comm_free m c)
  unfolding is_comm_free
  is_comm_free-Frees = record {
    free = ground arith;
    room = ground arith;
    kept = free_kept;
    order = free_order;
  }

-- `is_comm_parse_byte_timeout` keeps the pointers of a buffer of three bytes or more, once in order, in
-- order, for every byte at every time; and when it returns that there is no message yet, it has looked
-- at every byte.
pub byte-InOrder :
    (m : Memory) (c : Comm) (byte time_ms : ℕ)
    → InOrder c
    → 3 ≤ c.buf.size
    → let r = is_comm_parse_byte_timeout m c byte time_ms in
      InOrder r.comm × (r.ptype ≡ ptype_none → r.comm.buf.scan ≡ r.comm.buf.tail)
unfolding is_comm_parse_byte_timeout
byte-InOrder m c byte time_ms v size =
    let (order, tail, all) = parse-InOrder _ _ time_ms (added-InOrder m v size) in
    (order, λ e. all e ∙ sym tail)

free-size : (m : Memory) (c : Comm) → (is_comm_free m c).comm.buf.size ≡ c.buf.size
unfolding is_comm_free
free-size m c = ground arith

pub byte-size :
    (m : Memory) (c : Comm) (byte time_ms : ℕ)
    → InOrder c
    → 3 ≤ c.buf.size
    → (is_comm_parse_byte_timeout m c byte time_ms).comm.buf.size ≡ c.buf.size
unfolding is_comm_parse_byte_timeout
byte-size m c byte time_ms v size = parse-size _ _ time_ms (added-InOrder m v size) ∙ free-size m c

late :
    (c : Comm) (time_ms : ℕ)
    → c.has_start_byte ≢ 0
    → (c.parse_time_ms + pkt_parser_timeout_ms) % 2 ^ 32 < time_ms
    → c.buf.head ≡ c.buf.tail
    → let c1 = give_up c time_ms in
      (c1.buf.scan ≡ c.buf.tail + 1) × (c1.buf.tail ≡ c.buf.tail) × (c1.has_start_byte ≡ 0)
unfolding give_up
late c time_ms busy out same = ground arith

late_parse :
    (m : Memory) (c : Comm) (time_ms : ℕ)
    → c.has_start_byte ≢ 0
    → (c.parse_time_ms + pkt_parser_timeout_ms) % 2 ^ 32 < time_ms
    → c.buf.head ≡ c.buf.tail
    → let r = is_comm_parse_timeout m c time_ms in
      (r.ptype ≡ ptype_none) × (r.comm.buf.scan ≡ r.comm.buf.tail + 1)
unfolding is_comm_parse_timeout parse_loop finish
late_parse m c time_ms busy out same =
    let (scan, tail, idle) = late c time_ms busy out same in
    let c1 = give_up c time_ms in
    let no_fuel : c1.buf.tail - c1.buf.scan ≡ 0 = omega arith in
    let done : parse_loop (c1.buf.tail - c1.buf.scan) m c1 ≡ goes_on m c1 =
      ap (λ n. parse_loop n m c1) no_fuel in
    rw done (refl, ground (arith, scan, tail, idle))

flushed :
    (m : Memory) (c : Comm)
    → Flushes c
    → is_comm_free m c ≡ record {
      bytes_free = c.buf.end_ptr - c.buf.start;
      memory = m;
      comm = record c {
        buf = record (c.buf) { head = c.buf.start; tail = c.buf.start; scan = c.buf.start };
      };
    }
unfolding is_comm_free
flushed m c (full, early) =
    let none_left : c.buf.end_ptr - c.buf.tail ≡ 0 = omega arith in
    rw (none_left, lt→ltb (c.buf.head - c.buf.start) (c.buf.size / 3) early)

-- A flush leaves the parser in the middle of the message whose bytes it dropped: when a message that
-- began in the first third fills the buffer, `is_comm_free` is called, and the message times out
-- before a further byte comes in, then `is_comm_parse_timeout` returns no message and
-- the scan pointer ends one byte behind the tail.
pub flush_behind :
    (m : Memory) (c : Comm) (time_ms : ℕ)
    → InOrder c
    → Flushes c
    → c.has_start_byte ≢ 0
    → (c.parse_time_ms + pkt_parser_timeout_ms) % 2 ^ 32 < time_ms
    → let f = is_comm_free m c in
      let r = is_comm_parse_timeout f.memory f.comm time_ms in
      (r.ptype ≡ ptype_none) × (r.comm.buf.scan ≡ r.comm.buf.tail + 1)
flush_behind m c time_ms v flush busy out =
    rw (flushed m c flush) (late_parse m _ time_ms busy out refl)

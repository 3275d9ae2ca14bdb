-- ===== src/Comm/Parse.antt =====
-- ISComm.c: `is_comm_init`, `is_comm_free`, `is_comm_parse_timeout` and `is_comm_parse_byte_timeout`.
use rover_workspace.Prelude.{
  ℕ, zero, suc, ◌+◌, ◌-◌, ◌/◌, ◌%◌, ◌^◌, Bool, true, not, ◌&&◌, ◌||◌, Option, none, some, ltb, ◌==◌,
  if◌then◌else◌, replicate,
}
use rover_workspace.Prelude.Int.{pos, eqb_ℤ}
use rover_workspace.Prelude.Memory.{Memory, bytes, write_bytes, store}
use rover_workspace.Packet.{
  psc_ascii_start_byte, psc_ascii_end_byte, psc_start_byte, psc_end_byte, ublox_start_byte1,
  rtcm3_start_byte,
}
use rover_workspace.Comm.{Protocol, ptype_none, CommBuffer, CommConfig, Comm, minus_one, is_set}
use rover_workspace.Comm.Packets.{
  parse_error, process_inertial_sense_pkt, process_ascii_pkt, process_ublox_byte,
  process_rtcm3_byte,
}

abbrev pub pkt_parser_timeout_ms : ℕ
pkt_parser_timeout_ms = 100

-- `parseTimeMs` and `pktPtr` are left as they are.
unfoldable pub is_comm_init : Memory → Comm → (buffer buffer_size : ℕ) → Memory × Comm
is_comm_init m c buffer buffer_size = (
  write_bytes m buffer (replicate buffer_size 0),
  record c {
    buf = record {
      start = buffer;
      end_ptr = buffer + buffer_size;
      size = buffer_size;
      head = buffer;
      tail = buffer;
      scan = buffer;
    };
    config = record {
      enable_isb = true;
      enable_ascii = true;
      enable_ublox = true;
      enable_rtcm3 = true;
    };
    parse_state = minus_one;
    tx_pkt_count = 0;
    rx_error_count = 0;
    has_start_byte = 0;
    data_hdr = record { id = 0; size = 0; offset = 0 };
    data_ptr = buffer;
    ack_needed = 0;
    pkt = record {
      hdr = record { start_byte = 0; pid = 0; counter = 0; flags = 0 };
      body_ptr = buffer;
      body_size = 0;
    };
    alt_decode_buf = 0;
  },
)

-- How many bytes are free, with the memory and the instance. A full buffer drops its bytes or moves
-- them to its start.
pub record Freed : Type 0 where
  pub bytes_free : ℕ
  pub memory : Memory
  pub comm : Comm

unfoldable pub is_comm_free : Memory → Comm → Freed
is_comm_free m c =
    let b = c.buf in
    let shift = b.head - b.start in
    let dropped : CommBuffer = record b { head = b.start; tail = b.start; scan = b.start } in
    let shifted : CommBuffer = record b {
      head = b.head - shift;
      tail = b.tail - shift;
      scan = b.scan - shift;
    } in
    if b.end_ptr - b.tail == 0
    then (if ltb shift (b.size / 3)
        then record {
          bytes_free = dropped.end_ptr - dropped.tail;
          memory = m;
          comm = record c { buf = dropped };
        }
        else record {
          bytes_free = shifted.end_ptr - shifted.tail;
          memory = write_bytes m b.start (bytes m b.head (b.tail - b.head));
          comm = record c { buf = shifted };
        })
    else record { bytes_free = b.end_ptr - b.tail; memory = m; comm = c }

-- A call of the parser: what it returns, with the memory and the instance.
pub record Parsed : Type 0 where
  pub ptype : Protocol
  pub memory : Memory
  pub comm : Comm

-- One round of the loop: `none` goes on to the next byte.
pub record Round : Type 0 where
  pub ptype : Option Protocol
  pub memory : Memory
  pub comm : Comm

abbrev pub returns : Memory → Protocol × Comm → Round
returns m (p, c) = record { ptype = some p; memory = m; comm = c }

-- `if (ptype != _PTYPE_NONE) return ptype;`
abbrev pub returns_unless_none : Memory → Protocol × Comm → Round
returns_unless_none m (ptype_none, c) = record { ptype = none; memory = m; comm = c }
returns_unless_none m (p, c) = record { ptype = some p; memory = m; comm = c }

abbrev pub goes_on : Memory → Comm → Round
goes_on m c = record { ptype = none; memory = m; comm = c }

-- The `switch` over the start byte, when `byte` has been read.
unfoldable pub process_byte : Memory → Comm → (byte : ℕ) → Round
process_byte m c byte =
    if c.has_start_byte == psc_start_byte
    then (if byte == psc_end_byte
        then (let (p, m', c') = process_inertial_sense_pkt m c in returns m' (p, c'))
        else goes_on m c)
    else if c.has_start_byte == psc_ascii_start_byte
    then (if byte == psc_ascii_end_byte
        then returns m (process_ascii_pkt m c)
        else if byte == psc_start_byte || byte == psc_end_byte || byte == 0
        then returns m (parse_error (record c { has_start_byte = 0; parse_state = minus_one }))
        else goes_on m c)
    else if c.has_start_byte == ublox_start_byte1
    then returns_unless_none m (process_ublox_byte m c)
    else if c.has_start_byte == rtcm3_start_byte
    then returns_unless_none m (process_rtcm3_byte m c)
    else goes_on m c

abbrev pub starts : CommConfig → ℕ → Bool
starts config byte =
    byte == psc_start_byte && config.enable_isb
    || byte == psc_ascii_start_byte && config.enable_ascii
    || byte == ublox_start_byte1 && config.enable_ublox
    || byte == rtcm3_start_byte && config.enable_rtcm3

-- The byte at `scan`.
unfoldable pub parse_round : Memory → Comm → Round
parse_round m c =
    let byte = m c.buf.scan in
    let scan = c.buf.scan + 1 in
    let c1 : Comm = record c { buf = record (c.buf) { scan = scan } } in
    if c.has_start_byte == 0
    then (if starts c.config byte
        then process_byte m
            (record c1 {
              has_start_byte = byte;
              buf = record (c1.buf) { head = scan - 1 };
              parse_state = pos 0;
            })
            byte
        else if not (eqb_ℤ c.parse_state minus_one)
        then returns m (
            parse_error (record c1 {
              parse_state = minus_one;
              buf = record (c1.buf) { scan = c.buf.head + 1 };
            }))
        else goes_on m c1)
    else process_byte m c1 byte

-- `while (buf->scan < buf->tail)`, for at most `fuel` rounds; a round that goes on has taken a byte.
unfoldable pub parse_loop : ℕ → Memory → Comm → Round
parse_loop zero m c = goes_on m c
parse_loop (suc fuel) m c =
    if ltb c.buf.scan c.buf.tail
    then (let r = parse_round m c in
        elim (r.ptype) [ some p ↦ r | none ↦ parse_loop fuel r.memory r.comm ])
    else goes_on m c

-- A packet that has not come to its end in time is given up: the scan goes back behind its first byte.
unfoldable pub give_up : Comm → (time_ms : ℕ) → Comm
give_up c time_ms =
    let head = c.buf.head + 1 in
    if is_set c.has_start_byte && ltb ((c.parse_time_ms + pkt_parser_timeout_ms) % 2 ^ 32) time_ms
    then record c {
      parse_state = pos 0;
      has_start_byte = 0;
      buf = record (c.buf) { head = head; scan = head };
    }
    else c

-- After the loop; the time is noted when a message has begun.
unfoldable pub finish : Round → (time_ms : ℕ) → Parsed
finish r time_ms = elim (r.ptype) [
  | some p ↦ record { ptype = p; memory = r.memory; comm = r.comm }
  | none ↦ record {
    ptype = ptype_none;
    memory = r.memory;
    comm =
        if is_set r.comm.has_start_byte
        then record (r.comm) { parse_time_ms = time_ms }
        else r.comm;
  }
]

unfoldable pub is_comm_parse_timeout : Memory → Comm → (time_ms : ℕ) → Parsed
is_comm_parse_timeout m c0 time_ms =
    let c = give_up c0 time_ms in finish (parse_loop (c.buf.tail - c.buf.scan) m c) time_ms

unfoldable pub is_comm_parse_byte_timeout : Memory → Comm → (byte time_ms : ℕ) → Parsed
is_comm_parse_byte_timeout m c byte time_ms =
    let f = is_comm_free m c in
    let b = f.comm.buf in
    is_comm_parse_timeout (store f.memory b.tail byte)
      (record (f.comm) { buf = record b { tail = b.tail + 1 } }) time_ms

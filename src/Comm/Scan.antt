-- ===== src/Comm/Scan.antt =====
-- The scan for a binary packet, from its start byte to its end byte.
use rover_workspace.Prelude.{
  ℕ, zero, suc, ◌+◌, ◌-◌, ◌<◌, ◌≡◌, refl, sym, ap, ◌∙◌, true, false, none, some, List, [], ◌∷◌,
  ◌++◌, arith, length, ◌==◌, lt→ltb,
}
use rover_workspace.Prelude.Int.{pos}
use rover_workspace.Prelude.Memory.{Memory, Holds}
use rover_workspace.Packet.{is_corrupt, psc_start_byte, psc_end_byte}
use rover_workspace.Packet.Delimiters.{IsClean}
use rover_workspace.Comm.{Comm}
use rover_workspace.Comm.Packets.{process_inertial_sense_pkt}
use rover_workspace.Comm.Parse.{Round, returns, goes_on, process_byte, parse_round, parse_loop}

-- The instance when the scan stands at `scan`.
abbrev pub at_scan : Comm → ℕ → Comm
at_scan c scan = record c { buf = record (c.buf) { scan = scan } }

-- The end byte: the packet is processed.
abbrev pub packet_round : Memory → Comm → Round
packet_round m c = let r = process_inertial_sense_pkt m c in returns r.1 (r.0, r.2)

end_round :
    (m : Memory) (c : Comm)
    → c.has_start_byte ≡ psc_start_byte
    → m c.buf.scan ≡ psc_end_byte
    → parse_round m c ≡ packet_round m (at_scan c (c.buf.scan + 1))
unfolding parse_round process_byte
end_round m c begun byte = rw (begun, byte)

clean_round :
    (m : Memory) (c : Comm)
    → c.has_start_byte ≡ psc_start_byte
    → is_corrupt (m c.buf.scan) ≡ false
    → parse_round m c ≡ goes_on m (at_scan c (c.buf.scan + 1))
unfolding parse_round process_byte
clean_round m c begun byte =
    let ordinary : (m c.buf.scan == psc_end_byte) ≡ false = ground arith in rw (begun, ordinary)

-- The rest of the loop after a round.
abbrev after : ℕ → Round → Round
after fuel r = elim (r.ptype) [ some p ↦ r | none ↦ parse_loop fuel r.memory r.comm ]

loop_step :
    (fuel : ℕ) (m : Memory) (c : Comm) (r : Round)
    → c.buf.scan < c.buf.tail
    → parse_round m c ≡ r
    → parse_loop (suc fuel) m c ≡ after fuel r
unfolding parse_loop
loop_step fuel m c r more step = rw (lt→ltb c.buf.scan c.buf.tail more) (ap (after fuel) step)

-- From a clean byte on, up to the end byte.
pub loop_packet :
    (fuel : ℕ) (m : Memory) (c : Comm) (inner : List ℕ)
    → c.has_start_byte ≡ psc_start_byte
    → IsClean inner
    → Holds m c.buf.scan (inner ++ psc_end_byte ∷ [])
    → c.buf.scan + length inner < c.buf.tail
    → length inner < fuel
    → parse_loop fuel m c ≡ packet_round m (at_scan c (c.buf.scan + length inner + 1))
loop_packet zero m c inner begun clean held room enough = absurd (omega arith)
loop_packet (suc fuel) m c [] begun clean held room enough =
    let e : c.buf.scan + 0 ≡ c.buf.scan = omega arith in
    loop_step fuel m c _ (omega arith) (end_round m c begun held.0)
    ∙ ap (λ (scan : ℕ). packet_round m (at_scan c (scan + 1))) (sym e)
loop_packet (suc fuel) m c (x ∷ inner) begun clean held room enough =
    let byte : is_corrupt (m c.buf.scan) ≡ false = ap is_corrupt held.0 ∙ clean.0 in
    let next = at_scan c (c.buf.scan + 1) in
    let e : c.buf.scan + 1 + length inner + 1 ≡ c.buf.scan + suc (length inner) + 1 = omega arith in
    loop_step fuel m c _ (omega arith) (clean_round m c begun byte)
    ∙ loop_packet fuel m next inner begun clean.1 held.1 (omega arith) (omega arith)
    ∙ ap (λ (scan : ℕ). packet_round m (at_scan c scan)) e

-- The instance in the middle of a packet that begins at `scan`.
abbrev pub begun_at : Comm → ℕ → Comm
begun_at c scan = record c {
  buf = record (c.buf) { head = scan; scan = scan + 1 };
  has_start_byte = psc_start_byte;
  parse_state = pos 0;
}

start_round :
    (m : Memory) (c : Comm)
    → c.has_start_byte ≡ 0
    → c.config.enable_isb ≡ true
    → m c.buf.scan ≡ psc_start_byte
    → parse_round m c ≡ goes_on m (begun_at c c.buf.scan)
unfolding parse_round process_byte
start_round m c idle enabled byte =
    let e : c.buf.scan + 1 - 1 ≡ c.buf.scan = omega arith in rw (idle, byte, enabled, e)

-- The loop finds a whole packet that begins at `scan` and processes it.
pub loop_frame :
    (fuel : ℕ) (m : Memory) (c : Comm) (inner : List ℕ)
    → c.has_start_byte ≡ 0
    → c.config.enable_isb ≡ true
    → IsClean inner
    → Holds m c.buf.scan (psc_start_byte ∷ inner ++ psc_end_byte ∷ [])
    → c.buf.scan + length inner + 1 < c.buf.tail
    → length inner + 1 < fuel
    → parse_loop fuel m c
      ≡ packet_round m (at_scan (begun_at c c.buf.scan) (c.buf.scan + length inner + 2))
loop_frame zero m c inner idle enabled clean held room enough = absurd (omega arith)
loop_frame (suc fuel) m c inner idle enabled clean held room enough =
    let e : c.buf.scan + 1 + length inner + 1 ≡ c.buf.scan + length inner + 2 = omega arith in
    loop_step fuel m c _ (omega arith) (start_round m c idle enabled held.0)
    ∙ loop_packet fuel m (begun_at c c.buf.scan) inner refl clean held.1 (omega arith) (omega arith)
    ∙ ap (λ (scan : ℕ). packet_round m (at_scan (begun_at c c.buf.scan) scan)) e

-- ===== src/Packet/Encode/Frame.antt =====
-- The wire format of a packet as a list of bytes, written down without the encoder's loops,
-- pointers and checks.
use rover_workspace.Prelude.{
  ℕ, ◌+◌, ◌*◌, ◌/◌, ◌%◌, ◌^◌, ◌≤◌, bit_xor, Bool, List, [], ◌∷◌, ◌++◌, arith, length, length-append,
  if◌then◌else◌,
}
use rover_workspace.Prelude.Word.{not8, shl32}
use rover_workspace.Packet.{
  PacketHdr, is_special, psc_start_byte, psc_end_byte, psc_reserved_key, checksum_seed,
}
use rover_workspace.Packet.Encode.{next_shift}

-- A byte on the wire.
unfoldable pub escape : Bool → ℕ → List ℕ
escape enabled v =
    if is_special v
    then (if enabled then psc_reserved_key ∷ not8 v ∷ [] else (v % 256) ∷ [])
    else (v % 256) ∷ []

unfoldable pub escape_all : Bool → List ℕ → List ℕ
escape_all enabled [] = []
escape_all enabled (v ∷ body) = escape enabled v ++ escape_all enabled body

-- The checksum of a body, continued from `check`.
unfoldable pub body_check : (check shifter : ℕ) → List ℕ → ℕ
body_check check shifter [] = check
body_check check shifter (v ∷ body) =
    body_check (bit_xor check (shl32 v shifter)) (next_shift shifter) body

abbrev pub header_check : PacketHdr → ℕ → ℕ
header_check hdr flags =
    bit_xor (bit_xor (bit_xor checksum_seed hdr.pid) (shl32 hdr.counter 8)) (shl32 flags 16)

abbrev pub header_bytes : Bool → PacketHdr → ℕ → List ℕ
header_bytes enabled hdr flags =
    psc_start_byte ∷ escape enabled hdr.pid ++ (escape enabled hdr.counter ++ escape enabled flags)

abbrev pub footer_bytes : Bool → ℕ → List ℕ
footer_bytes enabled check =
    escape enabled (check / 2 ^ 16 % 256)
    ++ (escape enabled (check / 2 ^ 8 % 256) ++ (escape enabled (check % 256) ++ psc_end_byte ∷ []))

-- A whole packet.
unfoldable pub frame : Bool → PacketHdr → (flags : ℕ) → List ℕ → List ℕ
frame enabled hdr flags body =
    header_bytes enabled hdr flags
    ++ (escape_all enabled body
        ++ footer_bytes enabled (body_check (header_check hdr flags) 0 body))

pub length-escape :
    (enabled : Bool) (v : ℕ) → (1 ≤ length (escape enabled v)) × (length (escape enabled v) ≤ 2)
unfolding escape
length-escape enabled v = ground arith

pub length-escape_all :
    (enabled : Bool) (body : List ℕ) → length (escape_all enabled body) ≤ 2 * length body
unfolding escape_all
length-escape_all enabled [] = omega arith
length-escape_all enabled (v ∷ body) = omega (
  arith,
  length-append (escape enabled v) (escape_all enabled body),
  length-escape enabled v,
  length-escape_all enabled body,
)

pub length-frame :
    (enabled : Bool) (hdr : PacketHdr) (flags : ℕ) (body : List ℕ)
    → length (frame enabled hdr flags body) ≤ 2 * length body + 14
unfolding frame
length-frame enabled hdr flags body =
    let check = body_check (header_check hdr flags) 0 body in
    let c3 = check / 2 ^ 16 % 256 in
    let c2 = check / 2 ^ 8 % 256 in
    let c1 = check % 256 in
    simp length-append (
      omega (
        arith,
        length-escape enabled hdr.pid,
        length-escape enabled hdr.counter,
        length-escape enabled flags,
        length-escape_all enabled body,
        length-escape enabled c3,
        length-escape enabled c2,
        length-escape enabled c1,
      ))

pub length-footer_bytes : (enabled : Bool) (check : ℕ) → 4 ≤ length (footer_bytes enabled check)
length-footer_bytes enabled check = simp length-append (
    omega (
      arith,
      length-escape enabled (check / 2 ^ 16 % 256),
      length-escape enabled (check / 2 ^ 8 % 256),
      length-escape enabled (check % 256),
    ))

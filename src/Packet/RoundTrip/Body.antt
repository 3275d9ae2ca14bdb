-- ===== src/Packet/RoundTrip/Body.antt =====
-- The decoder's loop over an escaped body, and the size of the checksum.
use rover_workspace.Prelude.{
  ℕ, zero, suc, ◌+◌, ◌%◌, ◌^◌, ◌≤◌, ◌<◌, bit_xor, ◌≡◌, ◌≢◌, refl, ◌∙◌, true, false, some, List, [],
  ◌∷◌, ◌++◌, ◌⊎◌, inl, inr, arith, length, length-append, append-nil, ◌==◌, lt→ltb, le→not-ltb,
  Bool-cases,
}
use rover_workspace.Prelude.Bits.{bit_xor-lt}
use rover_workspace.Prelude.Word.{not8, not8-not8, shl32}
use rover_workspace.Prelude.Memory.{
  Memory, store, store-below, store_self, Holds, Holds-append, Holds-store_below,
}
use rover_workspace.Packet.{PacketHdr, is_special, is_corrupt, psc_reserved_key, checksum_seed}
use rover_workspace.Packet.Encode.{next_shift}
use rover_workspace.Packet.Encode.Frame.{
  escape, escape_all, body_check, header_check, length-escape,
}
use rover_workspace.Packet.Decode.{BodyDecoded, is_decode_binary_packet_byte, decode_body}
use rover_workspace.Packet.Decode.Footer.{escape-Wire, Wire-ne-key}

-- Every item is a byte.
abbrev pub IsBytes : List ℕ → Type 0
IsBytes [] = Unit {0}
IsBytes (x ∷ xs) = (x < 256) × IsBytes xs

ordinary : (v : ℕ) → is_special v ≡ false → is_corrupt v ≡ false
ordinary v e = ground arith

ordinary_key : (v : ℕ) → is_special v ≡ false → (v == psc_reserved_key) ≡ false
ordinary_key v e = ground arith

-- An escaped byte is decoded to itself.
pub decode-escape :
    (m : Memory) (src check shift v : ℕ)
    → v < 256
    → Holds m src (escape true v)
    → is_decode_binary_packet_byte m src check shift
      ≡ some (src + length (escape true v), v, bit_xor check (shl32 v shift))
unfolding is_decode_binary_packet_byte escape
decode-escape m src check shift v small h = elim (Bool-cases (is_special v)) [
  | inl e ↦
      let held : Holds m src (psc_reserved_key ∷ not8 v ∷ []) = rw e at h in
      rw (e, held.0, held.1.0, not8-not8 v small)
  | inr e ↦
      let held : Holds m src ((v % 256) ∷ []) = rw e at h in
      let is : m src ≡ v = held.0 ∙ omega arith in rw (e, is, ordinary v e, ordinary_key v e)
]

-- The last byte of a body on the wire is no marker.
pub last-ne-key :
    (m : Memory) (p v : ℕ) (body : List ℕ)
    → IsBytes (v ∷ body)
    → Holds m (p + 1) (escape_all true (v ∷ body))
    → m (p + length (escape_all true (v ∷ body))) ≢ psc_reserved_key
unfolding escape_all
last-ne-key m p v [] small h =
    let held : Holds m (p + 1) (escape true v) = rw append-nil at h in
    rw append-nil (Wire-ne-key (escape-Wire m v p small.0 held))
last-ne-key m p v (w ∷ body) small h =
    let n = length (escape true v) in
    let held = ((Holds-append m (p + 1) (p + n + 1) (escape true v) _ (omega arith)).0 h).1 in
    let at : p + n + length (escape_all true (w ∷ body))
        ≡ p + length (escape true v ++ escape_all true (w ∷ body)) =
      omega (arith, length-append (escape true v) (escape_all true (w ∷ body))) in
    rw (← at) (last-ne-key m (p + n) w body small.1 held)

-- What the decoder's loop leaves behind: the body from `dest` on, its checksum, and all that stood
-- below `dest`.
pub record Decodes (m : Memory) (dest check shifter : ℕ) (body : List ℕ) (b : BodyDecoded)
    : Type 0 where
  pub fine : b.fine ≡ true
  pub dest_end : b.dest ≡ dest + length body
  pub sum : b.check ≡ body_check check shifter body
  pub held : Holds b.memory dest body
  pub below : (q : ℕ) → q < dest → b.memory q ≡ m q

pub decode_body-escape_all :
    (fuel : ℕ) (m : Memory) (src src_end dest check shifter : ℕ) (body : List ℕ)
    → src_end ≡ src + length (escape_all true body)
    → length (escape_all true body) ≤ fuel
    → dest ≤ src
    → IsBytes body
    → Holds m src (escape_all true body)
    → Decodes m dest check shifter body (decode_body fuel m src src_end dest check shifter)
unfolding decode_body escape_all body_check
decode_body-escape_all zero m src src_end dest check shifter [] e enough apart small h = record {
  fine = refl;
  dest_end = omega arith;
  sum = refl;
  held = tt;
  below = λ q k. refl;
}
decode_body-escape_all (suc fuel) m src src_end dest check shifter [] e enough apart small h =
    rw (le→not-ltb src_end src (omega arith))
      (record { fine = refl; dest_end = omega arith; sum = refl; held = tt; below = λ q k. refl })
decode_body-escape_all zero m src src_end dest check shifter (v ∷ body) e enough apart small h =
    absurd
      (omega (arith, length-append (escape true v) (escape_all true body), length-escape true v))
decode_body-escape_all (suc fuel) m src src_end dest check shifter (v ∷ body) e enough apart small
      h =
    let n = length (escape true v) in
    let split = length-append (escape true v) (escape_all true body) in
    let (here, there) = (Holds-append m src (src + n) (escape true v) _ refl).0 h in
    let check' = bit_xor check (shl32 v shifter) in
    let rest =
      decode_body-escape_all fuel (store m dest v) (src + n) src_end (dest + 1) check'
        (next_shift shifter) body (omega arith) (omega (arith, length-escape true v))
        (omega (arith, length-escape true v)) small.1
        (Holds-store_below m dest v (src + n) (escape_all true body)
          (omega (arith, length-escape true v)) there) in
    rw
      (
        lt→ltb src src_end (omega (arith, length-escape true v)),
        decode-escape m src check shifter v small.0 here,
      )
      (record {
        fine = rest.fine;
        dest_end = omega (arith, rest.dest_end);
        sum = rest.sum;
        held = (rest.below dest (omega arith) ∙ store_self m dest v, rest.held);
        below = λ q k. rest.below q (omega arith) ∙ store-below m dest v q k;
      })

-- The shifts that occur.
abbrev IsShift : ℕ → Type 0
IsShift s = (s ≡ 0) ⊎ (s ≡ 8) ⊎ (s ≡ 16)

next_shift-IsShift : (s : ℕ) → IsShift s → IsShift (next_shift s)
next_shift-IsShift s h = ground arith

shl32-lt : (v s : ℕ) → v < 256 → IsShift s → shl32 v s < 2 ^ 24
shl32-lt v s small h = ground arith

-- The checksum of a body of bytes has 24 bits.
pub body_check-lt :
    (check shifter : ℕ) (body : List ℕ)
    → check < 2 ^ 24
    → IsShift shifter
    → IsBytes body
    → body_check check shifter body < 2 ^ 24
unfolding body_check
body_check-lt check shifter [] h s small = h
body_check-lt check shifter (v ∷ body) h s small =
    body_check-lt (bit_xor check (shl32 v shifter)) (next_shift shifter) body
      (bit_xor-lt 24 check _ h (shl32-lt v shifter small.0 s)) (next_shift-IsShift shifter s)
      small.1

pub header_check-lt :
    (hdr : PacketHdr) (flags : ℕ)
    → hdr.pid < 256
    → hdr.counter < 256
    → flags < 256
    → header_check hdr flags < 2 ^ 24
header_check-lt hdr flags h1 h2 h3 =
    bit_xor-lt 24 _ _
      (bit_xor-lt 24 _ _ (bit_xor-lt 24 checksum_seed hdr.pid (omega arith) (omega arith))
        (omega arith))
      (omega arith)

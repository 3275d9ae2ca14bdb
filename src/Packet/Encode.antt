-- ===== src/Packet/Encode.antt =====
-- ISComm.c: `encodeByteAddToBuffer` and `is_encode_binary_packet`. The bytes from `encodedPacket` up
-- to `ptrDest` are a list, so `ptrDest >= ptrDestEnd` is a test of its length; the bytes at
-- `srcBuffer` are a list too, since no caller encodes a buffer onto itself.
pub mod Frame
pub mod Room
use rover_workspace.Prelude.{
  ℕ, ◌+◌, ◌/◌, ◌%◌, ◌^◌, bit_or, bit_xor, Bool, Option, none, some, List, [], ◌∷◌, ◌++◌, ltb, leb,
  ◌==◌, if◌then◌else◌, length,
}
use rover_workspace.Prelude.Word.{not8, shl32}
use rover_workspace.Packet.{
  PacketHdr, is_special, psc_start_byte, psc_end_byte, psc_reserved_key, cpu_is_little_endian,
  cm_pkt_flags_checksum_24_bit, max_pkt_body_size, checksum_seed,
}

-- `enabled` is `s_packetEncodingEnabled`.
unfoldable pub encode_byte_add_to_buffer : Bool → ℕ → List ℕ → List ℕ
encode_byte_add_to_buffer enabled val dest =
    if is_special val
    then (if enabled then dest ++ psc_reserved_key ∷ not8 val ∷ [] else dest ++ (val % 256) ∷ [])
    else dest ++ (val % 256) ∷ []

-- `shifter += 8; shifter *= (shifter != 24);`
abbrev pub next_shift : ℕ → ℕ
next_shift s = if s + 8 == 24 then 0 else s + 8

-- What the encoder returns (`none` is -1), and the bytes that it has written by then.
pub record Encoded : Type 0 where
  pub result : Option ℕ
  pub written : List ℕ

-- A step of the encoder on the bytes written so far; `none` is the early return.
abbrev pub Emit : Type 0 → Type 0
Emit A = List ℕ → Option A × List ℕ

abbrev pub and_then : {A B : Type 0} → Option A × List ℕ → (A → Emit B) → Option B × List ℕ
and_then (none, dest) f = (none, dest)
and_then (some a, dest) f = f a dest

infixl 5 ◌>>=◌ ◌>>◌
abbrev pub ◌>>=◌ : {A B : Type 0} → Emit A → (A → Emit B) → Emit B
m >>= f = λ dest. and_then (m dest) f

abbrev pub ◌>>◌ : {A B : Type 0} → Emit A → Emit B → Emit B
m >> k = m >>= λ _. k

-- `val = hdr->flags | additionalPktFlags | CPU_IS_LITTLE_ENDIAN | CM_PKT_FLAGS_CHECKSUM_24_BIT;`
abbrev pub wire_flags : PacketHdr → ℕ → ℕ
wire_flags hdr additional_pkt_flags =
    bit_or (bit_or (bit_or hdr.flags additional_pkt_flags) cpu_is_little_endian)
      cm_pkt_flags_checksum_24_bit

module _ (enabled : Bool) (limit : ℕ) where
  -- `if (ptrDest >= ptrDestEnd) return -1; ptrDest = encodeByteAddToBuffer(val, ptrDest);`
  unfoldable pub encode_checked : ℕ → Emit (Unit {0})
  encode_checked val dest =
      if leb limit (length dest)
      then (none, dest)
      else (some tt, encode_byte_add_to_buffer enabled val dest)

  -- `if (ptrDest >= ptrDestEnd) return -1; *ptrDest++ = val;`
  unfoldable pub put_checked : ℕ → Emit (Unit {0})
  put_checked val dest =
      if leb limit (length dest) then (none, dest) else (some tt, dest ++ val ∷ [])

  -- The loop over the body; it returns the checksum, and stops with no error at the end of the room.
  unfoldable pub encode_body : List ℕ → (check shifter : ℕ) → Emit ℕ
  encode_body [] check shifter dest = (some check, dest)
  encode_body (val ∷ src) check shifter dest =
      let rest =
        encode_body src (bit_xor check (shl32 val shifter)) (next_shift shifter)
          (encode_byte_add_to_buffer enabled val dest) in
      if ltb (length dest) limit then rest else (some check, dest)

  -- The packet header; the checksum so far is returned.
  unfoldable pub encode_header : PacketHdr → ℕ → Emit ℕ
  encode_header hdr flags = do
    put_checked psc_start_byte
    encode_checked hdr.pid
    encode_checked hdr.counter
    encode_checked flags
    λ dest. (
      some (
          bit_xor (bit_xor (bit_xor checksum_seed hdr.pid) (shl32 hdr.counter 8)) (shl32 flags 16)),
      dest,
    )

  -- The checksum, high byte first, and the end byte; the size of the packet is returned.
  unfoldable pub encode_footer : ℕ → Emit ℕ
  encode_footer check = do
    encode_checked (check / 2 ^ 16 % 256)
    encode_checked (check / 2 ^ 8 % 256)
    encode_checked (check % 256)
    put_checked psc_end_byte
    λ dest. (some (length dest), dest)

  unfoldable pub encode_packet : PacketHdr → (additional_pkt_flags : ℕ) → List ℕ → Emit ℕ
  encode_packet hdr additional_pkt_flags src = do
    check ← encode_header hdr (wire_flags hdr additional_pkt_flags)
    check ← encode_body src check 0
    encode_footer check

  -- A body too large is refused before anything is written.
  unfoldable pub is_encode_binary_packet : PacketHdr → ℕ → List ℕ → Encoded
  is_encode_binary_packet hdr additional_pkt_flags src =
      if ltb max_pkt_body_size (length src)
      then record { result = none; written = [] }
      else let (r, dest) = encode_packet hdr additional_pkt_flags src [] in
        record { result = r; written = dest }

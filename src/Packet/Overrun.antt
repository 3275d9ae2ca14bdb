-- ===== src/Packet/Overrun.antt =====
-- How far the encoder may write: each of its checks asks for one byte, and an escaped byte takes two.
use rover_workspace.Prelude.{
  ℕ, ◌+◌, ◌%◌, ◌/◌, ◌^◌, ◌≤◌, ◌<◌, bit_xor, ◌≡◌, refl, sym, ap, ◌∙◌, Bool, true, Option, none, some,
  List, [], ◌∷◌, ◌++◌, append-nil, append_assoc, arith, length, length-append, le→leb, lt→ltb,
  le→not-ltb,
}
use rover_workspace.Prelude.Word.{not8, shl32}
use rover_workspace.Packet.{
  PacketHdr, is_special, psc_start_byte, psc_end_byte, psc_reserved_key, max_pkt_body_size,
}
use rover_workspace.Packet.Encode.Frame.{
  escape, escape_all, header_bytes, header_check, length-escape,
}
use rover_workspace.Packet.Encode.Room.{encode_byte_lem, encode_header-Emits}
use rover_workspace.Packet.Encode.{
  Emit, and_then, ◌>>=◌, next_shift, encode_byte_add_to_buffer, encode_checked, put_checked,
  encode_body, encode_header, encode_footer, encode_packet, is_encode_binary_packet, wire_flags,
}

length-encode_byte :
    (enabled : Bool) (v : ℕ) (dest : List ℕ)
    → length (encode_byte_add_to_buffer enabled v dest) ≤ length dest + 2
length-encode_byte enabled v dest =
    rw (encode_byte_lem enabled v dest)
      (omega (arith, length-append dest (escape enabled v), length-escape enabled v))

module _ (enabled : Bool) (limit : ℕ) where
  -- A step leaves at most one byte behind the room, if that holds before.
  record Within {A : Type 0} (m : Emit A) : Type 0 where
    keeps : (dest : List ℕ) → length dest ≤ limit + 1 → length (m dest).1 ≤ limit + 1

  and_then-Within :
      {A B : Type 0} (r : Option A × List ℕ) (f : A → Emit B)
      → ((a : A) → Within (f a))
      → length r.1 ≤ limit + 1
      → length (and_then r f).1 ≤ limit + 1
  and_then-Within (none, dest) f next h = h
  and_then-Within (some a, dest) f next h = (next a).keeps dest h

  bind-Within :
      {A B : Type 0} {m : Emit A} (f : A → Emit B)
      → Within m
      → ((a : A) → Within (f a))
      → Within (m >>= f)
  bind-Within {m} f first next = record {
    keeps = λ dest h. and_then-Within (m dest) f next (first.keeps dest h);
  }

  encode_checked-Within : (v : ℕ) → Within (encode_checked enabled limit v)
  unfolding encode_checked
  encode_checked-Within v = record {
    keeps = λ dest h. ground (arith, length-encode_byte enabled v dest);
  }

  put_checked-Within : (v : ℕ) → Within (put_checked enabled limit v)
  unfolding put_checked
  put_checked-Within v = record { keeps = λ dest h. ground (arith, length-append dest (v ∷ [])) }

  return-Within : {A : Type 0} (f : List ℕ → A) → Within (λ dest. (some (f dest), dest))
  return-Within f = record { keeps = λ dest h. h }

  encode_body-Within :
      (src : List ℕ) (check shifter : ℕ) → Within (encode_body enabled limit src check shifter)
  unfolding encode_body
  encode_body-Within [] check shifter = return-Within (λ _. check)
  encode_body-Within (v ∷ src) check shifter = record {
    keeps = λ dest h.
        let rest = encode_body-Within src (bit_xor check (shl32 v shifter)) (next_shift shifter) in
        ground (
          arith,
          length-encode_byte enabled v dest,
          rest.keeps (encode_byte_add_to_buffer enabled v dest),
        );
  }

  encode_header-Within :
      (hdr : PacketHdr) (flags : ℕ) → Within (encode_header enabled limit hdr flags)
  unfolding encode_header
  encode_header-Within hdr flags =
      let last =
        bind-Within (λ _ dest. (some (header_check hdr flags), dest)) (encode_checked-Within flags)
          (λ _. return-Within (λ _. header_check hdr flags)) in
      let third = bind-Within _ (encode_checked-Within hdr.counter) (λ _. last) in
      let second = bind-Within _ (encode_checked-Within hdr.pid) (λ _. third) in
      bind-Within _ (put_checked-Within psc_start_byte) (λ _. second)

  encode_footer-Within : (check : ℕ) → Within (encode_footer enabled limit check)
  unfolding encode_footer
  encode_footer-Within check =
      let last =
        bind-Within (λ _ dest. (some (length dest), dest)) (put_checked-Within psc_end_byte)
          (λ _. return-Within (λ dest. length dest)) in
      let third = bind-Within _ (encode_checked-Within (check % 256)) (λ _. last) in
      let second = bind-Within _ (encode_checked-Within (check / 2 ^ 8 % 256)) (λ _. third) in
      bind-Within _ (encode_checked-Within (check / 2 ^ 16 % 256)) (λ _. second)

  encode_packet-Within :
      (hdr : PacketHdr) (additional : ℕ) (src : List ℕ)
      → Within (encode_packet enabled limit hdr additional src)
  unfolding encode_packet
  encode_packet-Within hdr additional src =
      bind-Within _ (encode_header-Within hdr (wire_flags hdr additional))
        (λ check. bind-Within _ (encode_body-Within src check 0) (λ c. encode_footer-Within c))

  -- Whatever the header, the body and the room at `encodedPacket`, `is_encode_binary_packet` writes at
  -- most one byte more than there is room for.
  pub encode_within :
      (hdr : PacketHdr) (additional : ℕ) (src : List ℕ)
      → length (is_encode_binary_packet enabled limit hdr additional src).written ≤ limit + 1
  unfolding is_encode_binary_packet
  encode_within hdr additional src =
      let all = (encode_packet-Within hdr additional src).keeps [] (omega arith) in
      ground (arith, all)

-- A special byte takes two.
escape-special : (v : ℕ) → is_special v ≡ true → escape true v ≡ psc_reserved_key ∷ not8 v ∷ []
unfolding escape
escape-special v special = rw special

module _ (limit : ℕ) where
  -- The loop over the body ends where there is no room.
  encode_body-full :
      (src : List ℕ) (check shifter : ℕ) (dest : List ℕ)
      → limit ≤ length dest
      → encode_body true limit src check shifter dest ≡ (some check, dest)
  unfolding encode_body
  encode_body-full [] check shifter dest full = refl
  encode_body-full (v ∷ src) check shifter dest full = rw (le→not-ltb limit (length dest) full)

  encode_body-step :
      (v : ℕ) (src : List ℕ) (check shifter : ℕ) (dest : List ℕ)
      → length dest < limit
      → encode_body true limit (v ∷ src) check shifter dest
        ≡ encode_body true limit src
            (bit_xor check (shl32 v shifter))
            (next_shift shifter)
            (dest ++ escape true v)
  unfolding encode_body
  encode_body-step v src check shifter dest room =
      rw (lt→ltb (length dest) limit room, encode_byte_lem true v dest)

  -- With one byte of room left, a special byte is written with two.
  encode_body-overrun :
      (before after : List ℕ) (v check shifter : ℕ) (dest : List ℕ)
      → is_special v ≡ true
      → length dest + length (escape_all true before) + 1 ≡ limit
      → (c : ℕ) × (encode_body true limit (before ++ v ∷ after) check shifter dest
          ≡ (some c, (dest ++ escape_all true before) ++ psc_reserved_key ∷ not8 v ∷ []))
  unfolding escape_all
  encode_body-overrun [] after v check shifter dest special room =
      let last = dest ++ psc_reserved_key ∷ not8 v ∷ [] in
      let check' = bit_xor check (shl32 v shifter) in
      (
        check',
        encode_body-step v after check shifter dest (omega arith)
            ∙ ap (λ xs. encode_body true limit after check' (next_shift shifter) (dest ++ xs))
                (escape-special v special)
            ∙ encode_body-full after check' (next_shift shifter) last
                (omega (arith, length-append dest (psc_reserved_key ∷ not8 v ∷ [])))
            ∙ ap (λ d. (some check', d ++ psc_reserved_key ∷ not8 v ∷ [])) (sym (append-nil dest)),
      )
  encode_body-overrun (x ∷ before) after v check shifter dest special room =
      let more = escape_all true before in
      let (c, e) =
        encode_body-overrun before after v (bit_xor check (shl32 x shifter)) (next_shift shifter)
          (dest ++ escape true x) special
          (omega (arith, length-append dest (escape true x), length-append (escape true x) more)) in
      (
        c,
        encode_body-step x (before ++ v ∷ after) check shifter dest (omega arith)
            ∙ e
            ∙ ap (λ d. (some c, d ++ psc_reserved_key ∷ not8 v ∷ []))
                (append_assoc dest (escape true x) more),
      )

  -- The footer finds no room.
  encode_footer-full :
      (check : ℕ) (dest : List ℕ)
      → limit ≤ length dest
      → encode_footer true limit check dest ≡ (none, dest)
  unfolding encode_footer encode_checked
  encode_footer-full check dest full = rw (le→leb limit (length dest) full)

-- The byte behind the room is written whenever the room ends between the two bytes of an escaped byte of
-- the body: for a body of at most MAX_PKT_BODY_SIZE bytes with the packet encoding enabled, where the
-- room is for the packet up to a special byte of the body, and for one byte more, the encoder returns
-- -1 and has written both bytes of this one, the last of them behind the room.
pub encode_overrun :
    (limit : ℕ) (hdr : PacketHdr) (additional : ℕ) (before after : List ℕ) (v : ℕ)
    → length (before ++ v ∷ after) ≤ max_pkt_body_size
    → is_special v ≡ true
    → let front = header_bytes true hdr (wire_flags hdr additional) ++ escape_all true before in
      limit ≡ length front + 1
      → let out = is_encode_binary_packet true limit hdr additional (before ++ v ∷ after) in
        (out.result ≡ none)
        × (out.written ≡ front ++ psc_reserved_key ∷ not8 v ∷ [])
        × (length out.written ≡ limit + 1)
unfolding is_encode_binary_packet encode_packet
encode_overrun limit hdr additional before after v small special room =
    let flags = wire_flags hdr additional in
    let head = header_bytes true hdr flags in
    let more = escape_all true before in
    let front = head ++ more in
    let sizes = length-append head more in
    let started = (encode_header-Emits true limit hdr flags).fits [] (omega (arith, room, sizes)) in
    let (c, e) =
      encode_body-overrun limit before after v (header_check hdr flags) 0 head special
        (omega (arith, room, sizes)) in
    let size = length-append front (psc_reserved_key ∷ not8 v ∷ []) in
    let stopped =
      encode_footer-full limit c (front ++ psc_reserved_key ∷ not8 v ∷ [])
        (omega (arith, room, size)) in
    rw (le→not-ltb (length (before ++ v ∷ after)) max_pkt_body_size small, started, e, stopped)
      (refl, refl, omega (arith, room, size))

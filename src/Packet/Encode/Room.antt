-- ===== src/Packet/Encode/Room.antt =====
-- `is_encode_binary_packet` against the wire format, in the room that it is given.
use rover_workspace.Prelude.{
  ℕ, ◌+◌, ◌/◌, ◌%◌, ◌^◌, ◌≤◌, ◌<◌, bit_xor, ◌≡◌, refl, sym, subst, ap, ap₂, ◌∙◌, Bool, Option, none,
  some, List, [], ◌∷◌, ◌++◌, append-nil, append_assoc, inl, inr, arith, length, length-append, ltb,
  leb, lt→ltb, le→leb, lt→not-leb, le→not-ltb, Bool-cases, if◌then◌else◌,
}
use native.Mathlib.Decide.{dec_le}
use rover_workspace.Prelude.Word.{shl32}
use rover_workspace.Packet.{
  PacketHdr, psc_start_byte, psc_end_byte, max_pkt_body_size, pkt_buf_size,
}
use rover_workspace.Packet.Encode.{
  Emit, and_then, ◌>>=◌, ◌>>◌, encode_byte_add_to_buffer, next_shift, wire_flags, encode_checked,
  put_checked, encode_body, encode_header, encode_footer, encode_packet, is_encode_binary_packet,
}
use rover_workspace.Packet.Encode.Frame.{
  escape, escape_all, body_check, header_check, header_bytes, footer_bytes, frame, length-escape,
  length-frame,
}

pub encode_byte_lem :
    (enabled : Bool) (v : ℕ) (dest : List ℕ)
    → encode_byte_add_to_buffer enabled v dest ≡ dest ++ escape enabled v
unfolding encode_byte_add_to_buffer escape
encode_byte_lem enabled v dest = ground arith

module _ (enabled : Bool) (limit : ℕ) where
  -- A step stopped, or there is no room for a further one.
  abbrev pub Failed : {A : Type 0} → Option A × List ℕ → Type 0
  Failed (none, dest) = Unit {0}
  Failed (some a, dest) = limit ≤ length dest

  Failed-and_then :
      {A B : Type 0} (r : Option A × List ℕ) (f : A → Emit B)
      → ((a : A) (dest : List ℕ) → limit ≤ length dest → Failed (f a dest))
      → Failed r
      → Failed (and_then r f)
  Failed-and_then (none, dest) f full h = tt
  Failed-and_then (some a, dest) f full h = full a dest h

  -- What a step of the encoder does: it appends `xs` and returns `a` if `xs` fits, and fails if not.
  pub record Emits {A : Type 0} (m : Emit A) (a : A) (xs : List ℕ) : Type 0 where
    pub fits : (dest : List ℕ) → length dest + length xs ≤ limit → m dest ≡ (some a, dest ++ xs)
    pub short : (dest : List ℕ) → limit < length dest + length xs → Failed (m dest)
    pub full : (dest : List ℕ) → limit ≤ length dest → Failed (m dest)

  module _ {A B : Type 0} {m : Emit A} (f : A → Emit B) {a : A} {xs : List ℕ} where
    -- The second step starts where the first ends, or finds no room.
    bind-Failed :
        Emits m a xs
        → ((c : A) (dest : List ℕ) → limit ≤ length dest → Failed (f c dest))
        → (dest : List ℕ) → (length dest + length xs ≤ limit → Failed (f a (dest ++ xs)))
        → Failed ((m >>= f) dest)
    bind-Failed M guarded dest next = elim (dec_le (length dest + length xs) limit) [
      | yes room ↦ rw (M.fits dest room) (next room)
      | no over ↦ Failed-and_then (m dest) f guarded (M.short dest (omega arith))
    ]

    bind :
        {b : B} {ys : List ℕ}
        → Emits m a xs
        → ((c : A) (dest : List ℕ) → limit ≤ length dest → Failed (f c dest))
        → Emits (f a) b ys
        → Emits (m >>= f) b (xs ++ ys)
    bind {b} {ys} M guarded F = record {
      fits = λ dest h. rw (M.fits dest (omega (arith, length-append xs ys))) (
          F.fits (dest ++ xs) (omega (arith, length-append xs ys, length-append dest xs))
          ∙ ap (λ d. (some b, d)) (append_assoc dest xs ys));
      short = λ dest h.
          bind-Failed M guarded dest λ room.
            F.short (dest ++ xs) (omega (arith, length-append xs ys, length-append dest xs));
      full = λ dest h. Failed-and_then (m dest) f guarded (M.full dest h);
    }

  encode_checked-Emits : (v : ℕ) → Emits (encode_checked enabled limit v) tt (escape enabled v)
  unfolding encode_checked
  encode_checked-Emits v = record {
    fits = λ dest h. ground (arith, length-escape enabled v, encode_byte_lem enabled v dest);
    short = λ dest h. elim (Bool-cases (leb limit (length dest))) [
      | inl e ↦ rw e tt
      | inr e ↦
          rw (e, encode_byte_lem enabled v dest)
            (omega (arith, length-append dest (escape enabled v), length-escape enabled v))
    ];
    full = λ dest h. rw (le→leb limit (length dest) h) tt;
  }

  put_checked-Emits : (v : ℕ) → Emits (put_checked enabled limit v) tt (v ∷ [])
  unfolding put_checked
  put_checked-Emits v = record {
    fits = λ dest h. ground arith;
    short = λ dest h. rw (le→leb limit (length dest) (omega arith)) tt;
    full = λ dest h. rw (le→leb limit (length dest) h) tt;
  }

  return-Emits : {A : Type 0} (a : A) → Emits (λ dest. (some a, dest)) a []
  return-Emits a = record {
    fits = λ dest h. ap (λ d. (some a, d)) (sym (append-nil dest));
    short = λ dest h. omega arith;
    full = λ dest h. h;
  }

  encode_body-Emits :
      (src : List ℕ) (check shifter : ℕ)
      → Emits
          (encode_body enabled limit src check shifter)
          (body_check check shifter src)
          (escape_all enabled src)
  unfolding encode_body body_check escape_all
  encode_body-Emits [] check shifter = return-Emits check
  encode_body-Emits (v ∷ src) check shifter =
      let check' = bit_xor check (shl32 v shifter) in
      let shifter' = next_shift shifter in
      let rec = encode_body-Emits src check' shifter' in
      record {
        fits = λ dest h. rw (
          lt→ltb (length dest) limit (
              omega (
                arith,
                length-append (escape enabled v) (escape_all enabled src),
                length-escape enabled v,
              )),
          encode_byte_lem enabled v dest,
          rec.fits (dest ++ escape enabled v) (
              omega (
                arith,
                length-append (escape enabled v) (escape_all enabled src),
                length-append dest (escape enabled v),
              )),
          append_assoc,
        );
        short = λ dest h. elim (Bool-cases (ltb (length dest) limit)) [
          | inl e ↦
              rw (e, encode_byte_lem enabled v dest)
                (rec.short (dest ++ escape enabled v) (
                  omega (
                    arith,
                    length-append (escape enabled v) (escape_all enabled src),
                    length-append dest (escape enabled v),
                  )))
          | inr e ↦ rw e (ground arith)
        ];
        full = λ dest h. rw (le→not-ltb limit (length dest) h) h;
      }

  -- The last step of the encoder returns how much has been written.
  record Ends (m : Emit ℕ) (xs : List ℕ) : Type 0 where
    fits :
        (dest : List ℕ)
        → length dest + length xs ≤ limit
        → m dest ≡ (some (length dest + length xs), dest ++ xs)
    short : (dest : List ℕ) → limit < length dest + length xs → (m dest).0 ≡ none
    full : (dest : List ℕ) → limit ≤ length dest → (m dest).0 ≡ none

  and_then-none :
      {A : Type 0} (r : Option A × List ℕ) (f : A → Emit ℕ)
      → ((a : A) (dest : List ℕ) → limit ≤ length dest → (f a dest).0 ≡ none)
      → Failed r
      → (and_then r f).0 ≡ none
  and_then-none (none, dest) f full h = refl
  and_then-none (some a, dest) f full h = full a dest h

  bind-Ends :
      {A : Type 0} {m : Emit A} (f : A → Emit ℕ) {a : A} {xs ys : List ℕ}
      → Emits m a xs
      → ((c : A) (dest : List ℕ) → limit ≤ length dest → (f c dest).0 ≡ none)
      → Ends (f a) ys
      → Ends (m >>= f) (xs ++ ys)
  bind-Ends {m} f {a} {xs} {ys} M guarded F = record {
    fits = λ dest h. rw (M.fits dest (omega (arith, length-append xs ys))) (
        F.fits (dest ++ xs) (omega (arith, length-append xs ys, length-append dest xs))
        ∙ ap₂ (λ (n : ℕ) d. (some n, d)) (omega (arith, length-append xs ys, length-append dest xs))
            (append_assoc dest xs ys));
    short = λ dest h. elim (dec_le (length dest + length xs) limit) [
      | yes room ↦
          rw (M.fits dest room)
            (F.short (dest ++ xs) (omega (arith, length-append xs ys, length-append dest xs)))
      | no over ↦ and_then-none (m dest) f guarded (M.short dest (omega arith))
    ];
    full = λ dest h. and_then-none (m dest) f guarded (M.full dest h);
  }

  end-Ends :
      Ends
        (put_checked enabled limit psc_end_byte >> λ dest. (some (length dest), dest))
        (psc_end_byte ∷ [])
  unfolding put_checked
  end-Ends = record {
    fits = λ dest h. ground (arith, length-append dest (psc_end_byte ∷ []));
    short = λ dest h. rw (le→leb limit (length dest) (omega arith));
    full = λ dest h. rw (le→leb limit (length dest) h);
  }

  pub encode_header-Emits :
      (hdr : PacketHdr) (flags : ℕ)
      → Emits
          (encode_header enabled limit hdr flags)
          (header_check hdr flags)
          (header_bytes enabled hdr flags)
  unfolding encode_header
  encode_header-Emits hdr flags =
      let check = header_check hdr flags in
      let last =
        bind (λ _ dest. (some check, dest)) (encode_checked-Emits flags) (λ _ dest h. h)
          (return-Emits check) in
      let third = bind _ (encode_checked-Emits hdr.counter) (λ _. last.full) last in
      let second = bind _ (encode_checked-Emits hdr.pid) (λ _. third.full) third in
      subst
        (λ (xs : List ℕ).
          Emits (encode_header enabled limit hdr flags) check
            (psc_start_byte ∷ escape enabled hdr.pid ++ (escape enabled hdr.counter ++ xs)))
        (append-nil (escape enabled flags))
        (bind _ (put_checked-Emits psc_start_byte) (λ _. second.full) second)

  encode_footer-Ends :
      (check : ℕ) → Ends (encode_footer enabled limit check) (footer_bytes enabled check)
  unfolding encode_footer
  encode_footer-Ends check =
      let c2 = bind-Ends _ (encode_checked-Emits (check % 256)) (λ _. end-Ends.full) end-Ends in
      let c1 = bind-Ends _ (encode_checked-Emits (check / 2 ^ 8 % 256)) (λ _. c2.full) c2 in
      bind-Ends _ (encode_checked-Emits (check / 2 ^ 16 % 256)) (λ _. c1.full) c1

  encode_packet-Ends :
      (hdr : PacketHdr) (additional : ℕ) (src : List ℕ)
      → Ends
          (encode_packet enabled limit hdr additional src)
          (frame enabled hdr (wire_flags hdr additional) src)
  unfolding encode_packet frame
  encode_packet-Ends hdr additional src =
      let flags = wire_flags hdr additional in
      let body = encode_body-Emits src (header_check hdr flags) 0 in
      let tail = bind-Ends _ body (λ c. (encode_footer-Ends c).full) (encode_footer-Ends _) in
      bind-Ends _ (encode_header-Emits hdr flags)
        (λ c dest h.
          and_then-none _ _ (λ d. (encode_footer-Ends d).full)
            ((encode_body-Emits src c 0).full dest h))
        tail

  Ends-result :
      {m : Emit ℕ} (xs : List ℕ)
      → Ends m xs
      → ((m []).0 ≡ (if leb (length xs) limit then some (length xs) else none))
        × (length xs ≤ limit → (m []).1 ≡ xs)
  Ends-result xs E = elim (dec_le (length xs) limit) [
    | yes h ↦ rw (le→leb (length xs) limit h) (
      ap (λ p. p.0) (E.fits [] (omega arith)) ∙ ap some (omega arith),
      λ _. ap (λ p. p.1) (E.fits [] (omega arith)),
    )
    | no h ↦
        rw (lt→not-leb (length xs) limit (omega arith))
          (E.short [] (omega arith), λ k. absurd (h k))
  ]

-- For a body of at most MAX_PKT_BODY_SIZE bytes, `is_encode_binary_packet` returns the size of the
-- whole frame when the frame fits into the room at `encodedPacket` and -1 when it does not; and
-- when it fits, the bytes written are exactly that frame.
pub encode-frame :
    (enabled : Bool) (limit : ℕ) (hdr : PacketHdr) (additional : ℕ) (src : List ℕ)
    → length src ≤ max_pkt_body_size
    → let packet = frame enabled hdr (wire_flags hdr additional) src in
      let out = is_encode_binary_packet enabled limit hdr additional src in
      (out.result ≡ (if leb (length packet) limit then some (length packet) else none))
      × (length packet ≤ limit → out.written ≡ packet)
unfolding is_encode_binary_packet
encode-frame enabled limit hdr additional src small =
    rw (le→not-ltb (length src) max_pkt_body_size small)
      (Ends-result enabled limit _ (encode_packet-Ends enabled limit hdr additional src))

-- A body of at most MAX_PKT_BODY_SIZE bytes always fits into a buffer of PKT_BUF_SIZE bytes or more:
-- the encoder does not fail, returns the size of the frame, and has written the frame.
pub encode-pkt_buf_size :
    (enabled : Bool) (limit : ℕ) (hdr : PacketHdr) (additional : ℕ) (src : List ℕ)
    → length src ≤ max_pkt_body_size
    → pkt_buf_size ≤ limit
    → let packet = frame enabled hdr (wire_flags hdr additional) src in
      is_encode_binary_packet enabled limit hdr additional src
      ≡ record { result = some (length packet); written = packet }
encode-pkt_buf_size enabled limit hdr additional src small room =
    let packet = frame enabled hdr (wire_flags hdr additional) src in
    let fits : length packet ≤ limit =
      omega (arith, length-frame enabled hdr (wire_flags hdr additional) src) in
    let (result, written) = encode-frame enabled limit hdr additional src small in
    λ i. record {
      result = (rw (le→leb (length packet) limit fits) at result) i;
      written = written fits i;
    }

-- A larger body is refused, and nothing is written.
pub encode_oversize :
    (enabled : Bool) (limit : ℕ) (hdr : PacketHdr) (additional : ℕ) (src : List ℕ)
    → max_pkt_body_size < length src
    → is_encode_binary_packet enabled limit hdr additional src
      ≡ record { result = none; written = [] }
unfolding is_encode_binary_packet
encode_oversize enabled limit hdr additional src big =
    rw (lt→ltb max_pkt_body_size (length src) big)

-- A successful encoding: the body was small enough, and the frame is what was written.
pub encode-some :
    (enabled : Bool) (limit : ℕ) (hdr : PacketHdr) (additional : ℕ) (src : List ℕ) (n : ℕ)
    → (is_encode_binary_packet enabled limit hdr additional src).result ≡ some n
    → let packet = frame enabled hdr (wire_flags hdr additional) src in
      (length src ≤ max_pkt_body_size)
      × (n ≡ length packet)
      × ((is_encode_binary_packet enabled limit hdr additional src).written ≡ packet)
encode-some enabled limit hdr additional src n sent = elim (dec_le (length src) max_pkt_body_size) [
  | no big ↦
      let refused = encode_oversize enabled limit hdr additional src (omega arith) in
      let lost : none ≡ some n = rw refused at sent in absurd (cc lost)
  | yes small ↦
      let packet = frame enabled hdr (wire_flags hdr additional) src in
      let (result, written) = encode-frame enabled limit hdr additional src small in
      elim (dec_le (length packet) limit) [
        | yes fits ↦
            let same : some (length packet) ≡ some n =
              sym (rw (le→leb (length packet) limit fits) at result) ∙ sent in
            (small, cc same, written fits)
        | no over ↦
            let lost : none ≡ some n =
              sym (rw (lt→not-leb (length packet) limit (omega arith)) at result) ∙ sent in
            absurd (cc lost)
      ]
]

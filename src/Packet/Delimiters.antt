-- ===== src/Packet/Delimiters.antt =====
-- The bytes of a packet that begin or end a message of some protocol.
use rover_workspace.Prelude.{
  ℕ, ◌<◌, some, ◌/◌, ◌%◌, ◌^◌, ◌≡◌, ◌∙◌, ap, true, false, List, [], ◌∷◌, ◌++◌, arith, append_assoc,
}
use rover_workspace.Packet.{PacketHdr, is_corrupt, psc_start_byte, psc_end_byte}
use rover_workspace.Packet.Encode.{wire_flags, is_encode_binary_packet}
use rover_workspace.Packet.Encode.Frame.{escape, escape_all, body_check, header_check, frame}
use rover_workspace.Packet.Encode.Room.{encode-some}
use rover_workspace.Packet.RoundTrip.{wire_flags-lt}
use rover_workspace.Packet.RoundTrip.Body.{IsBytes}

-- No item begins or ends a message.
abbrev pub IsClean : List ℕ → Type 0
IsClean [] = Unit {0}
IsClean (x ∷ xs) = (is_corrupt x ≡ false) × IsClean xs

IsClean-append : (xs ys : List ℕ) → IsClean xs → IsClean ys → IsClean (xs ++ ys)
IsClean-append [] ys h k = k
IsClean-append (x ∷ xs) ys h k = (h.0, IsClean-append xs ys h.1 k)

-- Bytes only: a number behind 255 could end in a special byte.
escape-IsClean : (v : ℕ) → v < 256 → IsClean (escape true v)
unfolding escape
escape-IsClean v small = ground arith

escape_all-IsClean : (body : List ℕ) → IsBytes body → IsClean (escape_all true body)
unfolding escape_all
escape_all-IsClean [] small = tt
escape_all-IsClean (v ∷ body) small =
    IsClean-append (escape true v) (escape_all true body) (escape-IsClean v small.0)
      (escape_all-IsClean body small.1)

pub encode-IsClean :
    (limit : ℕ) (hdr : PacketHdr) (additional : ℕ) (body : List ℕ) (n : ℕ)
    → hdr.pid < 256
    → hdr.counter < 256
    → hdr.flags < 256
    → additional < 256
    → IsBytes body
    → (is_encode_binary_packet true limit hdr additional body).result ≡ some n
    → (inner : List ℕ) × ((is_encode_binary_packet true limit hdr additional body).written
        ≡ psc_start_byte ∷ inner ++ psc_end_byte ∷ [])
      × IsClean inner
unfolding frame
encode-IsClean limit hdr additional body n pid ctr fl add bytes sent =
    let flags = wire_flags hdr additional in
    let check = body_check (header_check hdr flags) 0 body in
    let (small, size, is) = encode-some true limit hdr additional body n sent in
    let head = escape true hdr.pid ++ (escape true hdr.counter ++ escape true flags) in
    let c3 = escape true (check / 2 ^ 16 % 256) in
    let c2 = escape true (check / 2 ^ 8 % 256) in
    let c1 = escape true (check % 256) in
    let e_body = escape_all true body in
    (
      head ++ (e_body ++ (c3 ++ (c2 ++ c1))),
      is ∙ ap (λ xs. psc_start_byte ∷ xs) (simp append_assoc),
      IsClean-append head _
          (IsClean-append (escape true hdr.pid) _ (escape-IsClean hdr.pid pid) (
            IsClean-append (escape true hdr.counter) _ (escape-IsClean hdr.counter ctr)
              (escape-IsClean flags (wire_flags-lt hdr additional fl add))))
          (IsClean-append e_body _ (escape_all-IsClean body bytes) (
            IsClean-append c3 _ (escape-IsClean _ (omega arith)) (
              IsClean-append c2 c1 (escape-IsClean _ (omega arith))
                (escape-IsClean _ (omega arith))))),
    )

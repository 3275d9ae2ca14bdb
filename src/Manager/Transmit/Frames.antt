-- ===== src/Manager/Transmit/Frames.antt =====
-- The packets that the manager sends: whole frames, and the room of a `buffer_t` is enough for them.
use rover_workspace.Prelude.{
  ℕ, ◌-◌, ◌%◌, ◌^◌, ◌≤◌, ◌≡◌, refl, sym, ap, ◌∙◌, bit_or, Bool, true, false, Option, none, some,
  List, [], ◌∷◌, ◌++◌, arith, length, length-append, take_all, modify, if◌then◌else◌, le→leb,
  le→not-ltb, append_assoc, append-nil,
}
use rover_workspace.Packet.{PacketHdr, max_pkt_body_size, pkt_buf_size}
use rover_workspace.Packet.Encode.{is_encode_binary_packet, wire_flags}
use rover_workspace.Packet.Encode.Frame.{
  frame, length-frame, length-footer_bytes, header_bytes, footer_bytes, escape, length-escape,
  escape_all, body_check, header_check,
}
use rover_workspace.Packet.Encode.Room.{encode-frame}
use rover_workspace.Manager.{Manager, Sending, Port}
use rover_workspace.Manager.Transmit.{
  port_number, count_tx, packet_of, encode_binary_packet, send_bytes, deliver, send_packet,
}

pub frame_size :
    (enabled : Bool) (hdr : PacketHdr) (flags : ℕ) (body : List ℕ)
    → 8 ≤ length (frame enabled hdr flags body)
unfolding frame
frame_size enabled hdr flags body =
    let check = body_check (header_check hdr flags) 0 body in
    omega (
      arith,
      length-append (header_bytes enabled hdr flags)
          (escape_all enabled body ++ footer_bytes enabled check),
      length-append (escape_all enabled body) (footer_bytes enabled check),
      length-footer_bytes enabled check,
      length-append (escape enabled hdr.pid) (escape enabled hdr.counter ++ escape enabled flags),
      length-append (escape enabled hdr.counter) (escape enabled flags),
      length-escape enabled hdr.pid,
      length-escape enabled hdr.counter,
      length-escape enabled flags,
    )

-- The header with the counter of the port, and the flags with those of the port.
abbrev pub counted_hdr : Manager → (p_handle : ℕ) → PacketHdr → PacketHdr
counted_hdr cm p_handle d_pkt = record d_pkt {
  counter = port_number (λ q. q.comm.tx_pkt_count) cm p_handle % 2 ^ 8;
}

abbrev pub port_flags : Manager → (p_handle additional : ℕ) → ℕ
port_flags cm p_handle additional =
    bit_or additional (port_number (λ q. q.status.flags) cm p_handle)

-- The packet on the wire.
abbrev pub wire_packet : Manager → (p_handle : ℕ) → PacketHdr → List ℕ → ℕ → List ℕ
wire_packet cm p_handle d_pkt body additional =
    let hdr = counted_hdr cm p_handle d_pkt in
    frame cm.encoding hdr (wire_flags hdr (port_flags cm p_handle additional)) body

-- Another packet of the port has been counted.
abbrev pub counted : Manager → (p_handle : ℕ) → Manager
counted cm p_handle = record cm { ports = modify cm.ports p_handle count_tx }

packet_of-some :
    (n : ℕ) (written : List ℕ)
    → 8 ≤ n
    → length written ≡ n
    → packet_of (some n) written ≡ some written
packet_of-some n written big len =
    rw (le→not-ltb 8 n big) (ap some (take_all n written (omega arith)))

pub encode_binary_packet-frame :
    (cm : Manager) (p_handle : ℕ) (d_pkt : PacketHdr) (body : List ℕ) (additional : ℕ)
    → length body ≤ max_pkt_body_size
    → encode_binary_packet cm p_handle d_pkt body additional ≡ record {
      packet = some (wire_packet cm p_handle d_pkt body additional);
      hdr = counted_hdr cm p_handle d_pkt;
      manager = counted cm p_handle;
    }
unfolding encode_binary_packet
encode_binary_packet-frame cm p_handle d_pkt body additional small =
    let hdr = counted_hdr cm p_handle d_pkt in
    let flags = port_flags cm p_handle additional in
    let packet = wire_packet cm p_handle d_pkt body additional in
    let fits : length packet ≤ pkt_buf_size - 1 =
      omega (arith, length-frame cm.encoding hdr (wire_flags hdr flags) body) in
    let (result, written) = encode-frame cm.encoding (pkt_buf_size - 1) hdr flags body small in
    let got = rw (le→leb (length packet) (pkt_buf_size - 1) fits) at result in
    let same : packet_of
          (is_encode_binary_packet cm.encoding (pkt_buf_size - 1) hdr flags body).result
          (is_encode_binary_packet cm.encoding (pkt_buf_size - 1) hdr flags body).written
        ≡ some packet =
      rw (got, written fits)
        (packet_of-some (length packet) packet
          (frame_size cm.encoding hdr (wire_flags hdr flags) body) refl) in
    λ i. record { packet = same i; hdr = hdr; manager = counted cm p_handle }

-- The packet goes to `sendPacketCallback`, when there is one.
pub send_packet-frame :
    (cm : Manager) (p_handle : ℕ) (d_pkt : PacketHdr) (body : List ℕ) (additional : ℕ)
    → length body ≤ max_pkt_body_size
    → cm.send_packet_callback ≡ true
    → send_packet cm p_handle d_pkt body additional ≡ record {
      ok = true;
      hdr = counted_hdr cm p_handle d_pkt;
      manager =
          send_bytes (counted cm p_handle) p_handle (wire_packet cm p_handle d_pkt body additional);
    }
unfolding send_packet
send_packet-frame cm p_handle d_pkt body additional small callback =
    rw (encode_binary_packet-frame cm p_handle d_pkt body additional small, callback)

-- Each of the calls is for a port that has a property.
abbrev pub AllOn : (ℕ → Type 0) → List Sending → Type 0
AllOn P [] = Unit {0}
AllOn P (s ∷ ss) = P s.p_handle × AllOn P ss

AllOn-append :
    (P : ℕ → Type 0) (xs ys : List Sending) → AllOn P xs → AllOn P ys → AllOn P (xs ++ ys)
AllOn-append P [] ys h k = k
AllOn-append P (x ∷ xs) ys h k = (h.0, AllOn-append P xs ys h.1 k)

-- What sending changes: calls of the callback are added to those before.
pub record Extends (P : ℕ → Type 0) (cm cm' : Manager) : Type 0 where
  pub more : List Sending
  pub on_ports : AllOn P more
  pub sent : cm'.sent ≡ cm.sent ++ more
  pub encoding : cm'.encoding ≡ cm.encoding
  pub callback : cm'.send_packet_callback ≡ cm.send_packet_callback
  pub tx_free : cm'.tx_free_callback ≡ cm.tx_free_callback
  pub reg : cm'.reg_data ≡ cm.reg_data
  pub ensured : cm'.ensured_packets ≡ cm.ensured_packets
  pub retry_count : cm'.ensure_retry_count ≡ cm.ensure_retry_count

pub Extends-same :
    (P : ℕ → Type 0) (cm cm' : Manager)
    → cm'.sent ≡ cm.sent
    → cm'.encoding ≡ cm.encoding
    → cm'.send_packet_callback ≡ cm.send_packet_callback
    → cm'.tx_free_callback ≡ cm.tx_free_callback
    → cm'.reg_data ≡ cm.reg_data
    → cm'.ensured_packets ≡ cm.ensured_packets
    → cm'.ensure_retry_count ≡ cm.ensure_retry_count
    → Extends P cm cm'
Extends-same P cm cm' sent encoding callback tx_free reg ensured retry_count = record {
  more = [];
  on_ports = tt;
  sent = sent ∙ sym (append-nil cm.sent);
  encoding = encoding;
  callback = callback;
  tx_free = tx_free;
  reg = reg;
  ensured = ensured;
  retry_count = retry_count;
}

pub Extends-trans :
    {P : ℕ → Type 0} {cm1 cm2 cm3 : Manager}
    → Extends P cm1 cm2
    → Extends P cm2 cm3
    → Extends P cm1 cm3
Extends-trans {P = P} {cm1 = cm1} e f = record {
  more = e.more ++ f.more;
  on_ports = AllOn-append P e.more f.more e.on_ports f.on_ports;
  sent = f.sent ∙ (ap (λ l. l ++ f.more) e.sent ∙ append_assoc cm1.sent e.more f.more);
  encoding = f.encoding ∙ e.encoding;
  callback = f.callback ∙ e.callback;
  tx_free = f.tx_free ∙ e.tx_free;
  reg = f.reg ∙ e.reg;
  ensured = f.ensured ∙ e.ensured;
  retry_count = f.retry_count ∙ e.retry_count;
}

-- Either of two managers.
pub if-Extends :
    (P : ℕ → Type 0) (cm cm1 cm2 : Manager) (b : Bool)
    → Extends P cm cm1
    → Extends P cm cm2
    → Extends P cm (if b then cm1 else cm2)
if-Extends P cm cm1 cm2 true e f = e
if-Extends P cm cm1 cm2 false e f = f

deliver-Extends :
    (P : ℕ → Type 0) (cm : Manager) (ports : List Port) (p_handle : ℕ) (hdr : PacketHdr)
    (packet : Option (List ℕ))
    → P p_handle
    → Extends P cm
        (deliver
          (record { packet = packet; hdr = hdr; manager = record cm { ports = ports } })
          p_handle).manager
deliver-Extends P cm ports p_handle hdr none on =
    Extends-same P cm _ refl refl refl refl refl refl refl
deliver-Extends P cm ports p_handle hdr (some packet) on =
    if-Extends P cm (send_bytes (record cm { ports = ports }) p_handle packet)
      (record cm { ports = ports }) cm.send_packet_callback
      (record {
        more = record { p_handle = p_handle; packet = packet } ∷ [];
        on_ports = (on, tt);
        sent = refl;
        encoding = refl;
        callback = refl;
        tx_free = refl;
        reg = refl;
        ensured = refl;
        retry_count = refl;
      })
      (Extends-same P cm _ refl refl refl refl refl refl refl)

pub send_packet-Extends :
    (P : ℕ → Type 0) (cm : Manager) (p_handle : ℕ) (d_pkt : PacketHdr) (body : List ℕ)
    (additional : ℕ)
    → P p_handle
    → Extends P cm (send_packet cm p_handle d_pkt body additional).manager
unfolding send_packet encode_binary_packet
send_packet-Extends P cm p_handle d_pkt body additional on =
    deliver-Extends P cm _ p_handle _
      (encode_binary_packet cm p_handle d_pkt body additional).packet on

-- ===== src/Comm/Receive.antt =====
-- The sender of data packets and the parser together.
use rover_workspace.Prelude.{
  ℕ, ◌+◌, ◌-◌, ◌%◌, ◌^◌, ◌≤◌, ◌<◌, ◌≡◌, refl, sym, subst, ap, ◌∙◌, true, none, some, List, [], ◌∷◌,
  ◌++◌, ◌⊎◌, inl, inr, arith, length, length-append, ltb, ◌==◌, if◌then◌else◌, Bool-cases,
  not-ltb→le,
}
use rover_workspace.Prelude.Int.{pos, ltb_ℤ}
use rover_workspace.Prelude.Memory.{Memory, Holds, Holds-append, load32}
use rover_workspace.Packet.{PacketHdr, Packet, psc_end_byte, pid_ack, pid_data, pid_set_data}
use rover_workspace.Packet.Encode.{wire_flags, is_encode_binary_packet}
use rover_workspace.Packet.Encode.Room.{encode-some}
use rover_workspace.Packet.Decode.{Decoded, is_decode_binary_packet}
use rover_workspace.Packet.Delimiters.{encode-IsClean}
use rover_workspace.Packet.RoundTrip.{Received, decode-encode}
use rover_workspace.Packet.RoundTrip.Body.{IsBytes}
use rover_workspace.Comm.{Protocol, Comm, DataHdr, ptype_data}
use rover_workspace.Comm.Packets.{
  load_hdr, reset_parser, handle_decoded, process_pid, switch_pid, process_inertial_sense_pkt,
  max_dataset_size,
}
use rover_workspace.Comm.Parse.{finish, give_up, is_comm_parse_timeout}
use rover_workspace.Comm.Send.{Sent, send, send_data, data_size, word_bytes, data_hdr_bytes}
use rover_workspace.Comm.Pointers.{InOrder}
use rover_workspace.Comm.Scan.{at_scan, begun_at, loop_frame}

-- A data packet as the caller of the parser finds it: the header of the data, the data, and whether to
-- answer. The parser waits for the next message.
pub record Delivered (pid id offset : ℕ) (payload : List ℕ) (m : Memory) (c : Comm) : Type 0 where
  pub hdr : c.data_hdr ≡ record { id = id; size = length payload; offset = offset }
  pub held : Holds m c.data_ptr payload
  pub ack : c.ack_needed ≡ (if pid == pid_set_data then pid_ack else 0)
  pub idle : c.has_start_byte ≡ 0
  pub head : c.buf.head ≡ c.buf.scan

-- The packets that carry data.
abbrev pub IsData : ℕ → Type 0
IsData pid = (pid ≡ pid_data) ⊎ (pid ≡ pid_set_data)

pub load_word : (m : Memory) (p w : ℕ) → w < 2 ^ 32 → Holds m p (word_bytes w) → load32 m p ≡ w
load_word m p w small h =
    let at2 : p + 2 ≡ p + 1 + 1 = omega arith in
    let at3 : p + 3 ≡ p + 1 + 1 + 1 = omega arith in
    let b2 = ap m at2 ∙ h.1.1.0 in
    let b3 = ap m at3 ∙ h.1.1.1.0 in omega (arith, h.0, h.1.0, b2, b3)

load-hdr :
    (m : Memory) (p id size offset : ℕ) (payload : List ℕ)
    → id < 2 ^ 32
    → size < 2 ^ 32
    → offset < 2 ^ 32
    → Holds m p (data_hdr_bytes id size offset ++ payload)
    → (load_hdr m p ≡ record { id = id; size = size; offset = offset }) × Holds m (p + 12) payload
load-hdr m p id size offset payload s1 s2 s3 h =
    let (front, rest) =
      (Holds-append m p (p + 12) (data_hdr_bytes id size offset) payload refl).0 h in
    let (w1, more) =
      (Holds-append m p (p + 4) (word_bytes id) (word_bytes size ++ word_bytes offset) refl).0
        front in
    let (w2, w3) =
      (Holds-append m (p + 4) (p + 8) (word_bytes size) (word_bytes offset) (omega arith)).0 more in
    (
      λ i. record {
        id = load_word m p id s1 w1 i;
        size = load_word m (p + 4) size s2 w2 i;
        offset = load_word m (p + 8) offset s3 w3 i;
      },
      rest,
    )

isb_in_place :
    (m : Memory) (c : Comm)
    → c.alt_decode_buf ≡ 0
    → process_inertial_sense_pkt m c
      ≡ handle_decoded (reset_parser (record c { pkt_ptr = c.buf.head })) (
          is_decode_binary_packet m
            (record (c.pkt) { body_ptr = c.buf.start })
            c.buf.head
            (c.buf.scan - c.buf.head))
unfolding process_inertial_sense_pkt
isb_in_place m c in_place =
    let none_set : (c.alt_decode_buf == 0) ≡ true = ground arith in rw none_set

switch-data :
    (hdr : DataHdr) (c : Comm)
    → IsData c.pkt.hdr.pid
    → 0 < hdr.id
    → hdr.size ≤ max_dataset_size
    → switch_pid hdr c ≡ (
      ptype_data,
      record c {
        data_hdr = hdr;
        ack_needed = if c.pkt.hdr.pid == pid_set_data then pid_ack else 0;
        data_ptr = c.pkt.body_ptr + 12;
      },
    )
unfolding switch_pid
switch-data hdr c is_data some_id small = ground arith

-- A decoded packet with data.
decoded-Delivered :
    (c : Comm) (hdr : PacketHdr) (flags id offset : ℕ) (payload : List ℕ) (pkt : Packet)
    (d : Decoded)
    → IsData hdr.pid
    → 0 < id
    → id < 2 ^ 32
    → offset < 2 ^ 32
    → length payload ≤ max_dataset_size
    → c.has_start_byte ≡ 0
    → c.buf.head ≡ c.buf.scan
    → Received hdr flags (data_hdr_bytes id (length payload) offset ++ payload) pkt d
    → let (p, m, c') = handle_decoded c d in
      (p ≡ ptype_data) × Delivered hdr.pid id offset payload m c' × (c'.buf.scan ≡ c.buf.scan)
unfolding handle_decoded process_pid
decoded-Delivered c hdr flags id offset payload pkt d is_data some_id s1 s3 small idle head got =
    let p = pkt.body_ptr in
    let size = length payload in
    let (loaded, held) = load-hdr d.memory p id size offset payload s1 (omega arith) s3 got.held in
    let c1 : Comm = record c { pkt = d.packet } in
    let want : DataHdr = record { id = id; size = size; offset = offset } in
    let at : load_hdr d.memory d.packet.body_ptr ≡ want =
      ap (λ (k : Packet). load_hdr d.memory k.body_ptr) got.packet ∙ loaded in
    let is_data' : IsData d.packet.hdr.pid =
      subst (λ (k : Packet). IsData k.hdr.pid) (sym got.packet) is_data in
    let done =
      ap (λ (h : DataHdr). switch_pid h c1) at ∙ switch-data want c1 is_data' some_id small in
    let ptr = ap (λ (k : Packet). k.body_ptr + 12) got.packet in
    let same_pid = ap (λ (k : Packet). k.hdr.pid) got.packet in
    rw (got.fine, done)
      (
        refl,
        record {
          hdr = refl;
          held = rw ptr held;
          ack = ap (λ (n : ℕ). if n == pid_set_data then pid_ack else 0) same_pid;
          idle = idle;
          head = head;
        },
        refl,
      )

word-IsBytes : (w : ℕ) (xs : List ℕ) → IsBytes xs → IsBytes (word_bytes w ++ xs)
word-IsBytes w xs h = (omega arith, (omega arith, (omega arith, (omega arith, h))))

data_hdr-IsBytes :
    (id size offset : ℕ) (payload : List ℕ)
    → IsBytes payload
    → IsBytes (data_hdr_bytes id size offset ++ payload)
data_hdr-IsBytes id size offset payload bytes =
    let last = word_bytes offset ++ payload in
    word-IsBytes id (word_bytes size ++ last)
      (word-IsBytes size last (word-IsBytes offset payload bytes))

-- A time out needs a message that has begun.
give_up_idle : (c : Comm) (time_ms : ℕ) → c.has_start_byte ≡ 0 → give_up c time_ms ≡ c
unfolding give_up
give_up_idle c time_ms idle = rw idle

-- What `send` did for data that was encoded.
send_data-some :
    (sender : Comm) (id offset : ℕ) (payload : List ℕ) (pid n : ℕ) (sent : Sent)
    → send_data true sender id offset payload pid ≡ some sent
    → sent.encoded.result ≡ some n
    → (length payload + 12 ≤ 1024)
      × (sent ≡ send true sender (pid % 256) (data_hdr_bytes id (length payload) offset ++ payload))
unfolding send_data
send_data-some sender id offset payload pid n sent is result =
    elim (Bool-cases (ltb_ℤ (pos 1024) (data_size (length payload)))) [
      | inl refused ↦
          let same : some
                (record { encoded = record { result = none; written = [] }; comm = sender })
              ≡ some sent =
            rw refused at is in
          absurd (cc (same, result))
      | inr passed ↦ elim (Bool-cases (ltb 1024 (length payload + 12))) [
        | inl big ↦ let lost : none ≡ some sent = rw (passed, big) at is in absurd (cc lost)
        | inr fits ↦
            let same : some (
                  send true sender (pid % 256)
                    (data_hdr_bytes id (length payload) offset ++ payload))
                ≡ some sent =
              rw (passed, fits) at is in
            (omega (arith, not-ltb→le _ _ fits), cc same)
      ]
    ]

-- The packet of an encoder, of which the bytes wait at `scan`.
pub parse-encode :
    (limit : ℕ) (hdr : PacketHdr) (additional : ℕ) (id offset : ℕ) (payload : List ℕ) (n : ℕ)
    → hdr.counter < 256
    → hdr.flags < 256
    → additional < 256
    → IsData hdr.pid
    → 0 < id
    → id < 2 ^ 32
    → offset < 2 ^ 32
    → length payload ≤ max_dataset_size
    → IsBytes payload
    → let out =
        is_encode_binary_packet true limit hdr additional
          (data_hdr_bytes id (length payload) offset ++ payload) in
      out.result ≡ some n
      → (m : Memory) (c : Comm) (time_ms : ℕ) → InOrder c
      → c.has_start_byte ≡ 0
      → c.config.enable_isb ≡ true
      → c.alt_decode_buf ≡ 0
      → c.buf.scan + n ≤ c.buf.tail
      → Holds m c.buf.scan out.written
      → let r = is_comm_parse_timeout m c time_ms in
        (r.ptype ≡ ptype_data)
        × Delivered hdr.pid id offset payload r.memory r.comm
        × (r.comm.buf.scan ≡ c.buf.scan + n)
unfolding is_comm_parse_timeout finish reset_parser
parse-encode limit hdr additional id offset payload n ctr fl add is_data some_id s1 s3 small bytes
      sent m c time_ms v idle enabled in_place room held =
    let body = data_hdr_bytes id (length payload) offset ++ payload in
    let pid : hdr.pid < 256 = ground arith in
    let all = data_hdr-IsBytes id (length payload) offset payload bytes in
    let (inner, is, clean) = encode-IsClean limit hdr additional body n pid ctr fl add all sent in
    let (fits, count, frame_is) = encode-some true limit hdr additional body n sent in
    let len : n ≡ length inner + 2 =
      omega (arith, ap length is, ap length frame_is, length-append inner (psc_end_byte ∷ [])) in
    let end = c.buf.scan + length inner + 2 in
    let pkt : Packet = record (c.pkt) { body_ptr = c.buf.start } in
    let size : end - c.buf.scan ≡ n = omega arith in
    let got : Received hdr (wire_flags hdr additional) body pkt
        (is_decode_binary_packet m pkt c.buf.scan (end - c.buf.scan)) =
      rw size (
        decode-encode limit hdr additional body n pid ctr fl add all sent m pkt c.buf.scan
          (omega (arith, v.head_low, v.head_scan)) held) in
    let e = at_scan (begun_at c c.buf.scan) end in
    let done =
      decoded-Delivered (reset_parser (record e { pkt_ptr = c.buf.scan })) hdr
        (wire_flags hdr additional) id offset payload pkt _ is_data some_id s1 s3 small refl refl
        got in
    let loop =
      loop_frame (c.buf.tail - c.buf.scan) m c inner idle enabled clean (rw is at held)
        (omega arith) (omega arith) in
    let Good = λ (r : Protocol × Memory × Comm).
      (r.0 ≡ ptype_data)
      × Delivered hdr.pid id offset payload r.1 r.2
      × (r.2.buf.scan ≡ c.buf.scan + n) in
    let good : Good (process_inertial_sense_pkt m e) =
      subst Good (sym (isb_in_place m e in_place)) (done.0, done.1, omega (arith, done.2)) in
    rw (give_up_idle c time_ms idle, loop) good

-- Data that `is_comm_set_data` or `is_comm_data` of one instance has encoded without an error and with the
-- packet encoding enabled (`pid` is the packet id of the one or the other), for a data id that is not
-- 0, an id and an offset of 32 bits and data of bytes, reach the receiver: where the bytes written stand
-- at the scan pointer of another instance that waits for a message, accepts binary packets and decodes in
-- place, with its pointers in order, `is_comm_parse_timeout` returns _PTYPE_INERTIAL_SENSE_DATA at once,
-- whatever follows those bytes; the data header and the data are those sent, exactly the packet has been
-- consumed, and the instance waits for the next message, with an acknowledgement due for
-- `is_comm_set_data` only.
pub parse-send_data :
    (sender : Comm) (id offset : ℕ) (payload : List ℕ) (pid n : ℕ) (sent : Sent)
    → IsData pid
    → 0 < id
    → id < 2 ^ 32
    → offset < 2 ^ 32
    → IsBytes payload
    → send_data true sender id offset payload pid ≡ some sent
    → sent.encoded.result ≡ some n
    → (m : Memory) (c : Comm) (time_ms : ℕ) → InOrder c
    → c.has_start_byte ≡ 0
    → c.config.enable_isb ≡ true
    → c.alt_decode_buf ≡ 0
    → c.buf.scan + n ≤ c.buf.tail
    → Holds m c.buf.scan sent.encoded.written
    → let r = is_comm_parse_timeout m c time_ms in
      (r.ptype ≡ ptype_data)
      × Delivered pid id offset payload r.memory r.comm
      × (r.comm.buf.scan ≡ c.buf.scan + n)
unfolding send
parse-send_data sender id offset payload pid n sent is_data some_id s1 s3 bytes sends result m c
      time_ms v idle enabled in_place room held =
    let same_pid : pid % 256 ≡ pid = ground arith in
    let (small, same) = send_data-some sender id offset payload pid n sent sends result in
    let hdr : PacketHdr = record {
      start_byte = 0;
      pid = pid;
      counter = sender.tx_pkt_count % 256;
      flags = 0;
    } in
    let body = data_hdr_bytes id (length payload) offset ++ payload in
    let is : sent.encoded ≡ is_encode_binary_packet true sender.buf.size hdr 0 body =
      ap (λ (s : Sent). s.encoded) same
      ∙ ap (λ (p : ℕ). (send true sender p body).encoded) same_pid in
    parse-encode sender.buf.size hdr 0 id offset payload n (omega arith) (omega arith) (omega arith)
      is_data some_id s1 s3 (omega arith) bytes (rw is at result) m c time_ms v idle enabled
      in_place room (rw is at held)

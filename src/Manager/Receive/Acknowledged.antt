-- ===== src/Manager/Receive/Acknowledged.antt =====
-- A packet with PID_SET_DATA whose data fit into the registered data set.
use rover_workspace.Prelude.{
  ℕ, ◌+◌, ◌≤◌, ◌<◌, ◌≡◌, refl, sym, subst, ap, ◌∙◌, ◌⊎◌, inl, inr, true, Option, some, [], ◌∷◌,
  ◌++◌, arith, ◌==◌, modify, if◌then◌else◌,
}
use rover_workspace.Prelude.Memory.{Memory, bytes, load32, write_bytes-outside, length-bytes}
use rover_workspace.Packet.{Packet, pid_ack, pid_set_data}
use rover_workspace.Packet.Encode.{wire_flags}
use rover_workspace.Packet.Encode.Frame.{frame}
use rover_workspace.Comm.{DataHdr}
use rover_workspace.Comm.Send.{word_bytes, data_hdr_bytes}
use rover_workspace.Manager.{Manager, Reply, load_data_hdr}
use rover_workspace.Manager.Transmit.{send_ack}
use rover_workspace.Manager.Transmit.Frames.{wire_packet, counted_hdr, port_flags}
use rover_workspace.Manager.Transmit.Delivery.{data_pkt_hdr}
use rover_workspace.Manager.Retries.{update_packet_retry_data}
use rover_workspace.Manager.Receive.{
  note_packet, deliver_data, process_data, process_binary_rx_packet,
}
use rover_workspace.Manager.Receive.Stored.{stored, Fits, deliver_data-stored}
use rover_workspace.Manager.Transmit.Acks.{send_ack-frame}

-- The header of data that a write elsewhere leaves alone.
load_data_hdr-same :
    (m m' : Memory) (p : ℕ)
    → ((q : ℕ) → p ≤ q → q < p + 12 → m' q ≡ m q)
    → load_data_hdr m' p ≡ load_data_hdr m p
load_data_hdr-same m m' p same = λ i. record {
  id = word (p) (omega arith) (omega arith) i;
  size = word (p + 4) (omega arith) (omega arith) i;
  offset = word (p + 8) (omega arith) (omega arith) i;
}
  where
    word : (q : ℕ) → p ≤ q → q + 4 ≤ p + 12 → load32 m' q ≡ load32 m q
    word q low high = omega (
      arith,
      same q (omega arith) (omega arith),
      same (q + 1) (omega arith) (omega arith),
      same (q + 2) (omega arith) (omega arith),
      same (q + 3) (omega arith) (omega arith),
    )

-- A packet with PID_SET_DATA has been stored and acknowledged.
pub record Acknowledged (cm : Manager) (p_handle : ℕ) (pkt : Packet) (r : Reply) : Type 0 where
  pub ok : r.ok ≡ true
  pub memory : r.manager.memory ≡ stored cm pkt.body_ptr
  pub counter : ℕ
  pub flags : ℕ
  pub sent :
      let d = load_data_hdr cm.memory pkt.body_ptr in
      r.manager.sent
      ≡ cm.sent
        ++ record {
          p_handle = p_handle;
          packet =
              frame cm.encoding
                (record (data_pkt_hdr pid_ack 0) { counter = counter })
                flags
                (word_bytes pkt.hdr.pid
                  ++ word_bytes pkt.hdr.counter
                  ++ data_hdr_bytes d.id d.size d.offset);
        }
          ∷ []

process_data-Acknowledged :
    (cm : Manager) (p_handle : ℕ) (pkt : Packet)
    → pkt.hdr.pid ≡ pid_set_data
    → cm.send_packet_callback ≡ true
    → ((q : ℕ) → pkt.body_ptr ≤ q → q < pkt.body_ptr + 12 → stored cm pkt.body_ptr q ≡ cm.memory q)
    → Acknowledged cm p_handle pkt (process_data cm p_handle pkt (some (stored cm pkt.body_ptr)))
unfolding process_data update_packet_retry_data
process_data-Acknowledged cm p_handle pkt pid callback apart =
    let m = stored cm pkt.body_ptr in
    let done = update_packet_retry_data (record cm { memory = m }) pkt.body_ptr in
    let d = load_data_hdr m pkt.body_ptr in
    let same = load_data_hdr-same cm.memory m pkt.body_ptr apart in
    let hdr = counted_hdr done p_handle (data_pkt_hdr pid_ack 0) in
    let wire = λ (d : DataHdr).
      wire_packet done p_handle (data_pkt_hdr pid_ack 0)
        (word_bytes pkt.hdr.pid
          ++ word_bytes pkt.hdr.counter
          ++ data_hdr_bytes d.id d.size d.offset)
        0 in
    let is = send_ack-frame done p_handle pkt.hdr d callback pid in
    let answer : Manager → Reply = λ a. record { ok = true; manager = a } in
    let acked =
      if pkt.hdr.pid == pid_set_data then send_ack done p_handle pkt.hdr d pid_ack else done in
    let chosen : acked ≡ send_ack done p_handle pkt.hdr d pid_ack = simp pid in
    subst (Acknowledged cm p_handle pkt) (sym (ap answer (chosen ∙ is))) (record {
      ok = refl;
      memory = refl;
      counter = hdr.counter;
      flags = wire_flags hdr (port_flags done p_handle 0);
      sent =
          ap (λ (d : DataHdr). cm.sent ++ record { p_handle = p_handle; packet = wire d } ∷ [])
            same;
    })

set_dispatch :
    (cm : Manager) (p_handle : ℕ) (pkt : Packet)
    → pkt.hdr.pid ≡ pid_set_data
    → let noted : Manager = record cm { ports = modify cm.ports p_handle note_packet } in
      process_binary_rx_packet cm p_handle pkt
      ≡ process_data noted p_handle pkt (deliver_data noted p_handle pkt.body_ptr)
unfolding process_binary_rx_packet
set_dispatch cm p_handle pkt pid = simp pid

-- A packet with PID_SET_DATA whose data lie in the range of the data set that is registered for their
-- id, for receiving and without callbacks, while there is a send callback and the packet does not overlap the
-- data set, is processed with the result 0: exactly the data are written to the data set, at their offset,
-- and one packet is sent to the port, an acknowledgement with the id and counter of the
-- packet and with its data header.
pub set_data-Acknowledged :
    (cm : Manager) (p_handle : ℕ) (pkt : Packet)
    → pkt.hdr.pid ≡ pid_set_data
    → cm.send_packet_callback ≡ true
    → Fits cm pkt.body_ptr
    → let d = load_data_hdr cm.memory pkt.body_ptr in
      let reg = cm.reg_data d.id in
      (pkt.body_ptr + 12 + d.size ≤ reg.rx_ptr) ⊎ (reg.rx_ptr + reg.size ≤ pkt.body_ptr)
      → Acknowledged cm p_handle pkt (process_binary_rx_packet cm p_handle pkt)
set_data-Acknowledged cm p_handle pkt pid callback v apart =
    let noted : Manager = record cm { ports = modify cm.ports p_handle note_packet } in
    let d = load_data_hdr cm.memory pkt.body_ptr in
    let place = (cm.reg_data d.id).rx_ptr + d.offset in
    let data_bytes = bytes cm.memory (pkt.body_ptr + 12) d.size in
    let len = length-bytes cm.memory (pkt.body_ptr + 12) d.size in
    let fits = v.fits in
    let done = deliver_data-stored noted p_handle pkt.body_ptr (record {
      known = v.known;
      there = v.there;
      small = v.small;
      fits = v.fits;
      quiet = v.quiet;
      reg_quiet = v.reg_quiet;
    }) in
    let kept = λ (q : ℕ) (low : pkt.body_ptr ≤ q) (high : q < pkt.body_ptr + 12).
      write_bytes-outside cm.memory place data_bytes q
        (elim apart [ inl before ↦ inl (omega arith) | inr after ↦ inr (omega arith) ]) in
    let a = process_data-Acknowledged noted p_handle pkt pid callback kept in
    subst (Acknowledged cm p_handle pkt)
      (sym (
        set_dispatch cm p_handle pkt pid
        ∙ ap (λ (o : Option Memory). process_data noted p_handle pkt o) done))
      (record { ok = a.ok; memory = a.memory; counter = a.counter; flags = a.flags; sent = a.sent })

-- ===== src/Manager/Transmit/Acks.antt =====
-- An acknowledgement goes out as one packet.
use rover_workspace.Prelude.{
  ℕ, ◌≤◌, ◌≡◌, ap, ◌∙◌, true, none, List, ◌++◌, arith, length, ◌==◌, if◌then◌else◌,
}
use rover_workspace.Packet.{PacketHdr, pid_ack, pid_set_data, max_pkt_body_size}
use rover_workspace.Comm.{DataHdr}
use rover_workspace.Comm.Send.{word_bytes, data_hdr_bytes}
use rover_workspace.Manager.{Manager, Reply}
use rover_workspace.Manager.Transmit.{
  send_bytes, com_manager_send, send_data_packet, send_ack, PacketSent, send_packet, reply_of,
}
use rover_workspace.Manager.Transmit.Frames.{wire_packet, counted, send_packet-frame}
use rover_workspace.Manager.Transmit.Delivery.{data_pkt_hdr}

-- A packet of another kind than data.
plain_dispatch :
    (cm : Manager) (p_handle : ℕ) (body : List ℕ)
    → cm.send_packet_callback ≡ true
    → com_manager_send cm p_handle pid_ack none body 0
      ≡ reply_of (send_packet cm p_handle (data_pkt_hdr pid_ack 0) body 0)
unfolding com_manager_send send_data_packet
plain_dispatch cm p_handle body callback = simp callback

send_plain :
    (cm : Manager) (p_handle : ℕ) (body : List ℕ)
    → cm.send_packet_callback ≡ true
    → length body ≤ max_pkt_body_size
    → (com_manager_send cm p_handle pid_ack none body 0).manager
      ≡ send_bytes
          (counted cm p_handle)
          p_handle
          (wire_packet cm p_handle (data_pkt_hdr pid_ack 0) body 0)
send_plain cm p_handle body callback small =
    ap (λ (r : Reply). r.manager) (plain_dispatch cm p_handle body callback)
    ∙ ap (λ (r : PacketSent). r.manager)
        (send_packet-frame cm p_handle (data_pkt_hdr pid_ack 0) body 0 small callback)

-- An acknowledgement is one packet.
pub send_ack-frame :
    (cm : Manager) (p_handle : ℕ) (hdr : PacketHdr) (d : DataHdr)
    → cm.send_packet_callback ≡ true
    → hdr.pid ≡ pid_set_data
    → send_ack cm p_handle hdr d pid_ack
      ≡ send_bytes (counted cm p_handle) p_handle (
          wire_packet cm p_handle
            (data_pkt_hdr pid_ack 0)
            (word_bytes hdr.pid ++ word_bytes hdr.counter ++ data_hdr_bytes d.id d.size d.offset)
            0)
unfolding send_ack
send_ack-frame cm p_handle hdr d callback pid =
    let ack = word_bytes hdr.pid ++ word_bytes hdr.counter in
    let all = ack ++ data_hdr_bytes d.id d.size d.offset in
    let body = if hdr.pid == pid_set_data then all else ack in
    let is : body ≡ all = simp pid in
    ap (λ (l : List ℕ). (com_manager_send cm p_handle pid_ack none l 0).manager) is
    ∙ send_plain cm p_handle all callback (omega arith)

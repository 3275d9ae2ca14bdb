-- ===== src/Packet/Swap.antt =====
-- ISComm.c: `swapPacket`, for a packet of a big endian sender.
use rover_workspace.Prelude.{
  ℕ, ◌+◌, ◌-◌, bit_and, Bool, not, ◌&&◌, ◌||◌, Option, none, some, List, leb, ◌==◌, if◌then◌else◌,
  take,
}
use rover_workspace.Prelude.Int.{signed32}
use rover_workspace.Prelude.Memory.{Memory, load32}
use rover_workspace.Packet.{Packet, pid_data, pid_set_data, cm_pkt_flags_raw_data_no_swap}
use rover_workspace.DataSets.Offsets.{get_double_offsets, get_string_offsets_lengths}
use rover_workspace.DataSets.Flip.{flip_float, flip_endianess32, flip_doubles, flip_strings}

-- sizeof(p_data_hdr_t) and sizeof(dev_info_t)
abbrev pub p_data_hdr_size : ℕ
p_data_hdr_size = 12

abbrev dev_info_size : ℕ
dev_info_size = 84

abbrev did_dev_info : ℕ
did_dev_info = 1

-- DID_GPS1_VERSION and DID_GPS2_VERSION are text.
unfoldable pub data_id_should_swap : ℕ → Bool
data_id_should_swap data_id = not (data_id == 17 || data_id == 18)

-- `flip` at the offsets of a table's entry, if there is one.
abbrev at_offsets : Option (ℕ × List ℕ) → Memory → (Memory → List ℕ → Memory) → Memory
at_offsets none m flip = m
at_offsets (some (n, offsets)) m flip = flip m (take n offsets)

-- The body of a data packet whose header is in the CPU's order by now.
unfoldable pub swap_body : Memory → (body size : ℕ) → Memory
unfolding data_id_should_swap
swap_body m body size =
    let id = load32 m body in
    let data_size = signed32 (load32 m (body + 4)) in
    let offset = signed32 (load32 m (body + 8)) in
    let buf = body + p_data_hdr_size in
    if id == did_dev_info && size == p_data_hdr_size + dev_info_size
    then flip_float (flip_float (flip_float m (buf + 16)) (buf + 24)) (buf + 4)
    else if data_id_should_swap id
    then (let m1 = flip_endianess32 m buf (size - p_data_hdr_size) in
        let m2 =
          at_offsets (get_double_offsets id) m1
            (λ w offsets. flip_doubles w buf data_size offset offsets) in
        at_offsets (get_string_offsets_lengths id) m2
          (λ w offsets. flip_strings w buf data_size offset offsets))
    else m

unfoldable pub swap_packet : Memory → Packet → Memory
unfolding swap_body
swap_packet m pkt =
    let is_data = pkt.hdr.pid == pid_data || pkt.hdr.pid == pid_set_data in
    let has_hdr = leb p_data_hdr_size pkt.body_size in
    if not (bit_and pkt.hdr.flags cm_pkt_flags_raw_data_no_swap == 0)
    then (if is_data && has_hdr then flip_endianess32 m pkt.body_ptr p_data_hdr_size else m)
    else if not has_hdr || not is_data
    then flip_endianess32 m pkt.body_ptr pkt.body_size
    else swap_body (flip_endianess32 m pkt.body_ptr p_data_hdr_size) pkt.body_ptr pkt.body_size

-- ===== src/Packet.antt =====
-- The binary packets of ISComm.h and ISComm.c: their constants and the records of their parts.
-- The children model the encoder, the footer scan and the decoder, and prove the round trip.
pub mod Encode
pub mod Swap
pub mod Decode
pub mod RoundTrip
pub mod Delimiters
pub mod Overrun
mod Tests
use rover_workspace.Prelude.{ℕ, Bool, ◌||◌, ◌==◌}

-- enum ePktSpecialChars
abbrev pub psc_ascii_start_byte : ℕ
psc_ascii_start_byte = 0x24

abbrev pub psc_ascii_end_byte : ℕ
psc_ascii_end_byte = 0x0A

abbrev pub psc_start_byte : ℕ
psc_start_byte = 0xFF

abbrev pub psc_end_byte : ℕ
psc_end_byte = 0xFE

abbrev pub psc_reserved_key : ℕ
psc_reserved_key = 0xFD

abbrev pub ublox_start_byte1 : ℕ
ublox_start_byte1 = 0xB5

abbrev pub ublox_start_byte2 : ℕ
ublox_start_byte2 = 0x62

abbrev pub rtcm3_start_byte : ℕ
rtcm3_start_byte = 0xD3

-- enum ePktHdrFlags; the CPU of the target is little endian.
abbrev pub cpu_is_little_endian : ℕ
cpu_is_little_endian = 0x01

abbrev pub cm_pkt_flags_endianness_mask : ℕ
cm_pkt_flags_endianness_mask = 0x01

abbrev pub cm_pkt_flags_raw_data_no_swap : ℕ
cm_pkt_flags_raw_data_no_swap = 0x08

abbrev pub cm_pkt_flags_checksum_24_bit : ℕ
cm_pkt_flags_checksum_24_bit = 0x10

-- `((PKT_BUF_SIZE - MAX_PKT_OVERHEAD_SIZE) / 2) & 0xFFFFFFFE` with PKT_BUF_SIZE = 2048
abbrev pub pkt_buf_size : ℕ
pkt_buf_size = 2048

abbrev pub max_pkt_body_size : ℕ
max_pkt_body_size = 1016

abbrev pub checksum_seed : ℕ
checksum_seed = 0x00AAAAAA

-- ePacketIDs
abbrev pub pid_ack : ℕ
pid_ack = 1

abbrev pub pid_nack : ℕ
pid_nack = 2

abbrev pub pid_get_data : ℕ
pid_get_data = 3

abbrev pub pid_data : ℕ
pid_data = 4

abbrev pub pid_set_data : ℕ
pid_set_data = 5

abbrev pub pid_stop_broadcasts_all_ports : ℕ
pid_stop_broadcasts_all_ports = 6

abbrev pub pid_stop_did_broadcast : ℕ
pid_stop_did_broadcast = 7

abbrev pub pid_stop_broadcasts_current_port : ℕ
pid_stop_broadcasts_current_port = 8

-- packet_hdr_t
pub record PacketHdr : Type 0 where
  pub start_byte : ℕ
  pub pid : ℕ
  pub counter : ℕ
  pub flags : ℕ

-- packet_ftr_t
pub record PacketFtr : Type 0 where
  pub cksum3 : ℕ
  pub cksum2 : ℕ
  pub cksum1 : ℕ
  pub stop_byte : ℕ

-- packet_t: the body is a pointer and a size
pub record Packet : Type 0 where
  pub hdr : PacketHdr
  pub body_ptr : ℕ
  pub body_size : ℕ

-- The case labels of `encodeByteAddToBuffer`, each with what it does to the state.
abbrev pub is_special : ℕ → Bool
is_special v =
    v == psc_ascii_start_byte
    || v == psc_ascii_end_byte
    || v == psc_start_byte
    || v == psc_end_byte
    || v == psc_reserved_key
    || v == ublox_start_byte1
    || v == rtcm3_start_byte

-- The case labels of `is_decode_binary_packet_byte` that stand for corrupt data.
abbrev pub is_corrupt : ℕ → Bool
is_corrupt v =
    v == psc_ascii_start_byte
    || v == psc_ascii_end_byte
    || v == psc_start_byte
    || v == psc_end_byte
    || v == rtcm3_start_byte
    || v == ublox_start_byte1

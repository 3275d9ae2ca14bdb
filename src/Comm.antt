-- ===== src/Comm.antt =====
-- ISComm.h: the state of a communications instance, and what a parser reports.
pub mod Checksums
pub mod Packets
pub mod Parse
pub mod Send
pub mod Pointers
pub mod Room
pub mod Run
pub mod Scan
pub mod Receive
mod Tests
use rover_workspace.Prelude.{ℕ, ◌+◌, ◌%◌, ◌^◌, ◌==◌, Bool, not}
use rover_workspace.Prelude.Int.{ℤ, negsuc}
use rover_workspace.Packet.{Packet}

-- protocol_type_t
pub data Protocol : Type 0 where
  ptype_none ptype_parse_error ptype_ack ptype_cmd ptype_data ptype_nmea ptype_ublox ptype_rtcm3 :
      Protocol

-- is_comm_buffer_t
pub record CommBuffer : Type 0 where
  pub start : ℕ
  pub end_ptr : ℕ
  pub size : ℕ
  pub head : ℕ
  pub tail : ℕ
  pub scan : ℕ

-- is_comm_config_t
pub record CommConfig : Type 0 where
  pub enable_isb : Bool
  pub enable_ascii : Bool
  pub enable_ublox : Bool
  pub enable_rtcm3 : Bool

-- p_data_hdr_t
pub record DataHdr : Type 0 where
  pub id : ℕ
  pub size : ℕ
  pub offset : ℕ

-- is_comm_instance_t; a pointer that is NULL is 0.
pub record Comm : Type 0 where
  pub buf : CommBuffer
  pub config : CommConfig
  pub tx_pkt_count : ℕ
  pub rx_error_count : ℕ
  pub has_start_byte : ℕ
  pub parse_state : ℤ
  pub parse_time_ms : ℕ
  pub data_hdr : DataHdr
  pub data_ptr : ℕ
  pub pkt_ptr : ℕ
  pub alt_decode_buf : ℕ
  pub ack_needed : ℕ
  pub pkt : Packet

-- `n++` of a `uint32_t`
abbrev pub inc32 : ℕ → ℕ
inc32 n = (n + 1) % 2 ^ 32

abbrev pub minus_one : ℤ
minus_one = negsuc 0

-- A pointer or a flag that is set.
abbrev pub is_set : ℕ → Bool
is_set p = not (p == 0)

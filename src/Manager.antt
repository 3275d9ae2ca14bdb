-- ===== src/Manager.antt =====
-- com_manager.h: the state of a communications manager. An array is a list, a pointer is an address
-- of `memory` (NULL is 0), and the calls of `sendPacketCallback` are noted in `sent`, in their order.
-- The callbacks belong to the program that uses the manager: those that the manager reads something
-- from are functions of the memory and of what they are given.
pub mod Transmit
pub mod Broadcasts
pub mod Retries
pub mod Requests
pub mod Step
pub mod Receive
pub mod Listen
pub mod Setup
mod Tests
use rover_workspace.Prelude.{ℕ, ◌+◌, ◌≤◌, ◌<◌, Bool, Option, List, get_or, set, length}
use rover_workspace.Prelude.Int.{ℤ, negsuc, pos}
use rover_workspace.Prelude.Memory.{Memory, load32}
use rover_workspace.Packet.{PacketHdr}
use rover_workspace.Comm.{Comm, DataHdr}

abbrev pub did_count_uins : ℕ
did_count_uins = 100

abbrev pub did_reference_imu : ℕ
did_reference_imu = 95

abbrev pub did_rmc : ℕ
did_rmc = 9

abbrev pub max_num_bcast_msgs : ℕ
max_num_bcast_msgs = 12

-- `MAX_PKT_BODY_SIZE - sizeof(p_data_hdr_t)`
abbrev pub max_p_data_body_size : ℕ
max_p_data_body_size = 1004

abbrev pub min_request_period_ms : ℕ
min_request_period_ms = 1

abbrev pub max_request_period_ms : ℕ
max_request_period_ms = 100000

abbrev pub msg_period_send_once : ℤ
msg_period_send_once = negsuc 0

abbrev pub msg_period_disabled : ℤ
msg_period_disabled = pos 0

-- `counter` of an ensured packet: -1 is disabled, -2 that no slot from here on is enabled.
abbrev pub retry_disabled : ℤ
retry_disabled = negsuc 0

abbrev pub no_more_retries : ℤ
no_more_retries = negsuc 1

abbrev pub cm_pkt_flags_rx_valid_data : ℕ
cm_pkt_flags_rx_valid_data = 2

-- com_manager_status_t
pub record Status : Type 0 where
  pub read_counter : ℕ
  pub rx_pkt_count : ℕ
  pub rx_error : ℕ
  pub communication_error_count : ℕ
  pub flags : ℕ

-- com_manager_port_t; its `comm_buffer` is the range of the memory that `comm` points to.
pub record Port : Type 0 where
  pub comm : Comm
  pub status : Status

-- broadcast_msg_t: `tx_ptr` and `tx_size` are `pkt.txData`. `pkt.bodyHdr` of a slot in use is always
-- its own `dataHdr`.
pub record BroadcastMsg : Type 0 where
  pub hdr : PacketHdr
  pub body_hdr_size : ℕ
  pub tx_ptr : ℕ
  pub tx_size : ℕ
  pub data_hdr : DataHdr
  pub counter : ℤ
  pub period : ℤ
  pub p_handle : ℕ

-- ensured_pkt_t: `pkt.body` is always the first `body_size` bytes of `pkt_body`.
pub record EnsuredPkt : Type 0 where
  pub hdr : PacketHdr
  pub body_size : ℕ
  pub pkt_body : List ℕ
  pub counter : ℤ
  pub p_handle : ℕ

-- What a `preTxFnc` returns (0 keeps the data from being sent), and leaves behind.
pub record Prepared : Type 0 where
  pub send_data : Bool
  pub data_hdr : DataHdr
  pub memory : Memory

-- registered_data_t; a callback that is not registered is `none`.
pub record RegisteredData : Type 0 where
  pub tx_ptr : ℕ
  pub rx_ptr : ℕ
  pub size : ℕ
  pub pre_tx_fnc : Option (Memory → (p_handle : ℕ) → DataHdr → Prepared)
  pub pst_rx_fnc : Option (Memory → (p_handle : ℕ) → (data_ptr : ℕ) → Memory)
  pub pkt_flags : ℕ

-- p_data_get_t
pub record DataGet : Type 0 where
  pub id : ℕ
  pub size : ℕ
  pub offset : ℕ
  pub bc_period_multiple : ℕ

-- One call of `sendPacketCallback`.
pub record Sending : Type 0 where
  pub p_handle : ℕ
  pub packet : List ℕ

-- A handler of the messages of another protocol; `true` is a result that is not 0.
abbrev pub MsgHandler : Type 0
MsgHandler = Memory → (p_handle : ℕ) → (msg_ptr msg_size : ℕ) → Bool × Memory

-- com_manager_t. `encoding` is `s_packetEncodingEnabled` of ISComm.c; `send_packet_callback` says
-- whether there is one; `tx_free_callback` sees what has been sent; `true` of `msg_handler_rmc` is
-- the result 0. The length of `ensured_packets` is `maxEnsuredPackets`, that of `ports` `numHandles`.
pub record Manager : Type 0 where
  pub encoding : Bool
  pub send_packet_callback : Bool
  pub tx_free_callback : Option (List Sending → (p_handle : ℕ) → ℕ)
  pub pst_rx_fnc : Option (Memory → (p_handle : ℕ) → (data_ptr : ℕ) → Memory)
  pub pst_ack_fnc : Option (Memory → (p_handle : ℕ) → (ack_ptr pid : ℕ) → Memory)
  pub disable_bcast_fnc : Option (Memory → (p_handle : ℤ) → Memory)
  pub msg_handler_rmc : Option (Memory → (p_handle : ℕ) → DataGet → Bool × Memory)
  pub msg_handler_ascii : Option MsgHandler
  pub msg_handler_ublox : Option MsgHandler
  pub msg_handler_rtcm3 : Option MsgHandler
  pub reg_data : ℕ → RegisteredData
  pub ports : List Port
  pub ensured_packets : List EnsuredPkt
  pub broadcast_messages : List BroadcastMsg
  pub last_ensured_packet_index : ℕ
  pub user_pointer : ℕ
  pub step_period_milliseconds : ℕ
  pub ensure_retry_count : ℤ
  pub memory : Memory
  pub sent : List Sending

-- What a function that returns an `int` leaves behind; `ok` is the result 0.
pub record Reply : Type 0 where
  pub ok : Bool
  pub manager : Manager

-- The `p_data_hdr_t` at an address.
abbrev pub load_data_hdr : Memory → ℕ → DataHdr
load_data_hdr m p = record { id = load32 m p; size = load32 m (p + 4); offset = load32 m (p + 8) }

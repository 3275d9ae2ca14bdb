-- ===== src/Comm/Send.antt =====
-- ISComm.c: the functions that encode a request or data into the instance's buffer, and those that
-- copy received data.
use rover_workspace.Prelude.{
  ℕ, ◌+◌, ◌/◌, ◌%◌, ◌^◌, Bool, false, ◌||◌, ◌==◌, Option, none, some, List, [], ◌∷◌, ◌++◌, length,
  ltb, leb, if◌then◌else◌,
}
use rover_workspace.Prelude.Int.{ℤ, pos, ltb_ℤ, signed32}
use rover_workspace.Prelude.Memory.{Memory, bytes, write_bytes}
use rover_workspace.Packet.{
  PacketHdr, pid_get_data, pid_data, pid_set_data, pid_stop_broadcasts_all_ports,
  pid_stop_broadcasts_current_port,
}
use rover_workspace.Packet.Encode.{Encoded, is_encode_binary_packet}
use rover_workspace.Comm.{Comm, DataHdr, inc32}

-- The bytes of a `uint32_t` in a little endian memory.
abbrev pub word_bytes : ℕ → List ℕ
word_bytes w = w % 256 ∷ w / 2 ^ 8 % 256 ∷ w / 2 ^ 16 % 256 ∷ w / 2 ^ 24 % 256 ∷ []

abbrev pub data_hdr_bytes : (id size offset : ℕ) → List ℕ
data_hdr_bytes id size offset = word_bytes id ++ (word_bytes size ++ word_bytes offset)

-- What is written to `buf.start`, with the result, and the instance.
pub record Sent : Type 0 where
  pub encoded : Encoded
  pub comm : Comm

-- `start_byte` of the header is not read by the encoder.
unfoldable pub send : (enabled : Bool) → Comm → (pid : ℕ) → (body : List ℕ) → Sent
send enabled c pid body =
    let hdr : PacketHdr = record {
      start_byte = 0;
      pid = pid;
      counter = c.tx_pkt_count % 256;
      flags = 0;
    } in
    record {
      encoded = is_encode_binary_packet enabled c.buf.size hdr 0 body;
      comm = record c { tx_pkt_count = inc32 c.tx_pkt_count };
    }

unfoldable pub is_comm_get_data : Bool → Comm → (data_id offset size period_multiple : ℕ) → Sent
is_comm_get_data enabled c data_id offset size period_multiple =
    send enabled c pid_get_data (data_hdr_bytes data_id size offset ++ word_bytes period_multiple)

-- `int dataSize = size + sizeof(p_data_hdr_t)`: the sum is one of 32 bits, and negative from 2^31 on.
abbrev pub data_size : (size : ℕ) → ℤ
data_size size = signed32 ((size + 12) % 2 ^ 32)

-- More than MAX_DATASET_SIZE bytes with the header are refused. The test does not see a size near 2^31
-- or more, for which `memcpy` writes behind `toSend`: `none`.
unfoldable pub send_data :
    Bool → Comm → (data_id offset : ℕ) → (payload : List ℕ) → (pid : ℕ) → Option Sent
send_data enabled c data_id offset payload pid =
    if ltb_ℤ (pos 1024) (data_size (length payload))
    then some (record { encoded = record { result = none; written = [] }; comm = c })
    else if ltb 1024 (length payload + 12)
    then none
    else some
        (send enabled c (pid % 256) (data_hdr_bytes data_id (length payload) offset ++ payload))

unfoldable pub is_comm_set_data :
    Bool → Comm → (data_id offset : ℕ) → (payload : List ℕ) → Option Sent
is_comm_set_data enabled c data_id offset payload =
    send_data enabled c data_id offset payload pid_set_data

unfoldable pub is_comm_data : Bool → Comm → (data_id offset : ℕ) → (payload : List ℕ) → Option Sent
is_comm_data enabled c data_id offset payload = send_data enabled c data_id offset payload pid_data

unfoldable pub is_comm_stop_broadcasts_all_ports : Bool → Comm → Sent
is_comm_stop_broadcasts_all_ports enabled c = send enabled c pid_stop_broadcasts_all_ports []

unfoldable pub is_comm_stop_broadcasts_current_port : Bool → Comm → Sent
is_comm_stop_broadcasts_current_port enabled c = send enabled c pid_stop_broadcasts_current_port []

-- `copyDataPToStructP2`, and `is_comm_copy_to_struct` for the data of an instance: `none` is -1.
unfoldable pub copy_data_p_to_struct_p2 :
    Memory → (sptr : ℕ) → DataHdr → (data_buf maxsize : ℕ) → Option Memory
copy_data_p_to_struct_p2 m sptr hdr data_buf maxsize =
    if leb ((hdr.size + hdr.offset) % 2 ^ 32) maxsize
    then some (write_bytes m (sptr + hdr.offset) (bytes m data_buf hdr.size))
    else none

unfoldable pub is_comm_copy_to_struct : Memory → (sptr : ℕ) → Comm → (maxsize : ℕ) → Option Memory
is_comm_copy_to_struct m sptr c maxsize =
    if leb ((c.data_hdr.size + c.data_hdr.offset) % 2 ^ 32) maxsize
    then some (write_bytes m (sptr + c.data_hdr.offset) (bytes m c.data_ptr c.data_hdr.size))
    else none

-- The RMC bits are a `uint64_t`, sent as the first 8 bytes of the data set DID_RMC.
unfoldable pub is_comm_get_data_rmc : Bool → Comm → (rmc_bits : ℕ) → Option Sent
is_comm_get_data_rmc enabled c rmc_bits =
    is_comm_set_data enabled c 9 0 (word_bytes rmc_bits ++ word_bytes (rmc_bits / 2 ^ 32))

-- `copyStructPToDataP`: the data header stands at `data_ptr`, the data behind it.
unfoldable pub copy_struct_p_to_data_p :
    Memory → (data_ptr : ℕ) → DataHdr → (sptr maxsize : ℕ) → Option Memory
copy_struct_p_to_data_p m data_ptr hdr sptr maxsize =
    if leb ((hdr.size + hdr.offset) % 2 ^ 32) maxsize
    then some (write_bytes m (data_ptr + 12) (bytes m (sptr + hdr.offset) hdr.size))
    else none

-- g_validBaudRates
abbrev pub valid_baud_rates : List ℕ
valid_baud_rates = 10000000 ∷ 921600 ∷ 460800 ∷ 230400 ∷ 115200 ∷ 57600 ∷ 38400 ∷ 19200 ∷ 9600 ∷ []

unfoldable pub is_listed : (baud_rate : ℕ) → List ℕ → Bool
is_listed baud_rate [] = false
is_listed baud_rate (rate ∷ rates) = rate == baud_rate || is_listed baud_rate rates

-- The listed rates up to the highest standard one, and any rate above it up to the highest of all;
-- `true` is 0.
unfoldable pub validate_baud_rate : (baud_rate : ℕ) → Bool
validate_baud_rate baud_rate =
    if leb baud_rate 921600 then is_listed baud_rate valid_baud_rates else leb baud_rate 10000000

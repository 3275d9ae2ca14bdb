-- ===== src/Nmea/Streams/Asce.antt =====
-- protocol_nmea.cpp: `nmea_parse_asce`.
pub mod Outside
use rover_workspace.Prelude.{
  ℕ, zero, suc, ◌+◌, ◌-◌, ◌%◌, ◌^◌, bit_and, Bool, not, ◌&&◌, ◌||◌, Option, none, some, List, ◌∷◌,
  length, leb, ◌==◌, if◌then◌else◌,
}
use rover_workspace.Prelude.Int.{ℤ, pos, negsuc}
use rover_workspace.Nmea.Messages.{get_nmea_msg_id}
use rover_workspace.Nmea.Streams.{
  nmea_msg_id_count, RmcNmea, nmea_enable_stream, current, ascii_find_next_field, on_ports,
}

-- `(uint32_t)x` of an `int`
abbrev word32_of : ℤ → ℕ
word32_of (pos n) = n
word32_of (negsuc n) = 2 ^ 32 - 1 - n

abbrev is_digit : ℕ → Bool
is_digit c = leb b'0' c && leb c b'9'

-- Whether the `switch (ports)` changes a port at all
abbrev pub changes_some : (ports : ℕ) → Bool
changes_some ports = (ports == 0) || not (bit_and ports 0x0F == 0)

-- A stream set on the ports. For a message without a place in the array of the periods it is none, but
-- where no port is selected.
unfoldable pub enable_on_ports :
    (ports p_handle id period : ℕ) → List RmcNmea → Option (List RmcNmea)
enable_on_ports ports p_handle id period rmci =
    if leb nmea_msg_id_count id
    then (if changes_some ports then none else some rmci)
    else some (on_ports ports p_handle (λ r. nmea_enable_stream r id period) rmci)

-- `o` is the result of a step that may fail.
unfoldable pub and_then {ℓ κ} : {A : Type ℓ} {B : Type κ} → Option A → (A → Option B) → Option B
and_then none f = none
and_then (some a) f = f a

module _ (atoi : List ℕ → ℕ) where
  -- A number is the id, a letter begins the name of the message. `getNmeaMsgId` gets the pointer to the
  -- character before, which it does not read.
  unfoldable pub asce_id : List ℕ → ℕ
  asce_id ptr =
      if is_digit (current ptr)
      then atoi ptr % 2 ^ 32
      else word32_of (get_nmea_msg_id (0 ∷ ptr) (length ptr + 1))

  -- `n` rounds to go
  unfoldable pub asce_loop :
      (n ports p_handle : ℕ) (ptr : List ℕ) → List RmcNmea → Option (List RmcNmea)
  asce_loop zero ports p_handle ptr rmci = some rmci
  asce_loop (suc n) ports p_handle ptr rmci =
      let period_ptr = ascii_find_next_field ptr in
      let period = if current period_ptr == b',' then 0 else atoi period_ptr % 2 ^ 8 in
      if (current ptr == b'*') || (current period_ptr == b'*')
      then some rmci
      else and_then (enable_on_ports ports p_handle (asce_id ptr) period rmci)
          λ rmci'. asce_loop n ports p_handle (ascii_find_next_field period_ptr) rmci'

  -- `text` is the message from its seventh character on; `none` for a write outside the periods. The
  -- first assignment of `options` is lost, since `ASCII_to_u32` makes it again.
  unfoldable pub nmea_parse_asce :
      (p_handle : ℕ) (text : List ℕ) (rmci : List RmcNmea) → Option (ℕ × List RmcNmea)
  nmea_parse_asce p_handle text rmci =
      let options = atoi text % 2 ^ 32 in
      if leb 4 p_handle
      then some (0, rmci)
      else and_then (asce_loop 20 (bit_and options 0xFF) p_handle (ascii_find_next_field text) rmci)
          λ rmci'. some (options, rmci')

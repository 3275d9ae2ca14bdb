-- ===== src/Nmea/Streams.antt =====
-- protocol_nmea.cpp: which sentences a port streams: `nmea_enable_stream`,
-- `nmea_set_rmc_period_multiple` and `nmea_parse_ascb`, with `ASCII_find_next_field`. The `rmcNmea`
-- of the four ports are a list. `atoi` is the library's, its value as a 32-bit word.
pub mod Bits
pub mod Ports
pub mod Fields
pub mod Ascb
pub mod Asce
use rover_workspace.Prelude.{
  ℕ, zero, suc, ◌+◌, ◌-◌, ◌*◌, ◌%◌, ◌^◌, bit_and, bit_or, Bool, true, false, ◌||◌, not, List, [],
  ◌∷◌, modify, ltb, leb, ◌==◌, if◌then◌else◌,
}

-- NMEA_MSG_ID_COUNT
abbrev pub nmea_msg_id_count : ℕ
nmea_msg_id_count = 18

-- `rmcNmea_t`; the period multiples by message id
pub record RmcNmea : Type 0 where
  pub nmea_bits : ℕ
  pub nmea_period : ℕ → ℕ

-- `a[i] = v`
abbrev pub put : (ℕ → ℕ) → (i v : ℕ) → ℕ → ℕ
put a i v j = if j == i then v else a j

-- For an id below NMEA_MSG_ID_COUNT: `nmeaPeriod` has no other place, and `1<<nmeaId` is in range.
unfoldable pub nmea_enable_stream : RmcNmea → (nmea_id period_multiple : ℕ) → RmcNmea
nmea_enable_stream r nmea_id period_multiple =
    let nmea_bits = 2 ^ nmea_id in
    record {
      nmea_bits =
          if period_multiple == 0
          then bit_and r.nmea_bits (2 ^ 32 - 1 - nmea_bits)
          else bit_or r.nmea_bits nmea_bits;
      nmea_period = put r.nmea_period nmea_id period_multiple;
    }

-- The loop from `i` on, with `n` rounds to go; `tmp[i]` becomes an 8-bit word at the call.
unfoldable pub set_period_loop : (ℕ → ℕ) → (n i : ℕ) → RmcNmea → RmcNmea
set_period_loop tmp zero i r = r
set_period_loop tmp (suc n) i r =
    set_period_loop tmp n (i + 1) (nmea_enable_stream r i (tmp i % 2 ^ 8))

unfoldable pub nmea_set_rmc_period_multiple : (tmp : ℕ → ℕ) → RmcNmea → RmcNmea
nmea_set_rmc_period_multiple tmp r = set_period_loop tmp (nmea_msg_id_count - 1) 1 r

-- A string from a pointer on; what is behind it is a NUL.
abbrev pub current : List ℕ → ℕ
current [] = 0
current (c ∷ cs) = c

unfoldable pub ascii_find_next_field : List ℕ → List ℕ
ascii_find_next_field [] = []
ascii_find_next_field (c ∷ cs) =
    let later = ascii_find_next_field cs in
    if c == b',' then cs else if (c == 0) || (c == b'*') then c ∷ cs else later

-- PIMU, PPIMU, PINS1, PINS2, PGPSP, PRIMU, GGA, GLL, GSA, RMC, ZDA, PASHR, GSV and VTG, in the
-- order of the fields
abbrev pub ascb_fields : List ℕ
ascb_fields = 1 ∷ 2 ∷ 4 ∷ 5 ∷ 6 ∷ 3 ∷ 7 ∷ 8 ∷ 9 ∷ 10 ∷ 11 ∷ 12 ∷ 15 ∷ 16 ∷ []

-- `if (ports & flag) ...` for one port
abbrev pub when : Bool → (RmcNmea → RmcNmea) → ℕ → List RmcNmea → List RmcNmea
when test change port rmci = if test then modify rmci port change else rmci

-- The `switch (ports)` with which `ascb` and `asce` apply a change to the ports
unfoldable pub on_ports : (ports p_handle : ℕ) → (RmcNmea → RmcNmea) → List RmcNmea → List RmcNmea
on_ports ports p_handle change rmci =
    if ports == 0
    then modify rmci p_handle change
    else if ports == 0xFF
    then modify (modify (modify (modify rmci 0 change) 1 change) 2 change) 3 change
    else when (not (bit_and ports 0x08 == 0)) change 3 (
        when (not (bit_and ports 0x04 == 0)) change 2 (
          when (not (bit_and ports 0x02 == 0)) change 1
            (when (not (bit_and ports 0x01 == 0)) change 0 rmci)))

module _ (atoi : List ℕ → ℕ) where
  -- The fields in order, each behind the next comma; an empty one leaves its period 0.
  unfoldable pub read_periods : List ℕ → (ptr : List ℕ) → (tmp : ℕ → ℕ) → ℕ → ℕ
  read_periods [] ptr tmp = tmp
  read_periods (id ∷ ids) ptr tmp =
      let next = ascii_find_next_field ptr in
      read_periods ids next (if current next == b',' then tmp else put tmp id (atoi next % 2 ^ 16))

  -- `text` is the message from its seventh character on; the port handle is not negative.
  unfoldable pub nmea_parse_ascb :
      (p_handle : ℕ) (text : List ℕ) (rmci : List RmcNmea) → ℕ × List RmcNmea
  nmea_parse_ascb p_handle text rmci =
      if leb 4 p_handle
      then (0, rmci)
      else let options = if current text == b',' then 0 else atoi text % 2 ^ 32 in
        let tmp = read_periods ascb_fields text (λ _. 0) in
        (options, on_ports (bit_and options 0xFF) p_handle (nmea_set_rmc_period_multiple tmp) rmci)

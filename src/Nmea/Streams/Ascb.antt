-- ===== src/Nmea/Streams/Ascb.antt =====
-- protocol_nmea.cpp: what `nmea_parse_ascb` does to the streams of each port.
use rover_workspace.Prelude.{
  ℕ, suc, ◌<◌, ◌≡◌, refl, ap, ◌∙◌, ◌%◌, ◌^◌, bit_and, Bool, true, false, Option, some, List,
  Distinct, get_elem?-has, get_elem?, arith, leb, ◌==◌, if◌then◌else◌,
}
use rover_workspace.Nmea.Streams.{
  RmcNmea, nmea_msg_id_count, current, read_periods, ascb_fields, nmea_set_rmc_period_multiple,
  nmea_parse_ascb,
}
use rover_workspace.Prelude.BitAt.{bit_at}
use rover_workspace.Nmea.Streams.Bits.{is_on, set_rmc_period-Agrees}
use rover_workspace.Nmea.Streams.Ports.{selects, changed, on_ports-selects}
use rover_workspace.Nmea.Streams.Fields.{skip_fields, field_value, read_periods-field}

-- A port streams message `id` with this period, or not if it is 0.
abbrev pub Streams : Option RmcNmea → (id period : ℕ) → Type 0
Streams o id period =
    (r : RmcNmea) × ((o ≡ some r)
      × ((r.nmea_period id ≡ period) × (bit_at id r.nmea_bits ≡ is_on period)))

-- Each message with a field has an id that has a place in the table of periods.
field_id : (k id : ℕ) → get_elem? ascb_fields k ≡ some id → (0 < id) × (id < nmea_msg_id_count)
field_id k id e =
    let listed = get_elem?-has ascb_fields k id e in
    (ground (arith, listed), ground (arith, listed))

chosen :
    (test : Bool) (tmp : ℕ → ℕ) (r : RmcNmea) (o : Option RmcNmea) (id : ℕ)
    → 0 < id
    → id < nmea_msg_id_count
    → o ≡ changed test (nmea_set_rmc_period_multiple tmp) (some r)
    → if test then Streams o id (tmp id % 2 ^ 8) else (o ≡ some r)
chosen true tmp r o id low high e =
    (nmea_set_rmc_period_multiple tmp r, (e, set_rmc_period-Agrees tmp r id low high))
chosen false tmp r o id low high e = e

ascb_fields-Distinct : Distinct ascb_fields
ascb_fields-Distinct = (
  refl,
  (
    refl,
    (
      refl,
      (refl, (refl, (refl, (refl, (refl, (refl, (refl, (refl, (refl, (refl, (refl, tt))))))))))),
    ),
  ),
)

module _ (atoi : List ℕ → ℕ) where
  abbrev options_of : List ℕ → ℕ
  options_of text = if current text == b',' then 0 else atoi text % 2 ^ 32

  -- After an ASCB message for a port below 4, every port that its options select streams each message
  -- that has a field with the low 8 bits of the number in this field as its period, and with its bit
  -- set exactly when these are not 0; and the other ports are as they were.
  pub ascb-Streams :
      (p_handle port : ℕ) (text : List ℕ) (rmci : List RmcNmea) (r : RmcNmea) (k id : ℕ)
      → p_handle < 4
      → port < 4
      → get_elem? rmci port ≡ some r
      → get_elem? ascb_fields k ≡ some id
      → let (options, after) = nmea_parse_ascb atoi p_handle text rmci in
        if selects (bit_and options 0xFF) p_handle port
        then Streams (get_elem? after port) id (field_value atoi (skip_fields (suc k) text) % 2 ^ 8)
        else (get_elem? after port ≡ some r)
  unfolding nmea_parse_ascb
  ascb-Streams h port text rmci r k id handle below there field =
      let valid : leb 4 h ≡ false = ground arith in
      let (low, high) = field_id k id field in
      let tmp = read_periods atoi ascb_fields text (λ _. 0) in
      let value =
        read_periods-field atoi ascb_fields text (λ _. 0) k id ascb_fields-Distinct field refl in
      let chosen_port = selects (bit_and (options_of text) 0xFF) h port in
      let e =
        on_ports-selects (bit_and (options_of text) 0xFF) h port (nmea_set_rmc_period_multiple tmp)
          rmci below in
      let done =
        chosen chosen_port tmp r _ id low high
          (e ∙ ap (changed chosen_port (nmea_set_rmc_period_multiple tmp)) there) in
      rw (valid, ← value) done

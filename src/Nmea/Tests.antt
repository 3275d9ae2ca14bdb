-- ===== src/Nmea/Tests.antt =====
-- Sentences, satellites and streams at concrete values.
use rover_workspace.Prelude.{
  none, ℕ, ◌+◌, ◌*◌, ◌%◌, ◌^◌, ◌≡◌, refl, bit_and, some, List, [], ◌∷◌, ◌++◌, get_elem?, ltb,
  if◌then◌else◌, arith,
}
use rover_workspace.Prelude.Int.{pos}
use rover_workspace.Nmea.Signals.{
  switch, sig_id_to_nmea4p11_signal_id, nmea4p11_signal_id_to_sig_id, sig_id_to_nmea2p3_sv_id,
}
use rover_workspace.Nmea.Ids.{gnss_gps, gnss_gal, galileo_e1b2, gps_l5i}
use rover_workspace.Nmea.Signals.RoundTrip.{signal_id-sig_id}
use rover_workspace.Nmea.Talkers.{
  prn_to_sv_id, gnss_id_to_talker_id, talker_id_to_gnss_id, gsv_sv_id,
}
use rover_workspace.Nmea.Talkers.RoundTrip.{ReadsAs, talker-satellite}
use rover_workspace.Nmea.Messages.{nmea_msg_id_to_talker, chars, msg_gxgga, get_nmea_msg_id}
use rover_workspace.Nmea.Messages.RoundTrip.{msg_id-talker}
use rover_workspace.Prelude.BitAt.{bit_at-none}
use rover_workspace.Nmea.Streams.Bits.{Agrees}
use rover_workspace.Nmea.Streams.{
  nmea_msg_id_count, RmcNmea, nmea_parse_ascb, ascii_find_next_field,
}
use rover_workspace.Nmea.Streams.Ports.{selects}
use rover_workspace.Nmea.Streams.Fields.{skip_fields, field_value}
use rover_workspace.Nmea.Streams.Asce.{
  nmea_parse_asce, asce_loop, asce_id, enable_on_ports, and_then,
}
use rover_workspace.Nmea.Streams.Asce.Outside.{AllAgree, AgreesOrOutside, asce-AgreesOrOutside}
use rover_workspace.Nmea.Streams.Ascb.{Streams, ascb-Streams}

-- Galileo E1-B is sent as 7, which is read as E1-C, which is sent as 7.
signal_id-sig_id_e1b :
    sig_id_to_nmea4p11_signal_id gnss_gal
      (nmea4p11_signal_id_to_sig_id gnss_gal (sig_id_to_nmea4p11_signal_id gnss_gal galileo_e1b2))
    ≡ sig_id_to_nmea4p11_signal_id gnss_gal galileo_e1b2
signal_id-sig_id_e1b = signal_id-sig_id gnss_gal galileo_e1b2 (omega arith)

-- The 12 of L5-I is sent as 524.
talker-satellite_l5 : ReadsAs 0 gnss_gps 12 (gsv_sv_id 0 gnss_gps gnss_gps gps_l5i 12) (
    talker_id_to_gnss_id 0
      (gnss_id_to_talker_id gnss_gps)
      (gsv_sv_id 0 gnss_gps gnss_gps gps_l5i 12))
unfolding gsv_sv_id prn_to_sv_id sig_id_to_nmea2p3_sv_id switch
talker-satellite_l5 =
    talker-satellite 0 gnss_gps gps_l5i 12 (omega arith) (omega arith) (omega arith) (omega arith)
      (λ e. omega arith) (omega arith)

msg_id-talker_gga : get_nmea_msg_id (b'$' ∷ chars "GxGGA" ++ b',' ∷ chars "1,2") 20 ≡ pos msg_gxgga
unfolding nmea_msg_id_to_talker switch
msg_id-talker_gga =
    msg_id-talker msg_gxgga 8 20 (chars "GxGGA") (chars "1,2") refl (omega arith) (omega arith)
      (omega arith)

-- The number of the digits that a text starts with, which is what `atoi` gives for such a text.
abbrev digits_of : ℕ → List ℕ → ℕ
digits_of n [] = n
digits_of n (c ∷ cs) =
    let more = digits_of (10 * n + (c % 16)) cs in
    if ltb c b'0' then n else if ltb b'9' c then n else more

abbrev silent : RmcNmea
silent = record { nmea_bits = 0; nmea_period = λ i. 0 }

-- All ports stream GGA, the seventh field, in every second period.
abbrev request : List ℕ
request = chars "255,0,0,0,0,0,0,2,0*00"

ascb-Streams_gga :
    if selects
      (bit_and
        (nmea_parse_ascb (digits_of 0) 1 request (silent ∷ silent ∷ silent ∷ silent ∷ [])).0
        0xFF)
      1
      2
    then Streams
        (get_elem?
          (nmea_parse_ascb (digits_of 0) 1 request (silent ∷ silent ∷ silent ∷ silent ∷ [])).1
          2)
        7
        (field_value (digits_of 0) (skip_fields 7 request) % 2 ^ 8)
    else (get_elem?
          (nmea_parse_ascb (digits_of 0) 1 request (silent ∷ silent ∷ silent ∷ silent ∷ [])).1
          2
        ≡ some silent)
ascb-Streams_gga =
    ascb-Streams (digits_of 0) 1 2 request (silent ∷ silent ∷ silent ∷ silent ∷ []) silent 6 7
      (omega arith) (omega arith) refl refl

silent-AllAgree : AllAgree (silent ∷ silent ∷ silent ∷ silent ∷ [])
silent-AllAgree =
    let one : Agrees 0 nmea_msg_id_count silent = λ i low high. bit_at-none i in
    (one, (one, (one, (one, tt))))

-- Port 1 streams GGA in every fourth period.
asce-AgreesOrOutside_gga : AgreesOrOutside (digits_of 0) 1 (chars "2,GxGGA,4*00") (
    nmea_parse_asce (digits_of 0) 1 (chars "2,GxGGA,4*00") (silent ∷ silent ∷ silent ∷ silent ∷ []))
asce-AgreesOrOutside_gga =
    asce-AgreesOrOutside (digits_of 0) (chars "2,GxGGA,4*00") 1
      (silent ∷ silent ∷ silent ∷ silent ∷ []) silent-AllAgree

-- A name that is not known
asce_unknown : nmea_parse_asce (digits_of 0) 1 (chars "2,XYZ,4*00") (silent ∷ []) ≡ none
unfolding nmea_parse_asce asce_loop asce_id enable_on_ports and_then ascii_find_next_field
    get_nmea_msg_id
asce_unknown = refl

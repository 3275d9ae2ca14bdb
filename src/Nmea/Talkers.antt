-- ===== src/Nmea/Talkers.antt =====
-- protocol_nmea.cpp: `gnssId_to_talkerId`, `talkerId_to_gnssId` and `prnToSvId`. The protocol version
-- is the static variable `s_protocol_version`. A talker is the character behind the G.
pub mod RoundTrip
use rover_workspace.Prelude.{ℕ, ◌+◌, ◌-◌, ◌%◌, ◌^◌, [], ◌∷◌, ltb, leb, ◌==◌, if◌then◌else◌}
use rover_workspace.Nmea.Signals.{switch, nmea2p3_svid_to_sig_id, sig_id_to_nmea2p3_sv_id}
use rover_workspace.Nmea.Ids.{
  gnss_gps, gnss_sbs, gnss_gal, gnss_bei, gnss_qzs, gnss_glo, gnss_irn, gnss_ime,
}

-- NMEA_PROTOCOL_4P10
abbrev pub protocol_4p10 : ℕ
protocol_4p10 = 410

unfoldable pub gnss_id_to_talker_id : (gnss_id : ℕ) → ℕ
gnss_id_to_talker_id =
    switch
      ((gnss_gps, b'P')
        ∷ (gnss_sbs, b'P')
        ∷ (gnss_gal, b'A')
        ∷ (gnss_bei, b'B')
        ∷ (gnss_qzs, b'Q')
        ∷ (gnss_ime, b'Q')
        ∷ (gnss_glo, b'L')
        ∷ (gnss_irn, b'I')
        ∷ [])
      b'N'

-- The three references that the reader of a talker assigns
pub record Satellite : Type 0 where
  pub gnss_id : ℕ
  pub sv_id : ℕ
  pub sig_id : ℕ

-- The satellite number without the offset of its signal band, before NMEA 4.10
unfoldable pub without_band : (version sv_id : ℕ) → ℕ
without_band version sv_id =
    if ltb version protocol_4p10
    then (if leb 512 sv_id then sv_id - 512 else if leb 256 sv_id then sv_id - 256 else sv_id)
    else sv_id

-- `case 'P'`: GPS, SBAS and QZSS share a talker.
unfoldable pub shared_talker : (sv_id : ℕ) → ℕ × ℕ
shared_talker sv_id =
    if leb 193 sv_id
    then (gnss_qzs, sv_id - 192)
    else if ltb 32 sv_id
    then (gnss_sbs, if leb sv_id 64 then sv_id + 87 else sv_id)
    else (gnss_gps, sv_id)

-- The assignments of `sigId` before the last one are lost, since that one is always made.
unfoldable pub talker_id_to_gnss_id : (version talker sv_id : ℕ) → Satellite
talker_id_to_gnss_id version talker sv_id =
    let number = without_band version sv_id in
    let (gnss_id, own) = if talker == b'P' then shared_talker number else (
      switch
          ((b'A', gnss_gal)
            ∷ (b'B', gnss_bei)
            ∷ (b'L', gnss_glo)
            ∷ (b'I', gnss_irn)
            ∷ (b'Q', gnss_qzs)
            ∷ [])
          0 talker,
      number,
    ) in
    record { gnss_id = gnss_id; sv_id = own; sig_id = nmea2p3_svid_to_sig_id gnss_id sv_id }

-- `uint16_t svId = prnToSvId(...)`
unfoldable pub prn_to_sv_id : (gnss_id prn : ℕ) → ℕ
prn_to_sv_id gnss_id prn = if gnss_id == gnss_sbs then (2 ^ 16 + prn - 87) % 2 ^ 16 else prn

-- The satellite number that `nmea_gsv_group` prints: `group` is the system of the sentence, the
-- others are those of the satellite and its signal.
unfoldable pub gsv_sv_id : (version group gnss_id sig_id prn : ℕ) → ℕ
gsv_sv_id version group gnss_id sig_id prn =
    let sv_id = prn_to_sv_id gnss_id prn in
    if ltb version protocol_4p10 then sig_id_to_nmea2p3_sv_id group sig_id sv_id else sv_id

-- ===== src/Nmea/Signals.antt =====
-- protocol_nmea.cpp: `sigId_to_nmea4p11_signalId`, `sigId_to_nmea2p3_svId` and their inverses. The
-- systems and the signals are those of `Nmea.Ids`.
pub mod RoundTrip
use rover_workspace.Prelude.{ℕ, ◌+◌, ◌%◌, ◌^◌, List, [], ◌∷◌, ltb, leb, ◌==◌, if◌then◌else◌}
use rover_workspace.Nmea.Ids.{
  gnss_gps, gnss_sbs, gnss_gal, gnss_bei, gnss_qzs, gnss_glo, gnss_irn, gnss_ime, gps_l1ca,
  gps_l2cl, gps_l2cm, gps_l5i, gps_l5q, galileo_e1c2, galileo_e1b2, galileo_e5ai, galileo_e5aq,
  galileo_e5bi, galileo_e5bq, beidou_b1d1, beidou_b1d2, beidou_b2d1, beidou_b2d2, beidou_b1c,
  beidou_b2a, qzss_l1ca, qzss_l1s, qzss_l2cm, qzss_l2cl, qzss_l5i, qzss_l5q, glonass_l1of,
  glonass_l2of, navic_l5a,
}

-- A `switch` over constants, each case with its result, and what follows the switch.
unfoldable pub switch {ℓ} : {A : Type ℓ} → List (ℕ × A) → (otherwise : A) (key : ℕ) → A
switch [] otherwise key = otherwise
switch ((k, v) ∷ rows) otherwise key =
    let rest = switch rows otherwise key in if key == k then v else rest

abbrev pub gps_signal_ids : List (ℕ × ℕ)
gps_signal_ids =
    (gps_l1ca, b'1') ∷ (gps_l2cl, b'6') ∷ (gps_l2cm, b'5') ∷ (gps_l5i, b'7') ∷ (gps_l5q, b'8') ∷ []

abbrev pub gal_signal_ids : List (ℕ × ℕ)
gal_signal_ids =
    (galileo_e1c2, b'7')
    ∷ (galileo_e1b2, b'7')
    ∷ (galileo_e5ai, b'1')
    ∷ (galileo_e5aq, b'1')
    ∷ (galileo_e5bi, b'2')
    ∷ (galileo_e5bq, b'2')
    ∷ []

abbrev pub bei_signal_ids : List (ℕ × ℕ)
bei_signal_ids =
    (beidou_b1d1, b'1')
    ∷ (beidou_b1d2, b'1')
    ∷ (beidou_b2d1, b'B')
    ∷ (beidou_b2d2, b'B')
    ∷ (beidou_b1c, b'3')
    ∷ (beidou_b2a, b'5')
    ∷ []

abbrev pub qzs_signal_ids : List (ℕ × ℕ)
qzs_signal_ids =
    (qzss_l1ca, b'1')
    ∷ (qzss_l1s, b'4')
    ∷ (qzss_l2cm, b'5')
    ∷ (qzss_l2cl, b'6')
    ∷ (qzss_l5i, b'7')
    ∷ (qzss_l5q, b'8')
    ∷ []

abbrev pub glo_signal_ids : List (ℕ × ℕ)
glo_signal_ids = (glonass_l1of, b'1') ∷ (glonass_l2of, b'3') ∷ []

abbrev pub irn_signal_ids : List (ℕ × ℕ)
irn_signal_ids = (navic_l5a, b'7') ∷ []

unfoldable pub sig_id_to_nmea4p11_signal_id : (gnss_id sig_id : ℕ) → ℕ
sig_id_to_nmea4p11_signal_id gnss_id sig_id =
    if gnss_id == gnss_gps
    then switch gps_signal_ids b'0' sig_id
    else if gnss_id == gnss_sbs
    then 1
    else if gnss_id == gnss_gal
    then switch gal_signal_ids b'0' sig_id
    else if gnss_id == gnss_bei
    then switch bei_signal_ids b'0' sig_id
    else if gnss_id == gnss_qzs
    then switch qzs_signal_ids b'0' sig_id
    else if gnss_id == gnss_glo
    then switch glo_signal_ids b'0' sig_id
    else if gnss_id == gnss_irn
    then switch irn_signal_ids b'0' sig_id
    else b'0'

abbrev pub gps_sig_ids : List (ℕ × ℕ)
gps_sig_ids =
    (b'1', gps_l1ca) ∷ (b'6', gps_l2cl) ∷ (b'5', gps_l2cm) ∷ (b'7', gps_l5i) ∷ (b'8', gps_l5q) ∷ []

abbrev pub gal_sig_ids : List (ℕ × ℕ)
gal_sig_ids = (b'7', galileo_e1c2) ∷ (b'1', galileo_e5ai) ∷ (b'2', galileo_e5bq) ∷ []

abbrev pub bei_sig_ids : List (ℕ × ℕ)
bei_sig_ids =
    (b'1', beidou_b1d1) ∷ (b'B', beidou_b2d1) ∷ (b'3', beidou_b1c) ∷ (b'5', beidou_b2a) ∷ []

abbrev pub qzs_sig_ids : List (ℕ × ℕ)
qzs_sig_ids =
    (b'1', qzss_l1ca)
    ∷ (b'4', qzss_l1s)
    ∷ (b'5', qzss_l2cm)
    ∷ (b'6', qzss_l2cl)
    ∷ (b'7', qzss_l5i)
    ∷ (b'8', qzss_l5q)
    ∷ []

abbrev pub glo_sig_ids : List (ℕ × ℕ)
glo_sig_ids = (b'1', glonass_l1of) ∷ (b'3', glonass_l2of) ∷ []

abbrev pub irn_sig_ids : List (ℕ × ℕ)
irn_sig_ids = (b'7', navic_l5a) ∷ []

unfoldable pub nmea4p11_signal_id_to_sig_id : (gnss_id nmea_signal_id : ℕ) → ℕ
nmea4p11_signal_id_to_sig_id gnss_id nmea_signal_id =
    if gnss_id == gnss_gps
    then switch gps_sig_ids b'0' nmea_signal_id
    else if gnss_id == gnss_sbs
    then 0
    else if gnss_id == gnss_gal
    then switch gal_sig_ids b'0' nmea_signal_id
    else if gnss_id == gnss_bei
    then switch bei_sig_ids b'0' nmea_signal_id
    else if gnss_id == gnss_qzs
    then switch qzs_sig_ids b'0' nmea_signal_id
    else if gnss_id == gnss_glo
    then switch glo_sig_ids b'0' nmea_signal_id
    else if gnss_id == gnss_irn
    then switch irn_sig_ids b'0' nmea_signal_id
    else b'0'

-- `(uint16_t)x`
abbrev pub word16 : ℕ → ℕ
word16 x = x % 2 ^ 16

abbrev pub gps_sv_ids : ℕ → List (ℕ × ℕ)
gps_sv_ids sv_id =
    (gps_l1ca, sv_id)
    ∷ (gps_l2cl, word16 (sv_id + 256))
    ∷ (gps_l2cm, word16 (sv_id + 256))
    ∷ (gps_l5i, word16 (sv_id + 512))
    ∷ (gps_l5q, word16 (sv_id + 512))
    ∷ []

abbrev pub gal_sv_ids : ℕ → List (ℕ × ℕ)
gal_sv_ids sv_id =
    (galileo_e1c2, sv_id)
    ∷ (galileo_e1b2, sv_id)
    ∷ (galileo_e5ai, word16 (sv_id + 256))
    ∷ (galileo_e5aq, word16 (sv_id + 256))
    ∷ (galileo_e5bi, word16 (sv_id + 512))
    ∷ (galileo_e5bq, word16 (sv_id + 512))
    ∷ []

abbrev pub bei_sv_ids : ℕ → List (ℕ × ℕ)
bei_sv_ids sv_id =
    (beidou_b1d1, sv_id)
    ∷ (beidou_b1d2, sv_id)
    ∷ (beidou_b2d1, word16 (sv_id + 256))
    ∷ (beidou_b2d2, word16 (sv_id + 256))
    ∷ (beidou_b1c, sv_id)
    ∷ (beidou_b2a, word16 (sv_id + 512))
    ∷ []

abbrev pub qzs_sv_ids : ℕ → List (ℕ × ℕ)
qzs_sv_ids sv_id =
    (qzss_l1ca, sv_id)
    ∷ (qzss_l1s, sv_id)
    ∷ (qzss_l2cm, word16 (sv_id + 256))
    ∷ (qzss_l2cl, word16 (sv_id + 256))
    ∷ (qzss_l5i, word16 (sv_id + 512))
    ∷ (qzss_l5q, word16 (sv_id + 512))
    ∷ []

abbrev pub glo_sv_ids : ℕ → List (ℕ × ℕ)
glo_sv_ids sv_id = (glonass_l1of, sv_id) ∷ (glonass_l2of, word16 (sv_id + 256)) ∷ []

abbrev pub irn_sv_ids : ℕ → List (ℕ × ℕ)
irn_sv_ids sv_id = (navic_l5a, word16 (sv_id + 512)) ∷ []

unfoldable pub sig_id_to_nmea2p3_sv_id : (gnss_id sig_id sv_id : ℕ) → ℕ
sig_id_to_nmea2p3_sv_id gnss_id sig_id sv_id =
    if gnss_id == gnss_gps
    then switch (gps_sv_ids sv_id) 0 sig_id
    else if gnss_id == gnss_sbs
    then 1
    else if gnss_id == gnss_gal
    then switch (gal_sv_ids sv_id) 0 sig_id
    else if gnss_id == gnss_bei
    then switch (bei_sv_ids sv_id) 0 sig_id
    else if gnss_id == gnss_qzs
    then switch (qzs_sv_ids sv_id) 0 sig_id
    else if gnss_id == gnss_glo
    then switch (glo_sv_ids sv_id) 0 sig_id
    else if gnss_id == gnss_irn
    then switch (irn_sv_ids sv_id) 0 sig_id
    else 0

-- The usual signal of the third band, and that of the second band
abbrev pub third_band : List (ℕ × ℕ)
third_band =
    (gnss_gps, gps_l5q)
    ∷ (gnss_sbs, 0)
    ∷ (gnss_gal, galileo_e5bq)
    ∷ (gnss_bei, beidou_b2a)
    ∷ (gnss_qzs, qzss_l5q)
    ∷ (gnss_glo, glonass_l2of)
    ∷ (gnss_irn, navic_l5a)
    ∷ []

abbrev pub second_band : List (ℕ × ℕ)
second_band =
    (gnss_gps, gps_l2cl)
    ∷ (gnss_sbs, 0)
    ∷ (gnss_gal, galileo_e5aq)
    ∷ (gnss_bei, beidou_b2d1)
    ∷ (gnss_qzs, qzss_l2cl)
    ∷ (gnss_glo, glonass_l2of)
    ∷ (gnss_irn, navic_l5a)
    ∷ []

unfoldable pub nmea2p3_svid_to_sig_id : (gnss_id sv_id : ℕ) → ℕ
nmea2p3_svid_to_sig_id gnss_id sv_id =
    if ltb sv_id 256
    then 0
    else if leb 512 sv_id
    then switch third_band 0 gnss_id
    else switch second_band 0 gnss_id

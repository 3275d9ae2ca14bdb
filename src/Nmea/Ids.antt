-- ===== src/Nmea/Ids.antt =====
-- data_sets.h: the systems of `eSatSvGnssId` and the signals of `eSatSvSigId`.
use rover_workspace.Prelude.{ℕ}

abbrev pub gnss_gps : ℕ
gnss_gps = 1

abbrev pub gnss_sbs : ℕ
gnss_sbs = 2

abbrev pub gnss_gal : ℕ
gnss_gal = 3

abbrev pub gnss_bei : ℕ
gnss_bei = 4

abbrev pub gnss_qzs : ℕ
gnss_qzs = 5

abbrev pub gnss_glo : ℕ
gnss_glo = 6

abbrev pub gnss_irn : ℕ
gnss_irn = 7

abbrev pub gnss_ime : ℕ
gnss_ime = 8

abbrev pub gps_l1ca : ℕ
gps_l1ca = 0

abbrev pub gps_l2cl : ℕ
gps_l2cl = 3

abbrev pub gps_l2cm : ℕ
gps_l2cm = 4

abbrev pub gps_l5i : ℕ
gps_l5i = 6

abbrev pub gps_l5q : ℕ
gps_l5q = 7

abbrev pub galileo_e1c2 : ℕ
galileo_e1c2 = 0

abbrev pub galileo_e1b2 : ℕ
galileo_e1b2 = 1

abbrev pub galileo_e5ai : ℕ
galileo_e5ai = 3

abbrev pub galileo_e5aq : ℕ
galileo_e5aq = 4

abbrev pub galileo_e5bi : ℕ
galileo_e5bi = 5

abbrev pub galileo_e5bq : ℕ
galileo_e5bq = 6

abbrev pub beidou_b1d1 : ℕ
beidou_b1d1 = 0

abbrev pub beidou_b1d2 : ℕ
beidou_b1d2 = 1

abbrev pub beidou_b2d1 : ℕ
beidou_b2d1 = 2

abbrev pub beidou_b2d2 : ℕ
beidou_b2d2 = 3

abbrev pub beidou_b1c : ℕ
beidou_b1c = 5

abbrev pub beidou_b2a : ℕ
beidou_b2a = 7

abbrev pub qzss_l1ca : ℕ
qzss_l1ca = 0

abbrev pub qzss_l1s : ℕ
qzss_l1s = 1

abbrev pub qzss_l2cm : ℕ
qzss_l2cm = 4

abbrev pub qzss_l2cl : ℕ
qzss_l2cl = 5

abbrev pub qzss_l5i : ℕ
qzss_l5i = 8

abbrev pub qzss_l5q : ℕ
qzss_l5q = 9

abbrev pub glonass_l1of : ℕ
glonass_l1of = 0

abbrev pub glonass_l2of : ℕ
glonass_l2of = 2

abbrev pub navic_l5a : ℕ
navic_l5a = 0

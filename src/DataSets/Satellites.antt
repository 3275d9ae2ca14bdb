-- ===== src/DataSets/Satellites.antt =====
-- data_sets.c: `ubxSys`, `satNo` and `satNumCalc`. GPS, GLONASS, Galileo and SBAS are compiled in; the
-- least and the greatest number of the other systems is 0. Numbers are not negative.
use rover_workspace.Prelude.{
  ℕ, ◌+◌, ◌-◌, ◌≤◌, ◌≡◌, ◌≢◌, sym, ap, ◌∙◌, ◌||◌, ltb, leb, ◌==◌, if◌then◌else◌, arith,
}

abbrev pub sys_gps : ℕ
sys_gps = 0x01

abbrev pub sys_sbs : ℕ
sys_sbs = 0x02

abbrev pub sys_glo : ℕ
sys_glo = 0x04

abbrev pub sys_gal : ℕ
sys_gal = 0x08

abbrev pub sys_qzs : ℕ
sys_qzs = 0x10

abbrev pub sys_cmp : ℕ
sys_cmp = 0x20

abbrev pub sys_irn : ℕ
sys_irn = 0x40

abbrev pub sys_leo : ℕ
sys_leo = 0x80

unfoldable pub ubx_sys : ℕ → ℕ
ubx_sys gnss_id =
    if gnss_id == 0
    then sys_gps
    else if gnss_id == 1
    then sys_sbs
    else if gnss_id == 2
    then sys_gal
    else if gnss_id == 3
    then sys_cmp
    else if gnss_id == 5
    then sys_qzs
    else if gnss_id == 6
    then sys_glo
    else 0

-- `if (prn < min || max < prn) return 0; return before + prn - min + 1;`
abbrev in_system : (min max before prn : ℕ) → ℕ
in_system min max before prn = if ltb prn min || ltb max prn then 0 else before + prn - min + 1

-- 32 satellites of GPS, then 27 of GLONASS, 30 of Galileo, none of the systems left out, and those of SBAS.
unfoldable pub sat_no : (sys prn : ℕ) → ℕ
sat_no sys prn =
    if prn == 0
    then 0
    else if sys == sys_gps
    then in_system 1 32 0 prn
    else if sys == sys_glo
    then in_system 1 27 32 prn
    else if sys == sys_gal
    then in_system 1 30 (32 + 27) prn
    else if sys == sys_qzs || sys == sys_cmp || sys == sys_irn || sys == sys_leo
    then in_system 0 0 (32 + 27 + 30) prn
    else if sys == sys_sbs
    then in_system 133 138 (32 + 27 + 30) prn
    else 0

unfoldable pub sat_num_calc : (gnss_id sv_id : ℕ) → ℕ
sat_num_calc gnss_id sv_id =
    let sys = ubx_sys gnss_id in sat_no sys (sv_id + (if sys == sys_qzs then 192 else 0))

-- The system and the number in it of the satellite number `n`.
abbrev pub satellite : ℕ → ℕ × ℕ
satellite n =
    if leb n 32
    then (sys_gps, n)
    else if leb n 59
    then (sys_glo, n - 32)
    else if leb n 89
    then (sys_gal, n - 59)
    else (sys_sbs, n + 43)

in_range :
    (sys prn : ℕ)
    → sat_no sys prn ≢ 0
    → (sat_no sys prn ≤ 95)
      × ((satellite (sat_no sys prn)).0 ≡ sys)
      × ((satellite (sat_no sys prn)).1 ≡ prn)
unfolding sat_no
in_range sys prn fine = ground arith

-- `satNo` gives no two satellites the same number: where the numbers of two are the same and not the 0
-- of an error, the systems are the same and the satellites too. No number is above 95.
pub sat_no-inj :
    (sys prn sys' prn' : ℕ)
    → sat_no sys prn ≡ sat_no sys' prn'
    → sat_no sys prn ≢ 0
    → (sys ≡ sys') × (prn ≡ prn') × (sat_no sys prn ≤ 95)
sat_no-inj sys prn sys' prn' same fine =
    let (top, is_sys, is_prn) = in_range sys prn fine in
    let (_, is_sys', is_prn') = in_range sys' prn' (λ e. fine (same ∙ e)) in
    (
      sym is_sys ∙ ap (λ (n : ℕ). (satellite n).0) same ∙ is_sys',
      sym is_prn ∙ ap (λ (n : ℕ). (satellite n).1) same ∙ is_prn',
      top,
    )

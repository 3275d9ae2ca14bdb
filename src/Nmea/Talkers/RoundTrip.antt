-- ===== src/Nmea/Talkers/RoundTrip.antt =====
-- protocol_nmea.cpp: a satellite survives the trip through a GSV sentence.
use rover_workspace.Prelude.{
  ℕ, ◌+◌, ◌<◌, ◌≤◌, ◌≡◌, ◌≢◌, ◌⊎◌, ◌-◌, true, false, inl, inr, refl, sym, ap, ◌∙◌, arith, ltb, leb,
}
use rover_workspace.Nmea.Signals.{
  switch, sig_id_to_nmea2p3_sv_id, nmea2p3_svid_to_sig_id, gps_sv_ids, gal_sv_ids, bei_sv_ids,
  qzs_sv_ids, glo_sv_ids, irn_sv_ids, word16,
}
use rover_workspace.Nmea.Ids.{gnss_gps, gnss_sbs, gnss_irn}
use rover_workspace.Nmea.Talkers.{
  gnss_id_to_talker_id, without_band, talker_id_to_gnss_id, shared_talker, prn_to_sv_id, gsv_sv_id,
  Satellite, protocol_4p10,
}
use rover_workspace.Nmea.Signals.RoundTrip.{
  switch-Each, by_system, first_band_is, no_sv_id_beyond, sv_id-sig_id,
}

-- A number for a satellite in one of the three bands
abbrev InBand : (sv_id sent : ℕ) → Type 0
InBand sv sent = sent ≢ 0 → (sent ≡ sv) ⊎ ((sent ≡ sv + 256) ⊎ (sent ≡ sv + 512))

module _ {sv : ℕ} (small : sv < 256) where
  InBand-1 : InBand sv sv
  InBand-1 ne = inl refl

  InBand-2 : InBand sv (word16 (sv + 256))
  InBand-2 ne = inr (inl (omega arith))

  InBand-3 : InBand sv (word16 (sv + 512))
  InBand-3 ne = inr (inr (omega arith))

sv_id-InBand :
    (g sig sv : ℕ) → g ≢ gnss_sbs → sv < 256 → InBand sv (sig_id_to_nmea2p3_sv_id g sig sv)
unfolding sig_id_to_nmea2p3_sv_id
sv_id-InBand g sig sv ne small =
    by_system (λ g. g ≢ gnss_sbs → InBand sv (sig_id_to_nmea2p3_sv_id g sig sv))
      record {
        unknown = λ ne k. absurd (k refl);
        sbs = λ ne. absurd (ne refl);
        gps = λ ne.
            switch-Each (InBand sv) (gps_sv_ids sv) 0
              (
                InBand-1 small,
                (InBand-2 small, (InBand-2 small, (InBand-3 small, (InBand-3 small, tt)))),
              )
              (λ k. absurd (k refl)) sig;
        gal = λ ne.
            switch-Each (InBand sv) (gal_sv_ids sv) 0
              (
                InBand-1 small,
                (
                  InBand-1 small,
                  (InBand-2 small, (InBand-2 small, (InBand-3 small, (InBand-3 small, tt)))),
                ),
              )
              (λ k. absurd (k refl)) sig;
        bei = λ ne.
            switch-Each (InBand sv) (bei_sv_ids sv) 0
              (
                InBand-1 small,
                (
                  InBand-1 small,
                  (InBand-2 small, (InBand-2 small, (InBand-1 small, (InBand-3 small, tt)))),
                ),
              )
              (λ k. absurd (k refl)) sig;
        qzs = λ ne.
            switch-Each (InBand sv) (qzs_sv_ids sv) 0
              (
                InBand-1 small,
                (
                  InBand-1 small,
                  (InBand-2 small, (InBand-2 small, (InBand-3 small, (InBand-3 small, tt)))),
                ),
              )
              (λ k. absurd (k refl)) sig;
        glo = λ ne.
            switch-Each (InBand sv) (glo_sv_ids sv) 0 (InBand-1 small, (InBand-2 small, tt))
              (λ k. absurd (k refl)) sig;
        irn = λ ne.
            switch-Each (InBand sv) (irn_sv_ids sv) 0 (InBand-3 small, tt) (λ k. absurd (k refl))
              sig;
        beyond = λ g h ne k. absurd (k (no_sv_id_beyond g h sig sv));
      }
      g ne

without_band-sent :
    (version g sig sv : ℕ)
    → g ≢ gnss_sbs
    → sv < 256
    → gsv_sv_id version g g sig sv ≢ 0
    → without_band version (gsv_sv_id version g g sig sv) ≡ sv
unfolding without_band gsv_sv_id prn_to_sv_id
without_band-sent version g sig sv ne small known = ground (arith, sv_id-InBand g sig sv ne small)

shared_talker-gps : (sv : ℕ) → sv ≤ 32 → shared_talker sv ≡ (gnss_gps, sv)
unfolding shared_talker
shared_talker-gps sv small =
    let a : leb 193 sv ≡ false = ground arith in
    let b : ltb 32 sv ≡ false = ground arith in rw (a, b) refl

talker_of :
    (version sent sv g : ℕ)
    → 0 < g
    → g ≤ gnss_irn
    → g ≢ gnss_sbs
    → (g ≡ gnss_gps → sv ≤ 32)
    → without_band version sent ≡ sv
    → talker_id_to_gnss_id version (gnss_id_to_talker_id g) sent
      ≡ record { gnss_id = g; sv_id = sv; sig_id = nmea2p3_svid_to_sig_id g sent }
unfolding talker_id_to_gnss_id gnss_id_to_talker_id switch
talker_of version sent sv g some known ne gps e =
    by_system
      (λ g.
        0 < g
        → g ≤ gnss_irn
        → g ≢ gnss_sbs
        → (g ≡ gnss_gps → sv ≤ 32)
        → talker_id_to_gnss_id version (gnss_id_to_talker_id g) sent
          ≡ record { gnss_id = g; sv_id = sv; sig_id = nmea2p3_svid_to_sig_id g sent })
      record {
        unknown = λ some known ne gps. absurd (omega arith);
        gps = λ some known ne gps. rw (e, shared_talker-gps sv (gps refl)) refl;
        sbs = λ some known ne gps. absurd (ne refl);
        gal = λ some known ne gps. rw e refl;
        bei = λ some known ne gps. rw e refl;
        qzs = λ some known ne gps. rw e refl;
        glo = λ some known ne gps. rw e refl;
        irn = λ some known ne gps. rw e refl;
        beyond = λ g h some known. absurd (omega arith);
      }
      g some known ne gps

-- What is read of a number that was sent: the satellite, and before NMEA 4.10 a signal that is sent with
-- the same number, so one of the same band; from 4.10 on the signal 0.
pub record ReadsAs (version gnss_id sv_id sent : ℕ) (read : Satellite) : Type 0 where
  pub system : read.gnss_id ≡ gnss_id
  pub satellite : read.sv_id ≡ sv_id
  pub banded : version < protocol_4p10 → gsv_sv_id version gnss_id gnss_id read.sig_id sv_id ≡ sent
  pub unbanded : protocol_4p10 ≤ version → read.sig_id ≡ 0

-- Before NMEA 4.10 the satellite number says the band, and later it does not.
before_4p10 :
    (version g sig sv : ℕ)
    → g ≢ gnss_sbs
    → version < protocol_4p10
    → gsv_sv_id version g g sig sv ≡ sig_id_to_nmea2p3_sv_id g sig sv
unfolding gsv_sv_id prn_to_sv_id
before_4p10 version g sig sv ne early = ground arith

from_4p10 :
    (version g sig sv : ℕ)
    → g ≢ gnss_sbs
    → protocol_4p10 ≤ version
    → gsv_sv_id version g g sig sv ≡ sv
unfolding gsv_sv_id prn_to_sv_id
from_4p10 version g sig sv ne late = ground arith

-- A satellite written in a GSV sentence of its own system is read as the same satellite: with a number
-- of at most 32 for GPS and below 256 for another system but SBAS, where the number that is written is not
-- the 0 of an unknown signal. Before NMEA 4.10 the signal that is read is one that is written with the
-- same number, which says its band; from 4.10 on it is the signal 0.
pub talker-satellite :
    (version gnss_id sig_id sv_id : ℕ)
    → 0 < gnss_id
    → gnss_id ≤ gnss_irn
    → gnss_id ≢ gnss_sbs
    → sv_id < 256
    → (gnss_id ≡ gnss_gps → sv_id ≤ 32)
    → gsv_sv_id version gnss_id gnss_id sig_id sv_id ≢ 0
    → let sent = gsv_sv_id version gnss_id gnss_id sig_id sv_id in
      ReadsAs version gnss_id sv_id sent
        (talker_id_to_gnss_id version (gnss_id_to_talker_id gnss_id) sent)
talker-satellite version g sig sv some known ne small gps sent =
    let number = gsv_sv_id version g g sig sv in
    let read =
      talker_of version number sv g some known ne gps
        (without_band-sent version g sig sv ne small sent) in
    rw read (record {
      system = refl;
      satellite = refl;
      banded = λ early.
          let is = before_4p10 version g sig sv ne early in
          let again = sv_id-sig_id g sig sv small (rw is at sent) in
          before_4p10 version g (nmea2p3_svid_to_sig_id g number) sv ne early
          ∙ ap (λ n. sig_id_to_nmea2p3_sv_id g (nmea2p3_svid_to_sig_id g n) sv) is
          ∙ again
          ∙ sym is;
      unbanded = λ late.
          ap (nmea2p3_svid_to_sig_id g) (from_4p10 version g sig sv ne late)
          ∙ first_band_is g sv small;
    })

sbas_sent :
    (version prn : ℕ) → 120 ≤ prn → prn ≤ 151 → gsv_sv_id version gnss_gps gnss_sbs 0 prn ≡ prn - 87
unfolding gsv_sv_id prn_to_sv_id sig_id_to_nmea2p3_sv_id switch
sbas_sent version prn low high = ground arith

sbas_number : (version n : ℕ) → n < 256 → without_band version n ≡ n
unfolding without_band
sbas_number version n small = ground arith

shared_talker-sbas : (prn : ℕ) → 120 ≤ prn → prn ≤ 151 → shared_talker (prn - 87) ≡ (gnss_sbs, prn)
unfolding shared_talker
shared_talker-sbas prn low high =
    let a : leb 193 (prn - 87) ≡ false = ground arith in
    let b : ltb 32 (prn - 87) ≡ true = ground arith in
    let c : leb (prn - 87) 64 ≡ true = ground arith in
    let d : prn - 87 + 87 ≡ prn = omega arith in rw (a, b, c, d) refl

-- A satellite of SBAS with a number from 120 to 151, on its first signal, is written in a sentence of
-- GPS, and is read as the same satellite.
pub talker-sbas :
    (version prn : ℕ)
    → 120 ≤ prn
    → prn ≤ 151
    → let sent = gsv_sv_id version gnss_gps gnss_sbs 0 prn in
      talker_id_to_gnss_id version (gnss_id_to_talker_id gnss_gps) sent
      ≡ record { gnss_id = gnss_sbs; sv_id = prn; sig_id = 0 }
unfolding talker_id_to_gnss_id gnss_id_to_talker_id switch
talker-sbas version prn low high =
    rw
      (
        sbas_sent version prn low high,
        sbas_number version (prn - 87) (omega arith),
        shared_talker-sbas prn low high,
        first_band_is gnss_sbs (prn - 87) (omega arith),
      )
      refl

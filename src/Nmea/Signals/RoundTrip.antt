-- ===== src/Nmea/Signals/RoundTrip.antt =====
-- protocol_nmea.cpp: signals survive the trip through a sentence.
use rover_workspace.Prelude.{
  ℕ, zero, suc, ◌+◌, ◌<◌, ◌≡◌, ◌≢◌, refl, subst, List, [], ◌∷◌, Bool-cases, inl, inr, arith, ◌==◌,
}
use rover_workspace.Nmea.Signals.{
  switch, gps_signal_ids, gal_signal_ids, bei_signal_ids, qzs_signal_ids, glo_signal_ids,
  irn_signal_ids, sig_id_to_nmea4p11_signal_id, nmea4p11_signal_id_to_sig_id,
  sig_id_to_nmea2p3_sv_id, nmea2p3_svid_to_sig_id, word16, second_band, third_band, gps_sv_ids,
  gal_sv_ids, bei_sv_ids, qzs_sv_ids, glo_sv_ids, irn_sv_ids,
}
use rover_workspace.Nmea.Ids.{gnss_sbs}

-- What holds of each case of a switch, of its constant and its result
abbrev pub EachCase {ℓ} : {A : Type ℓ} → (ℕ → A → Type 0) → List (ℕ × A) → Type 0
EachCase P [] = Unit {0}
EachCase P ((k, v) ∷ rows) = P k v × EachCase P rows

pub switch-EachCase {ℓ} :
    {A : Type ℓ} (P : ℕ → A → Type 0) (rows : List (ℕ × A)) (otherwise : A) (key : ℕ)
    → EachCase P rows
    → P key otherwise
    → P key (switch rows otherwise key)
unfolding switch
switch-EachCase P [] otherwise key each rest = rest
switch-EachCase P ((k, v) ∷ rows) otherwise key each rest = elim (Bool-cases (key == k)) [
  | inl e ↦ let same : k ≡ key = ground (arith, e) in rw e (subst (λ k. P k v) same each.0)
  | inr e ↦ rw e (switch-EachCase P rows otherwise key each.1 rest)
]

-- What holds of each result of a switch
abbrev pub Each : (ℕ → Type 0) → List (ℕ × ℕ) → Type 0
Each P rows = EachCase (λ k v. P v) rows

pub switch-Each :
    (P : ℕ → Type 0) (rows : List (ℕ × ℕ)) (otherwise : ℕ)
    → Each P rows
    → P otherwise
    → (key : ℕ) → P (switch rows otherwise key)
switch-Each P rows otherwise each rest key =
    switch-EachCase (λ k v. P v) rows otherwise key each rest

-- What holds of no system, of each system, and of what is none
pub record EachSystem (P : ℕ → Type 0) : Type 0 where
  pub unknown : P 0
  pub gps : P 1
  pub sbs : P 2
  pub gal : P 3
  pub bei : P 4
  pub qzs : P 5
  pub glo : P 6
  pub irn : P 7
  pub beyond : (g : ℕ) → 7 < g → P g

pub by_system : (P : ℕ → Type 0) → EachSystem P → (gnss_id : ℕ) → P gnss_id
by_system P e zero = e.unknown
by_system P e (suc zero) = e.gps
by_system P e (suc (suc zero)) = e.sbs
by_system P e (suc (suc (suc zero))) = e.gal
by_system P e (suc (suc (suc (suc zero)))) = e.bei
by_system P e (suc (suc (suc (suc (suc zero))))) = e.qzs
by_system P e (suc (suc (suc (suc (suc (suc zero)))))) = e.glo
by_system P e (suc (suc (suc (suc (suc (suc (suc zero))))))) = e.irn
by_system P e (suc (suc (suc (suc (suc (suc (suc (suc g)))))))) = e.beyond _ (omega arith)

-- The signal number of a sentence, read and written again
resent : (gnss_id signal_id : ℕ) → ℕ
resent g v = sig_id_to_nmea4p11_signal_id g (nmea4p11_signal_id_to_sig_id g v)

resent_beyond :
    (g : ℕ)
    → 7 < g
    → (sig_id : ℕ)
    → resent g (sig_id_to_nmea4p11_signal_id g sig_id) ≡ sig_id_to_nmea4p11_signal_id g sig_id
unfolding resent sig_id_to_nmea4p11_signal_id nmea4p11_signal_id_to_sig_id
resent_beyond g h sig_id = ground arith

-- For every system but SBAS, a sentence names the signal again that the reader of the sentence found
-- in it: the signal number written is the same, also where the reader takes another signal for it.
pub signal_id-sig_id :
    (gnss_id sig_id : ℕ)
    → gnss_id ≢ gnss_sbs
    → let sent = sig_id_to_nmea4p11_signal_id gnss_id sig_id in
      sig_id_to_nmea4p11_signal_id gnss_id (nmea4p11_signal_id_to_sig_id gnss_id sent) ≡ sent
unfolding resent sig_id_to_nmea4p11_signal_id nmea4p11_signal_id_to_sig_id switch
signal_id-sig_id g s ne =
    by_system
      (λ g.
        g ≢ gnss_sbs
        → resent g (sig_id_to_nmea4p11_signal_id g s) ≡ sig_id_to_nmea4p11_signal_id g s)
      record {
        unknown = λ ne. refl;
        gps = λ ne.
            switch-Each (λ v. resent 1 v ≡ v) gps_signal_ids b'0'
              (refl, (refl, (refl, (refl, (refl, tt))))) refl s;
        sbs = λ ne. absurd (ne refl);
        gal = λ ne.
            switch-Each (λ v. resent 3 v ≡ v) gal_signal_ids b'0'
              (refl, (refl, (refl, (refl, (refl, (refl, tt)))))) refl s;
        bei = λ ne.
            switch-Each (λ v. resent 4 v ≡ v) bei_signal_ids b'0'
              (refl, (refl, (refl, (refl, (refl, (refl, tt)))))) refl s;
        qzs = λ ne.
            switch-Each (λ v. resent 5 v ≡ v) qzs_signal_ids b'0'
              (refl, (refl, (refl, (refl, (refl, (refl, tt)))))) refl s;
        glo = λ ne. switch-Each (λ v. resent 6 v ≡ v) glo_signal_ids b'0' (refl, (refl, tt)) refl s;
        irn = λ ne. switch-Each (λ v. resent 7 v ≡ v) irn_signal_ids b'0' (refl, tt) refl s;
        beyond = λ g h ne. resent_beyond g h s;
      }
      g ne

module _ (gnss_id sv_id : ℕ) (small : sv_id < 256) where
  pub first_band_is : nmea2p3_svid_to_sig_id gnss_id sv_id ≡ 0
  unfolding nmea2p3_svid_to_sig_id
  first_band_is = ground arith

  pub second_band_is :
      nmea2p3_svid_to_sig_id gnss_id (word16 (sv_id + 256)) ≡ switch second_band 0 gnss_id
  unfolding nmea2p3_svid_to_sig_id
  second_band_is = ground arith

  pub third_band_is :
      nmea2p3_svid_to_sig_id gnss_id (word16 (sv_id + 512)) ≡ switch third_band 0 gnss_id
  unfolding nmea2p3_svid_to_sig_id
  third_band_is = ground arith

-- The satellite number of a sentence, its signal read and written again
renumbered : (gnss_id sv_id sent : ℕ) → ℕ
renumbered g sv v = sig_id_to_nmea2p3_sv_id g (nmea2p3_svid_to_sig_id g v) sv

pub no_sv_id_beyond :
    (g : ℕ) → 7 < g → (sig_id sv_id : ℕ) → sig_id_to_nmea2p3_sv_id g sig_id sv_id ≡ 0
unfolding sig_id_to_nmea2p3_sv_id
no_sv_id_beyond g h sig_id sv_id = ground arith

abbrev Kept : (gnss_id sv_id sent : ℕ) → Type 0
Kept g sv v = v ≢ 0 → renumbered g sv v ≡ v

-- Before NMEA 4.10 a satellite number names its signal band: that of a known signal is written
-- again from the signal that the reader finds in it.
pub sv_id-sig_id :
    (gnss_id sig_id sv_id : ℕ)
    → sv_id < 256
    → sig_id_to_nmea2p3_sv_id gnss_id sig_id sv_id ≢ 0
    → let sent = sig_id_to_nmea2p3_sv_id gnss_id sig_id sv_id in
      sig_id_to_nmea2p3_sv_id gnss_id (nmea2p3_svid_to_sig_id gnss_id sent) sv_id ≡ sent
unfolding renumbered sig_id_to_nmea2p3_sv_id switch
sv_id-sig_id g s sv small known =
    by_system (λ g. Kept g sv (sig_id_to_nmea2p3_sv_id g s sv))
      record {
        unknown = λ k. absurd (k refl);
        sbs = λ k. refl;
        gps =
            switch-Each (Kept 1 sv) (gps_sv_ids sv) 0
              (
                λ k. rw (first_band_is 1 sv small) refl,
                (
                  λ k. rw (second_band_is 1 sv small) refl,
                  (
                    λ k. rw (second_band_is 1 sv small) refl,
                    (
                      λ k. rw (third_band_is 1 sv small) refl,
                      (λ k. rw (third_band_is 1 sv small) refl, tt),
                    ),
                  ),
                ),
              )
              (λ k. absurd (k refl)) s;
        gal =
            switch-Each (Kept 3 sv) (gal_sv_ids sv) 0
              (
                λ k. rw (first_band_is 3 sv small) refl,
                (
                  λ k. rw (first_band_is 3 sv small) refl,
                  (
                    λ k. rw (second_band_is 3 sv small) refl,
                    (
                      λ k. rw (second_band_is 3 sv small) refl,
                      (
                        λ k. rw (third_band_is 3 sv small) refl,
                        (λ k. rw (third_band_is 3 sv small) refl, tt),
                      ),
                    ),
                  ),
                ),
              )
              (λ k. absurd (k refl)) s;
        bei =
            switch-Each (Kept 4 sv) (bei_sv_ids sv) 0
              (
                λ k. rw (first_band_is 4 sv small) refl,
                (
                  λ k. rw (first_band_is 4 sv small) refl,
                  (
                    λ k. rw (second_band_is 4 sv small) refl,
                    (
                      λ k. rw (second_band_is 4 sv small) refl,
                      (
                        λ k. rw (first_band_is 4 sv small) refl,
                        (λ k. rw (third_band_is 4 sv small) refl, tt),
                      ),
                    ),
                  ),
                ),
              )
              (λ k. absurd (k refl)) s;
        qzs =
            switch-Each (Kept 5 sv) (qzs_sv_ids sv) 0
              (
                λ k. rw (first_band_is 5 sv small) refl,
                (
                  λ k. rw (first_band_is 5 sv small) refl,
                  (
                    λ k. rw (second_band_is 5 sv small) refl,
                    (
                      λ k. rw (second_band_is 5 sv small) refl,
                      (
                        λ k. rw (third_band_is 5 sv small) refl,
                        (λ k. rw (third_band_is 5 sv small) refl, tt),
                      ),
                    ),
                  ),
                ),
              )
              (λ k. absurd (k refl)) s;
        glo =
            switch-Each (Kept 6 sv) (glo_sv_ids sv) 0
              (
                λ k. rw (first_band_is 6 sv small) refl,
                (λ k. rw (second_band_is 6 sv small) refl, tt),
              )
              (λ k. absurd (k refl)) s;
        irn =
            switch-Each (Kept 7 sv) (irn_sv_ids sv) 0 (λ k. rw (third_band_is 7 sv small) refl, tt)
              (λ k. absurd (k refl)) s;
        beyond = λ g h k. absurd (k (no_sv_id_beyond g h s sv));
      }
      g known

-- ===== src/Nmea/Streams/Bits.antt =====
-- protocol_nmea.cpp: the bits and the periods of a port say the same.
use rover_workspace.Prelude.{
  ℕ, zero, suc, ◌+◌, ◌-◌, ◌%◌, ◌^◌, ◌≤◌, ◌<◌, ◌≡◌, ◌≢◌, ap, ◌∙◌, refl, inl, inr, Bool-cases, arith,
  ltb, leb, ◌==◌, if◌then◌else◌,
}
use rover_workspace.Prelude.BitAt.{
  bit_at, bit_at-lt, bit_at-or, bit_at-and, bit_at-not, bit_at-power, power-lt,
}
use rover_workspace.Nmea.Streams.{
  nmea_msg_id_count, RmcNmea, nmea_enable_stream, set_period_loop, nmea_set_rmc_period_multiple,
}

-- Whether a stream of this period is on
abbrev pub is_on : ℕ → ℕ
is_on period = if period == 0 then 0 else 1

enable-bit :
    (r : RmcNmea) (k p i : ℕ)
    → k < 32
    → i < 32
    → bit_at i (nmea_enable_stream r k p).nmea_bits
      ≡ (if i == k then is_on p else bit_at i r.nmea_bits)
unfolding nmea_enable_stream
enable-bit r k p i small small_i =
    let b = bit_at-lt i r.nmea_bits in
    let w = bit_at-power i k in
    elim (Bool-cases (p == 0)) [
      | inl off ↦
          rw
            (
              off,
              bit_at-and i r.nmea_bits (2 ^ 32 - 1 - 2 ^ k),
              bit_at-not 32 i (2 ^ k) small_i (power-lt k 32 small),
              w,
            )
            (ground arith)
      | inr on ↦ rw (on, bit_at-or i r.nmea_bits (2 ^ k), w) (ground arith)
    ]

enable-period :
    (r : RmcNmea) (k p i : ℕ)
    → (nmea_enable_stream r k p).nmea_period i ≡ (if i == k then p else r.nmea_period i)
unfolding nmea_enable_stream
enable-period r k p i = refl

-- The stream of each message below `n` and from 1 on is on exactly when its period is not 0.
abbrev pub Agrees : (from to : ℕ) → RmcNmea → Type 0
Agrees from to r = (i : ℕ) → from ≤ i → i < to → bit_at i r.nmea_bits ≡ is_on (r.nmea_period i)

-- Enabling or disabling a stream keeps the bits and the periods in agreement.
pub enable-Agrees :
    (r : RmcNmea) (k p : ℕ) (from to : ℕ)
    → to ≤ 32
    → k < 32
    → ((i : ℕ) → from ≤ i → i < to → i ≢ k → bit_at i r.nmea_bits ≡ is_on (r.nmea_period i))
    → Agrees from to (nmea_enable_stream r k p)
enable-Agrees r k p from to small below agrees i low high =
    rw (enable-bit r k p i below (omega arith), enable-period r k p i)
      (ground (arith, agrees i low high))

set_loop-Agrees :
    (tmp : ℕ → ℕ) (n i : ℕ) (r : RmcNmea)
    → i + n ≤ 32
    → Agrees 1 i r
    → Agrees 1 (i + n) (set_period_loop tmp n i r)
unfolding set_period_loop
set_loop-Agrees tmp zero i r small agrees = λ j low high. agrees j low (omega arith)
set_loop-Agrees tmp (suc n) i r small agrees =
    let next =
      set_loop-Agrees tmp n (i + 1) (nmea_enable_stream r i (tmp i % 2 ^ 8)) (omega arith) (
        enable-Agrees r i (tmp i % 2 ^ 8) 1 (i + 1) (omega arith) (omega arith)
          (λ j low high ne. agrees j low (omega arith))) in
    λ j low high. next j low (omega arith)

-- The periods that the loop has put
set_loop-period :
    (tmp : ℕ → ℕ) (n i : ℕ) (r : RmcNmea) (j : ℕ)
    → (set_period_loop tmp n i r).nmea_period j ≡ (
        if leb i j
        then (if ltb j (i + n) then tmp j % 2 ^ 8 else r.nmea_period j)
        else r.nmea_period j)
unfolding set_period_loop
set_loop-period tmp zero i r j = ground arith
set_loop-period tmp (suc n) i r j =
    let h = set_loop-period tmp n (i + 1) (nmea_enable_stream r i (tmp i % 2 ^ 8)) j in
    let e = enable-period r i (tmp i % 2 ^ 8) j in h ∙ ground (arith, e)

-- Setting the periods of a port puts the low 8 bits of each, and the bits of the port then say which
-- messages have a period that is not 0, whatever they said before.
pub set_rmc_period-Agrees :
    (tmp : ℕ → ℕ) (r : RmcNmea) (i : ℕ)
    → 0 < i
    → i < nmea_msg_id_count
    → let r' = nmea_set_rmc_period_multiple tmp r in
      (r'.nmea_period i ≡ tmp i % 2 ^ 8) × (bit_at i r'.nmea_bits ≡ is_on (tmp i % 2 ^ 8))
unfolding nmea_set_rmc_period_multiple
set_rmc_period-Agrees tmp r i some below =
    let p = set_loop-period tmp 17 1 r i in
    let a =
      set_loop-Agrees tmp 17 1 r (omega arith) (λ j low high. absurd (omega arith)) i (omega arith)
        below in
    let e : (if leb 1 i
          then if ltb i (1 + 17) then tmp i % 2 ^ 8 else r.nmea_period i
          else r.nmea_period i)
        ≡ tmp i % 2 ^ 8 =
      ground arith in
    (p ∙ e, a ∙ ap is_on (p ∙ e))

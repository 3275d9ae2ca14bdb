-- ===== src/Time/Fields.antt =====
-- time_conversion.c: the time of day that the fields make.
use rover_workspace.Prelude.{
  ℕ, ◌+◌, ◌-◌, ◌*◌, ◌/◌, ◌%◌, ◌^◌, ◌<◌, ◌≤◌, ◌≡◌, ltb, if◌then◌else◌, Bool-cases, ltb→lt,
  not-ltb→le, inl, inr, arith, ◌∙◌,
}
use rover_workspace.Time.{milliseconds_per_day, UtcTime, gps_tow_ms_to_utc_time}

-- A time of day, in its ranges
pub record IsTime (t : UtcTime) : Type 0 where
  pub hours : t.hours < 24
  pub minutes : t.minutes < 60
  pub seconds : t.seconds < 60
  pub milliseconds : t.milliseconds < 1000

-- The milliseconds since midnight
abbrev pub total_ms : UtcTime → ℕ
total_ms t = t.hours * 3600000 + t.minutes * 60000 + t.seconds * 1000 + t.milliseconds

fields-total :
    (day : ℕ)
    → day / 3600000 * 3600000 + day / 60000 % 60 * 60000 + day / 1000 % 60 * 1000 + day % 1000 ≡ day
fields-total day = omega arith

-- For fewer leap seconds than an hour has, the fields are a time of day. It is the milliseconds of the
-- week less the leap seconds, less the whole days; but in the first seconds of a week, before the leap
-- seconds are over, where the difference wraps, it is 61367296 ms less what is left of them, and not the
-- end of the day before.
pub tow-IsTime :
    (tow leap : ℕ)
    → tow < 2 ^ 32
    → leap < 3600
    → let t = gps_tow_ms_to_utc_time tow leap in
      IsTime t
      × (total_ms t ≡ (
          if ltb tow (leap * 1000)
          then 61367296 - (leap * 1000 - tow)
          else (tow - leap * 1000) % milliseconds_per_day))
unfolding gps_tow_ms_to_utc_time
tow-IsTime tow leap low few =
    let day = (tow + 2 ^ 32 - leap * 1000 % 2 ^ 32) % 2 ^ 32 % milliseconds_per_day in
    (
      record {
        hours = omega arith;
        minutes = omega arith;
        seconds = omega arith;
        milliseconds = omega arith;
      },
      elim (Bool-cases (ltb tow (leap * 1000))) [
        | inl early ↦
            let e : tow < leap * 1000 = ltb→lt tow (leap * 1000) early in
            rw early (fields-total day ∙ omega arith)
        | inr late ↦
            let e : leap * 1000 ≤ tow = not-ltb→le tow (leap * 1000) late in
            rw late (fields-total day ∙ omega arith)
      ],
    )

-- ===== src/Time.antt =====
-- time_conversion.c: `gpsTowMsToUtcTime`, in unsigned arithmetic of 32 bits.
pub mod Fields
mod Tests
use rover_workspace.Prelude.{ℕ, ◌+◌, ◌-◌, ◌*◌, ◌/◌, ◌%◌, ◌^◌}

-- MILLISECONDS_PER_DAY
abbrev pub milliseconds_per_day : ℕ
milliseconds_per_day = 86400000

-- MILLISECONDS_PER_HOUR
abbrev pub milliseconds_per_hour : ℕ
milliseconds_per_hour = 3600000

-- The four results
pub record UtcTime : Type 0 where
  pub hours : ℕ
  pub minutes : ℕ
  pub seconds : ℕ
  pub milliseconds : ℕ

unfoldable pub gps_tow_ms_to_utc_time : (gps_time_of_week_ms gps_leap_s : ℕ) → UtcTime
gps_tow_ms_to_utc_time gps_time_of_week_ms gps_leap_s =
    let today_ms =
      (gps_time_of_week_ms + 2 ^ 32 - gps_leap_s * 1000 % 2 ^ 32) % 2 ^ 32 % milliseconds_per_day in
    record {
      hours = today_ms / milliseconds_per_hour;
      minutes = today_ms / 60000 % 60;
      seconds = today_ms / 1000 % 60;
      milliseconds = today_ms % 1000;
    }

-- ===== src/Time/Tests.antt =====
-- The time of day at a concrete time.
use rover_workspace.Prelude.{◌-◌, ◌*◌, ◌≡◌, arith}
use rover_workspace.Time.{gps_tow_ms_to_utc_time}
use rover_workspace.Time.Fields.{IsTime, total_ms, tow-IsTime}

-- Ten seconds after the beginning of the week
tow-IsTime_early :
    IsTime (gps_tow_ms_to_utc_time 10000 18)
    × (total_ms (gps_tow_ms_to_utc_time 10000 18) ≡ 61367296 - (18 * 1000 - 10000))
tow-IsTime_early = tow-IsTime 10000 18 (omega arith) (omega arith)

-- ===== src/DataSets/Offsets.antt =====
-- data_sets.c: `getDoubleOffsets` and `getStringOffsetsLengths`, with their tables. The byte offsets
-- are those of the packed structs of data_sets.h; the first number of an array is its length.
use rover_workspace.Prelude.{ℕ, Option, none, some, List, [], ◌∷◌, ltb, if◌then◌else◌, get_or}

abbrev did_count : ℕ
did_count = 120

-- ins_1_t: timeOfWeek, lla
abbrev offsets_ins1 : List ℕ
offsets_ins1 = 4 ∷ 4 ∷ 44 ∷ 52 ∷ 60 ∷ []

-- ins_2_t: timeOfWeek, lla
abbrev offsets_ins2 : List ℕ
offsets_ins2 = 4 ∷ 4 ∷ 48 ∷ 56 ∷ 64 ∷ []

-- ins_3_t: timeOfWeek, lla
abbrev offsets_ins3 : List ℕ
offsets_ins3 = 4 ∷ 4 ∷ 48 ∷ 56 ∷ 64 ∷ []

-- ins_4_t: timeOfWeek, ecef
abbrev offsets_ins4 : List ℕ
offsets_ins4 = 4 ∷ 4 ∷ 48 ∷ 56 ∷ 64 ∷ []

-- gps_timepulse_t: towOffset, towGps, timeMcu
abbrev offsets_gps_timepulse : List ℕ
offsets_gps_timepulse = 3 ∷ 0 ∷ 8 ∷ 16 ∷ []

-- sys_params_t: sensorTruePeriod
abbrev offsets_sys_params : List ℕ
offsets_sys_params = 1 ∷ 36 ∷ []

-- pimu_mag_t: pimu.time, mag.time
abbrev offsets_pre_imu_mag : List ℕ
offsets_pre_imu_mag = 2 ∷ 0 ∷ 40 ∷ []

-- imu_mag_t: imu.time, mag.time
abbrev offsets_imu_mag : List ℕ
offsets_imu_mag = 2 ∷ 0 ∷ 36 ∷ []

-- gps_pos_t: lla, towOffset, ecef
abbrev offsets_gps : List ℕ
offsets_gps = 7 ∷ 36 ∷ 44 ∷ 52 ∷ 80 ∷ 12 ∷ 20 ∷ 28 ∷ []

-- rmc_t: bits, marked as a 64 bit integer
abbrev offsets_rmc : List ℕ
offsets_rmc = 1 ∷ 0x8000 ∷ []

abbrev offsets_inl2_states : List ℕ
offsets_inl2_states = 4 ∷ 0 ∷ 36 ∷ 44 ∷ 52 ∷ []

-- gps_rtk_misc_t: baseLla
abbrev offsets_rtk_nav : List ℕ
offsets_rtk_nav = 3 ∷ 44 ∷ 52 ∷ 60 ∷ []

-- nvm_flash_cfg_t: refLla, lastLla
abbrev offsets_flash_config : List ℕ
offsets_flash_config = 6 ∷ 72 ∷ 80 ∷ 88 ∷ 96 ∷ 104 ∷ 112 ∷ []

abbrev offsets_only_time_first : List ℕ
offsets_only_time_first = 1 ∷ 0 ∷ []

abbrev offsets_debug_array : List ℕ
offsets_debug_array = 3 ∷ 72 ∷ 80 ∷ 88 ∷ []

-- survey_in_t: lla
abbrev offsets_survey_in : List ℕ
offsets_survey_in = 3 ∷ 20 ∷ 28 ∷ 36 ∷ []

-- s_doubleOffsets, by data identifier
abbrev s_double_offsets : List (Option (List ℕ))
s_double_offsets =
    none
    ∷ none
    ∷ none
    ∷ some offsets_only_time_first
    ∷ some offsets_ins1
    ∷ some offsets_ins2
    ∷ some offsets_gps
    ∷ none
    ∷ none
    ∷ some offsets_rmc
    ∷ some offsets_sys_params
    ∷ some offsets_only_time_first
    ∷ some offsets_flash_config
    ∷ some offsets_gps
    ∷ some offsets_gps
    ∷ none
    ∷ none
    ∷ none
    ∷ none
    ∷ none
    ∷ none
    ∷ none
    ∷ some offsets_rtk_nav
    ∷ none
    ∷ none
    ∷ none
    ∷ none
    ∷ none
    ∷ some offsets_only_time_first
    ∷ none
    ∷ none
    ∷ none
    ∷ none
    ∷ none
    ∷ none
    ∷ none
    ∷ none
    ∷ none
    ∷ none
    ∷ some offsets_debug_array
    ∷ none
    ∷ some offsets_gps_timepulse
    ∷ none
    ∷ none
    ∷ none
    ∷ none
    ∷ some offsets_only_time_first
    ∷ some offsets_only_time_first
    ∷ some offsets_inl2_states
    ∷ none
    ∷ none
    ∷ none
    ∷ some offsets_only_time_first
    ∷ some offsets_only_time_first
    ∷ none
    ∷ some offsets_only_time_first
    ∷ none
    ∷ some offsets_only_time_first
    ∷ some offsets_only_time_first
    ∷ none
    ∷ none
    ∷ none
    ∷ some offsets_only_time_first
    ∷ none
    ∷ none
    ∷ some offsets_ins3
    ∷ some offsets_ins4
    ∷ none
    ∷ none
    ∷ none
    ∷ none
    ∷ some offsets_only_time_first
    ∷ none
    ∷ some offsets_survey_in
    ∷ none
    ∷ none
    ∷ none
    ∷ none
    ∷ none
    ∷ none
    ∷ none
    ∷ none
    ∷ some offsets_debug_array
    ∷ none
    ∷ none
    ∷ some offsets_imu_mag
    ∷ some offsets_pre_imu_mag
    ∷ none
    ∷ some offsets_only_time_first
    ∷ none
    ∷ none
    ∷ none
    ∷ some offsets_rtk_nav
    ∷ none
    ∷ none
    ∷ some offsets_only_time_first
    ∷ some offsets_only_time_first
    ∷ some offsets_only_time_first
    ∷ none
    ∷ none
    ∷ none
    ∷ none
    ∷ none
    ∷ none
    ∷ none
    ∷ none
    ∷ none
    ∷ none
    ∷ none
    ∷ none
    ∷ none
    ∷ none
    ∷ none
    ∷ none
    ∷ none
    ∷ none
    ∷ none
    ∷ none
    ∷ none
    ∷ none
    ∷ []

-- The table's entry: how many offsets, and the offsets. An identifier out of range has none.
abbrev entry : List (Option (List ℕ)) → ℕ → Option (ℕ × List ℕ)
entry table data_id =
    if ltb data_id did_count
    then elim (get_or table data_id none) [
      | some (n ∷ offsets) ↦ some (n, offsets)
      | some [] ↦ none
      | none ↦ none
    ]
    else none

unfoldable pub get_double_offsets : ℕ → Option (ℕ × List ℕ)
get_double_offsets data_id = entry s_double_offsets data_id

abbrev debug_string_offsets : List ℕ
debug_string_offsets = 2 ∷ 0 ∷ 80 ∷ []

-- MAX_TASK_NAME_LEN is 12
abbrev rtos_task_offsets : List ℕ
rtos_task_offsets = 12 ∷ 0 ∷ 12 ∷ 32 ∷ 12 ∷ 64 ∷ 12 ∷ 96 ∷ 12 ∷ 128 ∷ 12 ∷ 160 ∷ 12 ∷ []

-- manufacturing_info_t: date
abbrev manuf_info_offsets : List ℕ
manuf_info_offsets = 2 ∷ 8 ∷ 16 ∷ []

-- diag_msg_t: message
abbrev diag_msg_offsets : List ℕ
diag_msg_offsets = 2 ∷ 8 ∷ 256 ∷ []

-- s_stringOffsets, by data identifier
abbrev s_string_offsets : List (Option (List ℕ))
s_string_offsets =
    none
    ∷ none
    ∷ none
    ∷ none
    ∷ none
    ∷ none
    ∷ none
    ∷ none
    ∷ none
    ∷ none
    ∷ none
    ∷ none
    ∷ none
    ∷ none
    ∷ none
    ∷ none
    ∷ none
    ∷ none
    ∷ none
    ∷ none
    ∷ none
    ∷ none
    ∷ none
    ∷ none
    ∷ none
    ∷ none
    ∷ none
    ∷ none
    ∷ none
    ∷ none
    ∷ none
    ∷ none
    ∷ none
    ∷ none
    ∷ none
    ∷ none
    ∷ none
    ∷ some debug_string_offsets
    ∷ some rtos_task_offsets
    ∷ none
    ∷ none
    ∷ none
    ∷ none
    ∷ none
    ∷ none
    ∷ none
    ∷ none
    ∷ none
    ∷ none
    ∷ none
    ∷ none
    ∷ none
    ∷ none
    ∷ none
    ∷ none
    ∷ none
    ∷ none
    ∷ none
    ∷ none
    ∷ none
    ∷ none
    ∷ none
    ∷ none
    ∷ some manuf_info_offsets
    ∷ none
    ∷ none
    ∷ none
    ∷ none
    ∷ none
    ∷ none
    ∷ none
    ∷ none
    ∷ some diag_msg_offsets
    ∷ none
    ∷ none
    ∷ none
    ∷ none
    ∷ none
    ∷ none
    ∷ none
    ∷ none
    ∷ none
    ∷ none
    ∷ none
    ∷ none
    ∷ none
    ∷ none
    ∷ none
    ∷ none
    ∷ none
    ∷ none
    ∷ none
    ∷ none
    ∷ none
    ∷ none
    ∷ none
    ∷ none
    ∷ none
    ∷ none
    ∷ none
    ∷ none
    ∷ none
    ∷ none
    ∷ none
    ∷ none
    ∷ none
    ∷ none
    ∷ none
    ∷ none
    ∷ none
    ∷ none
    ∷ none
    ∷ none
    ∷ none
    ∷ none
    ∷ none
    ∷ none
    ∷ none
    ∷ none
    ∷ none
    ∷ []

unfoldable pub get_string_offsets_lengths : ℕ → Option (ℕ × List ℕ)
get_string_offsets_lengths data_id = entry s_string_offsets data_id

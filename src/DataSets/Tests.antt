-- ===== src/DataSets/Tests.antt =====
-- The byte order functions at concrete data.
use rover_workspace.Prelude.{ℕ, ◌+◌, ◌-◌, ◌*◌, ◌≤◌, ◌<◌, ◌≡◌, ◌≢◌, refl, ◌⊎◌, some, arith, [], ◌∷◌}
use rover_workspace.Prelude.Memory.{Memory, store}
use rover_workspace.DataSets.Flip.{
  flip_float, flip_double, flip_uint64, flip_words, flip_endianess32,
}
use rover_workspace.DataSets.Offsets.{get_double_offsets}
use rover_workspace.DataSets.Satellites.{sat_no, sys_sbs, sat_no-inj}
use rover_workspace.DataSets.Involution.{flip_endianess32_lem}

abbrev memory : Memory
memory p = p

flip_test : flip_endianess32 memory 8 8 13 ≡ 14
unfolding flip_endianess32 flip_words flip_float store
flip_test = refl

flip_uint64_test : flip_uint64 memory 0 0 ≡ 7
unfolding flip_uint64 flip_float flip_double store
flip_uint64_test = refl

-- DID_SYS_PARAMS
offsets_test : get_double_offsets 10 ≡ some (1, 36 ∷ [])
unfolding get_double_offsets
offsets_test = refl

flip_endianess32_lem_example :
    ((q : ℕ) → flip_endianess32 (flip_endianess32 memory 8 (4 * 2)) 8 (4 * 2) q ≡ memory q)
    × ((i k : ℕ)
        → i < 2
        → k < 4
        → flip_endianess32 memory 8 (4 * 2) (8 + 4 * i + k) ≡ memory (8 + 4 * i + (3 - k)))
    × ((q : ℕ) → (q < 8) ⊎ (8 + 4 * 2 ≤ q) → flip_endianess32 memory 8 (4 * 2) q ≡ memory q)
flip_endianess32_lem_example = flip_endianess32_lem memory 8 2

abbrev third : ℕ
third = 135

third_fine : sat_no sys_sbs third ≢ 0
unfolding sat_no
third_fine = λ e. absurd (omega arith)

sat_no-inj_example : (sys_sbs ≡ sys_sbs) × (third ≡ third) × (sat_no sys_sbs third ≤ 95)
sat_no-inj_example = sat_no-inj sys_sbs third sys_sbs third refl third_fine

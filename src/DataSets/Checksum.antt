-- ===== src/DataSets/Checksum.antt =====
-- data_sets.c: `checksum32`, `serialNumChecksum32` and `flashChecksum32`, over 32 bit words in memory.
use rover_workspace.Prelude.{
  ℕ, zero, suc, ◌+◌, ◌-◌, ◌/◌, ◌%◌, bit_xor, not, ◌||◌, ltb, ◌==◌, if◌then◌else◌,
}
use rover_workspace.Prelude.Memory.{Memory, load32}

-- `while (dataPtr < dataEnd)`, over the `n` words that are left
unfoldable pub xor_words : Memory → (p n checksum : ℕ) → ℕ
xor_words m p zero checksum = checksum
xor_words m p (suc n) checksum = xor_words m (p + 4) n (bit_xor checksum (load32 m p))

-- A size that is 0 or no multiple of four gives 0.
unfoldable pub checksum32 : Memory → (p count : ℕ) → ℕ
checksum32 m p count =
    if ltb count 1 || not (count % 4 == 0) then 0 else xor_words m p (count / 4) 0

-- The first word is the checksum itself. A size below that makes the count negative, which gives 0.
unfoldable pub serial_num_checksum32 : Memory → (p size : ℕ) → ℕ
serial_num_checksum32 m p size = if ltb size 4 then 0 else checksum32 m (p + 4) (size - 4)

-- The first two words are the size and the checksum.
unfoldable pub flash_checksum32 : Memory → (p size : ℕ) → ℕ
flash_checksum32 m p size = if ltb size 8 then 0 else checksum32 m (p + 8) (size - 8)

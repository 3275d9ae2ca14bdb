-- ===== src/Hex/Tests.antt =====
-- The reader of hex files at a concrete file.
use rover_workspace.Prelude.{
  ℕ, zero, suc, ◌+◌, ◌-◌, ◌*◌, ◌/◌, ◌%◌, ◌<◌, ◌≡◌, ap, refl, true, none, some, List, [], ◌∷◌, ltb,
  ◌==◌, if◌then◌else◌, arith,
}
use rover_workspace.Prelude.Int.{pos}
use rover_workspace.Prelude.Memory.{Memory, write_bytes}
use rover_workspace.Nmea.Sentence.{hex_digit}
use rover_workspace.Hex.Line.{Scanned, value, parse_hex_line}
use rover_workspace.Hex.Line.RoundTrip.{hex_line_with, checksum_of, ReadsHex, parse-hex_line}
use rover_workspace.Hex.Section.{
  max_ihex_section_len, Section, initial, copy_data, read_lines, ihex_load_section,
}
use rover_workspace.Hex.Section.Bounds.{CopiedOrExceeds, copy_data-CopiedOrExceeds}
use rover_workspace.Hex.Section.File.{hex_file, load_section-file}

-- The value of a digit, and of the first digits of a text
abbrev digit_value : ℕ → ℕ
digit_value c = if ltb c 65 then c - 48 else c - 55

abbrev number : (width : ℕ) → List ℕ → ℕ → ℕ
number zero text v = v
number (suc w) [] v = v
number (suc w) (c ∷ cs) v = number w cs (16 * v + digit_value c)

abbrev scan : ℕ → List ℕ → Scanned
scan width text = value (number width text 0)

digit-value : (d : ℕ) → d < 16 → digit_value (hex_digit d) ≡ d
unfolding hex_digit
digit-value d small = ground arith

scan-ReadsHex : ReadsHex scan
scan-ReadsHex = record {
  two = λ v rest h.
      rw (digit-value (v / 16) (omega arith), digit-value (v % 16) (omega arith))
        (ap value (omega arith));
  four = λ v rest h.
      rw
        (
          digit-value (v / 256 / 16) (omega arith),
          digit-value (v / 256 % 16) (omega arith),
          digit-value (v % 256 / 16) (omega arith),
          digit-value (v % 256 % 16) (omega arith),
        )
        (ap value (omega arith));
}

abbrev blank : Memory
blank _ = 0

-- 1 where the sum asks for 61
parse-hex_line_wrong :
    parse_hex_line scan (hex_line_with 1 0x0100 0 (0x21 ∷ 0x9F ∷ [])) blank 0 0
    ≡ some (record {
      accepted = 1 == checksum_of 0x0100 0 (0x21 ∷ 0x9F ∷ []);
      bytes = write_bytes blank 0 (0x21 ∷ 0x9F ∷ []);
      addr = 0x0100;
      num = 2;
      code = 0;
    })
parse-hex_line_wrong =
    parse-hex_line scan 1 0x0100 0 (0x21 ∷ 0x9F ∷ []) blank 0 0 scan-ReadsHex (omega arith)
      (omega arith) (omega arith) (omega arith, (omega arith, tt)) (omega arith)

-- The last byte is the last of the buffer.
copy_data-CopiedOrExceeds_last :
    CopiedOrExceeds 200 0
      (initial blank (max_ihex_section_len - 200) 0)
      (copy_data 200 0 (initial blank (max_ihex_section_len - 200) 0))
copy_data-CopiedOrExceeds_last =
    copy_data-CopiedOrExceeds 200 0 (initial blank (max_ihex_section_len - 200) 0) (omega arith)
      (omega arith)

abbrev no_section : Section
no_section = record { address = 0; image = none; len = 0 }

load_section-file_two :
    ihex_load_section scan
      (λ size. true)
      (read_lines 511 (hex_file 0x0100 ((1 ∷ 2 ∷ []) ∷ (3 ∷ []) ∷ []) []))
      no_section
      blank
      0
      0
    ≡ some (record { address = 0; image = some (1 ∷ 2 ∷ 3 ∷ []); len = 3 }, pos 1, [])
unfolding read_lines
load_section-file_two =
    load_section-file scan (λ size. true) 0x0100 (1 ∷ 2 ∷ []) ((3 ∷ []) ∷ []) [] no_section blank 0
      0 scan-ReadsHex
      (
        (omega arith, omega arith, (omega arith, (omega arith, tt))),
        ((omega arith, omega arith, (omega arith, tt)), tt),
      )
      (omega arith) refl refl

-- ===== src/Hex/Section/File.antt =====
-- ihex.c: the lines that are read of a file of records.
use rover_workspace.Prelude.{
  ℕ, ◌+◌, ◌-◌, ◌/◌, ◌%◌, ◌<◌, ◌≤◌, ◌≡◌, refl, ap, ◌∙◌, Bool, true, false, ◌||◌, some, List, [], ◌∷◌,
  ◌++◌, length, arith, leb, ◌==◌,
}
use rover_workspace.Prelude.Int.{pos}
use rover_workspace.Prelude.Memory.{Memory}
use rover_workspace.Nmea.Sentence.{hex_digit}
use rover_workspace.Packet.RoundTrip.Body.{IsBytes}
use rover_workspace.Hex.Line.{Scanned}
use rover_workspace.Hex.Line.RoundTrip.{
  hex2, data_text, hex_line, checksum_of, ReadsHex, length-hex_line,
}
use rover_workspace.Hex.Section.{
  Section, max_ihex_section_len, put_front, read_lines, ihex_load_section,
}
use rover_workspace.Hex.Section.RoundTrip.{
  line_end, IsChunks, joined, data_lines, load_section-lines,
}

-- Characters behind those that end a line
abbrev Unbroken : List ℕ → Type 0
Unbroken [] = Unit {0}
Unbroken (x ∷ xs) = (13 < x) × Unbroken xs

Unbroken-append : (xs ys : List ℕ) → Unbroken xs → Unbroken ys → Unbroken (xs ++ ys)
Unbroken-append [] ys h k = k
Unbroken-append (x ∷ xs) ys h k = (h.0, Unbroken-append xs ys h.1 k)

hex_digit-above : (d : ℕ) → 13 < hex_digit d
unfolding hex_digit
hex_digit-above d = ground arith

hex2-Unbroken : (v : ℕ) → Unbroken (hex2 v)
hex2-Unbroken v = (hex_digit-above (v / 16), (hex_digit-above (v % 16), tt))

data_text-Unbroken : (xs : List ℕ) → Unbroken (data_text xs)
data_text-Unbroken [] = tt
data_text-Unbroken (x ∷ xs) =
    Unbroken-append (hex2 x) (data_text xs) (hex2-Unbroken x) (data_text-Unbroken xs)

hex_line-Unbroken : (addr code : ℕ) (xs : List ℕ) → Unbroken (hex_line addr code xs)
hex_line-Unbroken addr code xs =
    let d = hex_digit-above in
    let tail =
      Unbroken-append (data_text xs) (hex2 (checksum_of addr code xs)) (data_text-Unbroken xs)
        (hex2-Unbroken (checksum_of addr code xs)) in
    (omega arith, (d _, (d _, (d _, (d _, (d _, (d _, (d _, (d _, tail)))))))))

-- One character of a line
read_lines-more :
    (left c : ℕ) (cs : List ℕ)
    → 10 < c
    → 1 < left
    → read_lines left (c ∷ cs) ≡ put_front c (read_lines (left - 1) cs)
unfolding read_lines
read_lines-more left c cs above room =
    let full : ((c == 10) || leb left 1) ≡ false = ground arith in rw full refl

read_lines-newline :
    (left : ℕ) (rest : List ℕ) → read_lines left (10 ∷ rest) ≡ (10 ∷ []) ∷ read_lines 511 rest
unfolding read_lines
read_lines-newline left rest = refl

-- A line that there is room for is read whole.
read_lines-line :
    (left : ℕ) (line rest : List ℕ)
    → Unbroken line
    → length line + 2 ≤ left
    → read_lines left (line ++ 13 ∷ 10 ∷ rest) ≡ (line ++ line_end) ∷ read_lines 511 rest
unfolding put_front
read_lines-line left [] rest h room =
    read_lines-more left 13 (10 ∷ rest) (omega arith) (omega arith)
    ∙ ap (put_front 13) (read_lines-newline (left - 1) rest)
read_lines-line left (x ∷ xs) rest h room =
    read_lines-more left x (xs ++ 13 ∷ 10 ∷ rest) (omega (arith, h.0)) (omega arith)
    ∙ ap (put_front x) (read_lines-line (left - 1) xs rest h.1 (omega arith))

-- The text of data records, one behind the other from an address on, in front of a text
abbrev pub data_file : (addr : ℕ) → List (List ℕ) → List ℕ → List ℕ
data_file addr [] rest = rest
data_file addr (c ∷ cs) rest = hex_line addr 0 c ++ 13 ∷ 10 ∷ data_file (addr + length c) cs rest

-- Records whose lines `fgets` reads whole: of one to 249 bytes
abbrev pub IsShort : List (List ℕ) → Type 0
IsShort [] = Unit {0}
IsShort (c ∷ cs) = ((0 < length c) × (length c < 250) × IsBytes c) × IsShort cs

IsShort-IsChunks : (cs : List (List ℕ)) → IsShort cs → IsChunks cs
IsShort-IsChunks [] h = tt
IsShort-IsChunks (c ∷ cs) ((some_c, few, octets), h) =
    ((some_c, omega arith, octets), IsShort-IsChunks cs h)

-- A line of the format with up to 249 bytes is read whole.
read_lines-record :
    (addr code : ℕ) (c rest : List ℕ)
    → length c < 250
    → read_lines 511 (hex_line addr code c ++ 13 ∷ 10 ∷ rest)
      ≡ (hex_line addr code c ++ line_end) ∷ read_lines 511 rest
read_lines-record addr code c rest few =
    read_lines-line 511 (hex_line addr code c) rest (hex_line-Unbroken addr code c)
      (omega (arith, length-hex_line (checksum_of addr code c) addr code c))

read_lines-data :
    (addr : ℕ) (cs : List (List ℕ)) (rest : List ℕ)
    → IsShort cs
    → read_lines 511 (data_file addr cs rest) ≡ data_lines addr cs (read_lines 511 rest)
read_lines-data addr [] rest h = refl
read_lines-data addr (c ∷ cs) rest ((some_c, few, octets), h) =
    read_lines-record addr 0 c (data_file (addr + length c) cs rest) few
    ∙ ap (λ lines. (hex_line addr 0 c ++ line_end) ∷ lines)
        (read_lines-data (addr + length c) cs rest h)

-- The text of a file of data records and of the record for the end of the file, with something behind it
abbrev pub hex_file : (start : ℕ) → List (List ℕ) → (rest : List ℕ) → List ℕ
hex_file start cs rest = data_file start cs (hex_line 0 1 [] ++ 13 ∷ 10 ∷ rest)

-- The text of a file of one or more data records with one to 249 bytes each, one behind the other, and of
-- the record for the end of the file, in lines that end with CR and LF and that `fgets` cuts at 511
-- characters, is loaded as one section with these bytes, if they end within the 64 KB that four digits
-- address and there is memory for the buffer and for them; the result says that the file is at its end,
-- and what stands behind that record is left.
pub load_section-file :
    (sscanf : ℕ → List ℕ → Scanned) (malloc : ℕ → Bool) (start : ℕ) (c : List ℕ)
    (cs : List (List ℕ)) (rest : List ℕ) (section : Section) (line_bytes : Memory) (addr status : ℕ)
    → ReadsHex sscanf
    → IsShort (c ∷ cs)
    → start + length (joined (c ∷ cs)) ≤ 65536
    → malloc max_ihex_section_len ≡ true
    → malloc (length (joined (c ∷ cs))) ≡ true
    → ihex_load_section sscanf malloc
        (read_lines 511 (hex_file start (c ∷ cs) rest))
        section
        line_bytes
        addr
        status
      ≡ some (
        record { address = 0; image = some (joined (c ∷ cs)); len = length (joined (c ∷ cs)) },
        pos 1,
        read_lines 511 rest,
      )
load_section-file sscanf malloc start c cs rest section line_bytes addr status reads short room
      buffer memory =
    let lines =
      read_lines-data start (c ∷ cs) (hex_line 0 1 [] ++ 13 ∷ 10 ∷ rest) short
      ∙ ap (data_lines start (c ∷ cs)) (read_lines-record 0 1 [] rest (omega arith)) in
    ap (λ ls. ihex_load_section sscanf malloc ls section line_bytes addr status) lines
    ∙ load_section-lines sscanf malloc start c cs (read_lines 511 rest) section line_bytes addr
        status reads (IsShort-IsChunks (c ∷ cs) short) room buffer memory

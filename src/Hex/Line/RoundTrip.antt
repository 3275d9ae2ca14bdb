-- ===== src/Hex/Line/RoundTrip.antt =====
-- ihex.c: a line that is written as the format says is read back.
use rover_workspace.Prelude.{
  ℕ, ◌+◌, ◌-◌, ◌*◌, ◌/◌, ◌%◌, ◌<◌, ◌≡◌, refl, ap, ◌∙◌, Bool, true, false, some, List, [], ◌∷◌, ◌++◌,
  length, length-append, ltb, leb, ◌==◌, arith,
}
use rover_workspace.Prelude.Memory.{Memory, store, write_bytes}
use rover_workspace.Packet.RoundTrip.Body.{IsBytes}
use rover_workspace.Nmea.Sentence.{hex_digit}
use rover_workspace.Hex.Line.{
  Scanned, value, Parsed, with_scan, check_line, read_bytes, parse_hex_line,
}

-- "%02X" and "%04X"
abbrev pub hex2 : ℕ → List ℕ
hex2 v = hex_digit (v / 16) ∷ hex_digit (v % 16) ∷ []

abbrev pub hex4 : ℕ → List ℕ
hex4 v = hex2 (v / 256) ++ hex2 (v % 256)

abbrev pub data_text : List ℕ → List ℕ
data_text [] = []
data_text (b ∷ xs) = hex2 b ++ data_text xs

abbrev pub total : List ℕ → ℕ
total [] = 0
total (b ∷ xs) = b + total xs

-- The two's complement of the sum of all bytes
abbrev pub checksum_of : (addr code : ℕ) → List ℕ → ℕ
checksum_of addr code xs =
    (256 - (length xs + addr / 256 + addr % 256 + code + total xs) % 256) % 256

-- A line of the format with some checksum
abbrev pub hex_line_with : (checksum addr code : ℕ) → List ℕ → List ℕ
hex_line_with checksum addr code bytes =
    b':' ∷ hex2 (length bytes) ++ hex4 addr ++ hex2 code ++ data_text bytes ++ hex2 checksum

-- The line of a record of the format
abbrev pub hex_line : (addr code : ℕ) → List ℕ → List ℕ
hex_line addr code bytes = hex_line_with (checksum_of addr code bytes) addr code bytes

-- What `sscanf` is documented to do with two and with four digits
pub record ReadsHex (sscanf : ℕ → List ℕ → Scanned) : Type 0 where
  pub two : (v : ℕ) (rest : List ℕ) → v < 256 → sscanf 2 (hex2 v ++ rest) ≡ value v
  pub four : (v : ℕ) (rest : List ℕ) → v < 65536 → sscanf 4 (hex4 v ++ rest) ≡ value v

length-data_text : (xs : List ℕ) → length (data_text xs) ≡ 2 * length xs
length-data_text [] = refl
length-data_text (x ∷ xs) = omega (arith, length-data_text xs)

pub length-hex_line :
    (c addr code : ℕ) (xs : List ℕ) → length (hex_line_with c addr code xs) ≡ 11 + length xs * 2
length-hex_line c addr code xs =
    omega (arith, length-append (data_text xs) (hex2 c), length-data_text xs)

module _ {sscanf : ℕ → List ℕ → Scanned} (reads : ReadsHex sscanf) where
  check-line :
      (t : Bool) (c sum : ℕ) (p : Parsed)
      → c < 256
      → p.accepted ≡ false
      → ((sum % 256 + c % 256) % 256 == 0) ≡ t
      → check_line sscanf (hex2 c) sum p ≡ some (record p { accepted = t })
  unfolding check_line with_scan
  check-line true c sum p small open_ e = rw (reads.two c [] small, e) refl
  check-line false c sum p small open_ e =
      rw (reads.two c [] small, e) (ap (λ b. some (record p { accepted = b })) open_)

  read_bytes-line :
      (t : Bool) (xs : List ℕ) (c sum : ℕ) (p : Parsed)
      → IsBytes xs
      → p.num + length xs < 256
      → c < 256
      → p.accepted ≡ false
      → (((sum + total xs) % 256 + c % 256) % 256 == 0) ≡ t
      → read_bytes sscanf (length xs) (data_text xs ++ hex2 c) sum p
        ≡ some (record p {
          accepted = t;
          bytes = write_bytes p.bytes p.num xs;
          num = p.num + length xs;
        })
  unfolding read_bytes with_scan write_bytes
  read_bytes-line t [] c sum p octets room small open_ sums =
      let e : ((sum % 256 + c % 256) % 256 == 0) ≡ t =
        ap (λ s. (s % 256 + c % 256) % 256 == 0) (omega arith) ∙ sums in
      check-line t c sum p small open_ e
      ∙ ap (λ k. some (record p { accepted = t; num = k })) (omega arith)
  read_bytes-line t (x ∷ xs) c sum p octets room small open_ sums =
      let h = reads.two x (data_text xs ++ hex2 c) octets.0 in
      let whole : x % 256 ≡ x = omega (arith, octets.0) in
      let below : leb 256 (p.num + 1) ≡ false = ground arith in
      let next : Parsed = record p { bytes = store p.bytes p.num x; num = p.num + 1 } in
      let rest =
        read_bytes-line t xs c (sum + x) next octets.1 (omega arith) small open_
          (ap (λ t. (t % 256 + c % 256) % 256 == 0) (omega arith) ∙ sums) in
      rw (h, whole, below)
        (rest
          ∙ ap
              (λ k. some (record p {
                accepted = t;
                bytes = write_bytes (store p.bytes p.num x) (p.num + 1) xs;
                num = k;
              }))
              (omega arith))

-- The checksum is the one number below 256 that makes the sum of a line 0.
checksum_iff :
    (s c : ℕ) → c < 256 → (((s % 256 + c % 256) % 256) == 0) ≡ (c == (256 - s % 256) % 256)
checksum_iff s c small = ground arith

-- A line that is written as the format says, for at most 255 bytes and with any number below 256 as its
-- checksum, is accepted exactly when this number is the two's complement of the sum of its bytes; its
-- address, its code and its bytes are read.
pub parse-hex_line :
    (sscanf : ℕ → List ℕ → Scanned) (c addr code : ℕ) (xs : List ℕ) (bytes : Memory)
    (old_addr old_code : ℕ)
    → ReadsHex sscanf
    → c < 256
    → addr < 65536
    → code < 256
    → IsBytes xs
    → length xs < 256
    → parse_hex_line sscanf (hex_line_with c addr code xs) bytes old_addr old_code
      ≡ some (record {
        accepted = c == checksum_of addr code xs;
        bytes = write_bytes bytes 0 xs;
        addr = addr;
        num = length xs;
        code = code;
      })
unfolding parse_hex_line with_scan
parse-hex_line sscanf ck addr code xs bytes old_addr old_code reads small low_addr low_code octets
      room =
    let n = length xs in
    let tail = data_text xs ++ hex2 ck in
    let size = length-hex_line ck addr code xs in
    let long : ltb (length (hex_line_with ck addr code xs)) 11 ≡ false = ground (arith, size) in
    let enough : ltb (length (hex_line_with ck addr code xs)) (11 + n * 2) ≡ false =
      ground (arith, size) in
    let a = reads.two n (hex4 addr ++ hex2 code ++ tail) room in
    let b = reads.four addr (hex2 code ++ tail) low_addr in
    let c = reads.two code tail low_code in
    let first : Parsed = record {
      accepted = false;
      bytes = bytes;
      addr = addr;
      num = 0;
      code = code;
    } in
    let start = n % 256 + addr / 256 % 256 + addr % 256 + code % 256 in
    let same : start + total xs ≡ n + addr / 256 + addr % 256 + code + total xs = omega arith in
    let sums = ap (λ s. (s % 256 + ck % 256) % 256 == 0) same ∙ checksum_iff _ ck small in
    let body =
      read_bytes-line reads (ck == checksum_of addr code xs) xs ck start first octets (omega arith)
        small refl sums in
    let counted : 0 + n ≡ n = omega arith in rw (long, a, enough, b, c) (body ∙ rw counted refl)

-- ===== src/Hex/Line.antt =====
-- ihex.c: `parse_hex_line`. A line is the list of its characters before the NUL. `sscanf` is the
-- library's, with "%02x" and "%04x" by their widths; a number with a sign is none of its results.
pub mod RoundTrip
use rover_workspace.Prelude.{
  ℕ, zero, suc, ◌+◌, ◌*◌, ◌/◌, ◌%◌, Bool, true, false, not, Option, none, some, List, [], ◌∷◌,
  length, drop, get_or, ltb, leb, ◌==◌, if◌then◌else◌,
}
use rover_workspace.Prelude.Memory.{Memory, store}

-- What `sscanf` returns: 1 and a number that it assigns, 0, or EOF
pub data Scanned : Type 0 where
  value : ℕ → Scanned
  mismatch end_of_input : Scanned

-- The variables behind the pointers when the function returns, with its result
pub record Parsed : Type 0 where
  pub accepted : Bool
  pub bytes : Memory
  pub addr : ℕ
  pub num : ℕ
  pub code : ℕ

-- `if (!sscanf(...)) return 0;`. EOF is not 0 and leaves the variable as it was, which is `none`
-- for a variable without a value.
unfoldable pub with_scan {ℓ} :
    {A : Type ℓ} → Scanned → (old : Option ℕ) → (refused undefined : A) → (ℕ → A) → A
with_scan (value v) old refused undefined next = next v
with_scan mismatch old refused undefined next = refused
with_scan end_of_input none refused undefined next = undefined
with_scan end_of_input (some v) refused undefined next = next v

module _ (sscanf : (width : ℕ) (text : List ℕ) → Scanned) where
  -- The checksum, behind the loop
  unfoldable pub check_line : (ptr : List ℕ) (sum : ℕ) → Parsed → Option Parsed
  check_line ptr sum p = with_scan (sscanf 2 ptr) none (some p) none λ cksum.
      some (if (sum % 256 + cksum % 256) % 256 == 0 then record p { accepted = true } else p)

  -- `while (*num != len)`, with `n` rounds to go
  unfoldable pub read_bytes : (n : ℕ) (ptr : List ℕ) (sum : ℕ) → Parsed → Option Parsed
  read_bytes zero ptr sum p = check_line ptr sum p
  read_bytes (suc n) ptr sum p = with_scan (sscanf 2 ptr) (some (p.bytes p.num)) (some p) none λ v.
      let byte = v % 256 in
      let p' : Parsed = record p { bytes = store p.bytes p.num byte; num = p.num + 1 } in
      let rest = read_bytes n (drop 2 ptr) (sum + byte) p' in
      if leb 256 p'.num then some p' else rest

  -- `none` where the function goes on with a variable that has no value
  unfoldable pub parse_hex_line :
      (the_line : List ℕ) (bytes : Memory) (addr code : ℕ) → Option Parsed
  parse_hex_line the_line bytes addr code =
      let refused : Parsed = record {
        accepted = false;
        bytes = bytes;
        addr = addr;
        num = 0;
        code = code;
      } in
      if not (get_or the_line 0 0 == b':')
      then some refused
      else if ltb (length the_line) 11
      then some refused
      else with_scan (sscanf 2 (drop 1 the_line)) none (some refused) none λ len.
        if ltb (length the_line) (11 + len * 2)
        then some refused
        else with_scan (sscanf 4 (drop 3 the_line)) (some addr) (some refused) none λ addr.
          with_scan (sscanf 2 (drop 7 the_line)) (some code) (some (record refused { addr = addr }))
            none
            λ code.
              read_bytes len (drop 9 the_line)
                (len % 256 + addr / 256 % 256 + addr % 256 + code % 256)
                (record refused { addr = addr; code = code })

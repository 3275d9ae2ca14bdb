-- ===== src/Hex/Section.antt =====
-- ihex.c: `ihex_load_section` and `ihex_unload_section`. An open file is the list of the lines that
-- `fgets` will read, with their ends, from where it stands; `malloc` is the library's, by whether it gives
-- memory of a size.
pub mod Bounds
pub mod RoundTrip
pub mod File
use rover_workspace.Prelude.{
  ℕ, zero, suc, ◌+◌, ◌-◌, ◌*◌, ◌%◌, ◌^◌, bit_or, Bool, true, false, not, ◌&&◌, ◌||◌, Option, none,
  some, List, [], ◌∷◌, map, ltb, leb, ◌==◌, if◌then◌else◌,
}
use rover_workspace.Prelude.Int.{ℤ, pos, negsuc}
use rover_workspace.Prelude.Memory.{Memory, store, bytes}
use rover_workspace.Prelude.Word.{shl32}
use rover_workspace.Hex.Line.{Scanned, Parsed, parse_hex_line}

-- MAX_IHEX_SECTION_LEN
abbrev pub max_ihex_section_len : ℕ
max_ihex_section_len = 0x020000

-- The first character of a line in front of what is read of the rest of it
unfoldable pub put_front : ℕ → List (List ℕ) → List (List ℕ)
put_front c [] = (c ∷ []) ∷ []
put_front c (line ∷ lines) = (c ∷ line) ∷ lines

-- What `fgets(line, 512, file)` reads of a text, call by call: up to the end of a line, or 511
-- characters of it, and then the next call goes on there. There is room for `left` more in this line.
unfoldable pub read_lines : (left : ℕ) (text : List ℕ) → List (List ℕ)
read_lines left [] = []
read_lines left (c ∷ cs) =
    let full = (c == 10) || leb left 1 in
    let lines = read_lines (if full then 511 else left - 1) cs in
    if full then (c ∷ []) ∷ lines else put_front c lines

-- `ihex_image_section_t`, without an image where the pointer is NULL
pub record Section : Type 0 where
  pub address : ℕ
  pub image : Option (List ℕ)
  pub len : ℕ

-- The variables of the function while it reads
pub record Load : Type 0 where
  pub image_local : Memory
  pub line_bytes : Memory
  pub addr : ℕ
  pub status : ℕ
  pub minaddr : ℕ
  pub maxaddr : ℕ
  pub address : ℕ
  pub alreadysetaddr : Bool

-- What a line makes of the loop: it goes on, stops at the record for the end of the file, stops before
-- this line, or returns because the buffer is exceeded; the last is for a variable without a value.
pub data Step : Type 0 where
  go_on : Load → Step
  file_end : Load → Step
  section_end exceeded undefined : Step

-- How the loop ends: with the lines that are left, or with the error
pub data Ending : Type 0 where
  ended : (eof : Bool) (rest : List (List ℕ)) → Load → Ending
  failed undefined_end : Ending

-- `if (line[strlen(line) - 1] == c) line[strlen(line) - 1] = '\0'`, for a line that is not empty
unfoldable pub drop_last : ℕ → List ℕ → List ℕ
drop_last c [] = []
drop_last c (x ∷ []) = if x == c then [] else x ∷ []
drop_last c (x ∷ y ∷ xs) = x ∷ drop_last c (y ∷ xs)

-- The copy of the bytes from `i` on, `n` of them to go, or none when the buffer is exceeded
unfoldable pub copy_data : (n i : ℕ) → Load → Option Load
copy_data zero i l = some l
copy_data (suc n) i l =
    let l' : Load = record l {
      image_local = store l.image_local l.addr (l.line_bytes i);
      minaddr = if ltb l.addr l.minaddr then l.addr else l.minaddr;
      maxaddr = if ltb l.maxaddr l.addr then l.addr else l.maxaddr;
      addr = l.addr + 1;
    } in
    let rest = copy_data n (i + 1) l' in if ltb max_ihex_section_len l'.addr then none else rest

copied : Option Load → Step
copied none = exceeded
copied (some l) = go_on l

-- `n` is the number of bytes of the line, `status` its code.
unfoldable pub take_line : (n : ℕ) → Load → Step
unfolding copied
take_line n l =
    if l.status == 0
    then copied (copy_data n 0 l)
    else if l.status == 1
    then file_end l
    else if l.status == 4
    then (if l.alreadysetaddr
        then section_end
        else go_on (record l {
          address = bit_or (l.line_bytes 1 * 2 ^ 16) (shl32 (l.line_bytes 0) 24);
          alreadysetaddr = true;
        }))
    else go_on l

unfoldable pub step_line : Option Parsed → Load → Step
step_line none l = undefined
step_line (some p) l =
    let l' : Load = record l { line_bytes = p.bytes; addr = p.addr; status = p.code } in
    if p.accepted then take_line p.num l' else go_on l'

abbrev pub initial : (line_bytes : Memory) (addr status : ℕ) → Load
initial line_bytes addr status = record {
  image_local = λ _. 0xFF;
  line_bytes = line_bytes;
  addr = addr;
  status = status;
  minaddr = 65536;
  maxaddr = 0;
  address = 0;
  alreadysetaddr = false;
}

module _ (sscanf : (width : ℕ) (text : List ℕ) → Scanned) where
  -- Behind the last line the loop ends; the empty line that it tries there is refused.
  unfoldable pub load_loop : List (List ℕ) → Load → Ending
  load_loop [] l = ended false [] l
  load_loop (line ∷ lines) l =
      let text = drop_last 13 (drop_last 10 line) in
      elim (step_line (parse_hex_line sscanf text l.line_bytes l.addr l.status) l) [
        | go_on l' ↦ load_loop lines l'
        | file_end l' ↦ ended true lines l'
        | section_end ↦ ended false (line ∷ lines) l
        | exceeded ↦ failed
        | undefined ↦ undefined_end
      ]

  module _ (malloc : ℕ → Bool) where
    -- Behind the loop: the section that is left as it was or made, and the result
    unfoldable pub finish_section : (eof : Bool) → Load → Section → Section × ℤ
    finish_section eof l section =
        let len = (l.maxaddr + 1 + 2 ^ 32 - l.minaddr) % 2 ^ 32 in
        if malloc len && not (len == 0)
        then (
          record {
            address = l.address;
            image = some (bytes l.image_local l.minaddr len);
            len = len;
          },
          if eof then pos 1 else pos 0,
        )
        else (record section { image = if malloc len then some [] else none; len = len }, negsuc 0)

    unfoldable pub end_section : Ending → Section → Option (Section × ℤ × List (List ℕ))
    end_section (ended eof rest l) section =
        let (s, r) = finish_section eof l section in some (s, r, rest)
    end_section failed section = some (section, negsuc 0, [])
    end_section undefined_end section = none

    -- The section, the result and the lines that are left. The variables that are read before they are
    -- set are arguments. `memset` on a NULL for `image_local` is `none` too.
    unfoldable pub ihex_load_section :
        List (List ℕ)
        → Section
        → (line_bytes : Memory) (addr status : ℕ) → Option (Section × ℤ × List (List ℕ))
    ihex_load_section lines section line_bytes addr status =
        if malloc max_ihex_section_len
        then end_section (load_loop lines (initial line_bytes addr status)) section
        else none

    -- `n` more slots, the section of each, and the number of sections read so far; `none` for a read
    -- of a variable without a value
    unfoldable pub sections_loop :
        (lines : List (List ℕ)) (image : List Section) (line_bytes : Memory) (addr status count : ℕ)
        → Option (ℕ × List Section)
    sections_loop lines [] line_bytes addr status count = some (count, [])
    sections_loop lines (slot ∷ slots) line_bytes addr status count =
        elim (ihex_load_section lines slot line_bytes addr status) [
          | none ↦ none
          | some (s, pos zero, rest) ↦
              elim (sections_loop rest slots line_bytes addr status (count + 1)) [
                | none ↦ none
                | some (n, image) ↦ some (n, s ∷ image)
              ]
          | some (s, pos (suc r), rest) ↦ some (count + 1, s ∷ slots)
          | some (s, negsuc r, rest) ↦ some (count, s ∷ slots)
        ]

    -- The text of the file that `fopen` gives, if any, and the slots, of which there is at least one
    unfoldable pub ihex_load_sections :
        Option (List ℕ)
        → (image : List Section) (line_bytes : Memory) (addr status : ℕ) → Option (ℕ × List Section)
    ihex_load_sections none image line_bytes addr status = some (0, image)
    ihex_load_sections (some text) image line_bytes addr status =
        sections_loop (read_lines 511 text) image line_bytes addr status 0

unfoldable pub ihex_unload_section : Section → Section
ihex_unload_section s = elim s.image [
  | none ↦ s
  | some _ ↦ record { address = 0; image = none; len = 0 }
]

unfoldable pub ihex_unload_sections : List Section → List Section
ihex_unload_sections image = map ihex_unload_section image

-- ===== src/Hex/Section/RoundTrip.antt =====
-- ihex.c: the lines of a hex file, record by record, and the section that is made of them.
use rover_workspace.Prelude.{
  ℕ, ◌+◌, ◌-◌, ◌%◌, ◌^◌, ◌<◌, ◌≤◌, ◌≡◌, refl, sym, ap, ap₂, subst, ◌∙◌, inl, Bool, true, false,
  some, List, [], ◌∷◌, ◌++◌, append_assoc, append-nil, length, length-append, arith, ◌==◌,
}
use rover_workspace.Prelude.Int.{pos}
use rover_workspace.Prelude.Memory.{
  Memory, bytes, bytes-append, bytes_same, bytes-write_bytes, write_bytes, write_bytes-outside,
}
use rover_workspace.Packet.RoundTrip.Body.{IsBytes}
use rover_workspace.Hex.Line.{Scanned, parse_hex_line}
use rover_workspace.Hex.Line.RoundTrip.{hex_line, checksum_of, ReadsHex, parse-hex_line}
use rover_workspace.Hex.Section.{
  Section, Step, go_on, file_end, section_end, exceeded, undefined, failed, undefined_end, Load,
  max_ihex_section_len, drop_last, copied, take_line, step_line, initial, load_loop, finish_section,
  end_section, ihex_load_section, Ending, ended,
}
use rover_workspace.Hex.Section.Bounds.{after_copy, copy_data-after}

abbrev pub line_end : List ℕ
line_end = 13 ∷ 10 ∷ []

-- The bytes of each data record of a file, one behind the other from an address on
abbrev pub IsChunks : List (List ℕ) → Type 0
IsChunks [] = Unit {0}
IsChunks (c ∷ cs) = ((0 < length c) × (length c < 256) × IsBytes c) × IsChunks cs

abbrev pub joined : List (List ℕ) → List ℕ
joined [] = []
joined (c ∷ cs) = c ++ joined cs

abbrev pub data_lines : (addr : ℕ) → List (List ℕ) → List (List ℕ) → List (List ℕ)
data_lines addr [] rest = rest
data_lines addr (c ∷ cs) rest =
    (hex_line addr 0 c ++ line_end) ∷ data_lines (addr + length c) cs rest

abbrev pub end_line : List ℕ
end_line = hex_line 0 1 [] ++ line_end

drop_last-append : (c x : ℕ) (xs : List ℕ) → drop_last c ((x ∷ xs) ++ c ∷ []) ≡ x ∷ xs
unfolding drop_last
drop_last-append c x [] = let e : (c == c) ≡ true = ground arith in rw e refl
drop_last-append c x (y ∷ xs) = ap (λ t. x ∷ t) (drop_last-append c y xs)

stripped :
    (line : List ℕ) (x : ℕ) (xs : List ℕ)
    → line ≡ x ∷ xs
    → drop_last 13 (drop_last 10 (line ++ line_end)) ≡ line
stripped line x xs e = rw e (
    ap (λ t. drop_last 13 (drop_last 10 t)) (sym (append_assoc (x ∷ xs) (13 ∷ []) (10 ∷ [])))
    ∙ ap (drop_last 13) (drop_last-append 10 x (xs ++ 13 ∷ []))
    ∙ drop_last-append 13 x xs)

same : (n : ℕ) → (n == n) ≡ true
same n = ground arith

checksum-lt : (addr code : ℕ) (xs : List ℕ) → checksum_of addr code xs < 256
checksum-lt addr code xs = omega arith

-- The bytes that have been loaded from `start` on
record At (start : ℕ) (xs : List ℕ) (l : Load) : Type 0 where
  least : l.minaddr ≡ start
  most : l.maxaddr + 1 ≡ start + length xs
  held : bytes l.image_local start (length xs) ≡ xs
  address : l.address ≡ 0

-- What a write behind some bytes makes of them
bytes-behind :
    (m : Memory) (start : ℕ) (xs c : List ℕ)
    → bytes m start (length xs) ≡ xs
    → bytes (write_bytes m (start + length xs) c) start (length (xs ++ c)) ≡ xs ++ c
bytes-behind m start xs c held =
    let m' = write_bytes m (start + length xs) c in
    rw (length-append xs c) (
      bytes-append m' start (length xs) (length c)
      ∙ ap₂ ◌++◌
          (bytes_same m m' start (length xs)
              (λ q p h. write_bytes-outside m (start + length xs) c q (inl h))
            ∙ held)
          (bytes-write_bytes m (start + length xs) c))

module _ {sscanf : ℕ → List ℕ → Scanned} (reads : ReadsHex sscanf) where
  -- The state when the line of some bytes has been parsed, and when it has been copied
  parsed : (addr : ℕ) → List ℕ → Load → Load
  parsed addr c l = record l { line_bytes = write_bytes l.line_bytes 0 c; addr = addr; status = 0 }

  -- The rest of the loop behind a line
  abbrev next : List ℕ → List (List ℕ) → Load → Step → Ending
  next line lines l st = elim st [
    | go_on l' ↦ load_loop sscanf lines l'
    | file_end l' ↦ ended true lines l'
    | section_end ↦ ended false (line ∷ lines) l
    | exceeded ↦ failed
    | undefined ↦ undefined_end
  ]

  load-go :
      (line text : List ℕ) (lines : List (List ℕ)) (l l' : Load)
      → drop_last 13 (drop_last 10 line) ≡ text
      → step_line (parse_hex_line sscanf text l.line_bytes l.addr l.status) l ≡ go_on l'
      → load_loop sscanf (line ∷ lines) l ≡ load_loop sscanf lines l'
  unfolding load_loop
  load-go line text lines l l' e f =
      ap
        (λ t.
          next line lines l (step_line (parse_hex_line sscanf t l.line_bytes l.addr l.status) l))
        e
      ∙ ap (next line lines l) f

  load-end :
      (line text : List ℕ) (lines : List (List ℕ)) (l l' : Load)
      → drop_last 13 (drop_last 10 line) ≡ text
      → step_line (parse_hex_line sscanf text l.line_bytes l.addr l.status) l ≡ file_end l'
      → load_loop sscanf (line ∷ lines) l ≡ ended true lines l'
  unfolding load_loop
  load-end line text lines l l' e f =
      ap
        (λ t.
          next line lines l (step_line (parse_hex_line sscanf t l.line_bytes l.addr l.status) l))
        e
      ∙ ap (next line lines l) f

  step-data :
      (addr : ℕ) (c : List ℕ) (l : Load)
      → IsBytes c
      → length c < 256
      → addr < 65536
      → step_line (parse_hex_line sscanf (hex_line addr 0 c) l.line_bytes l.addr l.status) l
        ≡ go_on (after_copy (length c) 0 (parsed addr c l))
  unfolding step_line take_line copied parsed
  step-data addr c l octets few low =
      let p =
        parse-hex_line sscanf (checksum_of addr 0 c) addr 0 c l.line_bytes l.addr l.status reads
          (checksum-lt addr 0 c) low (omega arith) octets few in
      rw
        (
          p,
          same (checksum_of addr 0 c),
          copy_data-after (length c) 0 (parsed addr c l) (omega arith),
        )
        refl

  step-end :
      (l : Load)
      → (l' : Load) × ((step_line
              (parse_hex_line sscanf (hex_line 0 1 []) l.line_bytes l.addr l.status)
              l
            ≡ file_end l')
          × ((l'.image_local ≡ l.image_local)
              × ((l'.minaddr ≡ l.minaddr) × ((l'.maxaddr ≡ l.maxaddr) × (l'.address ≡ l.address)))))
  unfolding step_line take_line write_bytes
  step-end l =
      let p =
        parse-hex_line sscanf (checksum_of 0 1 []) 0 1 [] l.line_bytes l.addr l.status reads
          (checksum-lt 0 1 []) (omega arith) (omega arith) tt (omega arith) in
      (record l { addr = 0; status = 1 }, (rw p refl, (refl, (refl, (refl, refl)))))

  -- What is in the image when a line has been copied behind what is there
  At-copy :
      (start : ℕ) (xs c : List ℕ) (l : Load)
      → 0 < length xs
      → 0 < length c
      → At start xs l
      → At start (xs ++ c) (after_copy (length c) 0 (parsed (start + length xs) c l))
  unfolding parsed
  At-copy start xs c l some_xs some_c at = record {
    least = ground (arith, at.least);
    most = ground (arith, at.least, at.most, length-append xs c);
    held = rw (bytes-write_bytes l.line_bytes 0 c) (bytes-behind l.image_local start xs c at.held);
    address = at.address;
  }

  At-first :
      (start : ℕ) (c : List ℕ) (l : Load)
      → 0 < length c
      → start < 65536
      → l.minaddr ≡ 65536
      → l.maxaddr ≡ 0
      → l.address ≡ 0
      → At start c (after_copy (length c) 0 (parsed start c l))
  unfolding parsed
  At-first start c l some_c low least most address = record {
    least = ground (arith, least);
    most = ground (arith, least, most);
    held = rw (bytes-write_bytes l.line_bytes 0 c) (bytes-write_bytes l.image_local start c);
    address = address;
  }

  -- The lines of data records behind those that have been loaded
  load-chunks :
      (start : ℕ) (chunks : List (List ℕ)) (xs : List ℕ) (lines : List (List ℕ)) (l : Load)
      → IsChunks chunks
      → 0 < length xs
      → start + length xs + length (joined chunks) ≤ 65536
      → At start xs l
      → (l' : Load) × ((load_loop sscanf (data_lines (start + length xs) chunks lines) l
            ≡ load_loop sscanf lines l')
          × At start (xs ++ joined chunks) l')
  load-chunks start [] xs lines l valid some_xs room at =
      (l, (refl, subst (λ ys. At start ys l) (sym (append-nil xs)) at))
  load-chunks start (c ∷ cs) xs lines l ((some_c, few, octets), valid) some_xs room at =
      let a = start + length xs in
      let l1 = after_copy (length c) 0 (parsed a c l) in
      let size = length-append c (joined cs) in
      let here : start + length (xs ++ c) ≡ a + length c = omega (arith, length-append xs c) in
      let step =
        load-go (hex_line a 0 c ++ line_end) (hex_line a 0 c) (data_lines (a + length c) cs lines) l
          l1 (stripped (hex_line a 0 c) _ _ refl) (step-data a c l octets few (omega arith)) in
      let (l', (e, at')) =
        load-chunks start cs (xs ++ c) lines l1 valid (omega (arith, length-append xs c))
          (omega arith) (At-copy start xs c l some_xs some_c at) in
      (
        l',
        (
          step ∙ ap (λ k. load_loop sscanf (data_lines k cs lines) l1) (sym here) ∙ e,
          subst (λ ys. At start ys l') (append_assoc xs c (joined cs)) at',
        ),
      )

  -- The whole file
  load-file :
      (start : ℕ) (c : List ℕ) (cs rest : List (List ℕ)) (line_bytes : Memory) (addr status : ℕ)
      → IsChunks (c ∷ cs)
      → start + length (joined (c ∷ cs)) ≤ 65536
      → (l : Load) × ((load_loop sscanf
              (data_lines start (c ∷ cs) (end_line ∷ rest))
              (initial line_bytes addr status)
            ≡ ended true rest l)
          × At start (joined (c ∷ cs)) l)
  load-file start c cs rest line_bytes addr status ((some_c, few, octets), valid) room =
      let size = length-append c (joined cs) in
      let l0 = initial line_bytes addr status in
      let l1 = after_copy (length c) 0 (parsed start c l0) in
      let one =
        load-go (hex_line start 0 c ++ line_end) (hex_line start 0 c)
          (data_lines (start + length c) cs (end_line ∷ rest)) l0 l1
          (stripped (hex_line start 0 c) _ _ refl)
          (step-data start c l0 octets few (omega arith)) in
      let (l2, (more, at)) =
        load-chunks start cs c (end_line ∷ rest) l1 valid some_c (omega arith)
          (At-first start c l0 some_c (omega arith) refl refl refl) in
      let (l3, (e, (image, (least, (most, address))))) = step-end l2 in
      let last =
        load-end end_line (hex_line 0 1 []) rest l2 l3 (stripped (hex_line 0 1 []) _ _ refl) e in
      (
        l3,
        (
          one ∙ more ∙ last,
          record {
            least = least ∙ at.least;
            most = ap (λ k. k + 1) most ∙ at.most;
            held = ap (λ m. bytes m start (length (joined (c ∷ cs)))) image ∙ at.held;
            address = address ∙ at.address;
          },
        ),
      )

-- The section that is made of what has been loaded
finish-At :
    (sscanf : ℕ → List ℕ → Scanned) (malloc : ℕ → Bool) (start : ℕ) (xs : List ℕ) (l : Load)
    (section : Section)
    → 0 < length xs
    → start + length xs ≤ 65536
    → malloc (length xs) ≡ true
    → At start xs l
    → finish_section sscanf malloc true l section
      ≡ (record { address = 0; image = some xs; len = length xs }, pos 1)
unfolding finish_section
finish-At sscanf malloc start xs l section some_xs room memory at =
    let size : (l.maxaddr + 1 + 2 ^ 32 - l.minaddr) % 2 ^ 32 ≡ length xs =
      omega (arith, at.least, at.most) in
    let filled : (length xs == 0) ≡ false = ground arith in
    rw (size, memory, filled, at.address, at.least, at.held) refl

-- The lines of data records with one to 255 bytes each, one behind the other, and of the record for the end
-- of the file.
pub load_section-lines :
    (sscanf : ℕ → List ℕ → Scanned) (malloc : ℕ → Bool) (start : ℕ) (c : List ℕ)
    (cs rest : List (List ℕ)) (section : Section) (line_bytes : Memory) (addr status : ℕ)
    → ReadsHex sscanf
    → IsChunks (c ∷ cs)
    → start + length (joined (c ∷ cs)) ≤ 65536
    → malloc max_ihex_section_len ≡ true
    → malloc (length (joined (c ∷ cs))) ≡ true
    → ihex_load_section sscanf malloc
        (data_lines start (c ∷ cs) (end_line ∷ rest))
        section
        line_bytes
        addr
        status
      ≡ some (
        record { address = 0; image = some (joined (c ∷ cs)); len = length (joined (c ∷ cs)) },
        pos 1,
        rest,
      )
unfolding ihex_load_section end_section
load_section-lines sscanf malloc start c cs rest section line_bytes addr status reads valid room
      buffer memory =
    let (l, (e, at)) = load-file reads start c cs rest line_bytes addr status valid room in
    let done =
      finish-At sscanf malloc start (joined (c ∷ cs)) l section
        (omega (arith, valid.0.0, length-append c (joined cs))) room memory at in
    rw buffer (
      ap (λ ending. end_section sscanf malloc ending section) e
      ∙ ap (λ made. some (made.0, made.1, rest)) done)

-- ===== src/Hex/Section/Bounds.antt =====
-- ihex.c: the copy of the bytes of a line into the buffer.
use Prim.Native.Nat.{min, max}
use rover_workspace.Prelude.{
  ℕ, zero, suc, ◌+◌, ◌-◌, ◌<◌, ◌≤◌, ◌≡◌, refl, ◌∙◌, ◌⊎◌, inl, inr, false, Option, none, some,
  length, arith, ltb, ◌==◌, if◌then◌else◌, Bool-cases, ltb→lt, not-ltb→le,
}
use rover_workspace.Prelude.Memory.{
  Memory, store, bytes, length-bytes, write_bytes, write_bytes-outside, write_bytes-at,
}
use rover_workspace.Hex.Section.{max_ihex_section_len, Load, copy_data}

-- The variables when `n` bytes from `i` on are in the image
abbrev pub after_copy : (n i : ℕ) → Load → Load
after_copy n i l = record l {
  image_local = write_bytes l.image_local l.addr (bytes l.line_bytes i n);
  addr = l.addr + n;
  minaddr = if n == 0 then l.minaddr else if ltb l.addr l.minaddr then l.addr else l.minaddr;
  maxaddr =
      if n == 0
      then l.maxaddr
      else if ltb l.maxaddr (l.addr + n - 1)
      then l.addr + n - 1
      else l.maxaddr;
}

made : Load → Memory → (addr least most : ℕ) → Option Load
made l m a least most =
    some (record l { image_local = m; addr = a; minaddr = least; maxaddr = most })

made_same :
    (l : Load) (m : Memory) {a a' least least' most most' : ℕ}
    → a ≡ a'
    → least ≡ least'
    → most ≡ most'
    → made l m a least most ≡ made l m a' least' most'
made_same l m e f g = rw (e, f, g) refl

pub copy_data-after :
    (n i : ℕ) (l : Load)
    → l.addr + n ≤ max_ihex_section_len
    → copy_data n i l ≡ some (after_copy n i l)
unfolding made copy_data bytes write_bytes
copy_data-after zero i l room = let e : l.addr + 0 ≡ l.addr = omega arith in rw e refl
copy_data-after (suc n) i l room =
    let fits : ltb max_ihex_section_len (l.addr + 1) ≡ false = ground arith in
    let l' : Load = record l {
      image_local = store l.image_local l.addr (l.line_bytes i);
      minaddr = if ltb l.addr l.minaddr then l.addr else l.minaddr;
      maxaddr = if ltb l.maxaddr l.addr then l.addr else l.maxaddr;
      addr = l.addr + 1;
    } in
    let e : l.addr + 1 + n ≡ l.addr + suc n = omega arith in
    let low : (if n == 0
          then l'.minaddr
          else if ltb (l.addr + 1) l'.minaddr
          then l.addr + 1
          else l'.minaddr)
        ≡ (if suc n == 0 then l.minaddr else if ltb l.addr l.minaddr then l.addr else l.minaddr) =
      ground arith in
    let high : (if n == 0
          then l'.maxaddr
          else if ltb l'.maxaddr (l.addr + 1 + n - 1)
          then l.addr + 1 + n - 1
          else l'.maxaddr)
        ≡ (if suc n == 0
            then l.maxaddr
            else if ltb l.maxaddr (l.addr + suc n - 1)
            then l.addr + suc n - 1
            else l.maxaddr) =
      ground arith in
    rw fits (copy_data-after n (i + 1) l' (omega arith) ∙ made_same l _ e low high)

-- The byte that exceeds the buffer ends the copy.
copy_data-exceeds :
    (n i : ℕ) (l : Load)
    → l.addr ≤ max_ihex_section_len
    → max_ihex_section_len < l.addr + n
    → copy_data n i l ≡ none
unfolding copy_data
copy_data-exceeds zero i l low high = absurd (omega arith)
copy_data-exceeds (suc n) i l low high = elim (Bool-cases (ltb max_ihex_section_len (l.addr + 1))) [
  | inl over ↦ rw over refl
  | inr fits ↦ rw fits (copy_data-exceeds n (i + 1) _ (not-ltb→le _ _ fits) (omega arith))
]

-- The variables behind the copy of `n` bytes, of the line's from `i` on: the bytes stand at the
-- addresses from `addr` on, and every other place of the image is as it was; the least and the greatest
-- address take those of the bytes in.
pub record Copied (n i : ℕ) (l l' : Load) : Type 0 where
  pub stored : (k : ℕ) → k < n → l'.image_local (l.addr + k) ≡ l.line_bytes (i + k)
  pub outside : (q : ℕ) → (q < l.addr) ⊎ (l.addr + n ≤ q) → l'.image_local q ≡ l.image_local q
  pub least : l'.minaddr ≡ min l.minaddr l.addr
  pub most : l'.maxaddr ≡ max l.maxaddr (l.addr + n - 1)
  pub next : l'.addr ≡ l.addr + n

after_copy-Copied : (n i : ℕ) (l : Load) → 0 < n → Copied n i l (after_copy n i l)
after_copy-Copied n i l some_n = record {
  stored = λ k below. write_bytes-at l.image_local l.addr l.line_bytes i n k below;
  outside =
      λ q away. write_bytes-outside l.image_local l.addr (bytes l.line_bytes i n) q (beside q away);
  least = ground arith;
  most = ground arith;
  next = refl;
}
  where
    beside :
        (q : ℕ)
        → (q < l.addr) ⊎ (l.addr + n ≤ q)
        → (q < l.addr) ⊎ (l.addr + length (bytes l.line_bytes i n) ≤ q)
    beside q (inl h) = inl h
    beside q (inr h) = inr (omega (arith, length-bytes l.line_bytes i n))

-- The result of a copy: it fails exactly when the last byte would lie behind the buffer.
abbrev pub CopiedOrExceeds : (n i : ℕ) → Load → Option Load → Type 0
CopiedOrExceeds n i l none = max_ihex_section_len < l.addr + n
CopiedOrExceeds n i l (some l') = (l.addr + n ≤ max_ihex_section_len) × Copied n i l l'

-- One or more bytes of a line, from an address in the buffer or at its end on, are copied exactly when
-- the last of them lies in the buffer, and the buffer is exceeded exactly when it does not. When they
-- are copied, each stands at its place from the address on, no other place has changed, and the least
-- and the greatest address written so far are kept.
pub copy_data-CopiedOrExceeds :
    (n i : ℕ) (l : Load)
    → 0 < n
    → l.addr ≤ max_ihex_section_len
    → CopiedOrExceeds n i l (copy_data n i l)
copy_data-CopiedOrExceeds n i l some_n low =
    elim (Bool-cases (ltb max_ihex_section_len (l.addr + n))) [
      | inl over ↦
          let high = ltb→lt max_ihex_section_len (l.addr + n) over in
          rw (copy_data-exceeds n i l low high) high
      | inr fits ↦
          let room = not-ltb→le max_ihex_section_len (l.addr + n) fits in
          rw (copy_data-after n i l room) (room, after_copy-Copied n i l some_n)
    ]

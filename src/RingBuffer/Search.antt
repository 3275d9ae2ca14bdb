-- ===== src/RingBuffer/Search.antt =====
-- ring_buffer.c: the functions that look for bytes in the ring.
use rover_workspace.Prelude.{
  ℕ, zero, suc, ◌+◌, ◌-◌, Bool, true, false, ◌&&◌, ◌||◌, Option, none, some, [], ◌++◌, leb, ◌==◌,
  if◌then◌else◌,
}
use rover_workspace.Prelude.Memory.{Memory, bytes}
use rover_workspace.RingBuffer.{RingBuf, Took, ring_buf_used, advance_rd, at_most, wraps}

-- `for (; bufPtr < endPtr; bufPtr++)` over the `n` bytes that are left; `none` is NULL.
unfoldable pub ringfind_char : Memory → (buf_ptr n character : ℕ) → Option ℕ
ringfind_char m buf_ptr zero character = none
ringfind_char m buf_ptr (suc n) character =
    let rest = ringfind_char m (buf_ptr + 1) n character in
    if m buf_ptr == character then some (buf_ptr + 1) else rest

unfoldable pub ringfind_char2 : Memory → (buf_ptr n character1 character2 : ℕ) → Option ℕ
ringfind_char2 m buf_ptr zero character1 character2 = none
ringfind_char2 m buf_ptr (suc n) character1 character2 =
    let rest = ringfind_char2 m (buf_ptr + 1) n character1 character2 in
    if m buf_ptr == character1 || m buf_ptr == character2 then some (buf_ptr + 1) else rest

-- "Found character - No Wrapping"
abbrev found_here : Memory → RingBuf → ℕ → Took
found_here m r found = record {
  out = bytes m r.rd_ptr (found - r.rd_ptr);
  ring = advance_rd r (found - r.rd_ptr);
}

unfoldable pub ring_buf_read_to_char2 : Memory → RingBuf → (len character1 character2 : ℕ) → Took
ring_buf_read_to_char2 m r len character1 character2 =
    let used = ring_buf_used r in
    let n = at_most len used in
    let bytes_read1 = r.end_ptr - r.rd_ptr in
    let missing : Took = record { out = []; ring = r } in
    if used == 0
    then missing
    else if wraps r r.rd_ptr n
    then elim (ringfind_char2 m r.rd_ptr bytes_read1 character1 character2) [
      | some found ↦ found_here m r found
      | none ↦ elim (ringfind_char2 m r.start_ptr (n - bytes_read1) character1 character2) [
        | none ↦ missing
        | some found ↦ record {
          out = bytes m r.rd_ptr bytes_read1 ++ bytes m r.start_ptr (found - r.start_ptr);
          ring = record r { rd_ptr = r.start_ptr + (found - r.start_ptr) };
        }
      ]
    ]
    else elim (ringfind_char2 m r.rd_ptr n character1 character2) [
      | some found ↦ found_here m r found
      | none ↦ missing
    ]

unfoldable pub ring_buf_read_to_char : Memory → RingBuf → (len character : ℕ) → Took
ring_buf_read_to_char m r len character = ring_buf_read_to_char2 m r len character character

-- `!strncmp(s, t, n)` of the standard library: equal up to a NUL or `n` bytes.
unfoldable pub strncmp_eq : (ℕ → ℕ) → (ℕ → ℕ) → ℕ → Bool
strncmp_eq s t zero = true
strncmp_eq s t (suc n) =
    let rest = strncmp_eq (λ i. s (i + 1)) (λ i. t (i + 1)) n in
    if s 0 == t 0 then (if s 0 == 0 then true else rest) else false

-- The loop of `ringBufFind` with `n` rounds left.
unfoldable pub find_loop : Memory → RingBuf → (str : ℕ → ℕ) → (len buf i n : ℕ) → Option ℕ
find_loop m r str len buf i zero = none
find_loop m r str len buf i (suc n) =
    let here = λ (k : ℕ). m (buf + k) in
    let len1 = buf + len - r.end_ptr in
    let hit =
      if leb r.end_ptr (buf + len)
      then strncmp_eq here str len1 && strncmp_eq here (λ k. m (r.start_ptr + k)) (len - len1)
      else strncmp_eq here str len in
    let next = if leb r.end_ptr (buf + 1) then r.start_ptr else buf + 1 in
    let rest = find_loop m r str len next (i + 1) n in if hit then some i else rest

-- `none` is -1.
unfoldable pub ring_buf_find : Memory → RingBuf → (str : ℕ → ℕ) → (len : ℕ) → Option ℕ
ring_buf_find m r str len = find_loop m r str len r.rd_ptr 0 (ring_buf_used r)

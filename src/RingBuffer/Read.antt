-- ===== src/RingBuffer/Read.antt =====
-- Reading and removing, on the list of the bytes that the ring holds.
use rover_workspace.Prelude.{
  ℕ, ◌+◌, ◌-◌, ◌≤◌, ◌<◌, ◌≡◌, refl, sym, ◌∙◌, ap, ap₂, true, false, ◌++◌, arith, take, drop, ltb,
  leb, ◌==◌, if◌then◌else◌, ==_iff, Bool-cases, inl, inr, ltb→lt, not-ltb→le, take-append,
  drop-append, take_all, drop_all, take-nil, drop-nil, min,
}
use rover_workspace.Prelude.Memory.{Memory, bytes}
use rover_workspace.RingBuffer.{
  RingBuf, Took, ring_buf_used, advance_rd, at_most, wraps, ring_buf_read, ring_buf_remove,
}
use rover_workspace.RingBuffer.Contents.{
  IsValid, place, place-used, around, contents, used-lt, place_range, around-append, around-bytes,
  length-around, length-contents, contents_empty,
}

-- The ring when `n` bytes have been taken.
abbrev pub taken : RingBuf → ℕ → RingBuf
taken r n = record r { rd_ptr = place r r.rd_ptr n }

wraps-true :
    (r : RingBuf) (n : ℕ)
    → wraps r r.rd_ptr n ≡ true
    → (r.wr_ptr < r.rd_ptr) × (r.end_ptr - r.rd_ptr < n)
wraps-true r n e = ground arith

row :
    {r : RingBuf} (v : IsValid r) (n : ℕ)
    → n ≤ ring_buf_used r
    → wraps r r.rd_ptr n ≡ false
    → r.rd_ptr + n ≤ r.end_ptr
unfolding ring_buf_used
row v n h e = ground (arith, v.ends)

module _ {r : RingBuf} (v : IsValid r) where
  pub used-taken : (n : ℕ) → n ≤ ring_buf_used r → ring_buf_used (taken r n) ≡ ring_buf_used r - n
  unfolding ring_buf_used
  used-taken n h = ground (arith, v.ends)

  pub taken-IsValid : (n : ℕ) → n ≤ ring_buf_used r → IsValid (taken r n)
  taken-IsValid n h =
      let range = place_range v r.rd_ptr n v.rd_low v.rd_high (omega (arith, used-lt v)) in
      record {
        ends = v.ends;
        rd_low = range.0;
        rd_high = range.1;
        wr_low = v.wr_low;
        wr_high = v.wr_high;
        word = v.word;
      }

  pub contents-taken :
      (m : Memory) (n : ℕ)
      → n ≤ ring_buf_used r
      → contents m r ≡ around m r r.rd_ptr n ++ contents m (taken r n)
  unfolding contents around
  contents-taken m n h =
      let rest = ring_buf_used r - n in
      let e : ring_buf_used r ≡ n + rest = omega arith in
      ap (around m r r.rd_ptr) e
      ∙ around-append v m n rest r.rd_ptr v.rd_low v.rd_high (omega (arith, used-lt v))
      ∙ ap (λ k. around m r r.rd_ptr n ++ around m r (place r r.rd_ptr n) k) (sym (used-taken n h))

  -- `len` bytes, or all of them if they are fewer, come off the front.
  pub take-contents :
      (m : Memory) (len : ℕ)
      → take len (contents m r) ≡ around m r r.rd_ptr (at_most len (ring_buf_used r))
  unfolding contents
  take-contents m len = elim (Bool-cases (ltb len (ring_buf_used r))) [
    | inl e ↦
        rw (e, contents-taken m len (omega (arith, ltb→lt len (ring_buf_used r) e)))
          (take-append len _ _ (sym (length-around m r r.rd_ptr len)))
    | inr e ↦ rw e (
        take_all len (contents m r)
          (omega (arith, length-contents m r, not-ltb→le len (ring_buf_used r) e)))
  ]

  pub drop-contents :
      (m : Memory) (len : ℕ)
      → drop len (contents m r) ≡ contents m (taken r (at_most len (ring_buf_used r)))
  drop-contents m len = elim (Bool-cases (ltb len (ring_buf_used r))) [
    | inl e ↦
        rw (e, contents-taken m len (omega (arith, ltb→lt len (ring_buf_used r) e)))
          (drop-append len _ _ (sym (length-around m r r.rd_ptr len)))
    | inr e ↦ rw e (
        drop_all len (contents m r)
          (omega (arith, length-contents m r, not-ltb→le len (ring_buf_used r) e))
        ∙ sym (
            contents_empty m (taken r (ring_buf_used r))
              (omega (arith, used-taken (ring_buf_used r) (omega arith)))))
  ]

  -- In both cases of the code the bytes read are those round the end.
  pub read_bytes :
      (m : Memory) (n : ℕ)
      → n ≤ ring_buf_used r
      → (if wraps r r.rd_ptr n
          then bytes m r.rd_ptr (r.end_ptr - r.rd_ptr)
            ++ bytes m r.start_ptr (n - (r.end_ptr - r.rd_ptr))
          else bytes m r.rd_ptr n)
        ≡ around m r r.rd_ptr n
  read_bytes m n h = elim (Bool-cases (wraps r r.rd_ptr n)) [
    | inl e ↦
        let first = r.end_ptr - r.rd_ptr in
        let (below, far) = wraps-true r n e in
        let split : n ≡ first + (n - first) = omega arith in
        let turn : place r r.rd_ptr first ≡ r.start_ptr = ground (arith, v.ends, v.rd_high) in
        rw e (
          sym (
            ap (around m r r.rd_ptr) split
            ∙ around-append v m first (n - first) r.rd_ptr v.rd_low v.rd_high
                (omega (arith, used-lt v))
            ∙ ap₂ ◌++◌ (around-bytes v m first r.rd_ptr v.rd_low (omega arith)) (
                ap (λ p. around m r p (n - first)) turn
                ∙ around-bytes v m (n - first) r.start_ptr (omega arith)
                    (omega (arith, used-lt v)))))
    | inr e ↦ rw e (sym (around-bytes v m n r.rd_ptr v.rd_low (row v n h e)))
  ]

  advance-taken :
      (n : ℕ) → n ≤ r.end_ptr - r.rd_ptr → n ≤ ring_buf_used r → advance_rd r n ≡ taken r n
  unfolding advance_rd
  advance-taken n h k = ground (arith, v.ends)

-- Up to `len` of the oldest bytes go out in order, and the ring keeps the rest.
pub record Takes (m : Memory) (r : RingBuf) (len : ℕ) (t : Took) : Type 0 where
  pub out : t.out ≡ take len (contents m r)
  pub rest : contents m t.ring ≡ drop len (contents m r)
  pub valid : IsValid t.ring

taken-Takes :
    {r : RingBuf} (v : IsValid r) (m : Memory) (len : ℕ) (t : Took)
    → t.out ≡ around m r r.rd_ptr (at_most len (ring_buf_used r))
    → t.ring ≡ taken r (at_most len (ring_buf_used r))
    → Takes m r len t
taken-Takes {r} v m len t out ring =
    let small : at_most len (ring_buf_used r) ≤ ring_buf_used r = ground arith in
    record {
      out = out ∙ sym (take-contents v m len);
      rest = rw ring (sym (drop-contents v m len));
      valid = rw ring (taken-IsValid v (at_most len (ring_buf_used r)) small);
    }

wrap-taken :
    {r : RingBuf} (v : IsValid r) (n : ℕ)
    → n ≤ ring_buf_used r
    → wraps r r.rd_ptr n ≡ true
    → record r { rd_ptr = r.start_ptr + (n - (r.end_ptr - r.rd_ptr)) } ≡ taken r n
wrap-taken {r} v n h e = ground (arith, v.ends, v.rd_high, used-lt v, wraps-true r n e)

-- Of a ring whose pointers are in range, `ringBufRead` returns the oldest `len` bytes in order, or all
-- of them if it holds fewer, and leaves the others; the pointers stay in range.
pub read-Takes :
    {r : RingBuf} (m : Memory) (len : ℕ) → IsValid r → Takes m r len (ring_buf_read m r len)
unfolding ring_buf_read
read-Takes {r} m len v = elim (Bool-cases (ring_buf_used r == 0)) [
  | inl e ↦
      let none_used : ring_buf_used r ≡ 0 = (==_iff _ _).0 e in
      rw e (record {
        out = rw (contents_empty m r none_used) (sym (take-nil ℕ len));
        rest = rw (contents_empty m r none_used) (sym (drop-nil ℕ len));
        valid = v;
      })
  | inr e ↦
      let n = at_most len (ring_buf_used r) in
      let small : n ≤ ring_buf_used r = ground arith in
      rw e (elim (Bool-cases (wraps r r.rd_ptr n)) [
        | inl w ↦
            rw w (taken-Takes v m len _ (rw w at (read_bytes v m n small)) (wrap-taken v n small w))
        | inr w ↦ rw w (
            taken-Takes v m len _ (rw w at (read_bytes v m n small))
              (advance-taken v n (omega (arith, row v n small w)) small))
      ])
]

-- What is left of the ring when `len` bytes have been taken.
pub taken-left :
    {r : RingBuf} (v : IsValid r) (m : Memory) (len : ℕ) (r' : RingBuf)
    → r' ≡ taken r (at_most len (ring_buf_used r))
    → (contents m r' ≡ drop len (contents m r)) × IsValid r'
taken-left {r} v m len r' e =
    let t = taken-Takes v m len (record { out = _; ring = r' }) refl e in (t.rest, t.valid)

all-taken :
    {r : RingBuf} (v : IsValid r) (len : ℕ)
    → leb (ring_buf_used r) len ≡ true
    → record r { rd_ptr = r.wr_ptr } ≡ taken r (at_most len (ring_buf_used r))
all-taken {r} v len e = ground (arith, place-used v)

some-taken :
    {r : RingBuf} (v : IsValid r) (len : ℕ)
    → leb (ring_buf_used r) len ≡ false
    → record r {
      rd_ptr =
          if leb r.end_ptr (r.rd_ptr + len) then r.rd_ptr + len - r.buf_size else r.rd_ptr + len;
    }
      ≡ taken r (at_most len (ring_buf_used r))
some-taken {r} v len e = ground arith

-- Of a ring whose pointers are in range, `ringBufRemove` removes the oldest `len` bytes, or all of them
-- if there are fewer, and returns how many it removed; the pointers stay in range.
pub remove-drop :
    {r : RingBuf} (m : Memory) (len : ℕ)
    → IsValid r
    → let (n, r') = ring_buf_remove r len in
      (n ≡ min len (ring_buf_used r)) × (contents m r' ≡ drop len (contents m r)) × IsValid r'
unfolding ring_buf_remove
remove-drop {r} m len v = elim (Bool-cases (ring_buf_used r == 0)) [
  | inl e ↦
      let none_used : ring_buf_used r ≡ 0 = (==_iff _ _).0 e in
      rw e (omega arith, rw (contents_empty m r none_used) (sym (drop-nil ℕ len)), v)
  | inr e ↦ elim (Bool-cases (leb (ring_buf_used r) len)) [
    | inl all ↦
        rw (e, all)
          (let (rest, valid) = taken-left v m len _ (all-taken v len all) in
            (ground arith, rest, valid))
    | inr some_left ↦
        rw (e, some_left)
          (let (rest, valid) = taken-left v m len _ (some-taken v len some_left) in
            (ground arith, rest, valid))
  ]
]

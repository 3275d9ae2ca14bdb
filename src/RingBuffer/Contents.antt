-- ===== src/RingBuffer/Contents.antt =====
-- The bytes that a ring holds, oldest first, and the invariant of its pointers.
use rover_workspace.Prelude.{
  ℕ, zero, suc, ◌+◌, ◌-◌, ◌≤◌, ◌<◌, ◌≡◌, refl, ap, ap₂, List, [], ◌∷◌, ◌++◌, arith, length, ltb,
  if◌then◌else◌,
}
use rover_workspace.Prelude.Memory.{Memory, bytes}
use rover_workspace.RingBuffer.{RingBuf, ring_buf_used}

pub record IsValid (r : RingBuf) : Type 0 where
  pub ends : r.end_ptr ≡ r.start_ptr + r.buf_size
  pub rd_low : r.start_ptr ≤ r.rd_ptr
  pub rd_high : r.rd_ptr < r.end_ptr
  pub wr_low : r.start_ptr ≤ r.wr_ptr
  pub wr_high : r.wr_ptr < r.end_ptr
  pub word : 0 < r.word_byte_size

-- The place `i` bytes on from `p`, round the end at most once.
abbrev pub place : RingBuf → ℕ → ℕ → ℕ
place r p i = if ltb (p + i) r.end_ptr then p + i else p + i - r.buf_size

-- `n` bytes from `p` on, round the end.
unfoldable pub around : Memory → RingBuf → ℕ → ℕ → List ℕ
around m r p zero = []
around m r p (suc n) = m p ∷ around m r (place r p 1) n

unfoldable pub contents : Memory → RingBuf → List ℕ
contents m r = around m r r.rd_ptr (ring_buf_used r)

pub used-lt : {r : RingBuf} → IsValid r → ring_buf_used r < r.buf_size
unfolding ring_buf_used
used-lt v = ground arith

-- As far ahead of the read pointer as bytes are used stands the write pointer.
pub place-used : {r : RingBuf} → IsValid r → place r r.rd_ptr (ring_buf_used r) ≡ r.wr_ptr
unfolding ring_buf_used
place-used v = ground arith

module _ {r : RingBuf} (v : IsValid r) where
  pub place_range :
      (p i : ℕ)
      → r.start_ptr ≤ p
      → p < r.end_ptr
      → i ≤ r.buf_size
      → (r.start_ptr ≤ place r p i) × (place r p i < r.end_ptr)
  place_range p i low high h = ground (arith, v.ends)

  place-place :
      (p a b : ℕ)
      → r.start_ptr ≤ p
      → p < r.end_ptr
      → a + b ≤ r.buf_size
      → place r (place r p a) b ≡ place r p (a + b)
  place-place p a b low high h = ground (arith, v.ends)

  pub around-append :
      (m : Memory) (a b p : ℕ)
      → r.start_ptr ≤ p
      → p < r.end_ptr
      → a + b ≤ r.buf_size
      → around m r p (a + b) ≡ around m r p a ++ around m r (place r p a) b
  unfolding around
  around-append m zero b p low high h =
      let e : zero + b ≡ b = omega arith in
      let e' : place r p zero ≡ p = ground (arith, v.ends) in rw (e, e')
  around-append m (suc a) b p low high h =
      let e : suc a + b ≡ suc (a + b) = omega arith in
      let e' : 1 + a ≡ suc a = omega arith in
      let range = place_range p 1 low high (omega arith) in
      rw (
        e,
        around-append m a b (place r p 1) range.0 range.1 (omega arith),
        place-place p 1 a low high (omega arith),
        e',
      )

  -- Up to the end the bytes stand in a row.
  pub around-bytes :
      (m : Memory) (n p : ℕ) → r.start_ptr ≤ p → p + n ≤ r.end_ptr → around m r p n ≡ bytes m p n
  unfolding around bytes
  around-bytes m zero p low h = refl
  around-bytes m (suc zero) p low h = refl
  around-bytes m (suc (suc n)) p low h =
      let e : place r p 1 ≡ p + 1 = ground arith in
      rw e (ap (λ xs. m p ∷ xs) (around-bytes m (suc n) (p + 1) (omega arith) (omega arith)))

  pub around_same :
      (m m' : Memory) (n p : ℕ)
      → r.start_ptr ≤ p
      → p < r.end_ptr
      → n ≤ r.buf_size
      → ((i : ℕ) → i < n → m' (place r p i) ≡ m (place r p i))
      → around m' r p n ≡ around m r p n
  unfolding around
  around_same m m' zero p low high h same = refl
  around_same m m' (suc n) p low high h same =
      let e : place r p 0 ≡ p = ground arith in
      let range = place_range p 1 low high (omega arith) in
      ap₂ ◌∷◌ (rw e at (same 0 (omega arith))) (
        around_same m m' n (place r p 1) range.0 range.1 (omega arith)
          (λ i k. rw (place-place p 1 i low high (omega arith)) (same (1 + i) (omega arith))))

pub length-around : (m : Memory) (r : RingBuf) (p n : ℕ) → length (around m r p n) ≡ n
unfolding around
length-around m r p zero = refl
length-around m r p (suc n) = ap suc (length-around m r (place r p 1) n)

pub length-contents : (m : Memory) (r : RingBuf) → length (contents m r) ≡ ring_buf_used r
unfolding contents
length-contents m r = length-around m r r.rd_ptr (ring_buf_used r)

pub contents_empty : (m : Memory) (r : RingBuf) → ring_buf_used r ≡ 0 → contents m r ≡ []
unfolding contents around
contents_empty m r e = rw e

-- ===== src/RingBuffer/Peek.antt =====
-- `ringBufPeek`, on the list of the bytes that the ring holds.
use rover_workspace.Prelude.{
  ℕ, ◌+◌, ◌-◌, ◌≤◌, ◌<◌, ◌≡◌, sym, ◌∙◌, ap, ◌++◌, arith, length, length-append, take, drop, leb,
  if◌then◌else◌, Bool-cases, inl, inr, not-zero, lt→not-leb,
}
use rover_workspace.Prelude.Memory.{Memory, bytes, length-bytes}
use rover_workspace.RingBuffer.{RingBuf, ring_buf_used, at_most, wraps, ring_buf_peek}
use rover_workspace.RingBuffer.Contents.{IsValid, place, around, contents}
use rover_workspace.RingBuffer.Read.{
  taken, taken-IsValid, used-taken, take-contents, drop-contents, read_bytes,
}

length-either :
    (m : Memory) (r : RingBuf) (p n : ℕ)
    → length (
        if wraps r p n
        then bytes m p (r.end_ptr - p) ++ bytes m r.start_ptr (n - (r.end_ptr - p))
        else bytes m p n)
      ≡ n
length-either m r p n = elim (Bool-cases (wraps r p n)) [
  | inl e ↦
      let more : r.end_ptr - p < n = ground arith in
      rw (e, length-append, length-bytes, length-bytes) (omega arith)
  | inr e ↦ rw e (length-bytes m p n)
]

module _ {r : RingBuf} (v : IsValid r) where
  -- The read pointer that `ringBufPeek` computes.
  peek_place :
      (offset : ℕ)
      → (if leb r.end_ptr (r.rd_ptr + offset)
          then r.rd_ptr + offset - r.buf_size
          else r.rd_ptr + offset)
        ≡ place r r.rd_ptr offset
  peek_place offset = ground arith

  -- Of a ring whose pointers are in range, `ringBufPeek` returns the `len` bytes behind the first
  -- `offset` bytes, when `len` is not 0 and the ring holds that many.
  pub peek-take :
      (m : Memory) (len offset : ℕ)
      → 0 < len
      → offset + len ≤ ring_buf_used r
      → ring_buf_peek m r len offset ≡ take len (drop offset (contents m r))
  unfolding ring_buf_peek
  peek-take m len offset some_left h =
      let r2 = taken r offset in
      let v2 = taken-IsValid v offset (omega arith) in
      let left = used-taken v offset (omega arith) in
      let n = at_most len (ring_buf_used r) in
      let all : n ≡ len = ground arith in
      let skip : at_most offset (ring_buf_used r) ≡ offset = ground arith in
      let all2 : at_most len (ring_buf_used r2) ≡ len = ground (arith, left) in
      let spec : take len (drop offset (contents m r)) ≡ around m r2 r2.rd_ptr len =
        ap (take len) (rw skip at (drop-contents v m offset))
        ∙ rw all2 at (take-contents v2 m len) in
      rw
        (
          not-zero (ring_buf_used r) (omega arith),
          lt→not-leb (ring_buf_used r) offset (omega arith),
          peek_place offset,
          all,
        )
        (read_bytes v2 m len (omega arith) ∙ sym spec)

  -- Asked for at least as much as a ring with its pointers in range holds, `ringBufPeek` returns as
  -- many bytes as the ring holds from every offset below that, also where fewer are left.
  pub length-peek :
      (m : Memory) (len offset : ℕ)
      → offset < ring_buf_used r
      → ring_buf_used r ≤ len
      → length (ring_buf_peek m r len offset) ≡ ring_buf_used r
  unfolding ring_buf_peek
  length-peek m len offset h k =
      let all : at_most len (ring_buf_used r) ≡ ring_buf_used r = ground arith in
      rw
        (
          not-zero (ring_buf_used r) (omega arith),
          lt→not-leb (ring_buf_used r) offset h,
          peek_place offset,
          all,
        )
        (length-either m r (place r r.rd_ptr offset) (ring_buf_used r))

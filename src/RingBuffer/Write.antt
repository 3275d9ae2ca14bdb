-- ===== src/RingBuffer/Write.antt =====
-- Writing to the ring: what the loop of `ringBufWrite` leaves in memory, with and without a wrap.
use rover_workspace.Prelude.{
  ℕ, zero, suc, ◌+◌, ◌-◌, ◌≤◌, ◌<◌, ◌≡◌, ◌≢◌, refl, sym, ◌∙◌, ap, ap₂, false, List, ◌++◌, ◌⊎◌, inl,
  inr, arith, length, take, drop, leb, not-zero, Bool-cases, le→leb, leb→le, not-leb→lt, lt→not-leb,
  take_all, take-append-drop, append_cancel_left, length-take, append-nil,
}
use rover_workspace.Prelude.Int.{pos, ltb_ℤ, ◌-ℤ◌}
use rover_workspace.Prelude.Memory.{
  Memory, bytes, write_bytes, write_bytes-outside, bytes-write_bytes, bytes_same,
}
use rover_workspace.RingBuffer.{
  RingBuf, ring_buf_used, ring_buf_free, write_loop, move_rd, ring_buf_write,
}
use rover_workspace.RingBuffer.Contents.{
  IsValid, place, around, contents, place-used, around-append, around-bytes, around_same,
}

-- The last round: what is left fits before the end.
loop_last :
    (fuel : ℕ) (m : Memory) (r : RingBuf) (wr : ℕ) (buf : List ℕ) (n : ℕ)
    → n ≤ fuel
    → n < r.end_ptr - wr
    → write_loop fuel m r wr buf n ≡ (write_bytes m wr (take n buf), wr + n)
unfolding write_loop write_bytes
loop_last zero m r wr buf zero enough h = ap (λ (p : ℕ). (m, p)) (omega arith)
loop_last zero m r wr buf (suc n) enough h = absurd (omega arith)
loop_last (suc fuel) m r wr buf zero enough h = ap (λ (p : ℕ). (m, p)) (omega arith)
loop_last (suc fuel) m r wr buf (suc n) enough h =
    rw (not-zero (suc n) (omega arith), lt→not-leb (r.end_ptr - wr) (suc n) h)

-- A round that reaches the end goes on at the start.
loop_wrap :
    (fuel : ℕ) (m : Memory) (r : RingBuf) (wr : ℕ) (buf : List ℕ) (n : ℕ)
    → 0 < n
    → r.end_ptr - wr ≤ n
    → write_loop (suc fuel) m r wr buf n
      ≡ write_loop fuel
          (write_bytes m wr (take (r.end_ptr - wr) buf))
          r
          r.start_ptr
          buf
          (n - (r.end_ptr - wr))
unfolding write_loop
loop_wrap fuel m r wr buf zero some_left h = absurd (omega arith)
loop_wrap fuel m r wr buf (suc n) some_left h =
    rw (not-zero (suc n) (omega arith), le→leb (r.end_ptr - wr) (suc n) h)

-- The write pointer stays in range, however long the data.
loop_range :
    (fuel : ℕ) (m : Memory) (r : RingBuf) (wr : ℕ) (buf : List ℕ) (n : ℕ)
    → r.start_ptr < r.end_ptr
    → r.start_ptr ≤ wr
    → wr < r.end_ptr
    → let p = (write_loop fuel m r wr buf n).1 in (r.start_ptr ≤ p) × (p < r.end_ptr)
unfolding write_loop
loop_range zero m r wr buf n room low high = (low, high)
loop_range (suc fuel) m r wr buf n room low high = ground (
  arith,
  loop_range fuel (write_bytes m wr (take (r.end_ptr - wr) buf)) r r.start_ptr buf
      (n - (r.end_ptr - wr)),
)

-- `ringBufWrite` keeps the pointers of a ring in range, also when it overflows.
pub write-IsValid :
    {r : RingBuf} (m : Memory) (buf : List ℕ) (n : ℕ)
    → IsValid r
    → IsValid (ring_buf_write m r buf n).ring
unfolding ring_buf_write move_rd
write-IsValid {r} m buf n v =
    let range = loop_range n m r r.wr_ptr buf n (omega arith) v.wr_low v.wr_high in
    ground (arith, v.ends, v.rd_low, v.rd_high, v.wr_low, v.wr_high, v.word, range)

-- There is no overflow exactly when the data, the word and the bytes in use fit.
free_room :
    (r : RingBuf) (n : ℕ)
    → ltb_ℤ (ring_buf_free r) (pos n) ≡ false
    → n + r.word_byte_size + ring_buf_used r ≤ r.buf_size
unfolding ring_buf_free ◌-ℤ◌
free_room r n h = ground arith

-- The bytes that reach the ring: those up to its end, and from the start of `buf` again.
abbrev pub landed : RingBuf → List ℕ → ℕ → List ℕ
landed r buf n = take (r.end_ptr - r.wr_ptr) buf ++ take (n - (r.end_ptr - r.wr_ptr)) buf

-- The loop has put `landed` behind the bytes in use, and left these alone.
record Landed (m : Memory) (r : RingBuf) (buf : List ℕ) (n : ℕ) (m' : Memory) (wr' : ℕ)
    : Type 0 where
  same : (i : ℕ) → i < ring_buf_used r → m' (place r r.rd_ptr i) ≡ m (place r r.rd_ptr i)
  fresh : around m' r r.wr_ptr n ≡ landed r buf n
  ahead : wr' ≡ place r r.wr_ptr n

bytes_back :
    (m : Memory) (p k : ℕ) (xs : List ℕ) → k ≡ length xs → bytes (write_bytes m p xs) p k ≡ xs
bytes_back m p k xs e = rw e (bytes-write_bytes m p xs)

length-take_le : (k : ℕ) (xs : List ℕ) → k ≤ length xs → k ≡ length (take k xs)
length-take_le k xs h = omega (arith, length-take k xs)

module _ {r : RingBuf} (v : IsValid r) where
  -- A byte in use does not stand in the `n` places from the write pointer on.
  used-apart :
      (n i : ℕ)
      → n + ring_buf_used r < r.buf_size
      → i < ring_buf_used r
      → let q = place r r.rd_ptr i in
        ((q < r.wr_ptr) ⊎ (r.wr_ptr + n ≤ q))
        × ((r.end_ptr - r.wr_ptr ≤ n) → r.start_ptr + (n - (r.end_ptr - r.wr_ptr)) ≤ q)
        × (q < r.end_ptr)
  unfolding ring_buf_used
  used-apart n i h k = ground (arith, v.ends)

  used-ahead :
      (n : ℕ)
      → n + ring_buf_used r < r.buf_size
      → ring_buf_used (record r { wr_ptr = place r r.wr_ptr n }) ≡ ring_buf_used r + n
  unfolding ring_buf_used
  used-ahead n h = ground (arith, v.ends)

  Landed-contents :
      (m m' : Memory) (buf : List ℕ) (n wr' : ℕ)
      → n + ring_buf_used r < r.buf_size
      → Landed m r buf n m' wr'
      → contents m' (record r { wr_ptr = wr' }) ≡ contents m r ++ landed r buf n
  unfolding contents around
  Landed-contents m m' buf n wr' h l = rw (
    l.ahead,
    used-ahead n h,
    around-append v m' (ring_buf_used r) n r.rd_ptr v.rd_low v.rd_high (omega arith),
    place-used v,
    l.fresh,
    around_same v m m' (ring_buf_used r) r.rd_ptr v.rd_low v.rd_high (omega arith) l.same,
  )

  -- The data end before the buffer does.
  Landed-short :
      (m : Memory) (buf : List ℕ) (n : ℕ)
      → n ≡ length buf
      → n + ring_buf_used r < r.buf_size
      → n < r.end_ptr - r.wr_ptr
      → Landed m r buf n (write_bytes m r.wr_ptr (take n buf)) (r.wr_ptr + n)
  Landed-short m buf n e room h =
      let whole : take n buf ≡ buf = take_all n buf (omega arith) in
      let first = r.end_ptr - r.wr_ptr in
      let nothing : n - first ≡ 0 = omega arith in
      let lands : landed r buf n ≡ buf =
        rw nothing (append-nil (take first buf) ∙ take_all first buf (omega arith)) in
      record {
        same = λ i k.
            write_bytes-outside m r.wr_ptr (take n buf) (place r r.rd_ptr i)
              (omega (arith, used-apart n i room k, length-take n buf));
        fresh =
            around-bytes v (write_bytes m r.wr_ptr (take n buf)) n r.wr_ptr v.wr_low (omega arith)
            ∙ bytes_back m r.wr_ptr n (take n buf) (length-take_le n buf (omega arith))
            ∙ whole
            ∙ sym lands;
        ahead = ground arith;
      }

  -- The data reach the end of the buffer.
  Landed-long :
      (m : Memory) (buf : List ℕ) (n : ℕ)
      → n ≡ length buf
      → n + ring_buf_used r < r.buf_size
      → r.end_ptr - r.wr_ptr ≤ n
      → let first = r.end_ptr - r.wr_ptr in
        Landed m r buf n
          (write_bytes (write_bytes m r.wr_ptr (take first buf)) r.start_ptr (take (n - first) buf))
          (r.start_ptr + (n - first))
  Landed-long m buf n e room h =
      let first = r.end_ptr - r.wr_ptr in
      let xs = take first buf in
      let ys = take (n - first) buf in
      let m1 = write_bytes m r.wr_ptr xs in
      let m2 = write_bytes m1 r.start_ptr ys in
      let size1 = length-take_le first buf (omega arith) in
      let size2 = length-take_le (n - first) buf (omega arith) in
      let split : n ≡ first + (n - first) = omega arith in
      let turn : place r r.wr_ptr first ≡ r.start_ptr = ground (arith, v.ends, v.wr_high) in
      let kept : bytes m2 r.wr_ptr first ≡ xs =
        bytes_same m1 m2 r.wr_ptr first
          (λ q a b. write_bytes-outside m1 r.start_ptr ys q (inr (omega arith)))
        ∙ bytes_back m r.wr_ptr first xs size1 in
      record {
        same = λ i k.
            let q = place r r.rd_ptr i in
            let apart = used-apart n i room k in
            write_bytes-outside m1 r.start_ptr ys q (inr (omega arith))
            ∙ write_bytes-outside m r.wr_ptr xs q (inl (omega arith));
        fresh =
            ap (around m2 r r.wr_ptr) split
            ∙ around-append v m2 first (n - first) r.wr_ptr v.wr_low v.wr_high (omega arith)
            ∙ ap₂ ◌++◌ (around-bytes v m2 first r.wr_ptr v.wr_low (omega arith) ∙ kept) (
                ap (λ p. around m2 r p (n - first)) turn
                ∙ around-bytes v m2 (n - first) r.start_ptr (omega arith) (omega arith)
                ∙ bytes_back m1 r.start_ptr (n - first) ys size2);
        ahead = ground (arith, v.ends, v.wr_high);
      }

  loop-Landed :
      (m : Memory) (buf : List ℕ) (n : ℕ)
      → n ≡ length buf
      → 0 < n
      → n + ring_buf_used r < r.buf_size
      → let (m', wr') = write_loop n m r r.wr_ptr buf n in Landed m r buf n m' wr'
  loop-Landed m buf zero e some_left room = absurd (omega arith)
  loop-Landed m buf (suc k) e some_left room =
      elim (Bool-cases (leb (r.end_ptr - r.wr_ptr) (suc k))) [
        | inl long ↦
            let h = leb→le (r.end_ptr - r.wr_ptr) (suc k) long in
            rw
              (
                loop_wrap k m r r.wr_ptr buf (suc k) some_left h,
                loop_last k (write_bytes m r.wr_ptr (take (r.end_ptr - r.wr_ptr) buf)) r r.start_ptr
                    buf (suc k - (r.end_ptr - r.wr_ptr)) (omega arith) (omega arith),
              )
              (Landed-long m buf (suc k) e room h)
        | inr short ↦
            let h = not-leb→lt (r.end_ptr - r.wr_ptr) (suc k) short in
            rw (loop_last (suc k) m r r.wr_ptr buf (suc k) (omega arith) h)
              (Landed-short m buf (suc k) e room h)
      ]

-- In a ring whose pointers are in range, a write of `n` bytes, at least one, that does not overflow
-- reports so, and puts behind the bytes in the ring the
-- first bytes of the data, up to the end of the buffer, and then, if there are more, as many bytes
-- as are missing from the start of the data again. The pointers stay in range.
pub write-landed :
    {r : RingBuf} (m : Memory) (buf : List ℕ) (n : ℕ)
    → IsValid r
    → n ≡ length buf
    → 0 < n
    → ltb_ℤ (ring_buf_free r) (pos n) ≡ false
    → let w = ring_buf_write m r buf n in
      (w.overflow ≡ false)
      × (contents w.memory w.ring ≡ contents m r ++ landed r buf n)
      × IsValid w.ring
unfolding ring_buf_write
write-landed {r} m buf n v e some_left room =
    let fits = free_room r n room in
    rw (not-zero n some_left, room)
      (
        refl,
        Landed-contents v m _ buf n _ (omega arith)
            (loop-Landed v m buf n e some_left (omega arith)),
        let range = loop_range n m r r.wr_ptr buf n (omega arith) v.wr_low v.wr_high in
            record {
              ends = v.ends;
              rd_low = v.rd_low;
              rd_high = v.rd_high;
              wr_low = range.0;
              wr_high = range.1;
              word = v.word;
            },
      )

-- In a ring whose pointers are in range, data of at least one byte that do not overflow and end before
-- the end of the buffer, or just there, are appended to the bytes in the ring.
pub write-append :
    {r : RingBuf} (m : Memory) (buf : List ℕ)
    → IsValid r
    → 0 < length buf
    → ltb_ℤ (ring_buf_free r) (pos (length buf)) ≡ false
    → length buf ≤ r.end_ptr - r.wr_ptr
    → let w = ring_buf_write m r buf (length buf) in contents w.memory w.ring ≡ contents m r ++ buf
write-append {r} m buf v some_left room h =
    let first = r.end_ptr - r.wr_ptr in
    let nothing : length buf - first ≡ 0 = omega arith in
    let lands : landed r buf (length buf) ≡ buf =
      rw nothing (append-nil (take first buf) ∙ take_all first buf h) in
    (write-landed m buf (length buf) v refl some_left room).1 ∙ ap (λ xs. contents m r ++ xs) lands

-- In a ring whose pointers are in range, data that do not overflow but go on behind the end of the
-- buffer are not appended unless what follows there is by
-- chance their own beginning: the ring then holds other bytes than were written.
pub write_wrapped :
    {r : RingBuf} (m : Memory) (buf : List ℕ)
    → IsValid r
    → ltb_ℤ (ring_buf_free r) (pos (length buf)) ≡ false
    → let first = r.end_ptr - r.wr_ptr in
      first < length buf
      → take (length buf - first) buf ≢ drop first buf
      → let w = ring_buf_write m r buf (length buf) in
        contents w.memory w.ring ≢ contents m r ++ buf
write_wrapped {r} m buf v room h differ e =
    let first = r.end_ptr - r.wr_ptr in
    let lands = (write-landed m buf (length buf) v refl (omega arith) room).1 in
    differ (
      append_cancel_left (take first buf) _ _
        (append_cancel_left (contents m r) _ _ (sym lands ∙ e) ∙ sym (take-append-drop first buf)))

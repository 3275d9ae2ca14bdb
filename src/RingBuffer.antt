-- ===== src/RingBuffer.antt =====
-- ring_buffer.c: the byte ring between serial port and parser. A pointer is an address of the one
-- memory in which the ring stands; the bytes that a caller passes in are a list, and the bytes that
-- go out through a caller's buffer are a list too. Lengths are not negative.
pub mod Search
pub mod Contents
pub mod Read
pub mod Write
pub mod Peek
mod Tests
use rover_workspace.Prelude.{
  ℕ, zero, suc, ◌+◌, ◌-◌, Bool, true, false, ◌&&◌, List, [], ◌++◌, ltb, leb, ◌==◌, if◌then◌else◌,
  take,
}
use rover_workspace.Prelude.Int.{ℤ, pos, ◌-ℤ◌, ltb_ℤ}
use rover_workspace.Prelude.Memory.{Memory, bytes, write_bytes}

-- ring_buf_t
pub record RingBuf : Type 0 where
  pub start_ptr : ℕ
  pub end_ptr : ℕ
  pub rd_ptr : ℕ
  pub wr_ptr : ℕ
  pub buf_size : ℕ
  pub word_byte_size : ℕ

unfoldable pub ring_buf_init : (buf buf_size word_byte_size : ℕ) → RingBuf
ring_buf_init buf buf_size word_byte_size = record {
  start_ptr = buf;
  end_ptr = buf + buf_size;
  rd_ptr = buf;
  wr_ptr = buf;
  buf_size = buf_size;
  word_byte_size = word_byte_size;
}

-- `wrPtr - rdPtr`, plus the size if that is negative
unfoldable pub ring_buf_used : RingBuf → ℕ
ring_buf_used r =
    if ltb r.wr_ptr r.rd_ptr then r.wr_ptr + r.buf_size - r.rd_ptr else r.wr_ptr - r.rd_ptr

unfoldable pub ring_buf_free : RingBuf → ℤ
ring_buf_free r = pos r.buf_size -ℤ pos r.word_byte_size -ℤ pos (ring_buf_used r)

-- The loop of `ringBufWrite`, for at most `fuel` rounds: the memory, and where `wrPtr` ends. Each
-- round copies from the start of `buf`.
unfoldable pub write_loop : ℕ → Memory → RingBuf → (wr : ℕ) → (buf : List ℕ) → ℕ → Memory × ℕ
write_loop zero m r wr buf num_bytes = (m, wr)
write_loop (suc fuel) m r wr buf num_bytes =
    let bytes_to_end = r.end_ptr - wr in
    let rest =
      write_loop fuel (write_bytes m wr (take bytes_to_end buf)) r r.start_ptr buf
        (num_bytes - bytes_to_end) in
    if num_bytes == 0
    then (m, wr)
    else if leb bytes_to_end num_bytes
    then rest
    else (write_bytes m wr (take num_bytes buf), wr + num_bytes)

-- What `ringBufWrite` leaves: its result (whether old bytes were lost), the memory and the ring.
pub record Wrote : Type 0 where
  pub overflow : Bool
  pub memory : Memory
  pub ring : RingBuf

-- The read pointer just past the write pointer, back at the start if that is the end.
unfoldable pub move_rd : RingBuf → RingBuf
move_rd r =
    let rd = r.wr_ptr + r.word_byte_size in
    if leb r.end_ptr rd then record r { rd_ptr = r.start_ptr } else record r { rd_ptr = rd }

unfoldable pub ring_buf_write : Memory → RingBuf → (buf : List ℕ) → (num_bytes : ℕ) → Wrote
ring_buf_write m r buf num_bytes =
    let overflow = ltb_ℤ (ring_buf_free r) (pos num_bytes) in
    let (m', wr) = write_loop num_bytes m r r.wr_ptr buf num_bytes in
    let r' : RingBuf = record r { wr_ptr = wr } in
    if num_bytes == 0
    then record { overflow = false; memory = m; ring = r }
    else record { overflow = overflow; memory = m'; ring = if overflow then move_rd r' else r' }

-- The bytes handed out (as many as the result says), and the ring.
pub record Took : Type 0 where
  pub out : List ℕ
  pub ring : RingBuf

-- `rdPtr += n`, back to the start at the end
unfoldable pub advance_rd : RingBuf → ℕ → RingBuf
advance_rd r n =
    if leb r.end_ptr (r.rd_ptr + n)
    then record r { rd_ptr = r.start_ptr }
    else record r { rd_ptr = r.rd_ptr + n }

-- `if (len < bytesToRead) bytesToRead = len;`
abbrev pub at_most : ℕ → ℕ → ℕ
at_most len n = if ltb len n then len else n

-- The used part wraps, and `n` bytes from `rd` reach behind the end.
abbrev pub wraps : RingBuf → (rd n : ℕ) → Bool
wraps r rd n = ltb r.wr_ptr rd && ltb (r.end_ptr - rd) n

unfoldable pub ring_buf_read : Memory → RingBuf → (len : ℕ) → Took
ring_buf_read m r len =
    let used = ring_buf_used r in
    let n = at_most len used in
    let bytes_read1 = r.end_ptr - r.rd_ptr in
    let bytes_read2 = n - bytes_read1 in
    if used == 0
    then record { out = []; ring = r }
    else if wraps r r.rd_ptr n
    then record {
      out = bytes m r.rd_ptr bytes_read1 ++ bytes m r.start_ptr bytes_read2;
      ring = record r { rd_ptr = r.start_ptr + bytes_read2 };
    }
    else record { out = bytes m r.rd_ptr n; ring = advance_rd r n }

unfoldable pub ring_buf_peek : Memory → RingBuf → (len offset : ℕ) → List ℕ
ring_buf_peek m r len offset =
    let used = ring_buf_used r in
    let n = at_most len used in
    let rd =
      if leb r.end_ptr (r.rd_ptr + offset)
      then r.rd_ptr + offset - r.buf_size
      else r.rd_ptr + offset in
    let bytes_read1 = r.end_ptr - rd in
    if used == 0
    then []
    else if leb used offset
    then []
    else if wraps r rd n
    then bytes m rd bytes_read1 ++ bytes m r.start_ptr (n - bytes_read1)
    else bytes m rd n

unfoldable pub ring_buf_remove : RingBuf → (len : ℕ) → ℕ × RingBuf
ring_buf_remove r len =
    let used = ring_buf_used r in
    let rd = r.rd_ptr + len in
    if used == 0
    then (0, r)
    else if leb used len
    then (used, record r { rd_ptr = r.wr_ptr })
    else (len, record r { rd_ptr = if leb r.end_ptr rd then rd - r.buf_size else rd })

unfoldable pub ring_buf_clear : RingBuf → ℕ × RingBuf
ring_buf_clear r = (ring_buf_used r, record r { rd_ptr = r.start_ptr; wr_ptr = r.start_ptr })

unfoldable pub ring_buf_empty : RingBuf → Bool
ring_buf_empty r = ring_buf_used r == 0

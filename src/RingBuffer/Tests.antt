-- ===== src/RingBuffer/Tests.antt =====
-- The ring at concrete states.
use rover_workspace.Prelude.{ℕ, ◌≡◌, ◌≢◌, refl, false, List, [], ◌∷◌, ◌++◌, arith, take, drop}
use rover_workspace.Prelude.Int.{◌-ℤ◌}
use rover_workspace.Prelude.Memory.{Memory, bytes}
use rover_workspace.RingBuffer.{
  RingBuf, ring_buf_used, ring_buf_free, ring_buf_write, ring_buf_read,
}
use rover_workspace.RingBuffer.Search.{
  ringfind_char2, ring_buf_read_to_char, ring_buf_read_to_char2,
}
use rover_workspace.RingBuffer.Contents.{IsValid, around, contents}
use rover_workspace.RingBuffer.Read.{Takes, read-Takes}
use rover_workspace.RingBuffer.Write.{landed, write-landed, write_wrapped}

-- Each address holds a number of its own.
abbrev memory : Memory
memory p = p

-- Eight places from 100 on, five bytes in use, round the end
abbrev ring : RingBuf
ring = record {
  start_ptr = 100;
  end_ptr = 108;
  rd_ptr = 105;
  wr_ptr = 102;
  buf_size = 8;
  word_byte_size = 1;
}

-- Four places before the end are free.
abbrev low_ring : RingBuf
low_ring = record ring { rd_ptr = 101; wr_ptr = 106 }

ring-IsValid : IsValid ring
ring-IsValid = record {
  ends = refl;
  rd_low = omega arith;
  rd_high = omega arith;
  wr_low = omega arith;
  wr_high = omega arith;
  word = omega arith;
}

low_ring-IsValid : IsValid low_ring
low_ring-IsValid = record {
  ends = refl;
  rd_low = omega arith;
  rd_high = omega arith;
  wr_low = omega arith;
  wr_high = omega arith;
  word = omega arith;
}

contents_test : contents memory ring ≡ 105 ∷ 106 ∷ 107 ∷ 100 ∷ 101 ∷ []
unfolding contents around ring_buf_used
contents_test = refl

read_test : (ring_buf_read memory ring 4).out ≡ 105 ∷ 106 ∷ 107 ∷ 100 ∷ []
unfolding ring_buf_read ring_buf_used bytes
read_test = refl

read_to_char_test : (ring_buf_read_to_char memory ring 9 100).out ≡ 105 ∷ 106 ∷ 107 ∷ 100 ∷ []
unfolding ring_buf_read_to_char ring_buf_read_to_char2 ringfind_char2 ring_buf_used bytes
read_to_char_test = refl

read-Takes_example : Takes memory ring 4 (ring_buf_read memory ring 4)
read-Takes_example = read-Takes memory 4 ring-IsValid

write-landed_example :
    let w = ring_buf_write memory ring (7 ∷ 8 ∷ []) 2 in
    (w.overflow ≡ false)
    × (contents w.memory w.ring ≡ contents memory ring ++ landed ring (7 ∷ 8 ∷ []) 2)
    × IsValid w.ring
unfolding ring_buf_free ring_buf_used ◌-ℤ◌
write-landed_example = write-landed memory (7 ∷ 8 ∷ []) 2 ring-IsValid refl (omega arith) refl

-- Two bytes in use before the end, so that the third byte written goes on at the start
abbrev high_ring : RingBuf
high_ring = record ring { rd_ptr = 104; wr_ptr = 106 }

high_ring-IsValid : IsValid high_ring
high_ring-IsValid = record {
  ends = refl;
  rd_low = omega arith;
  rd_high = omega arith;
  wr_low = omega arith;
  wr_high = omega arith;
  word = omega arith;
}

abbrev three : List ℕ
three = 7 ∷ 8 ∷ 9 ∷ []

head_ne : take 1 three ≢ drop 2 three
head_ne e = cc e

write_wrapped_example :
    let w = ring_buf_write memory high_ring three 3 in
    contents w.memory w.ring ≢ contents memory high_ring ++ three
unfolding ring_buf_free ring_buf_used ◌-ℤ◌
write_wrapped_example = write_wrapped memory three high_ring-IsValid refl (omega arith) head_ne

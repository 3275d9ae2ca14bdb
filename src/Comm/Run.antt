-- ===== src/Comm/Run.antt =====
-- The bytes of a connection, one after the other, and the states that an instance reaches.
use rover_workspace.Prelude.{ℕ, ◌≤◌, refl, List, [], ◌∷◌, inl, arith}
use rover_workspace.Prelude.Memory.{Memory}
use rover_workspace.Comm.{Comm}
use rover_workspace.Comm.Parse.{is_comm_init, is_comm_parse_byte_timeout}
use rover_workspace.Comm.Pointers.{InOrder}
use rover_workspace.Comm.Room.{byte-InOrder, byte-size}

-- One call of `is_comm_parse_byte_timeout` for each byte and the time when it comes in.
unfoldable pub receive : Memory → Comm → List (ℕ × ℕ) → Memory × Comm
receive m c [] = (m, c)
receive m c ((byte, time_ms) ∷ rest) =
    let r = is_comm_parse_byte_timeout m c byte time_ms in receive r.memory r.comm rest

receive-InOrder :
    (m : Memory) (c : Comm) (bytes : List (ℕ × ℕ))
    → InOrder c
    → 3 ≤ c.buf.size
    → InOrder (receive m c bytes).1
unfolding receive
receive-InOrder m c [] v size = v
receive-InOrder m c ((byte, time_ms) ∷ rest) v size =
    let r = is_comm_parse_byte_timeout m c byte time_ms in
    receive-InOrder r.memory r.comm rest (byte-InOrder m c byte time_ms v size).0
      (omega (arith, byte-size m c byte time_ms v size))

-- After `is_comm_init` with a buffer of three bytes or more, whatever bytes come in one by one at
-- whatever times, and whatever messages and errors the parser returns on the way, the pointers
-- of the receive buffer stay in order and inside the buffer.
pub init-receive-InOrder :
    (m : Memory) (c : Comm) (buffer buffer_size : ℕ) (bytes : List (ℕ × ℕ))
    → 3 ≤ buffer_size
    → let (m', c') = is_comm_init m c buffer buffer_size in InOrder (receive m' c' bytes).1
unfolding is_comm_init
init-receive-InOrder m c buffer buffer_size bytes size =
    receive-InOrder _ _ bytes
      (record {
        ends = refl;
        head_low = omega arith;
        head_scan = omega arith;
        scan_tail = omega arith;
        tail_end = omega arith;
        begun = inl refl;
      })
      size

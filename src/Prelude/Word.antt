-- ===== src/Prelude/Word.antt =====
-- Unsigned words of 8 and 32 bits as native numbers, the wrap-around written out.

use Prim.Native.Nat.{ℕ, ◌-◌, ◌*◌, ◌%◌, ◌^◌, ◌<◌}
use mathlib.Core.Path.{◌≡◌}
use native.Mathlib.Omega.{arith}

-- `(uint8_t)~x`, for `x` of 8 or 32 bits
abbrev pub not8 : ℕ → ℕ
not8 x = (2 ^ 32 - 1 - x) % 2 ^ 8

-- `x << k` of a `uint32_t`
abbrev pub shl32 : ℕ → ℕ → ℕ
shl32 x k = x * 2 ^ k % 2 ^ 32

pub not8-not8 : (x : ℕ) → x < 256 → not8 (not8 x) ≡ x
not8-not8 x h = omega arith

-- ===== src/Prelude/BitAt.antt =====
-- The bits of a number one by one: what `|`, `&`, `~` and `1 << k` do to each.
use Prim.Native.Nat.{ℕ, zero, suc, ◌-◌, ◌/◌, ◌%◌, ◌^◌, ◌<◌, min, max, bit_and, bit_or}
use mathlib.Core.Path.{◌≡◌, refl, ap, ◌∙◌}
use native.Mathlib.Nat.{pow-suc}
use native.Mathlib.Omega.{arith}
use rover_workspace.Prelude.Tests.{◌==◌, if◌then◌else◌}
use rover_workspace.Prelude.Bits.{or_halves, and_halves}

-- The bit `i` of `n`
unfoldable pub bit_at : ℕ → ℕ → ℕ
bit_at zero n = n % 2
bit_at (suc i) n = bit_at i (n / 2)

pub bit_at-lt : (i n : ℕ) → bit_at i n < 2
unfolding bit_at
bit_at-lt zero n = omega arith
bit_at-lt (suc i) n = bit_at-lt i (n / 2)

pub bit_at-or : (i a b : ℕ) → bit_at i (bit_or a b) ≡ max (bit_at i a) (bit_at i b)
unfolding bit_at
bit_at-or zero a b = omega (arith, or_halves a b)
bit_at-or (suc i) a b =
    let half : bit_or a b / 2 ≡ bit_or (a / 2) (b / 2) = omega (arith, or_halves a b) in
    ap (bit_at i) half ∙ bit_at-or i (a / 2) (b / 2)

pub bit_at-and : (i a b : ℕ) → bit_at i (bit_and a b) ≡ min (bit_at i a) (bit_at i b)
unfolding bit_at
bit_at-and zero a b = omega (arith, and_halves a b)
bit_at-and (suc i) a b =
    let half : bit_and a b / 2 ≡ bit_and (a / 2) (b / 2) = omega (arith, and_halves a b) in
    ap (bit_at i) half ∙ bit_at-and i (a / 2) (b / 2)

pub bit_at-none : (i : ℕ) → bit_at i 0 ≡ 0
unfolding bit_at
bit_at-none zero = omega arith
bit_at-none (suc i) = bit_at-none i

-- `1 << k` has the one bit `k`.
pub bit_at-power : (i k : ℕ) → bit_at i (2 ^ k) ≡ (if i == k then 1 else 0)
unfolding bit_at
bit_at-power zero zero = refl
bit_at-power (suc i) zero = bit_at-none i ∙ ground arith
bit_at-power zero (suc k) =
    let even : 2 ^ suc k % 2 ≡ 0 = omega (arith, pow-suc 2 k) in even ∙ ground arith
bit_at-power (suc i) (suc k) =
    let half : 2 ^ suc k / 2 ≡ 2 ^ k = omega (arith, pow-suc 2 k) in
    ap (bit_at i) half ∙ bit_at-power i k ∙ ground arith

-- `~x` of `w` bits has the bits that `x` has not.
pub bit_at-not : (w i x : ℕ) → i < w → x < 2 ^ w → bit_at i (2 ^ w - 1 - x) ≡ 1 - bit_at i x
unfolding bit_at
bit_at-not zero i x h k = absurd (omega arith)
bit_at-not (suc w) zero x h k = omega (arith, pow-suc 2 w)
bit_at-not (suc w) (suc i) x h k =
    let twice = pow-suc 2 w in
    let half : (2 ^ suc w - 1 - x) / 2 ≡ 2 ^ w - 1 - x / 2 = omega (arith, twice) in
    ap (bit_at i) half ∙ bit_at-not w i (x / 2) (omega arith) (omega (arith, twice))

power_positive : (w : ℕ) → 0 < 2 ^ w
power_positive zero = omega arith
power_positive (suc w) = omega (arith, pow-suc 2 w, power_positive w)

pub power-lt : (k w : ℕ) → k < w → 2 ^ k < 2 ^ w
power-lt k zero h = absurd (omega arith)
power-lt zero (suc w) h = omega (arith, pow-suc 2 w, power_positive w)
power-lt (suc k) (suc w) h = omega (arith, pow-suc 2 w, pow-suc 2 k, power-lt k w (omega arith))

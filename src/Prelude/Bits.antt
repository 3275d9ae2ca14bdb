-- ===== src/Prelude/Bits.antt =====
-- Laws of the bit operations that the packet code needs: how far they reach, the lowest bit, and
-- an or of disjoint fields as a sum.
use Prim.Native.Nat.{
  ℕ, zero, suc, ◌+◌, ◌*◌, ◌/◌, ◌%◌, ◌^◌, ◌≤◌, ◌<◌, min, max, digits, bitwise, differ, bit_and,
  bit_or, bit_xor, bit_and-bitwise, bit_or-bitwise, bit_xor-bitwise,
}
use mathlib.Core.Path.{◌≡◌, refl, sym, ◌∙◌, ap}
use mathlib.Core.Logic.{inl, inr}
use mathlib.Core.Bool.{Bool, true, false}
use native.Mathlib.Nat.{pow-suc}
use native.Mathlib.Omega.{arith}
use rover_workspace.Prelude.Tests.{if◌then◌else◌, ltb, ltb→lt, not-ltb→le, Bool-cases}

-- An operation on bits: `f` on two digits, and `z` on the rest when the first number is used up.
module _ (z : ℕ → ℕ) (f : ℕ → ℕ → ℕ) where
  one_more : (n b a : ℕ) → a ≤ n → digits z f (suc n) a b ≡ digits z f n a b
  one_more zero b zero h = refl
  one_more zero b (suc a) h = absurd (omega arith)
  one_more (suc n) b zero h = refl
  one_more (suc n) b (suc a) h = rw (one_more n (b / 2) (suc a / 2) (omega arith))

  many_more : (k n a b : ℕ) → a ≤ n → digits z f (k + n) a b ≡ digits z f n a b
  many_more zero n a b h = let e : zero + n ≡ n = omega arith in rw e
  many_more (suc k) n a b h =
      let e : suc k + n ≡ suc (k + n) = omega arith in
      rw e (one_more (k + n) b a (omega arith) ∙ many_more k n a b h)

  -- The lowest digit and the others, where `z` agrees with `f` on them.
  halves :
      ((b : ℕ) → z b ≡ 2 * z (b / 2) + f 0 (b % 2))
      → (a b : ℕ) → bitwise z f a b ≡ 2 * bitwise z f (a / 2) (b / 2) + f (a % 2) (b % 2)
  halves rest zero b = rest b
  halves rest (suc a) b =
      let half = suc a / 2 in
      let split : (k : ℕ) × (k + half ≡ a) = (a / 2, omega arith) in
      let enough : digits z f a half (b / 2) ≡ bitwise z f half (b / 2) =
        ap (λ (n : ℕ). digits z f n half (b / 2)) (sym split.1)
        ∙ many_more split.0 half half (b / 2) (omega arith) in
      omega (arith, enough)

  -- No result has more bits than the arguments have.
  reach :
      ((b : ℕ) → z b ≡ 2 * z (b / 2) + f 0 (b % 2))
      → z 0 ≡ 0
      → ((a b : ℕ) → a < 2 → b < 2 → f a b < 2)
      → (k a b : ℕ) → a < 2 ^ k
      → b < 2 ^ k
      → bitwise z f a b < 2 ^ k
  reach rest none digit zero a b p q =
      let e : a ≡ 0 = omega arith in
      let e' : b ≡ 0 = omega arith in rw (e, e') (omega (arith, none))
  reach rest none digit (suc k) a b p q =
      let twice = pow-suc 2 k in
      let low = digit (a % 2) (b % 2) (omega arith) (omega arith) in
      let high =
        reach rest none digit k (a / 2) (b / 2) (omega (arith, twice)) (omega (arith, twice)) in
      omega (arith, twice, halves rest a b, low, high)

digit_max : (a b : ℕ) → a < 2 → b < 2 → max a b < 2
digit_max a b p q = omega arith

digit_differ : (a b : ℕ) → a < 2 → b < 2 → differ a b < 2
digit_differ zero b p q = omega arith
digit_differ (suc a) zero p q = omega arith
digit_differ (suc zero) (suc zero) p q = omega arith
digit_differ (suc zero) (suc (suc b)) p q = absurd (omega arith)
digit_differ (suc (suc a)) b p q = absurd (omega arith)

differ_zero : (b : ℕ) → b < 2 → differ 0 b ≡ b
differ_zero zero p = omega arith
differ_zero (suc zero) p = omega arith
differ_zero (suc (suc b)) p = absurd (omega arith)

pub bit_or-lt : (k a b : ℕ) → a < 2 ^ k → b < 2 ^ k → bit_or a b < 2 ^ k
bit_or-lt k a b p q =
    omega
      (arith, bit_or-bitwise a b, reach (λ y. y) max (λ y. omega arith) refl digit_max k a b p q)

pub bit_xor-lt : (k a b : ℕ) → a < 2 ^ k → b < 2 ^ k → bit_xor a b < 2 ^ k
bit_xor-lt k a b p q =
    let whole =
      reach (λ y. y) differ (λ y. omega (arith, differ_zero (y % 2))) refl digit_differ k a b p q in
    omega (arith, bit_xor-bitwise a b, whole)

pub or_halves : (a b : ℕ) → bit_or a b ≡ 2 * bit_or (a / 2) (b / 2) + max (a % 2) (b % 2)
or_halves a b = omega (
  arith,
  bit_or-bitwise a b,
  bit_or-bitwise (a / 2) (b / 2),
  halves (λ y. y) max (λ y. omega arith) a b,
)

or_double : (a c : ℕ) → bit_or a (2 * c) ≡ 2 * bit_or (a / 2) c + a % 2
or_double a c = let e : 2 * c / 2 ≡ c = omega arith in omega (arith, rw e at (or_halves a (2 * c)))

pub bit_or_mod_two : (a b : ℕ) → bit_or a b % 2 ≡ max (a % 2) (b % 2)
bit_or_mod_two a b = omega (arith, or_halves a b)

-- With no second argument nothing is left.
and_nothing : (n a : ℕ) → digits (λ y. 0) min n a 0 ≡ 0
and_nothing zero a = refl
and_nothing (suc n) zero = refl
and_nothing (suc n) (suc a) = omega (arith, and_nothing n (suc a / 2))

pub bit_and-one : (a : ℕ) → bit_and a 1 ≡ a % 2
bit_and-one a =
    let rest : bitwise (λ y. 0) min (a / 2) (1 / 2) ≡ 0 = and_nothing (a / 2) (a / 2) in
    omega (arith, bit_and-bitwise a 1, halves (λ y. 0) min (λ y. omega arith) a 1, rest)

-- `a | (b << k)` is a sum where `a` fits in `k` bits.
pub bit_or-add : (k a b : ℕ) → a < 2 ^ k → bit_or a (b * 2 ^ k) ≡ a + b * 2 ^ k
bit_or-add zero a b p =
    let e : a ≡ 0 = omega arith in rw e (omega (arith, bit_or-bitwise 0 (b * 2 ^ 0)))
bit_or-add (suc k) a b p =
    let twice = pow-suc 2 k in
    let shifted : b * 2 ^ suc k ≡ 2 * (b * 2 ^ k) = omega (arith, ap (λ (t : ℕ). b * t) twice) in
    let lower = bit_or-add k (a / 2) b (omega (arith, twice)) in
    rw shifted (omega (arith, or_double a (b * 2 ^ k), lower))

-- A test that holds for each number below a bound, by trying them.
unfoldable pub holds_below : (ℕ → Bool) → ℕ → Bool
holds_below test zero = true
holds_below test (suc n) = let others = holds_below test n in if test n then others else false

pub holds_below-lt :
    (test : ℕ → Bool) (n : ℕ) → holds_below test n ≡ true → (x : ℕ) → x < n → test x ≡ true
unfolding holds_below
holds_below-lt test zero h x below = absurd (omega arith)
holds_below-lt test (suc n) h x below = elim (Bool-cases (test n)) [
  | inr lost ↦ absurd (cc (rw lost at h))
  | inl here ↦ elim (Bool-cases (ltb x n)) [
    | inl less ↦ holds_below-lt test n (rw here at h) x (ltb→lt x n less)
    | inr last ↦ let e : x ≡ n = omega (arith, not-ltb→le x n last) in rw e here
  ]
]

pub bit_and-three : (a : ℕ) → bit_and a 3 ≡ a % 4
bit_and-three a = omega (
  arith,
  bit_and-bitwise a 3,
  halves (λ y. 0) min (λ y. omega arith) a 3,
  bit_and-bitwise (a / 2) 1,
  bit_and-one (a / 2),
)

differ_nothing : (a : ℕ) → a < 2 → differ a 0 ≡ a
differ_nothing zero p = omega arith
differ_nothing (suc zero) p = omega arith
differ_nothing (suc (suc a)) p = absurd (omega arith)

xor_nothing : (n a : ℕ) → a ≤ n → digits (λ y. y) differ n a 0 ≡ a
xor_nothing zero a p = omega arith
xor_nothing (suc n) zero p = refl
xor_nothing (suc n) (suc a) p =
    omega (arith, xor_nothing n (suc a / 2) (omega arith), differ_nothing (suc a % 2) (omega arith))

pub bit_xor_zero : (a : ℕ) → bit_xor a 0 ≡ a
bit_xor_zero a = bit_xor-bitwise a 0 ∙ xor_nothing a a (omega arith)

pub and_halves : (a b : ℕ) → bit_and a b ≡ 2 * bit_and (a / 2) (b / 2) + min (a % 2) (b % 2)
and_halves a b = omega (
  arith,
  bit_and-bitwise a b,
  bit_and-bitwise (a / 2) (b / 2),
  halves (λ y. 0) min (λ y. omega arith) a b,
)

-- ===== src/DataSets/Involution.antt =====
-- `flipEndianess32` byte by byte, and twice.
use rover_workspace.Prelude.{
  ℕ, zero, suc, ◌+◌, ◌-◌, ◌*◌, ◌/◌, bit_and, ◌≤◌, ◌<◌, ◌≡◌, refl, ap, ◌∙◌, true, ◌⊎◌, inl, inr,
  arith, ◌==◌, ==_iff,
}
use native.Mathlib.Decide.{dec_le}
use rover_workspace.Prelude.Bits.{bit_and-three}
use rover_workspace.Prelude.Memory.{Memory, store}
use rover_workspace.DataSets.Flip.{flip_float, flip_words, flip_endianess32}

flip_float_at :
    (m : Memory) (p : ℕ)
    → (flip_float m p p ≡ m (p + 3))
      × (flip_float m p (p + 1) ≡ m (p + 2))
      × (flip_float m p (p + 2) ≡ m (p + 1))
      × (flip_float m p (p + 3) ≡ m p)
unfolding flip_float store
flip_float_at m p = ground arith

flip_float-outside : (m : Memory) (p q : ℕ) → (q < p) ⊎ (p + 4 ≤ q) → flip_float m p q ≡ m q
unfolding flip_float store
flip_float-outside m p q h = ground arith

flip_words-outside :
    (n : ℕ) (m : Memory) (p q : ℕ) → (q < p) ⊎ (p + 4 * n ≤ q) → flip_words n m p q ≡ m q
unfolding flip_words
flip_words-outside zero m p q h = refl
flip_words-outside (suc n) m p q h =
    flip_words-outside n (flip_float m p) (p + 4) q (ground arith)
    ∙ flip_float-outside m p q (ground arith)

-- A byte of the word at `p` changes places with the one across.
flip_float-inside : (m : Memory) (p k : ℕ) → k < 4 → flip_float m p (p + k) ≡ m (p + (3 - k))
unfolding flip_float store
flip_float-inside m p k h = ground arith

flip_words-inside :
    (n : ℕ) (m : Memory) (p i k : ℕ)
    → i < n
    → k < 4
    → flip_words n m p (p + 4 * i + k) ≡ m (p + 4 * i + (3 - k))
unfolding flip_words
flip_words-inside zero m p i k h h' = absurd (omega arith)
flip_words-inside (suc n) m p zero k h h' =
    let e : p + 4 * 0 + k ≡ p + k = omega arith in
    let e' : p + 4 * 0 + (3 - k) ≡ p + (3 - k) = omega arith in
    rw (e, e')
      (flip_words-outside n (flip_float m p) (p + 4) (p + k) (inl (omega arith))
        ∙ flip_float-inside m p k h')
flip_words-inside (suc n) m p (suc i) k h h' =
    let e : p + 4 * suc i + k ≡ p + 4 + 4 * i + k = omega arith in
    let e' : p + 4 * suc i + (3 - k) ≡ p + 4 + 4 * i + (3 - k) = omega arith in
    rw (e, e')
      (flip_words-inside n (flip_float m p) (p + 4) i k (omega arith) h'
        ∙ flip_float-outside m p (p + 4 + 4 * i + (3 - k)) (inr (omega arith)))

flip_words-twice : (n : ℕ) (m : Memory) (p q : ℕ) → flip_words n (flip_words n m p) p q ≡ m q
flip_words-twice n m p q = elim (dec_le p q) [
  | no below ↦
      let out : (q < p) ⊎ (p + 4 * n ≤ q) = inl (omega arith) in
      flip_words-outside n (flip_words n m p) p q out ∙ flip_words-outside n m p q out
  | yes above ↦ elim (dec_le (p + 4 * n) q) [
    | yes behind ↦
        let out : (q < p) ⊎ (p + 4 * n ≤ q) = inr behind in
        flip_words-outside n (flip_words n m p) p q out ∙ flip_words-outside n m p q out
    | no inside ↦
        let i = (q - p) / 4 in
        let k = (q - p) - 4 * i in
        let at : q ≡ p + 4 * i + k = omega arith in
        let back : p + 4 * i + (3 - (3 - k)) ≡ p + 4 * i + k = omega arith in
        rw at (
          flip_words-inside n (flip_words n m p) p i k (omega arith) (omega arith)
          ∙ flip_words-inside n m p i (3 - k) (omega arith) (omega arith)
          ∙ ap m back)
  ]
]

-- `flipEndianess32` twice on the same bytes leaves every byte of the memory as it was, and once it turns
-- round each word of four bytes, if the length is a multiple of four, and keeps all other bytes.
pub flip_endianess32_lem :
    (m : Memory) (p n : ℕ)
    → ((q : ℕ) → flip_endianess32 (flip_endianess32 m p (4 * n)) p (4 * n) q ≡ m q)
      × ((i k : ℕ)
          → i < n
          → k < 4
          → flip_endianess32 m p (4 * n) (p + 4 * i + k) ≡ m (p + 4 * i + (3 - k)))
      × ((q : ℕ) → (q < p) ⊎ (p + 4 * n ≤ q) → flip_endianess32 m p (4 * n) q ≡ m q)
unfolding flip_endianess32
flip_endianess32_lem m p n =
    let whole : (bit_and (4 * n) 3 == 0) ≡ true =
      (==_iff (bit_and (4 * n) 3) 0).1 (omega (arith, bit_and-three (4 * n))) in
    let words : 4 * n / 4 ≡ n = omega arith in
    rw (whole, words) (flip_words-twice n m p, flip_words-inside n m p, flip_words-outside n m p)

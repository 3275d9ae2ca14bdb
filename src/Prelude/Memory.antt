-- ===== src/Prelude/Memory.antt =====
-- Byte memory by address, as the pointers of the C code see it.
use Prim.Native.Nat.{ℕ, zero, suc, ◌+◌, ◌*◌, ◌^◌, ◌≤◌, ◌<◌}
use mathlib.Core.Path.{◌≡◌, refl, ap, ap₂, ◌∙◌}
use mathlib.Core.Logic.{◌↔◌, ◌⊎◌, inl, inr}
use mathlib.Core.List.{List, [], ◌∷◌, ◌++◌}
use native.Mathlib.Omega.{arith}
use rover_workspace.Prelude.Tests.{◌==◌, if◌then◌else◌}
use rover_workspace.Prelude.Lists.{length}

abbrev pub Memory : Type 0
Memory = ℕ → ℕ

-- `*p = v`
unfoldable pub store : Memory → ℕ → ℕ → Memory
store m p v q = if q == p then v else m q

-- The bytes from `p` on are `xs`.
abbrev pub Holds : Memory → ℕ → List ℕ → Type 0
Holds m p [] = Unit {0}
Holds m p (x ∷ xs) = (m p ≡ x) × Holds m (p + 1) xs

-- `n` bytes from `p` on
unfoldable pub bytes : Memory → ℕ → ℕ → List ℕ
bytes m p zero = []
bytes m p (suc n) = m p ∷ bytes m (p + 1) n

-- `memcpy(p, xs, length xs)` from a place outside the written range
unfoldable pub write_bytes : Memory → ℕ → List ℕ → Memory
write_bytes m p [] = m
write_bytes m p (x ∷ xs) = write_bytes (store m p x) (p + 1) xs

pub store-below : (m : Memory) (p v q : ℕ) → q < p → store m p v q ≡ m q
unfolding store
store-below m p v q h = ground arith

pub store-above : (m : Memory) (p v q : ℕ) → p < q → store m p v q ≡ m q
unfolding store
store-above m p v q h = ground arith

pub store_self : (m : Memory) (p v : ℕ) → store m p v p ≡ v
unfolding store
store_self m p v = ground arith

-- A write below a range leaves the range as it is.
pub Holds-store_below :
    (m : Memory) (p v q : ℕ) (xs : List ℕ) → p < q → Holds m q xs → Holds (store m p v) q xs
Holds-store_below m p v q [] h k = tt
Holds-store_below m p v q (x ∷ xs) h k =
    (store-above m p v q h ∙ k.0, Holds-store_below m p v (q + 1) xs (omega arith) k.1)

-- A write above a range leaves the range as it is.
pub Holds-store_above :
    (m : Memory) (p v q : ℕ) (xs : List ℕ)
    → q + length xs ≤ p
    → Holds m q xs
    → Holds (store m p v) q xs
Holds-store_above m p v q [] h k = tt
Holds-store_above m p v q (x ∷ xs) h k =
    (store-below m p v q (omega arith) ∙ k.0, Holds-store_above m p v (q + 1) xs (omega arith) k.1)

pub Holds-append :
    (m : Memory) (p q : ℕ) (xs ys : List ℕ)
    → q ≡ p + length xs
    → Holds m p (xs ++ ys) ↔ (Holds m p xs × Holds m q ys)
Holds-append m p q [] ys e =
    let e' : p ≡ q = omega arith in (λ h. (tt, rw (← e') h), λ h. rw e' h.1)
Holds-append m p q (x ∷ xs) ys e =
    let r = Holds-append m (p + 1) q xs ys (omega arith) in
    (λ h. ((h.0, (r.0 h.1).0), (r.0 h.1).1), λ h. (h.0.0, r.1 (h.0.1, h.1)))

pub bytes-eq_of_Holds :
    (m : Memory) (p : ℕ) (xs : List ℕ) → Holds m p xs → bytes m p (length xs) ≡ xs
unfolding bytes
bytes-eq_of_Holds m p [] h = refl
bytes-eq_of_Holds m p (x ∷ xs) h = ap₂ ◌∷◌ h.0 (bytes-eq_of_Holds m (p + 1) xs h.1)

-- The bytes before the written range stay.
write_bytes-below : (m : Memory) (p : ℕ) (xs : List ℕ) (q : ℕ) → q < p → write_bytes m p xs q ≡ m q
unfolding write_bytes
write_bytes-below m p [] q h = refl
write_bytes-below m p (x ∷ xs) q h =
    write_bytes-below (store m p x) (p + 1) xs q (omega arith) ∙ store-below m p x q h

-- What was written is there.
pub write_bytes-Holds : (m : Memory) (p : ℕ) (xs : List ℕ) → Holds (write_bytes m p xs) p xs
unfolding write_bytes
write_bytes-Holds m p [] = tt
write_bytes-Holds m p (x ∷ xs) = (
  write_bytes-below (store m p x) (p + 1) xs p (omega arith) ∙ store_self m p x,
  write_bytes-Holds (store m p x) (p + 1) xs,
)

-- A `uint32_t` read from memory by a little endian CPU.
abbrev pub load32 : Memory → ℕ → ℕ
load32 m p = m p + 2 ^ 8 * m (p + 1) + 2 ^ 16 * m (p + 2) + 2 ^ 24 * m (p + 3)

pub bytes-append : (m : Memory) (p a b : ℕ) → bytes m p (a + b) ≡ bytes m p a ++ bytes m (p + a) b
unfolding bytes
bytes-append m p zero b =
    let e : zero + b ≡ b = omega arith in let e' : p + zero ≡ p = omega arith in rw (e, e')
bytes-append m p (suc a) b =
    let e : suc a + b ≡ suc (a + b) = omega arith in
    let e' : p + 1 + a ≡ p + suc a = omega arith in rw (e, bytes-append m (p + 1) a b, e')

pub length-bytes : (m : Memory) (p n : ℕ) → length (bytes m p n) ≡ n
unfolding bytes
length-bytes m p zero = refl
length-bytes m p (suc n) = ap suc (length-bytes m (p + 1) n)

-- What stands before or behind the written range stays.
pub write_bytes-outside :
    (m : Memory) (p : ℕ) (xs : List ℕ) (q : ℕ)
    → (q < p) ⊎ (p + length xs ≤ q)
    → write_bytes m p xs q ≡ m q
unfolding write_bytes
write_bytes-outside m p [] q h = refl
write_bytes-outside m p (x ∷ xs) q (inl h) =
    write_bytes-outside (store m p x) (p + 1) xs q (inl (omega arith)) ∙ store-below m p x q h
write_bytes-outside m p (x ∷ xs) q (inr h) =
    write_bytes-outside (store m p x) (p + 1) xs q (inr (omega arith))
    ∙ store-above m p x q (omega arith)

-- Each byte of a copy stands at its place.
pub write_bytes-at :
    (m : Memory) (p : ℕ) (src : Memory) (i n k : ℕ)
    → k < n
    → write_bytes m p (bytes src i n) (p + k) ≡ src (i + k)
unfolding write_bytes bytes
write_bytes-at m p src i zero k h = absurd (omega arith)
write_bytes-at m p src i (suc n) zero h =
    let here : p + 0 ≡ p = omega arith in
    let first : i + 0 ≡ i = omega arith in
    rw (here, first)
      (write_bytes-below (store m p (src i)) (p + 1) (bytes src (i + 1) n) p (omega arith)
        ∙ store_self m p (src i))
write_bytes-at m p src i (suc n) (suc k) h =
    let here : p + suc k ≡ p + 1 + k = omega arith in
    let next : i + suc k ≡ i + 1 + k = omega arith in
    rw (here, next) (write_bytes-at (store m p (src i)) (p + 1) src (i + 1) n k (omega arith))

pub bytes-write_bytes :
    (m : Memory) (p : ℕ) (xs : List ℕ) → bytes (write_bytes m p xs) p (length xs) ≡ xs
bytes-write_bytes m p xs = bytes-eq_of_Holds _ p xs (write_bytes-Holds m p xs)

pub bytes_same :
    (m m' : Memory) (p n : ℕ)
    → ((q : ℕ) → p ≤ q → q < p + n → m' q ≡ m q)
    → bytes m' p n ≡ bytes m p n
unfolding bytes
bytes_same m m' p zero same = refl
bytes_same m m' p (suc n) same =
    ap₂ ◌∷◌ (same p (omega arith) (omega arith))
      (bytes_same m m' (p + 1) n (λ q a b. same q (omega arith) (omega arith)))

-- ===== src/LinkedList/Nodes.antt =====
-- linked_list.c: the sequence of nodes that a list holds.
use rover_workspace.Prelude.{
  has, Distinct, ℕ, ◌≡◌, ◌≢◌, refl, ap, ◌∙◌, ◌↔◌, true, false, ◌||◌, List, [], ◌∷◌, ◌++◌, arith,
  ◌==◌,
}
use rover_workspace.Prelude.Memory.{store}
use rover_workspace.LinkedList.{LinkedList}

-- The first of the nodes, or `a` when there is none.
abbrev pub first : List ℕ → ℕ → ℕ
first [] a = a
first (x ∷ xs) a = x

-- The last of the nodes, or `b` when there is none.
abbrev pub last : ℕ → List ℕ → ℕ
last b [] = b
last b (x ∷ xs) = last x xs

-- Each node's `prev` is the node before it, that of the first is `b`.
abbrev pub Prevs : (ℕ → ℕ) → ℕ → List ℕ → Type 0
Prevs prev b [] = Unit {0}
Prevs prev b (x ∷ xs) = (prev x ≡ b) × Prevs prev x xs

-- Each node's `nextCt` is the node behind it, that of the last is `a`.
abbrev pub Nexts : (ℕ → ℕ) → List ℕ → ℕ → Type 0
Nexts next [] a = Unit {0}
Nexts next (x ∷ xs) a = (next x ≡ first xs a) × Nexts next xs a

-- The list holds the nodes `xs` in this order, linked both ways.
pub record IsList (ll : LinkedList) (xs : List ℕ) : Type 0 where
  pub starts : ll.head ≡ first xs 0
  pub ends : ll.tail ≡ last 0 xs
  pub prevs : Prevs ll.prev 0 xs
  pub nexts : Nexts ll.next_ct xs 0
  pub distinct : Distinct xs
  pub no_null : has 0 xs ≡ false

pub has-append : (a : ℕ) (xs ys : List ℕ) → has a (xs ++ ys) ≡ (has a xs || has a ys)
has-append a [] ys = refl
has-append a (x ∷ xs) ys = ground (arith, has-append a xs ys)

pub last-append : (b : ℕ) (xs ys : List ℕ) → last b (xs ++ ys) ≡ last (last b xs) ys
last-append b [] ys = refl
last-append b (x ∷ xs) ys = last-append x xs ys

-- The last node is one of the nodes.
pub has-last : (x : ℕ) (xs : List ℕ) → has (last x xs) (x ∷ xs) ≡ true
has-last x [] = ground arith
has-last x (y ∷ xs) = ground (arith, has-last y xs)

pub store_ne : (f : ℕ → ℕ) (a v q : ℕ) → q ≢ a → store f a v q ≡ f q
unfolding store
store_ne f a v q out = ground arith

-- A node that is none of them is not the last one.
pub last-ne : (a x : ℕ) (xs : List ℕ) → has a (x ∷ xs) ≡ false → a ≢ last x xs
last-ne a x xs out e = absurd (cc (ap (λ t. has t (x ∷ xs)) e, has-last x xs, out))

module _ (prev : ℕ → ℕ) where
  pub Prevs-append :
      (b : ℕ) (xs ys : List ℕ)
      → Prevs prev b (xs ++ ys) ↔ (Prevs prev b xs × Prevs prev (last b xs) ys)
  Prevs-append b [] ys = (λ h. (tt, h), λ h. h.1)
  Prevs-append b (x ∷ xs) ys =
      let r = Prevs-append x xs ys in
      (λ h. ((h.0, (r.0 h.1).0), (r.0 h.1).1), λ h. (h.0.0, r.1 (h.0.1, h.1)))

  -- A store to another node's `prev` changes nothing for these.
  pub Prevs-store :
      (a v b : ℕ) (xs : List ℕ) → has a xs ≡ false → Prevs prev b xs → Prevs (store prev a v) b xs
  unfolding store
  Prevs-store a v b [] out h = tt
  Prevs-store a v b (x ∷ xs) out h = (ground arith, Prevs-store a v x xs (ground arith) h.1)

  -- A store to the first node's `prev` puts another node before it.
  pub Prevs-store_first :
      (b v x : ℕ) (xs : List ℕ)
      → has x xs ≡ false
      → Prevs prev b (x ∷ xs)
      → Prevs (store prev x v) v (x ∷ xs)
  unfolding store
  Prevs-store_first b v x xs out h = (ground arith, Prevs-store x v x xs out h.1)

module _ (next : ℕ → ℕ) where
  pub Nexts-append :
      (xs ys : List ℕ) (a : ℕ)
      → Nexts next (xs ++ ys) a ↔ (Nexts next xs (first ys a) × Nexts next ys a)
  Nexts-append [] ys a = (λ h. (tt, h), λ h. h.1)
  Nexts-append (x ∷ []) ys a = (λ h. ((h.0, tt), h.1), λ h. (h.0.0, h.1))
  Nexts-append (x ∷ y ∷ xs) ys a =
      let r = Nexts-append (y ∷ xs) ys a in
      (λ h. ((h.0, (r.0 h.1).0), (r.0 h.1).1), λ h. (h.0.0, r.1 (h.0.1, h.1)))

  pub Nexts-store :
      (n v : ℕ) (xs : List ℕ) (a : ℕ)
      → has n xs ≡ false
      → Nexts next xs a
      → Nexts (store next n v) xs a
  unfolding store
  Nexts-store n v [] a out h = tt
  Nexts-store n v (x ∷ xs) a out h = (ground arith, Nexts-store n v xs a (ground arith) h.1)

  -- A store to the last node's `nextCt` puts another node behind it.
  pub Nexts-store_last :
      (x v : ℕ) (xs : List ℕ) (a : ℕ)
      → Distinct (x ∷ xs)
      → Nexts next (x ∷ xs) a
      → Nexts (store next (last x xs) v) (x ∷ xs) v
  unfolding store
  Nexts-store_last x v [] a apart h = (ground arith, tt)
  Nexts-store_last x v (y ∷ xs) a apart h = (
    store_ne next (last y xs) v x (last-ne x y xs apart.0) ∙ h.0,
    Nexts-store_last y v xs a apart.1 h.1,
  )

-- A node between others is none of these.
pub Distinct-middle :
    (x : ℕ) (xs ys : List ℕ)
    → Distinct (xs ++ x ∷ ys)
    → (has x xs ≡ false) × (Distinct xs × Distinct (x ∷ ys))
Distinct-middle x [] ys apart = (refl, (tt, apart))
Distinct-middle x (z ∷ xs) ys apart =
    let (out, (left, right)) = Distinct-middle x xs ys apart.1 in
    (
      ground (arith, has-append z xs (x ∷ ys), apart.0, out),
      ((ground (arith, has-append z xs (x ∷ ys), apart.0), left), right),
    )

-- The nodes are distinct when one in the middle is left out.
pub Distinct-omit : (x : ℕ) (xs ys : List ℕ) → Distinct (xs ++ x ∷ ys) → Distinct (xs ++ ys)
Distinct-omit x [] ys apart = apart.1
Distinct-omit x (z ∷ xs) ys apart = (
  ground (arith, has-append z xs (x ∷ ys), has-append z xs ys, apart.0),
  Distinct-omit x xs ys apart.1,
)

-- The last of the nodes is not null.
pub not-null : (x : ℕ) (xs : List ℕ) → has 0 (x ∷ xs) ≡ false → (last x xs == 0) ≡ false
not-null x xs out = ground (arith, last-ne 0 x xs out)

-- The last node of the front is none of those behind it.
pub Distinct-last :
    (x : ℕ) (xs ys : List ℕ) → Distinct ((x ∷ xs) ++ ys) → has (last x xs) ys ≡ false
Distinct-last x [] ys apart = apart.0
Distinct-last x (y ∷ xs) ys apart = Distinct-last y xs ys apart.1

-- What stands behind the last node.
pub Nexts-last :
    (next : ℕ → ℕ) (x : ℕ) (xs : List ℕ) (a : ℕ) → Nexts next (x ∷ xs) a → next (last x xs) ≡ a
Nexts-last next x [] a h = h.0
Nexts-last next x (y ∷ xs) a h = Nexts-last next y xs a h.1

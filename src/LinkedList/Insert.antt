-- ===== src/LinkedList/Insert.antt =====
-- linked_list.c: what an insertion does to the sequence of nodes.
use rover_workspace.Prelude.{
  has, Distinct, ℕ, ◌≡◌, ◌≢◌, ◌↔◌, refl, ◌∙◌, sym, false, List, [], ◌∷◌, ◌++◌, arith, ◌==◌,
}
use rover_workspace.Prelude.Memory.{store}
use rover_workspace.LinkedList.{
  LinkedList, linked_list_clear, linked_list_insert_at_head, linked_list_insert_before,
}
use rover_workspace.LinkedList.Nodes.{
  first, last, Prevs, Nexts, IsList, has-append, last-append, store_ne,
}
use rover_workspace.LinkedList.Nodes

pub clear-IsList : (ll : LinkedList) → IsList (linked_list_clear ll) []
unfolding linked_list_clear
clear-IsList ll = record {
  starts = refl;
  ends = refl;
  prevs = tt;
  nexts = tt;
  distinct = tt;
  no_null = refl;
}

-- A new node put before the first of some nodes, the `prev` pointers
Prevs-insert :
    (prev : ℕ → ℕ) (b n x : ℕ) (xs : List ℕ)
    → Prevs prev b (x ∷ xs)
    → has n (x ∷ xs) ≡ false
    → has x xs ≡ false
    → Prevs (store (store prev n b) x n) b (n ∷ x ∷ xs)
unfolding store
Prevs-insert prev b n x xs h out apart = (
  ground arith,
  Nodes.Prevs-store_first _ b n x xs apart (Nodes.Prevs-store prev n b b (x ∷ xs) out h),
)

Nexts-insert :
    (next : ℕ → ℕ) (n x : ℕ) (xs : List ℕ)
    → Nexts next (x ∷ xs) 0
    → has n (x ∷ xs) ≡ false
    → Nexts (store next n x) (n ∷ x ∷ xs) 0
unfolding store
Nexts-insert next n x xs h out = (ground arith, Nodes.Nexts-store next n x (x ∷ xs) 0 out h)

-- Inserting at the head of a list that holds a node puts the new node before it.
pub insert_at_head-IsList :
    (ll : LinkedList) (n x : ℕ) (xs : List ℕ)
    → IsList ll (x ∷ xs)
    → n ≢ 0
    → has n (x ∷ xs) ≡ false
    → IsList (linked_list_insert_at_head ll n) (n ∷ x ∷ xs)
unfolding linked_list_insert_at_head store
insert_at_head-IsList ll n x xs is ne out =
    let some_head : (x == 0) ≡ false = ground (arith, is.no_null) in
    let front = Nodes.Prevs-store_first ll.prev 0 n x xs is.distinct.0 is.prevs in
    let prevs : Prevs (store (store ll.prev x n) n 0) 0 (n ∷ x ∷ xs) =
      (ground arith, Nodes.Prevs-store _ n 0 n (x ∷ xs) out front) in
    rw (is.starts, some_head)
      record {
        starts = refl;
        ends = is.ends;
        prevs = prevs;
        nexts = Nexts-insert ll.next_ct n x xs is.nexts out;
        distinct = (out, is.distinct);
        no_null = ground (arith, is.no_null);
      }

-- Distinct nodes on two sides of a place, and a new node put there.
Distinct-insert :
    (n : ℕ) (xs ys : List ℕ)
    → Distinct (xs ++ ys)
    → has n (xs ++ ys) ≡ false
    → Distinct (xs ++ n ∷ ys)
Distinct-insert n [] ys apart out = (out, apart)
Distinct-insert n (x ∷ xs) ys apart out = (
  ground (arith, has-append x xs (n ∷ ys), has-append x xs ys, apart.0),
  Distinct-insert n xs ys apart.1 (ground arith),
)

module _ (ll : LinkedList) (n x : ℕ) (xs ys : List ℕ) (is : IsList ll (xs ++ x ∷ ys)) (ne : n ≢ 0)
    (out : has n (xs ++ x ∷ ys) ≡ false) where
  parted : (has n xs ≡ false) × (has n (x ∷ ys) ≡ false)
  parted = (ground (arith, has-append n xs (x ∷ ys)), ground (arith, has-append n xs (x ∷ ys)))

  before : ll.prev x ≡ last 0 xs
  before = ((Nodes.Prevs-append ll.prev 0 xs (x ∷ ys)).0 is.prevs).1.0

  apart : (has x xs ≡ false) × (Distinct xs × Distinct (x ∷ ys))
  apart = Nodes.Distinct-middle x xs ys is.distinct

  insert_before-Prevs : Prevs (store (store ll.prev n (last 0 xs)) x n) 0 (xs ++ n ∷ x ∷ ys)
  insert_before-Prevs =
      let h = (Nodes.Prevs-append ll.prev 0 xs (x ∷ ys)).0 is.prevs in
      (Nodes.Prevs-append _ 0 xs (n ∷ x ∷ ys)).1 (
        Nodes.Prevs-store _ x n 0 xs apart.0
            (Nodes.Prevs-store ll.prev n (last 0 xs) 0 xs parted.0 h.0),
        Prevs-insert ll.prev (last 0 xs) n x ys h.1 parted.1 apart.1.1.0,
      )

  insert_before-Nexts :
      (z : ℕ) (ps : List ℕ)
      → xs ≡ z ∷ ps
      → Nexts (store (store ll.next_ct (last z ps) n) n x) (xs ++ n ∷ x ∷ ys) 0
  insert_before-Nexts z ps e =
      let h = (Nodes.Nexts-append ll.next_ct xs (x ∷ ys) 0).0 is.nexts in
      let linked : Nexts (store ll.next_ct (last z ps) n) xs n =
        rw e (Nodes.Nexts-store_last ll.next_ct z n ps x (rw e at apart.1.0) (rw e at h.0)) in
      let behind =
        Nodes.Nexts-store ll.next_ct (last z ps) n (x ∷ ys) 0
          (Nodes.Distinct-last z ps (x ∷ ys) (rw e at is.distinct)) h.1 in
      (Nodes.Nexts-append _ xs (n ∷ x ∷ ys) 0).1
        (Nodes.Nexts-store _ n x xs n parted.0 linked, Nexts-insert _ n x ys behind parted.1)

-- Inserting before a node of the list puts the new node just before it.
pub insert_before-IsList :
    (ll : LinkedList) (n x : ℕ) (xs ys : List ℕ)
    → IsList ll (xs ++ x ∷ ys)
    → n ≢ 0
    → has n (xs ++ x ∷ ys) ≡ false
    → IsList (linked_list_insert_before ll x n) (xs ++ n ∷ x ∷ ys)
unfolding linked_list_insert_before
insert_before-IsList ll n x [] ys is ne out = rw (is.prevs.0) record {
  starts = refl;
  ends = is.ends;
  prevs = insert_before-Prevs ll n x [] ys is ne out;
  nexts = Nexts-insert ll.next_ct n x ys is.nexts out;
  distinct = (out, is.distinct);
  no_null = ground (arith, is.no_null);
}
insert_before-IsList ll n x (z ∷ xs) ys is ne out =
    let b = before ll n x (z ∷ xs) ys is ne out in
    let some_prev : (last z xs == 0) ≡ false =
      Nodes.not-null z xs (ground (arith, is.no_null, has-append 0 xs (x ∷ ys))) in
    rw (b, some_prev)
      record {
        starts = is.starts;
        ends = is.ends ∙ last-append z xs (x ∷ ys) ∙ sym (last-append z xs (n ∷ x ∷ ys));
        prevs = insert_before-Prevs ll n x (z ∷ xs) ys is ne out;
        nexts = insert_before-Nexts ll n x (z ∷ xs) ys is ne out z xs refl;
        distinct = Distinct-insert n (z ∷ xs) (x ∷ ys) is.distinct out;
        no_null =
            ground (arith, is.no_null, has-append 0 xs (x ∷ ys), has-append 0 xs (n ∷ x ∷ ys));
      }

-- Inserting into an empty list makes a list of the one node exactly when the pointers of the node
-- were null before: the code does not write them.
pub insert_at_head-first :
    (ll : LinkedList) (n : ℕ)
    → IsList ll []
    → n ≢ 0
    → IsList (linked_list_insert_at_head ll n) (n ∷ []) ↔ ((ll.prev n ≡ 0) × (ll.next_ct n ≡ 0))
unfolding linked_list_insert_at_head
insert_at_head-first ll n is ne = rw (is.starts) (
  λ h. (h.prevs.0, h.nexts.0),
  λ h. record {
    starts = refl;
    ends = refl;
    prevs = (h.0, tt);
    nexts = (h.1, tt);
    distinct = (refl, tt);
    no_null = ground arith;
  },
)

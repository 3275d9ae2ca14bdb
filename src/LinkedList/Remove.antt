-- ===== src/LinkedList/Remove.antt =====
-- linked_list.c: what a removal does to the sequence of nodes.
use rover_workspace.Prelude.{
  has, Distinct, ℕ, ◌≡◌, ◌≢◌, ◌∙◌, sym, subst, false, List, [], ◌∷◌, ◌++◌, append-nil, arith, ◌==◌,
  if◌then◌else◌,
}
use rover_workspace.Prelude.Memory.{store}
use rover_workspace.LinkedList.{LinkedList, linked_list_remove, linked_list_insert_before}
use rover_workspace.LinkedList.Nodes.{
  first, last, Prevs, Nexts, IsList, has-append, last-append, store_ne,
}
use rover_workspace.LinkedList.Nodes

-- The nodes behind the one removed, or none, are linked to the node before it.
Prevs-remove :
    (prev : ℕ → ℕ) (x : ℕ) (xs ys : List ℕ)
    → Prevs prev 0 (xs ++ x ∷ ys)
    → Distinct (xs ++ x ∷ ys)
    → has 0 ys ≡ false
    → Prevs (if first ys 0 == 0 then prev else store prev (first ys 0) (last 0 xs)) 0 (xs ++ ys)
Prevs-remove prev x xs [] h apart some =
    let e = append-nil xs in rw e ((Nodes.Prevs-append prev 0 xs (x ∷ [])).0 h).0
Prevs-remove prev x xs (y ∷ ys) h apart some =
    let there : (y == 0) ≡ false = ground arith in
    let k = (Nodes.Prevs-append prev 0 xs (x ∷ y ∷ ys)).0 h in
    let omitted = Nodes.Distinct-middle y xs ys (Nodes.Distinct-omit x xs (y ∷ ys) apart) in
    rw there (
      (Nodes.Prevs-append _ 0 xs (y ∷ ys)).1 (
        Nodes.Prevs-store prev y (last 0 xs) 0 xs omitted.0 k.0,
        Nodes.Prevs-store_first prev x (last 0 xs) y ys omitted.1.1.0 k.1.1,
      ))

-- The nodes before the one removed, or none, are linked to the node behind it.
Nexts-remove :
    (next : ℕ → ℕ) (x : ℕ) (xs ys : List ℕ)
    → Nexts next (xs ++ x ∷ ys) 0
    → Distinct (xs ++ x ∷ ys)
    → has 0 xs ≡ false
    → Nexts (if last 0 xs == 0 then next else store next (last 0 xs) (first ys 0)) (xs ++ ys) 0
Nexts-remove next x [] ys h apart some = h.1
Nexts-remove next x (z ∷ xs) ys h apart some =
    let there = Nodes.not-null z xs some in
    let k = (Nodes.Nexts-append next (z ∷ xs) (x ∷ ys) 0).0 h in
    let omitted = Nodes.Distinct-omit x (z ∷ xs) ys apart in
    let front = (Nodes.Distinct-middle x (z ∷ xs) ys apart).1.0 in
    subst (λ t. Nexts (if t then next else store next (last z xs) (first ys 0)) ((z ∷ xs) ++ ys) 0)
      (sym there)
      ((Nodes.Nexts-append _ (z ∷ xs) ys 0).1 (
        Nodes.Nexts-store_last next z (first ys 0) xs x front k.0,
        Nodes.Nexts-store next (last z xs) (first ys 0) ys 0 (Nodes.Distinct-last z xs ys omitted)
            k.1.1,
      ))

head-remove :
    (x : ℕ) (xs ys : List ℕ)
    → has x xs ≡ false
    → (if first (xs ++ x ∷ ys) 0 == x then first ys 0 else first (xs ++ x ∷ ys) 0)
      ≡ first (xs ++ ys) 0
head-remove x [] ys out = ground arith
head-remove x (z ∷ xs) ys out = ground arith

tail-remove :
    (x : ℕ) (xs ys : List ℕ)
    → has x ys ≡ false
    → (if last x ys == x then last 0 xs else last x ys) ≡ last (last 0 xs) ys
tail-remove x xs [] out = ground arith
tail-remove x xs (y ∷ ys) out = ground (arith, Nodes.last-ne x y ys out)

-- Removing a node of the list takes it out of the sequence.
pub remove-IsList :
    (ll : LinkedList) (x : ℕ) (xs ys : List ℕ)
    → IsList ll (xs ++ x ∷ ys)
    → IsList (linked_list_remove ll x) (xs ++ ys)
unfolding linked_list_remove
remove-IsList ll x xs ys is =
    let p = (Nodes.Prevs-append ll.prev 0 xs (x ∷ ys)).0 is.prevs in
    let n = (Nodes.Nexts-append ll.next_ct xs (x ∷ ys) 0).0 is.nexts in
    let (out, (left, right)) = Nodes.Distinct-middle x xs ys is.distinct in
    rw (p.1.0, n.1.0)
      record {
        starts = rw (is.starts) (head-remove x xs ys out);
        ends =
            rw (is.ends, last-append 0 xs (x ∷ ys), last-append 0 xs ys)
              (tail-remove x xs ys right.0);
        prevs =
            Prevs-remove ll.prev x xs ys is.prevs is.distinct
              (ground (arith, is.no_null, has-append 0 xs (x ∷ ys)));
        nexts =
            Nexts-remove ll.next_ct x xs ys is.nexts is.distinct
              (ground (arith, is.no_null, has-append 0 xs (x ∷ ys)));
        distinct = Nodes.Distinct-omit x xs ys is.distinct;
        no_null = ground (arith, is.no_null, has-append 0 xs ys, has-append 0 xs (x ∷ ys));
      }

-- Two lists with the same ends, and the same pointers at every node but `n`
abbrev pub SameBut : ℕ → LinkedList → LinkedList → Type 0
SameBut n ll back =
    ((back.head ≡ ll.head) × (back.tail ≡ ll.tail))
    × ((a : ℕ) → a ≢ n → (back.prev a ≡ ll.prev a) × (back.next_ct a ≡ ll.next_ct a))

remove-insert_first :
    (ll : LinkedList) (n x : ℕ)
    → n ≢ 0
    → x ≢ 0
    → x ≢ n
    → ll.prev x ≡ 0
    → ll.head ≡ x
    → ll.tail ≢ n
    → SameBut n ll (linked_list_remove (linked_list_insert_before ll x n) n)
unfolding linked_list_remove linked_list_insert_before store
remove-insert_first ll n x ne some out before first other =
    ((ground arith, ground arith), λ a away. (ground arith, ground arith))

remove-insert_behind :
    (ll : LinkedList) (n x p : ℕ)
    → x ≢ 0
    → x ≢ n
    → ll.prev x ≡ p
    → p ≢ 0
    → p ≢ n
    → ll.next_ct p ≡ x
    → ll.head ≢ n
    → ll.tail ≢ n
    → SameBut n ll (linked_list_remove (linked_list_insert_before ll x n) n)
unfolding linked_list_remove linked_list_insert_before store
remove-insert_behind ll n x p some out before some_p out_p behind head tail =
    ((ground arith, ground arith), λ a away. (ground arith, ground arith))

-- Removing a node just inserted gives every other node its pointers back, and the list its ends.
pub remove-insert_before :
    (ll : LinkedList) (n x : ℕ) (xs ys : List ℕ)
    → IsList ll (xs ++ x ∷ ys)
    → n ≢ 0
    → has n (xs ++ x ∷ ys) ≡ false
    → SameBut n ll (linked_list_remove (linked_list_insert_before ll x n) n)
remove-insert_before ll n x [] ys is ne out =
    remove-insert_first ll n x ne (ground (arith, is.no_null)) (ground (arith, out)) is.prevs.0
      is.starts (λ e. Nodes.last-ne n x ys out (sym e ∙ is.ends))
remove-insert_before ll n x (z ∷ xs) ys is ne out =
    let parts = has-append n xs (x ∷ ys) in
    let nulls = has-append 0 xs (x ∷ ys) in
    remove-insert_behind ll n x (last z xs) (ground (arith, is.no_null, nulls)) (ground arith)
      ((Nodes.Prevs-append ll.prev 0 (z ∷ xs) (x ∷ ys)).0 is.prevs).1.0
      (λ e. Nodes.last-ne 0 z xs (ground (arith, is.no_null, nulls)) (sym e))
      (λ e. Nodes.last-ne n z xs (ground arith) (sym e))
      (Nodes.Nexts-last ll.next_ct z xs x
        ((Nodes.Nexts-append ll.next_ct (z ∷ xs) (x ∷ ys) 0).0 is.nexts).0)
      (ground (arith, is.starts)) (λ e. Nodes.last-ne n z (xs ++ x ∷ ys) out (sym e ∙ is.ends))

-- ===== src/LinkedList.antt =====
-- linked_list.c: a doubly linked list through the `prev` and `nextCt` pointers of its nodes. A
-- node is its address, 0 is no node, and the two pointers of all nodes are two functions of the
-- address. LL_VALIDATE_INPUT is not defined, so the arguments are not checked.
pub mod Nodes
pub mod Insert
pub mod Remove
mod Tests
use rover_workspace.Prelude.{ℕ, ◌==◌, if◌then◌else◌}
use rover_workspace.Prelude.Memory.{store}

-- `linked_list_t`, with the pointers of the nodes
pub record LinkedList : Type 0 where
  pub head : ℕ
  pub tail : ℕ
  pub prev : ℕ → ℕ
  pub next_ct : ℕ → ℕ

unfoldable pub linked_list_clear : LinkedList → LinkedList
linked_list_clear ll = record ll { head = 0; tail = 0 }

unfoldable pub linked_list_insert_at_head : LinkedList → (new_node : ℕ) → LinkedList
linked_list_insert_at_head ll new_node =
    if ll.head == 0 then record ll { head = new_node; tail = new_node } else record ll {
      head = new_node;
      prev = store (store ll.prev ll.head new_node) new_node 0;
      next_ct = store ll.next_ct new_node ll.head;
    }

unfoldable pub linked_list_insert_before : LinkedList → (node new_node : ℕ) → LinkedList
linked_list_insert_before ll node new_node =
    let prev = ll.prev node in
    if prev == 0
    then record ll {
      head = new_node;
      prev = store (store ll.prev new_node 0) node new_node;
      next_ct = store ll.next_ct new_node node;
    }
    else record ll {
      prev = store (store ll.prev new_node prev) node new_node;
      next_ct = store (store ll.next_ct prev new_node) new_node node;
    }

unfoldable pub linked_list_remove : LinkedList → (node : ℕ) → LinkedList
linked_list_remove ll node =
    let prev = ll.prev node in
    let next = ll.next_ct node in
    record {
      head = if ll.head == node then next else ll.head;
      tail = if ll.tail == node then prev else ll.tail;
      prev = if next == 0 then ll.prev else store ll.prev next prev;
      next_ct = if prev == 0 then ll.next_ct else store ll.next_ct prev next;
    }

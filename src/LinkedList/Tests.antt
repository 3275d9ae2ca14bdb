-- ===== src/LinkedList/Tests.antt =====
-- The list at concrete nodes.
use rover_workspace.Prelude.{◌≡◌, ◌↔◌, refl, [], ◌∷◌, arith, ◌==◌, if◌then◌else◌}
use rover_workspace.LinkedList.{
  LinkedList, linked_list_insert_at_head, linked_list_insert_before, linked_list_remove,
}
use rover_workspace.LinkedList.Nodes.{IsList}
use rover_workspace.LinkedList.Insert.{
  insert_at_head-IsList, insert_before-IsList, insert_at_head-first,
}
use rover_workspace.LinkedList.Remove.{SameBut, remove-IsList, remove-insert_before}

-- The nodes 10, 20 and 30, in this order
abbrev three : LinkedList
three = record {
  head = 10;
  tail = 30;
  prev = λ a. if a == 30 then 20 else if a == 20 then 10 else 0;
  next_ct = λ a. if a == 10 then 20 else if a == 20 then 30 else 0;
}

three-IsList : IsList three (10 ∷ 20 ∷ 30 ∷ [])
three-IsList = record {
  starts = refl;
  ends = refl;
  prevs = (refl, (refl, (refl, tt)));
  nexts = (refl, (refl, (refl, tt)));
  distinct = (refl, (refl, (refl, tt)));
  no_null = refl;
}

insert_at_head-IsList_example :
    IsList (linked_list_insert_at_head three 40) (40 ∷ 10 ∷ 20 ∷ 30 ∷ [])
insert_at_head-IsList_example =
    insert_at_head-IsList three 40 10 (20 ∷ 30 ∷ []) three-IsList (omega arith) refl

insert_before-IsList_example :
    IsList (linked_list_insert_before three 20 40) (10 ∷ 40 ∷ 20 ∷ 30 ∷ [])
insert_before-IsList_example =
    insert_before-IsList three 40 20 (10 ∷ []) (30 ∷ []) three-IsList (omega arith) refl

remove-IsList_example : IsList (linked_list_remove three 20) (10 ∷ 30 ∷ [])
remove-IsList_example = remove-IsList three 20 (10 ∷ []) (30 ∷ []) three-IsList

remove-insert_before_example :
    SameBut 40 three (linked_list_remove (linked_list_insert_before three 20 40) 40)
remove-insert_before_example =
    remove-insert_before three 40 20 (10 ∷ []) (30 ∷ []) three-IsList (omega arith) refl

-- Node 20 keeps its pointers from the time it was in the list.
abbrev emptied : LinkedList
emptied = record three { head = 0; tail = 0 }

emptied-IsList : IsList emptied []
emptied-IsList = record {
  starts = refl;
  ends = refl;
  prevs = tt;
  nexts = tt;
  distinct = tt;
  no_null = refl;
}

insert_at_head-first_stale :
    IsList (linked_list_insert_at_head emptied 20) (20 ∷ [])
    ↔ ((emptied.prev 20 ≡ 0) × (emptied.next_ct 20 ≡ 0))
insert_at_head-first_stale = insert_at_head-first emptied 20 emptied-IsList (omega arith)

-- ===== src/Tests/Heap.antt =====
-- The theorems on the list of the heap at a list of two nodes, with an index that is an association
-- list.
use order_forge_matching_eng.Common.{
  ℕ, ◌≡◌, refl, ap, arith, false, ◌==◌, if◌then◌else◌, Option, none, some, List, [], ◌∷◌, All,
}
use order_forge_matching_eng.PoolAllocator.{Address}
use order_forge_matching_eng.NodeList
use order_forge_matching_eng.HashLinkedList.{
  HashLinkedList, Memory, Node, remove, find, contains, size, is_empty, clear, iterate,
}
use order_forge_matching_eng.Tests.Assoc
use order_forge_matching_eng.HashLinkedList.Index.{RobinMap}
use order_forge_matching_eng.HashLinkedList.Chain.{Entry}
use order_forge_matching_eng.HashLinkedList.Invariant.{Holds, lookup, items}
use order_forge_matching_eng.HashLinkedList.Refines.{reads_of-Holds, remove-Holds, clear-Holds}
use order_forge_matching_eng.HashLinkedList.Commands.{
  Command, push_item, remove_id, all_on_heap, all_on_nodes, on_nodes, all_on_heap-Holds,
}

abbrev assoc : RobinMap
assoc = record {
  Map = List (ℕ × Address);
  empty = [];
  find = Assoc.find;
  emplace = Assoc.emplace;
  erase = Assoc.erase;
  size = Assoc.size;
  find-empty = Assoc.find-empty;
  size-empty = Assoc.size-empty;
  find-emplace = Assoc.find-emplace;
  size-emplace = Assoc.size-emplace;
  find-erase = Assoc.find-erase;
  size-erase = Assoc.size-erase;
}

-- Two nodes in the two elements of a pool.
abbrev front_place : Address
front_place = record { block = 0; index = 1 }

abbrev back_place : Address
back_place = record { block = 0; index = 0 }

abbrev list : HashLinkedList assoc
list = record {
  front = some front_place;
  back = some back_place;
  node_map = (5, front_place) ∷ (6, back_place) ∷ [];
}

abbrev cells : Address → Option (Node ℕ)
cells a =
    if a.index == 1
    then some (record { id = 5; item = 50; left = none; right = some back_place })
    else some (record { id = 6; item = 60; left = some front_place; right = none })

abbrev memory : Memory ℕ
memory = record {
  cell = cells;
  pool = record { pool_size = 4; pool_blocks = 2 ∷ []; free_list = [] };
}

abbrev nodes : List (Entry ℕ)
nodes =
    record { address = front_place; id = 5; item = 50 }
    ∷ record { address = back_place; id = 6; item = 60 }
    ∷ []

list-Holds : Holds assoc list memory nodes []
unfolding Assoc.find Assoc.size lookup
list-Holds = record {
  front = refl;
  back = refl;
  chain = (refl, (refl, tt));
  unique = (refl, (refl, tt));
  index = λ id. refl;
  size = refl;
  pool = record {
    distinct = (
      ((λ e. (let i : 1 ≡ 0 = ap (λ (a : Address). a.index) e in absurd (omega (arith, i)))), tt),
      (tt, tt),
    );
    known = (omega arith, (omega arith, tt));
  };
}

reads_example :
    (find assoc 6 (list, memory) ≡ some (NodeList.find 6 (items nodes)))
    × (contains assoc 6 list ≡ NodeList.contains 6 (items nodes))
    × (size assoc list ≡ 2)
    × (is_empty assoc list ≡ false)
    × (iterate 2 list.front memory ≡ some ((5, 50) ∷ (6, 60) ∷ []))
reads_example = reads_of-Holds assoc list memory nodes [] 6 2 list-Holds (omega arith)

remove_item_example :
    (l' : HashLinkedList assoc) × (m' : Memory ℕ) × (xs' : List (Entry ℕ)) × (remove assoc 6
        (list, memory)
      ≡ some (l', m'))
    × Holds assoc l' m' xs' []
    × (items xs' ≡ NodeList.remove 6 (items nodes))
    × All (λ b. m'.cell b ≡ memory.cell b) []
remove_item_example = remove-Holds assoc list memory nodes [] 6 list-Holds

clear_example :
    (l' : HashLinkedList assoc) × (m' : Memory ℕ) × (clear assoc 3 (list, memory) ≡ some (l', m'))
    × Holds assoc l' m' [] []
    × All (λ b. m'.cell b ≡ memory.cell b) []
clear_example = clear-Holds assoc list memory nodes [] 3 list-Holds (omega arith)

abbrev commands : List (Command ℕ)
commands = push_item 7 70 ∷ remove_id 5 ∷ push_item 5 51 ∷ remove_id 9 ∷ []

commands_example :
    (l' : HashLinkedList assoc) × (m' : Memory ℕ) × (xs' : List (Entry ℕ)) × (all_on_heap assoc 40
        commands
        (list, memory)
      ≡ some (l', m'))
    × Holds assoc l' m' xs' []
    × (items xs' ≡ all_on_nodes commands (items nodes))
    × All (λ b. m'.cell b ≡ memory.cell b) []
unfolding on_nodes NodeList.contains NodeList.remove
commands_example =
    all_on_heap-Holds assoc 40 commands list memory nodes [] (omega arith) list-Holds
      (refl, (tt, (refl, (tt, tt))))

-- ===== src/NodeList.antt =====
-- What a `HashLinkedList` of order_forge/data_types/hashed_linked_list.h holds: its nodes from
-- `front_` to `back_`, each an id and an item. The operations are those of the class as its
-- clients see them; a node is named by its id.
use order_forge_matching_eng.Common.{
  ℕ, Bool, false, ◌||◌, ◌==◌, if◌then◌else◌, Option, none, some, List, [], ◌∷◌, ◌++◌,
}

abbrev pub NodeList {ℓ} : Type ℓ → Type ℓ
NodeList T = List (ℕ × T)

module _ {ℓ} {T : Type ℓ} where
  unfoldable pub contains : ℕ → NodeList T → Bool
  contains id [] = false
  contains id ((i, _) ∷ nodes) = (i == id) || contains id nodes

  unfoldable pub find : ℕ → NodeList T → Option T
  find id [] = none
  find id ((i, item) ∷ nodes) = if i == id then some item else find id nodes

  abbrev pub push : ℕ → T → NodeList T → NodeList T
  push id item nodes = nodes ++ (id, item) ∷ []

  -- `remove(id)`, and `remove_node` at the node with this id
  unfoldable pub remove : ℕ → NodeList T → NodeList T
  remove id [] = []
  remove id ((i, item) ∷ nodes) = if i == id then nodes else (i, item) ∷ remove id nodes

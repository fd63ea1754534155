-- ===== src/HashLinkedList.antt =====
-- order_forge/data_types/hashed_linked_list.h: nodes at addresses of the pool, linked both ways, and
-- an index from ids to nodes. `none` as a pointer is `nullptr`, and `none` as the result of an
-- operation is a read through such a pointer or through one that holds no node.
pub mod Index
pub mod Chain
pub mod Invariant
pub mod Push
mod Unlink
pub mod Remove
pub mod Refines
pub mod Commands
use order_forge_matching_eng.Common.{
  ℕ, zero, suc, Bool, true, false, ◌&&◌, ◌==◌, if◌then◌else◌, Option, none, some, ◌>>=◌, List, [],
  ◌∷◌,
}
use order_forge_matching_eng.PoolAllocator.{Address, PoolAllocator, allocate, deallocate}
use Index.{RobinMap}

abbrev pub NodeTypePtr : Type 0
NodeTypePtr = Option Address

abbrev pub same_address : Address → Address → Bool
same_address a b = (a.block == b.block) && (a.index == b.index)

-- `p == q`
abbrev pub same_ptr : NodeTypePtr → NodeTypePtr → Bool
same_ptr none none = true
same_ptr (some a) (some b) = same_address a b
same_ptr _ _ = false

pub record Node (T : Type 0) : Type 0 where
  pub id : ℕ
  pub item : T
  pub left : NodeTypePtr
  pub right : NodeTypePtr

-- The memory of the nodes, and the pool that all lists of the type share.
pub record Memory (T : Type 0) : Type 0 where
  pub cell : Address → Option (Node T)
  pub pool : PoolAllocator

module _ {T : Type 0} where
  abbrev pub write :
      (Address → Option (Node T)) → Address → Option (Node T) → Address → Option (Node T)
  write cell a c b = if same_address b a then c else cell b

  abbrev pub load : Memory T → NodeTypePtr → Option (Node T)
  load m none = none
  load m (some a) = m.cell a

  -- A write through a pointer.
  abbrev pub store : NodeTypePtr → Node T → Memory T → Option (Memory T)
  store none n m = none
  store (some a) n m = some (record m { cell = write m.cell a (some n) })

  unfoldable pub set_left : NodeTypePtr → NodeTypePtr → Memory T → Option (Memory T)
  set_left p q m = do n ← load m p; store p (record n { left = q }) m

  unfoldable pub set_right : NodeTypePtr → NodeTypePtr → Memory T → Option (Memory T)
  set_right p q m = do n ← load m p; store p (record n { right = q }) m

  -- `new NodeType(id, item)`, which asks the pool for as many elements as a node has bytes.
  unfoldable pub new_node : (size : ℕ) → ℕ → T → Memory T → Option (Memory T × Address)
  new_node size id item m = do
    (pool, a) ← allocate size m.pool
    let node : Node T = record { id = id; item = item; left = none; right = none }
    some (record { cell = write m.cell a (some node); pool = pool }, a)

  unfoldable pub delete_node : NodeTypePtr → Memory T → Option (Memory T)
  delete_node none m = some m
  delete_node (some a) m = some (record { cell = write m.cell a none; pool = deallocate a m.pool })

  -- `back_->right = node_ptr; node_ptr->left = back_`
  unfoldable pub link_back : NodeTypePtr → Address → Memory T → Option (Memory T)
  link_back back a m = do m₁ ← set_right back (some a) m; set_left (some a) back m₁

  -- `node_ptr->left->right = node_ptr->right; node_ptr->right->left = node_ptr->left`
  unfoldable pub unlink : NodeTypePtr → Memory T → Option (Memory T)
  unlink p m = do
    n ← load m p
    m₁ ← set_right n.left n.right m
    n₁ ← load m₁ p
    set_left n₁.right n₁.left m₁

  -- The range-based `for` over the list from a node on: `operator*` and `operator++` up to `end()`.
  unfoldable pub iterate : (fuel : ℕ) → NodeTypePtr → Memory T → Option (List (ℕ × T))
  iterate fuel none m = some []
  iterate zero (some a) m = none
  iterate (suc fuel) (some a) m = do
    n ← load m (some a)
    rest ← iterate fuel n.right m
    some ((n.id, n.item) ∷ rest)

module _ (M : RobinMap) where
  pub record HashLinkedList : Type 0 where
    pub front : NodeTypePtr
    pub back : NodeTypePtr
    pub node_map : M.Map

  abbrev pub State : Type 0 → Type 0
  State T = HashLinkedList × Memory T

  abbrev pub hash_linked_list : HashLinkedList
  hash_linked_list = record { front = none; back = none; node_map = M.empty }

  unfoldable pub size : HashLinkedList → ℕ
  size l = M.size l.node_map

  unfoldable pub is_empty : HashLinkedList → Bool
  is_empty l = M.size l.node_map == 0

  unfoldable pub contains : ℕ → HashLinkedList → Bool
  contains id l = elim (M.find id l.node_map) [ none ↦ false | some _ ↦ true ]

  module _ {T : Type 0} where
    -- a pointer to the item, as the item that it leads to
    unfoldable pub find : ℕ → State T → Option (Option T)
    find id (l, m) = elim (M.find id l.node_map) [
      | none ↦ some none
      | some a ↦ (do n ← load m (some a); some (some n.item))
    ]

    unfoldable pub push : (bytes : ℕ) → ℕ → T → State T → Option (State T)
    push bytes id item (l, m) = do
      (m₁, a) ← new_node bytes id item m
      m₂ ← if is_empty l then some m₁ else link_back l.back a m₁
      some (
        record {
          front = if is_empty l then some a else l.front;
          back = some a;
          node_map = M.emplace id a l.node_map;
        },
        m₂,
      )

    unfoldable pub pop_front : State T → Option (State T)
    pop_front (l, m) = elim l.front [
      | none ↦ some (l, m)
      | some a ↦ (do
        n ← load m (some a)
        let l₁ = record l { front = n.right; node_map = M.erase n.id l.node_map }
        (l₂, m₂) ← elim n.right [
          | none ↦ some (record l₁ { back = none }, m)
          | some b ↦ (do m₁ ← set_left (some b) none m; some (l₁, m₁))
        ]
        m₃ ← delete_node (some a) m₂
        some (l₂, m₃))
    ]

    unfoldable pub pop_back : State T → Option (State T)
    pop_back (l, m) = elim l.back [
      | none ↦ some (l, m)
      | some a ↦ (do
        n ← load m (some a)
        let l₁ = record l { back = n.left; node_map = M.erase n.id l.node_map }
        (l₂, m₂) ← elim n.left [
          | none ↦ some (record l₁ { front = none }, m)
          | some b ↦ (do m₁ ← set_right (some b) none m; some (l₁, m₁))
        ]
        m₃ ← delete_node (some a) m₂
        some (l₂, m₃))
    ]

    unfoldable pub pop_middle : NodeTypePtr → State T → Option (State T)
    pop_middle p (l, m) = do
      n ← load m p
      m₁ ← unlink p m
      m₂ ← delete_node p m₁
      some (record l { node_map = M.erase n.id l.node_map }, m₂)

    unfoldable pub remove_node : NodeTypePtr → State T → Option (State T)
    remove_node p (l, m) =
        if same_ptr p l.front
        then pop_front (l, m)
        else if same_ptr p l.back
        then pop_back (l, m)
        else pop_middle p (l, m)

    unfoldable pub remove : ℕ → State T → Option (State T)
    remove id (l, m) = elim (M.find id l.node_map) [
      | none ↦ some (l, m)
      | some a ↦ remove_node (some a) (l, m)
    ]

    -- `while (front_) { pop_front(); }`
    unfoldable pub clear : (fuel : ℕ) → State T → Option (State T)
    clear zero s = none
    clear (suc fuel) (l, m) = elim l.front [
      | none ↦ some (l, m)
      | some _ ↦ (do s ← pop_front (l, m); clear fuel s)
    ]

-- ===== src/PriceLevel/Orders.antt =====
-- The orders that rest at a level, and what its operations do to them.
use order_forge_matching_eng.Common.{
  ℕ, ◌+◌, ◌-◌, ◌<◌, ◌≡◌, refl, false, ◌==◌, some, [], ◌∷◌, All, inl, inr, Option-cases, arith,
}
use order_forge_matching_eng.ScaledInt.{Quantity, Price, u64_mod, add_assign, sub_assign}
use order_forge_matching_eng.Enums.{Side, OrderId}
use order_forge_matching_eng.Order.{Order}
use order_forge_matching_eng.MatchingEngine.Fill.{matched_with}
use order_forge_matching_eng.NodeList.{NodeList, contains, find, push, remove}
use order_forge_matching_eng.PriceLevel.{PriceLevel, insert_order, remove_order}
use order_forge_matching_eng.PriceLevel.Queue.{open_qty, open_qty-append, rest_nodes}
use order_forge_matching_eng.PriceLevel.Fill.{IsBalanced}

-- A node of a side's level: its id and price are the order's, and it wants something.
abbrev pub IsResting : Side → Price → ℕ × Order → Type 0
IsResting side price (id, o) =
    (o.order_id ≡ id) × (o.price ≡ price) × (o.side ≡ side) × (0 < o.remaining_qty)

-- No id stands twice.
abbrev pub Distinct : NodeList Order → Type 0
Distinct [] = Unit {0}
Distinct ((id, _) ∷ nodes) = (contains id nodes ≡ false) × Distinct nodes

contains-append :
    (id i : ℕ) (o : Order) (nodes : NodeList Order)
    → contains id nodes ≡ false
    → (i == id) ≡ false
    → contains id (push i o nodes) ≡ false
unfolding contains
contains-append id i o [] h k = ground arith
contains-append id i o ((j, _) ∷ nodes) h k = ground (arith, contains-append id i o nodes)

pub Distinct-push :
    (id : ℕ) (o : Order) (nodes : NodeList Order)
    → Distinct nodes
    → contains id nodes ≡ false
    → Distinct (push id o nodes)
unfolding contains
Distinct-push id o [] d h = (refl, tt)
Distinct-push id o ((i, p) ∷ nodes) d h =
    ground (arith, Distinct-push id o nodes d.1, contains-append i id o nodes d.0)

contains-remove :
    (id i : ℕ) (nodes : NodeList Order)
    → contains id nodes ≡ false
    → contains id (remove i nodes) ≡ false
unfolding contains remove
contains-remove id i [] h = refl
contains-remove id i ((j, o) ∷ nodes) h = ground (arith, contains-remove id i nodes)

pub Distinct-remove :
    (id : ℕ) (nodes : NodeList Order) → Distinct nodes → Distinct (remove id nodes)
unfolding remove
Distinct-remove id [] d = tt
Distinct-remove id ((i, o) ∷ nodes) d =
    ground (arith, Distinct-remove id nodes d.1, contains-remove i id nodes d.0)

contains-rest_nodes :
    (id : ℕ) (q : Quantity) (nodes : NodeList Order)
    → contains id nodes ≡ false
    → contains id (rest_nodes q nodes) ≡ false
unfolding contains rest_nodes
contains-rest_nodes id q [] h = refl
contains-rest_nodes id q ((i, o) ∷ nodes) h =
    ground (arith, contains-rest_nodes id (q - o.remaining_qty) nodes)

pub Distinct-rest_nodes :
    (q : Quantity) (nodes : NodeList Order) → Distinct nodes → Distinct (rest_nodes q nodes)
unfolding rest_nodes
Distinct-rest_nodes q [] d = tt
Distinct-rest_nodes q ((id, o) ∷ nodes) d =
    ground (arith, Distinct-rest_nodes (q - o.remaining_qty) nodes d.1)

module _ (side : Side) (price : Price) where
  pub IsResting-remove :
      (id : ℕ) (nodes : NodeList Order)
      → All (IsResting side price) nodes
      → All (IsResting side price) (remove id nodes)
  unfolding remove
  IsResting-remove id [] a = tt
  IsResting-remove id ((i, o) ∷ nodes) a = ground (arith, IsResting-remove id nodes a.1)

  pub IsResting-rest_nodes :
      (q : Quantity) (nodes : NodeList Order)
      → All (IsResting side price) nodes
      → All (IsResting side price) (rest_nodes q nodes)
  unfolding rest_nodes matched_with
  IsResting-rest_nodes q [] a = tt
  IsResting-rest_nodes q ((id, o) ∷ nodes) a =
      ground (arith, IsResting-rest_nodes (q - o.remaining_qty) nodes a.1)

-- What is found is part of what the orders want, and the rest is what is left without it.
pub open_qty-remove :
    (id : ℕ) (o : Order) (nodes : NodeList Order)
    → find id nodes ≡ some o
    → open_qty nodes ≡ o.remaining_qty + open_qty (remove id nodes)
unfolding find remove open_qty
open_qty-remove id o [] h = cc
open_qty-remove id o ((i, p) ∷ nodes) h = ground (arith, open_qty-remove id o nodes)

pub IsBalanced-insert :
    (l : PriceLevel) (o : Order)
    → IsBalanced l
    → contains o.order_id l.order_cont ≡ false
    → l.total_qty + o.remaining_qty < u64_mod
    → IsBalanced (insert_order l o).0
unfolding insert_order add_assign open_qty
IsBalanced-insert l o v new fits =
    ground (arith, open_qty-append l.order_cont ((o.order_id, o) ∷ []))

pub IsBalanced-remove :
    (l : PriceLevel) (id : OrderId) → IsBalanced l → IsBalanced (remove_order l id).0
unfolding remove_order sub_assign
IsBalanced-remove l id v = elim (Option-cases (find id l.order_cont)) [
  | inl e ↦ rw (e, remove_order) v
  | inr (o, e) ↦ rw (e, remove_order) (ground (arith, open_qty-remove id o l.order_cont))
]

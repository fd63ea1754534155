-- ===== src/PriceLevel/Queue.antt =====
-- The orders of a level as a queue: which of them a crossing quantity uses up, which are left once
-- the marked nodes are removed, and which trades are made.
use order_forge_matching_eng.Common.{
  ℕ, ◌+◌, ◌-◌, ◌<◌, ◌≡◌, refl, min, leb, ◌==◌, if◌then◌else◌, List, [], ◌∷◌, ◌++◌, All, arith, ap,
}
use order_forge_matching_eng.ScaledInt.{Quantity, u64_mod}
use order_forge_matching_eng.Enums.{OrderId}
use order_forge_matching_eng.Order.{Order}
use order_forge_matching_eng.MatchingEngine.Fill.{matched_with}
use order_forge_matching_eng.NodeList.{NodeList, remove}
use order_forge_matching_eng.PriceLevel.{remove_nodes}

-- What the orders of a list still want, with no wrap-around.
unfoldable pub open_qty : NodeList Order → ℕ
open_qty [] = 0
open_qty ((_, o) ∷ nodes) = o.remaining_qty + open_qty nodes

-- The orders after a quantity has gone down the queue, oldest first.
unfoldable pub fill_nodes : Quantity → NodeList Order → NodeList Order
fill_nodes q [] = []
fill_nodes q ((id, o) ∷ nodes) =
    (id, if q == 0 then o else matched_with q o) ∷ fill_nodes (q - o.remaining_qty) nodes

abbrev pub IsWord : ℕ × Order → Type 0
IsWord (_, o) = o.remaining_qty < u64_mod

-- The ids of the orders that a quantity uses up.
unfoldable pub filled_ids : Quantity → NodeList Order → List OrderId
filled_ids q [] = []
filled_ids q ((id, o) ∷ nodes) =
    let rest = filled_ids (q - o.remaining_qty) nodes in
    if q == 0 then [] else if leb o.remaining_qty q then id ∷ rest else []

-- The orders that are left: a prefix is gone, and the first of the others may be reduced.
unfoldable pub rest_nodes : Quantity → NodeList Order → NodeList Order
rest_nodes q [] = []
rest_nodes q ((id, o) ∷ nodes) =
    let rest = rest_nodes (q - o.remaining_qty) nodes in
    if q == 0
    then (id, o) ∷ nodes
    else if leb o.remaining_qty q
    then rest
    else (id, matched_with q o) ∷ nodes

-- Each order that is met, and how much of it is taken.
unfoldable pub fills : Quantity → NodeList Order → List (Order × Quantity)
fills q [] = []
fills q ((_, o) ∷ nodes) =
    let rest = fills (q - o.remaining_qty) nodes in
    if q == 0 then [] else (o, min o.remaining_qty q) ∷ rest

unfoldable pub taken : List (Order × Quantity) → ℕ
taken [] = 0
taken ((_, n) ∷ fs) = n + taken fs

fill_nodes-zero : (nodes : NodeList Order) → fill_nodes 0 nodes ≡ nodes
unfolding fill_nodes
fill_nodes-zero [] = refl
fill_nodes-zero ((id, o) ∷ nodes) = ground (arith, fill_nodes-zero nodes)

pub rest_nodes-zero : (nodes : NodeList Order) → rest_nodes 0 nodes ≡ nodes
unfolding rest_nodes
rest_nodes-zero [] = refl
rest_nodes-zero ((id, o) ∷ nodes) = refl

pub filled_ids-zero : (nodes : NodeList Order) → filled_ids 0 nodes ≡ []
unfolding filled_ids
filled_ids-zero [] = refl
filled_ids-zero ((id, o) ∷ nodes) = refl

-- The sweep of the marked nodes leaves the rest of the queue.
pub remove_nodes-fill_nodes :
    (q : Quantity) (nodes : NodeList Order)
    → remove_nodes (filled_ids q nodes) (fill_nodes q nodes) ≡ rest_nodes q nodes
unfolding remove_nodes filled_ids fill_nodes rest_nodes remove
remove_nodes-fill_nodes q [] = refl
remove_nodes-fill_nodes q ((id, o) ∷ nodes) =
    ground (arith, remove_nodes-fill_nodes (q - o.remaining_qty) nodes, fill_nodes-zero nodes)

pub open_qty-rest_nodes :
    (q : Quantity) (nodes : NodeList Order) → open_qty (rest_nodes q nodes) ≡ open_qty nodes - q
unfolding open_qty rest_nodes matched_with
open_qty-rest_nodes q [] = omega arith
open_qty-rest_nodes q ((id, o) ∷ nodes) =
    ground (arith, open_qty-rest_nodes (q - o.remaining_qty) nodes)

pub taken-fills :
    (q : Quantity) (nodes : NodeList Order) → taken (fills q nodes) ≡ min q (open_qty nodes)
unfolding open_qty fills taken
taken-fills q [] = omega arith
taken-fills q ((id, o) ∷ nodes) = ground (arith, taken-fills (q - o.remaining_qty) nodes)

pub All-IsWord : (nodes : NodeList Order) → open_qty nodes < u64_mod → All IsWord nodes
unfolding open_qty
All-IsWord [] h = tt
All-IsWord ((id, o) ∷ nodes) h = (omega arith, All-IsWord nodes (omega arith))

-- Two queues, one behind the other.
pub open_qty-append : (xs ys : NodeList Order) → open_qty (xs ++ ys) ≡ open_qty xs + open_qty ys
unfolding open_qty
open_qty-append [] ys = omega arith
open_qty-append ((id, o) ∷ xs) ys = omega (arith, open_qty-append xs ys)

pub fills-zero : (nodes : NodeList Order) → fills 0 nodes ≡ []
unfolding fills
fills-zero [] = refl
fills-zero ((id, o) ∷ nodes) = refl

pub fills-append :
    (q : Quantity) (xs ys : NodeList Order)
    → fills q (xs ++ ys) ≡ fills q xs ++ fills (q - open_qty xs) ys
unfolding fills open_qty
fills-append q [] ys = ap (λ (n : ℕ). fills n ys) (omega arith)
fills-append q ((id, o) ∷ xs) ys = ground (
  arith,
  fills-append (q - o.remaining_qty) xs ys,
  ap (λ (n : ℕ). fills n ys)
      (let e : q - o.remaining_qty - open_qty xs ≡ q - (o.remaining_qty + open_qty xs) =
          omega arith in
        e),
  fills-zero ys,
)

pub rest_nodes-append :
    (q : Quantity) (xs ys : NodeList Order)
    → rest_nodes q (xs ++ ys) ≡ rest_nodes q xs ++ rest_nodes (q - open_qty xs) ys
unfolding rest_nodes open_qty
rest_nodes-append q [] ys = ap (λ (n : ℕ). rest_nodes n ys) (omega arith)
rest_nodes-append q ((id, o) ∷ xs) ys =
    ground (arith, rest_nodes-append (q - o.remaining_qty) xs ys, rest_nodes-zero ys)

-- ===== src/BookSide/Queue.antt =====
-- Price-time priority: to match a side is to take the quantity down one queue, the orders of the
-- best level first and within a level the oldest first.
use order_forge_matching_eng.Common.{
  ℕ, ◌-◌, ◌≤◌, ◌<◌, ◌≡◌, refl, [], ◌∷◌, ◌++◌, All, All-append_left, All-append_right, arith,
}
use order_forge_matching_eng.ScaledInt.{Quantity}
use order_forge_matching_eng.Order.{Order}
use order_forge_matching_eng.NodeList.{NodeList}
use order_forge_matching_eng.PriceLevel.Queue.{
  open_qty, rest_nodes, rest_nodes-zero, rest_nodes-append,
}
use order_forge_matching_eng.PriceLevel.Fill.{matched_level}
use order_forge_matching_eng.OrderBookData.{OrderBookContainer}
use order_forge_matching_eng.BookSide.Match.{all_nodes, IsLevel}
use order_forge_matching_eng.BookSide.Sweep.{match_cont}

-- The order still wants something.
abbrev pub IsLive : ℕ × Order → Type 0
IsLive (_, o) = 0 < o.remaining_qty

-- A quantity that covers a queue of live orders leaves none of them.
rest_nodes-covered :
    (q : Quantity) (nodes : NodeList Order)
    → All IsLive nodes
    → open_qty nodes ≤ q
    → rest_nodes q nodes ≡ []
unfolding rest_nodes open_qty
rest_nodes-covered q [] vs h = refl
rest_nodes-covered q ((id, o) ∷ nodes) vs h =
    ground (arith, rest_nodes-covered (q - o.remaining_qty) nodes vs.1)

rest_nodes-nil : (q : Quantity) → rest_nodes q [] ≡ []
unfolding rest_nodes
rest_nodes-nil q = refl

pub all_nodes-match_cont :
    (q : Quantity) (cont : OrderBookContainer)
    → All IsLevel cont
    → All IsLive (all_nodes cont)
    → all_nodes (match_cont q cont) ≡ rest_nodes q (all_nodes cont)
unfolding all_nodes match_cont matched_level
all_nodes-match_cont q [] ls vs = ground (arith, rest_nodes-nil q)
all_nodes-match_cont q ((p, l) ∷ rest) ls vs = ground (
  arith,
  rest_nodes-zero (l.order_cont ++ all_nodes rest),
  rest_nodes-append q l.order_cont (all_nodes rest),
  rest_nodes-covered q l.order_cont (All-append_left _ l.order_cont (all_nodes rest) vs),
  rest_nodes-zero (all_nodes rest),
  all_nodes-match_cont (q - l.total_qty) rest ls.1
      (All-append_right _ l.order_cont (all_nodes rest) vs),
)

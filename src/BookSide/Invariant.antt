-- ===== src/BookSide/Invariant.antt =====
-- What holds of a side between calls, and that a match and the sweep after it keep it.
use order_forge_matching_eng.Common.{◌-◌, ◌<◌, ◌≡◌, [], ◌∷◌, All, All-append, All-mono, arith}
use order_forge_matching_eng.ScaledInt.{Quantity, Price}
use order_forge_matching_eng.Enums.{Side}
use order_forge_matching_eng.PriceLevel.{PriceLevel}
use order_forge_matching_eng.PriceLevel.Fill.{matched_level, matched_level-IsBalanced}
use order_forge_matching_eng.PriceLevel.Orders.{
  IsResting, IsResting-rest_nodes, Distinct, Distinct-rest_nodes,
}
use order_forge_matching_eng.OrderBookData.{CompFunc, OrderBookContainer}
use order_forge_matching_eng.OrderBookData.Sorted.{Sorted}
use order_forge_matching_eng.BookSide.{BookSide}
use order_forge_matching_eng.BookSide.Match.{all_nodes, IsLevel}
use order_forge_matching_eng.BookSide.Sweep.{match_cont, with_levels, match_cont-Sorted}
use order_forge_matching_eng.BookSide.Queue.{IsLive}
use order_forge_matching_eng.BookSide.Fill.{IsSide, cont_of}

-- A level that is not empty, and whose orders are of this side, at its price, under distinct ids.
abbrev pub IsEntry : Side → Price × PriceLevel → Type 0
IsEntry side (p, l) =
    IsLevel (p, l) × All (IsResting side p) l.order_cont × Distinct l.order_cont × (0 < l.total_qty)

pub record SideInv (c : CompFunc) (side : Side) (b : BookSide) : Type 0 where
  pub is_side : b.side ≡ side
  pub sorted : Sorted c (cont_of b)
  pub entries : All (IsEntry side) (cont_of b)

pub IsSide-SideInv : (c : CompFunc) (side : Side) (b : BookSide) → SideInv c side b → IsSide c b
IsSide-SideInv c side b v = record {
  sorted = v.sorted;
  levels = All-mono _ _ (cont_of b) (λ e h. h.0) v.entries;
}

pub IsLive-entries :
    (side : Side) (cont : OrderBookContainer)
    → All (IsEntry side) cont
    → All IsLive (all_nodes cont)
unfolding all_nodes
IsLive-entries side [] vs = tt
IsLive-entries side ((p, l) ∷ rest) vs =
    All-append IsLive l.order_cont (all_nodes rest)
      (All-mono (IsResting side p) IsLive l.order_cont (λ n h. h.3) vs.0.1)
      (IsLive-entries side rest vs.1)

matched_level-IsEntry :
    (side : Side) (p : Price) (q : Quantity) (l : PriceLevel)
    → IsEntry side (p, l)
    → q < l.total_qty
    → IsEntry side (p, matched_level q l)
unfolding matched_level
matched_level-IsEntry side p q l v h = (
  (v.0.0, matched_level-IsBalanced q l v.0.1),
  IsResting-rest_nodes side p q l.order_cont v.1,
  Distinct-rest_nodes q l.order_cont v.2,
  omega arith,
)

match_cont-entries :
    (side : Side) (q : Quantity) (cont : OrderBookContainer)
    → All (IsEntry side) cont
    → All (IsEntry side) (match_cont q cont)
unfolding match_cont
match_cont-entries side q [] vs = tt
match_cont-entries side q ((p, l) ∷ rest) vs = ground (
  arith,
  match_cont-entries side (q - l.total_qty) rest vs.1,
  matched_level-IsEntry side p q l vs.0,
)

pub match_cont-SideInv :
    (c : CompFunc) (side : Side) (q : Quantity) (b : BookSide)
    → SideInv c side b
    → SideInv c side (with_levels (match_cont q (cont_of b)) b)
match_cont-SideInv c side q b v = record {
  is_side = v.is_side;
  sorted = match_cont-Sorted c q (cont_of b) v.sorted;
  entries = match_cont-entries side q (cont_of b) v.entries;
}

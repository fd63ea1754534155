-- ===== src/OrderBook/LeftOver.antt =====
-- What a match leaves of the crossing order, and of the side that it might then rest on.
use order_forge_matching_eng.Common.{
  ◌-◌, ◌≤◌, ◌<◌, ◌≡◌, ◌⊎◌, refl, true, false, inl, inr, Bool-cases, [], ◌∷◌, arith,
}
use order_forge_matching_eng.ScaledInt.{u64_mod}
use order_forge_matching_eng.Enums.{buy, sell, is_filled}
use order_forge_matching_eng.Order.{Order, is_buy}
use order_forge_matching_eng.MatchingEngine.Fill.{matched_with}
use order_forge_matching_eng.NodeList.{NodeList}
use order_forge_matching_eng.PriceLevel.Queue.{open_qty}
use order_forge_matching_eng.PriceLevel.Trace.{crossed}
use order_forge_matching_eng.BookSide.Fill.{cont_of}
use order_forge_matching_eng.OrderBook.{OrderBook, is_crossing_order}
use order_forge_matching_eng.OrderBook.Invariant.{Inv}
use order_forge_matching_eng.OrderBook.Match.{opposite, opposite_queue, matched_book}
use order_forge_matching_eng.OrderBook.Trading.{match_cont-nil}
use order_forge_matching_eng.OrderBook.Resting.{own_side, IsAdmissible}

-- A crossing order meets a queue: its other fields stay, and if it is not filled it has outlasted
-- the queue.
pub crossed_lem :
    (o : Order) (nodes : NodeList Order)
    → 0 < o.remaining_qty
    → let x = crossed o nodes in
      (x.remaining_qty ≡ o.remaining_qty - open_qty nodes)
      × (x.order_id ≡ o.order_id)
      × (x.side ≡ o.side)
      × ((is_filled x.status ≡ true) ⊎ (open_qty nodes < o.remaining_qty))
unfolding crossed matched_with open_qty
crossed_lem o [] h = (omega arith, refl, refl, inr h)
crossed_lem o ((i, p) ∷ nodes) h = ground arith

pub remaining_qty-lt : (b : OrderBook) (o : Order) → IsAdmissible b o → o.remaining_qty < u64_mod
remaining_qty-lt b o n = omega (arith, n.fits)

-- A match leaves the order's own side and the map as they were.
pub matched_book-own :
    (b : OrderBook) (o : Order)
    → (own_side (matched_book b o) o ≡ own_side b o)
      × ((matched_book b o).orders_id_map ≡ b.orders_id_map)
unfolding matched_book
matched_book-own b o = ground arith

is_buy_of_side : (o x : Order) → x.side ≡ o.side → is_buy x ≡ is_buy o
is_buy_of_side o x e = rw e refl

-- A match does not touch the order's own side, nor the map.
pub IsAdmissible-matched_book :
    (b : OrderBook) (o x : Order)
    → IsAdmissible b o
    → 0 < x.remaining_qty
    → x.remaining_qty ≤ o.remaining_qty
    → x.order_id ≡ o.order_id
    → x.side ≡ o.side
    → IsAdmissible (matched_book b o) x
IsAdmissible-matched_book b o x n positive le ids side =
    let (own, known) = matched_book-own b o in
    let same : own_side (matched_book b o) x ≡ own_side b o =
      rw (is_buy_of_side o x side, own) refl in
    record {
      positive = positive;
      named = rw ids n.named;
      unknown = rw (ids, known) n.unknown;
      fits = rw same (omega (arith, n.fits));
    }

pub uncrossed_of_nil :
    (b : OrderBook) (x : Order) → cont_of (opposite b x) ≡ [] → is_crossing_order b x ≡ false
unfolding is_crossing_order
uncrossed_of_nil b x h = ground arith

pub nil_of_outlasted :
    (b : OrderBook) (o x : Order)
    → Inv b
    → open_qty (opposite_queue b o) < o.remaining_qty
    → x.side ≡ o.side
    → cont_of (opposite (matched_book b o) x) ≡ []
unfolding matched_book
nil_of_outlasted b o x v h side = elim (Bool-cases (is_buy o)) [
  | inl buys ↦ ground (
    arith,
    is_buy_of_side o x side,
    match_cont-nil sell o.remaining_qty (cont_of b.asks) v.asks.entries,
  )
  | inr sells ↦ ground (
    arith,
    is_buy_of_side o x side,
    match_cont-nil buy o.remaining_qty (cont_of b.bids) v.bids.entries,
  )
]

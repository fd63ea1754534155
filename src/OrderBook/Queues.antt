-- ===== src/OrderBook/Queues.antt =====
-- The queues that the levels of a book stand for, and what the book's steps do to them.
use order_forge_matching_eng.Common.{
  ◌<◌, ◌≡◌, refl, ap, true, false, inl, inr, Bool-cases, Bool, not, ◌&&◌, ◌||◌, [], ◌∷◌, ◌++◌, All,
  arith,
}
use order_forge_matching_eng.ScaledInt.{Price}
use order_forge_matching_eng.Enums.{Side, buy, sell}
use order_forge_matching_eng.Order.{Order, is_buy}
use order_forge_matching_eng.NodeList.{NodeList}
use order_forge_matching_eng.PriceLevel.Queue.{open_qty}
use order_forge_matching_eng.OrderBookData.{OrderBookContainer}
use order_forge_matching_eng.Enums.{is_filled}
use order_forge_matching_eng.Common.Int.{leb_ℤ}
use order_forge_matching_eng.PriceLevel.Trace.{crossed}
use order_forge_matching_eng.PriceLevel.Orders.{IsResting}
use order_forge_matching_eng.BookSide.{BookSide, empty}
use order_forge_matching_eng.BookSide.Match.{all_nodes}
use order_forge_matching_eng.BookSide.Queue.{all_nodes-match_cont}
use order_forge_matching_eng.BookSide.Fill.{cont_of}
use order_forge_matching_eng.BookSide.Invariant.{IsEntry, IsSide-SideInv, IsLive-entries}
use order_forge_matching_eng.BookSide.Rest.{all_nodes-added}
use order_forge_matching_eng.OrderBook.{OrderBook, is_crossing_order}
use order_forge_matching_eng.OrderBook.Sides.{less, greater}
use order_forge_matching_eng.OrderBook.Match.{opposite_queue, matched_book}
use order_forge_matching_eng.OrderBook.Invariant.{Inv, absent_of_unknown}
use order_forge_matching_eng.OrderBook.Resting.{IsAdmissible, rested}
use order_forge_matching_eng.OrderBook.Spec.{
  Queues, opposite_orders, first_is, is_nil, meets, spec_match, spec_rest,
}

abbrev pub queues : OrderBook → Queues
queues b = record { bids = all_nodes (cont_of b.bids); asks = all_nodes (cont_of b.asks) }

-- The first order stands at the best price.
first_price :
    (side : Side) (accept : Price → Bool) (k : Price) (nodes rest : NodeList Order)
    → All (IsResting side k) nodes
    → 0 < open_qty nodes
    → (first_is accept (nodes ++ rest) ≡ accept k) × (is_nil (nodes ++ rest) ≡ false)
unfolding open_qty first_is is_nil
first_price side accept k [] rest a h = absurd (omega arith)
first_price side accept k ((i, o) ∷ nodes) rest a h = (ap accept a.0.1, refl)

abbrev best_is : (Price → Bool) → OrderBookContainer → Bool
best_is accept cont = elim cont [ [] ↦ false | e ∷ _ ↦ accept e.0 ]

first_is-all_nodes :
    (side : Side) (accept : Price → Bool) (cont : OrderBookContainer)
    → All (IsEntry side) cont
    → first_is accept (all_nodes cont) ≡ best_is accept cont
unfolding all_nodes first_is
first_is-all_nodes side accept [] vs = refl
first_is-all_nodes side accept ((k, l) ∷ rest) vs =
    (first_price side accept k l.order_cont (all_nodes rest) vs.0.1
      (omega (arith, vs.0.0.1.total))).0

is_nil-all_nodes :
    (side : Side) (b : BookSide)
    → All (IsEntry side) (cont_of b)
    → is_nil (all_nodes (cont_of b)) ≡ empty b
unfolding all_nodes is_nil
is_nil-all_nodes side b vs = go (cont_of b) vs
  where
    go :
        (cont : OrderBookContainer)
        → All (IsEntry side) cont
        → is_nil (all_nodes cont) ≡ elim cont [ [] ↦ true | _ ∷ _ ↦ false ]
    go [] vs = refl
    go ((k, l) ∷ rest) vs =
        (first_price side (λ _. true) k l.order_cont (all_nodes rest) vs.0.1
          (omega (arith, vs.0.0.1.total))).1

-- The test on the best level is the test on the first order.
pub meets-queues : (b : OrderBook) (o : Order) → Inv b → meets (queues b) o ≡ is_crossing_order b o
unfolding meets is_crossing_order
meets-queues b o v = elim (Bool-cases (is_buy o)) [
  | inl buys ↦
      ground (
        arith,
        buys,
        first_is-all_nodes sell (λ p. leb_ℤ p o.price) (cont_of b.asks) v.asks.entries,
      )
  | inr sells ↦
      ground (
        arith,
        sells,
        first_is-all_nodes buy (λ p. leb_ℤ o.price p) (cont_of b.bids) v.bids.entries,
      )
]

pub is_nil-queues :
    (b : OrderBook) (o : Order)
    → Inv b
    → ((is_buy o && empty b.asks) || (not (is_buy o) && empty b.bids))
      ≡ is_nil (opposite_orders (queues b) o)
is_nil-queues b o v =
    ground (
      arith,
      is_nil-all_nodes sell b.asks v.asks.entries,
      is_nil-all_nodes buy b.bids v.bids.entries,
    )

pub spec_match-queues :
    (b : OrderBook) (o : Order)
    → Inv b
    → spec_match (queues b) o ≡ (queues (matched_book b o), crossed o (opposite_queue b o))
unfolding spec_match matched_book
spec_match-queues b o v = elim (Bool-cases (is_buy o)) [
  | inl buys ↦ ground (
    arith,
    buys,
    all_nodes-match_cont o.remaining_qty (cont_of b.asks)
        (IsSide-SideInv less sell b.asks v.asks).levels
        (IsLive-entries sell (cont_of b.asks) v.asks.entries),
  )
  | inr sells ↦ ground (
    arith,
    sells,
    all_nodes-match_cont o.remaining_qty (cont_of b.bids)
        (IsSide-SideInv greater buy b.bids v.bids).levels
        (IsLive-entries buy (cont_of b.bids) v.bids.entries),
  )
]

pub spec_rest-queues :
    (b : OrderBook) (o : Order)
    → Inv b
    → IsAdmissible b o
    → is_filled o.status ≡ false
    → spec_rest (queues b) o ≡ (queues (rested b o), o)
unfolding spec_rest rested
spec_rest-queues b o v n more = elim (Bool-cases (is_buy o)) [
  | inl buys ↦ ground (
    arith,
    buys,
    more,
    all_nodes-added greater buy b.bids o v.bids (ground arith) n.positive
        (absent_of_unknown b.orders_id_map buy o.order_id _ v.bids_known n.unknown)
        (ground (arith, n.fits)),
  )
  | inr sells ↦ ground (
    arith,
    sells,
    more,
    all_nodes-added less sell b.asks o v.asks (ground arith) n.positive
        (absent_of_unknown b.orders_id_map sell o.order_id _ v.asks_known n.unknown)
        (ground (arith, n.fits)),
  )
]

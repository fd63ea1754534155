-- ===== src/OrderBook/Trading.antt =====
-- A match keeps the book's invariant.
use order_forge_matching_eng.Common.{
  ◌-◌, ◌<◌, ◌≡◌, refl, inl, inr, Bool-cases, [], ◌∷◌, All, All-mono, arith,
}
use order_forge_matching_eng.Common.Int.{◌<ℤ◌}
use order_forge_matching_eng.ScaledInt.{Quantity, Price}
use order_forge_matching_eng.Enums.{Side, buy, sell}
use order_forge_matching_eng.Order.{Order, is_buy}
use order_forge_matching_eng.MatchingEngine.Fill.{matched_with}
use order_forge_matching_eng.NodeList.{NodeList}
use order_forge_matching_eng.PriceLevel.{PriceLevel}
use order_forge_matching_eng.PriceLevel.Queue.{open_qty, rest_nodes, open_qty-append}
use order_forge_matching_eng.OrderBookData.{CompFunc, OrderBookContainer}
use order_forge_matching_eng.BookSide.{BookSide}
use order_forge_matching_eng.BookSide.Match.{all_nodes}
use order_forge_matching_eng.BookSide.Sweep.{match_cont, with_levels}
use order_forge_matching_eng.BookSide.Queue.{all_nodes-match_cont}
use order_forge_matching_eng.BookSide.Fill.{cont_of}
use order_forge_matching_eng.BookSide.Invariant.{
  IsEntry, SideInv, IsSide-SideInv, IsLive-entries, match_cont-SideInv,
}
use order_forge_matching_eng.OrderBook.{OrderBook, OrdersIdMap}
use order_forge_matching_eng.OrderBook.Sides.{less, greater}
use order_forge_matching_eng.OrderBook.Invariant.{IsRegistered, Inv}
use order_forge_matching_eng.OrderBook.Match.{matched_book}

-- What holds of the keys holds of those that are left.
pub keys-match_cont :
    (K : Price → Type 0) (q : Quantity) (cont : OrderBookContainer)
    → All (λ (e : Price × PriceLevel). K e.0) cont
    → All (λ (e : Price × PriceLevel). K e.0) (match_cont q cont)
unfolding match_cont
keys-match_cont K q [] a = tt
keys-match_cont K q ((k, l) ∷ rest) a = ground (arith, keys-match_cont K (q - l.total_qty) rest a.1)

IsRegistered-rest_nodes :
    (m : OrdersIdMap) (side : Side) (q : Quantity) (nodes : NodeList Order)
    → All (IsRegistered m side) nodes
    → All (IsRegistered m side) (rest_nodes q nodes)
unfolding rest_nodes matched_with
IsRegistered-rest_nodes m side q [] a = tt
IsRegistered-rest_nodes m side q ((i, o) ∷ nodes) a =
    ground (arith, IsRegistered-rest_nodes m side (q - o.remaining_qty) nodes a.1)

known-match_cont :
    (c : CompFunc) (side : Side) (b : BookSide) (m : OrdersIdMap) (q : Quantity)
    → SideInv c side b
    → All (IsRegistered m side) (all_nodes (cont_of b))
    → All (IsRegistered m side) (all_nodes (match_cont q (cont_of b)))
known-match_cont c side b m q v a =
    rw
      (all_nodes-match_cont q (cont_of b) (IsSide-SideInv c side b v).levels
        (IsLive-entries side (cont_of b) v.entries))
      (IsRegistered-rest_nodes m side q (all_nodes (cont_of b)) a)

module _ (q : Quantity) (b : OrderBook) (v : Inv b) where
  matched_asks-Inv : Inv (record b { asks = with_levels (match_cont q (cont_of b.asks)) b.asks })
  matched_asks-Inv = record {
    bids = v.bids;
    asks = match_cont-SideInv less sell q b.asks v.asks;
    bids_known = v.bids_known;
    asks_known = known-match_cont less sell b.asks b.orders_id_map q v.asks v.asks_known;
    named = v.named;
    uncrossed =
        All-mono _ _ (cont_of b.bids) (λ e h. keys-match_cont (λ a. e.0 <ℤ a) q (cont_of b.asks) h)
          v.uncrossed;
  }

  matched_bids-Inv : Inv (record b { bids = with_levels (match_cont q (cont_of b.bids)) b.bids })
  matched_bids-Inv = record {
    bids = match_cont-SideInv greater buy q b.bids v.bids;
    asks = v.asks;
    bids_known = known-match_cont greater buy b.bids b.orders_id_map q v.bids v.bids_known;
    asks_known = v.asks_known;
    named = v.named;
    uncrossed =
        keys-match_cont (λ p. All (λ (a : Price × PriceLevel). p <ℤ a.0) (cont_of b.asks)) q
          (cont_of b.bids) v.uncrossed;
  }

pub matched_book-Inv : (b : OrderBook) (o : Order) → Inv b → Inv (matched_book b o)
unfolding matched_book
matched_book-Inv b o v = elim (Bool-cases (is_buy o)) [
  | inl buys ↦ rw (buys, matched_book) (matched_asks-Inv o.remaining_qty b v)
  | inr sells ↦ rw (sells, matched_book) (matched_bids-Inv o.remaining_qty b v)
]

-- A quantity that no side can cover empties it.
pub match_cont-nil :
    (side : Side) (q : Quantity) (cont : OrderBookContainer)
    → All (IsEntry side) cont
    → open_qty (all_nodes cont) < q
    → match_cont q cont ≡ []
unfolding match_cont all_nodes
match_cont-nil side q [] vs h = refl
match_cont-nil side q ((k, l) ∷ rest) vs h = ground (
  arith,
  open_qty-append l.order_cont (all_nodes rest),
  match_cont-nil side (q - l.total_qty) rest vs.1,
)

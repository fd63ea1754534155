-- ===== src/OrderBook/Conservation.antt =====
-- What a match takes from the crossing order, it takes from the opposite side, and the trades that
-- the handler hears of add up to it.
use order_forge_matching_eng.Common.{
  ℕ, ◌+◌, ◌-◌, ◌<◌, ◌≡◌, ◌⊎◌, refl, ◌∙◌, min, true, inl, inr, Bool-cases, List, [], ◌∷◌, ◌++◌,
  arith,
}
use order_forge_matching_eng.ScaledInt.{Quantity, u64_mod}
use order_forge_matching_eng.IdGenerator.{IdGenerator, generate_id}
use order_forge_matching_eng.Enums.{Symbol}
use order_forge_matching_eng.Order.{Order, is_buy}
use order_forge_matching_eng.Trade.{new_trade}
use order_forge_matching_eng.MatchingEngine.Fill.{matched_with, trade_of}
use order_forge_matching_eng.NodeList.{NodeList}
use order_forge_matching_eng.PriceLevel.{PriceLevelUpdate}
use order_forge_matching_eng.PriceLevel.Queue.{
  open_qty, rest_nodes, open_qty-rest_nodes, fills, taken, taken-fills,
}
use order_forge_matching_eng.PriceLevel.Trace.{trades_from, modified, crossed}
use order_forge_matching_eng.OrderBook.{Event, Handlers, OrderBook, Session, match_order}
use order_forge_matching_eng.OrderBook.Feed.{order_events, trade_events, level_events}
use order_forge_matching_eng.OrderBook.Match.{
  opposite, opposite_queue, matched_book, match_trades, match_events, matched_session,
  match_order-matched_session,
}
use order_forge_matching_eng.Enums.{buy, sell}
use order_forge_matching_eng.BookSide.Match.{level_updates}
use order_forge_matching_eng.BookSide.Queue.{all_nodes-match_cont}
use order_forge_matching_eng.BookSide.Fill.{cont_of}
use order_forge_matching_eng.BookSide.Invariant.{IsSide-SideInv, IsLive-entries}
use order_forge_matching_eng.OrderBook.Sides.{less, greater}
use order_forge_matching_eng.OrderBook.Invariant.{Inv, IsBook-Inv}

-- The quantity of the trades that the private handler has heard of.
unfoldable pub traded : List Event → ℕ
traded [] = 0
traded (Event.trades_update t ∷ es) = t.qty + traded es
traded (Event.order_update _ ∷ es) = traded es
traded (Event.order_book_update _ ∷ es) = traded es
traded (Event.last_trade_update _ ∷ es) = traded es

traded-append : (es fs : List Event) → traded (es ++ fs) ≡ traded es + traded fs
unfolding traded
traded-append [] fs = omega arith
traded-append (Event.trades_update t ∷ es) fs = omega (arith, traded-append es fs)
traded-append (Event.order_update _ ∷ es) fs = traded-append es fs
traded-append (Event.order_book_update _ ∷ es) fs = traded-append es fs
traded-append (Event.last_trade_update _ ∷ es) fs = traded-append es fs

traded-order_events : (h : Handlers) (os : List Order) → traded (order_events h os) ≡ 0
unfolding traded order_events
traded-order_events h [] = refl
traded-order_events h (o ∷ os) = ground (arith, traded-order_events h os)

traded-level_events : (h : Handlers) (us : List PriceLevelUpdate) → traded (level_events h us) ≡ 0
unfolding traded level_events
traded-level_events h [] = refl
traded-level_events h (u ∷ us) = ground (arith, traded-level_events h us)

traded-trades_from :
    (symbol : Symbol) (h : Handlers) (g : IdGenerator) (o : Order) (fs : List (Order × Quantity))
    → h.private_trades ≡ true
    → traded (trade_events symbol h (trades_from g o fs)) ≡ taken fs
unfolding traded trade_events trades_from taken trade_of new_trade
traded-trades_from symbol h g o [] on = refl
traded-trades_from symbol h g o ((p, n) ∷ fs) on =
    ground (arith, traded-trades_from symbol h (generate_id g).0 o fs)

traded_parts :
    (xs ys zs : List Event) {n : ℕ}
    → traded xs ≡ 0
    → traded ys ≡ n
    → traded zs ≡ 0
    → traded (xs ++ ys ++ zs) ≡ n
traded_parts xs ys zs e f g = omega (arith, traded-append (xs ++ ys) zs, traded-append xs ys)

traded-match_events :
    (s : Session) (o : Order)
    → s.book.handlers.private_trades ≡ true
    → traded (match_events s o) ≡ min o.remaining_qty (open_qty (opposite_queue s.book o))
unfolding match_events match_trades
traded-match_events s o on =
    let h = s.book.handlers in
    traded_parts (order_events h (modified o.remaining_qty (opposite_queue s.book o)))
      (trade_events s.book.symbol h (match_trades s o))
      (level_events h (level_updates o.remaining_qty (cont_of (opposite s.book o))))
      (traded-order_events h (modified o.remaining_qty (opposite_queue s.book o)))
      (traded-trades_from s.book.symbol h s.trade_ids o
          (fills o.remaining_qty (opposite_queue s.book o)) on
        ∙ taken-fills o.remaining_qty (opposite_queue s.book o))
      (traded-level_events h (level_updates o.remaining_qty (cont_of (opposite s.book o))))

crossed-remaining_qty :
    (o : Order) (nodes : NodeList Order)
    → (crossed o nodes).remaining_qty ≡ o.remaining_qty - open_qty nodes
unfolding crossed matched_with open_qty
crossed-remaining_qty o [] = omega arith
crossed-remaining_qty o (n ∷ nodes) = ground arith

-- A match is the specification's on the opposite queue.
pub opposite_queue-matched_book :
    (b : OrderBook) (o : Order)
    → Inv b
    → opposite_queue (matched_book b o) o ≡ rest_nodes o.remaining_qty (opposite_queue b o)
unfolding matched_book
opposite_queue-matched_book b o v = elim (Bool-cases (is_buy o)) [
  | inl buys ↦ ground (
    arith,
    all_nodes-match_cont o.remaining_qty (cont_of b.asks)
        (IsSide-SideInv less sell b.asks v.asks).levels
        (IsLive-entries sell (cont_of b.asks) v.asks.entries),
  )
  | inr sells ↦ ground (
    arith,
    all_nodes-match_cont o.remaining_qty (cont_of b.bids)
        (IsSide-SideInv greater buy b.bids v.bids).levels
        (IsLive-entries buy (cont_of b.bids) v.bids.entries),
  )
]

-- In a well-formed book whose handler of private trades is set, a match conserves quantity: what
-- the handler hears of in trades is what the crossing order loses and what the opposite side
-- loses, and afterwards one of the two has nothing left.
pub match_order-conserves :
    (s : Session) (o : Order)
    → Inv s.book
    → o.remaining_qty < u64_mod
    → s.book.handlers.private_trades ≡ true
    → let (s', x) = match_order s o in
      let left = open_qty (opposite_queue s'.book o) in
      (traded s'.events + x.remaining_qty ≡ traded s.events + o.remaining_qty)
      × (traded s'.events + left ≡ traded s.events + open_qty (opposite_queue s.book o))
      × ((x.remaining_qty ≡ 0) ⊎ (left ≡ 0))
unfolding matched_session
match_order-conserves s o v h on =
    rw (match_order-matched_session s o (IsBook-Inv v) h, opposite_queue-matched_book s.book o v)
      (sums _ (traded s.events) (traded (match_events s o)) _ _ o.remaining_qty
        (open_qty (opposite_queue s.book o)) (traded-append s.events (match_events s o))
        (traded-match_events s o on) (crossed-remaining_qty o (opposite_queue s.book o))
        (open_qty-rest_nodes o.remaining_qty (opposite_queue s.book o)))
  where
    sums :
        (a b n x l q m : ℕ)
        → a ≡ b + n
        → n ≡ min q m
        → x ≡ q - m
        → l ≡ m - q
        → (a + x ≡ b + q) × (a + l ≡ b + m) × ((x ≡ 0) ⊎ (l ≡ 0))
    sums a b n x l q m e f g k = ground (arith, e, f, g, k)

-- ===== src/OrderBook/LimitPrice.antt =====
-- What a crossing order's own price decides in `OrderBook::match_order`.
use order_forge_matching_eng.Common.{◌<◌, ◌≡◌, refl, List, [], ◌∷◌, arith}
use order_forge_matching_eng.ScaledInt.{Quantity, Price, u64_mod}
use order_forge_matching_eng.IdGenerator.{IdGenerator, generate_id}
use order_forge_matching_eng.Order.{Order}
use order_forge_matching_eng.Trade.{new_trade}
use order_forge_matching_eng.MatchingEngine.Fill.{matched_with, trade_of}
use order_forge_matching_eng.NodeList.{NodeList}
use order_forge_matching_eng.PriceLevel.Queue.{fills}
use order_forge_matching_eng.PriceLevel.Trace.{trades_from, crossed}
use order_forge_matching_eng.OrderBook.{Session, match_order}
use order_forge_matching_eng.OrderBook.Match.{
  opposite_queue, matched_book, match_trades, match_events, matched_session,
  match_order-matched_session,
}
use order_forge_matching_eng.OrderBook.Invariant.{Inv, IsBook-Inv}

abbrev pub set_price : Price → Order → Order
set_price p o = record o { price = p }

trades_from-set_price :
    (g : IdGenerator) (o : Order) (p : Price) (fs : List (Order × Quantity))
    → trades_from g (set_price p o) fs ≡ trades_from g o fs
unfolding trades_from trade_of new_trade
trades_from-set_price g o p [] = refl
trades_from-set_price g o p (f ∷ fs) =
    ground (arith, trades_from-set_price (generate_id g).0 o p fs)

matched_session-set_price :
    (s : Session) (o : Order) (p : Price) → matched_session s (set_price p o) ≡ matched_session s o
unfolding matched_session matched_book match_events match_trades
matched_session-set_price s o p =
    rw (trades_from-set_price s.trade_ids o p (fills o.remaining_qty (opposite_queue s.book o)))
      refl

crossed-set_price :
    (o : Order) (p : Price) (nodes : NodeList Order)
    → crossed (set_price p o) nodes ≡ set_price p (crossed o nodes)
unfolding crossed matched_with
crossed-set_price o p [] = refl
crossed-set_price o p (n ∷ nodes) = ground arith

-- In a well-formed book, once an order is matched its own price decides nothing: with any other
-- price the session after the match, with its trades and its events, is the same, and so is the
-- order but for that price.
pub match_order-set_price :
    (s : Session) (o : Order) (p : Price)
    → Inv s.book
    → o.remaining_qty < u64_mod
    → match_order s (set_price p o) ≡ ((match_order s o).0, set_price p (match_order s o).1)
match_order-set_price s o p v h =
    rw
      (
        match_order-matched_session s (set_price p o) (IsBook-Inv v) h,
        match_order-matched_session s o (IsBook-Inv v) h,
        matched_session-set_price s o p,
        crossed-set_price o p (opposite_queue s.book o),
      )
      refl

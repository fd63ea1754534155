-- ===== src/Tests/Runs.antt =====
-- Runs of the order book.
use order_forge_matching_eng.Common.{
  ℕ, ◌*◌, ◌≡◌, refl, Option, none, some, List, [], ◌∷◌, ◌++◌, map,
}
use order_forge_matching_eng.Common.Int.{pos}
use order_forge_matching_eng.ScaledInt.{Price, Quantity, qty_scale}
use order_forge_matching_eng.Enums.{limit, market, fill_and_kill, buy, sell}
use order_forge_matching_eng.Order.{Order}
use order_forge_matching_eng.BookSide.Match.{all_nodes}
use order_forge_matching_eng.BookSide.Fill.{cont_of}
use order_forge_matching_eng.OrderBook.{Session, Event}
use order_forge_matching_eng.Tests.Fixtures.{order, start, run, ladder, program}

-- What a run looks like from outside: per event the price and the quantity that it reports.
abbrev seen : Event → Price × Quantity
seen (Event.order_update o) = (o.price, o.remaining_qty)
seen (Event.trades_update t) = (t.price, t.qty)
seen (Event.order_book_update u) = (u.price, u.total_qty)
seen (Event.last_trade_update t) = (t.price, t.quantity)

abbrev report : Option Session → Option (List (Price × Quantity))
report none = none
report (some s) = some (map seen s.events)

-- A bid for 7 at 101 against asks of 5 at 100 and 5 at 200: it trades 5 at 100 and 2 at 200, which
-- is above its limit.
abbrev cross : Option (List (Price × Quantity))
cross =
    report (
      run (order limit sell 100 5 1 ∷ order limit sell 200 5 2 ∷ order limit buy 101 7 3 ∷ [])
        start)

cross_test :
    cross
    ≡ some (
        (pos 10000, 5 * qty_scale)
        ∷ (pos 10000, 5 * qty_scale)
        ∷ (pos 20000, 5 * qty_scale)
        ∷ (pos 20000, 5 * qty_scale)
        ∷ (pos 10000, 0)
        ∷ (pos 20000, 3 * qty_scale)
        ∷ (pos 10000, 5 * qty_scale)
        ∷ (pos 10000, 5 * qty_scale)
        ∷ (pos 20000, 2 * qty_scale)
        ∷ (pos 20000, 2 * qty_scale)
        ∷ (pos 10000, 0)
        ∷ (pos 20000, 3 * qty_scale)
        ∷ (pos 10100, 0)
        ∷ [])
unfolding program
cross_test = refl

abbrev left_after : List Order → List (ℕ × Quantity)
left_after os = elim (run os start) [
  | none ↦ []
  | some s ↦
      map (λ n. (n.0, n.1.remaining_qty))
        (all_nodes (cont_of s.book.bids) ++ all_nodes (cont_of s.book.asks))
]

-- A market order takes what it can of the bids and never rests.
market_test :
    left_after (ladder ++ order market sell 1 7 7 ∷ [])
    ≡ (1, 3 * qty_scale)
      ∷ (3, 5 * qty_scale)
      ∷ (4, 5 * qty_scale)
      ∷ (5, 5 * qty_scale)
      ∷ (6, 5 * qty_scale)
      ∷ []
unfolding program
market_test = refl

-- A fill-and-kill order that does not cross leaves the book alone.
fill_and_kill_test : left_after (ladder ++ order fill_and_kill buy 99 7 7 ∷ []) ≡ left_after ladder
unfolding program
fill_and_kill_test = refl

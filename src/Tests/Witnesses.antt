-- ===== src/Tests/Witnesses.antt =====
-- The theorems at concrete books and orders.
use order_forge_matching_eng.Common.{
  ◌+◌, ◌-◌, ◌<◌, ◌≡◌, ◌⊎◌, inr, refl, some, [], ◌∷◌, ◌++◌, min, arith,
}
use order_forge_matching_eng.Common.Int.{pos, ◌<ℤ◌}
use order_forge_matching_eng.ScaledInt.{sub_assign, add_assign, sub_assign-add_assign, u64_mod}
use order_forge_matching_eng.Enums.{buy, sell, limit, market}
use order_forge_matching_eng.IdGenerator.{id_generator}
use order_forge_matching_eng.IdGenerator.Unique.{IsDate, nth_id, nth_id-grows}
use order_forge_matching_eng.Order.{Order}
use order_forge_matching_eng.MatchingEngine
use order_forge_matching_eng.MatchingEngine.{MatchingEngine, matching_engine, remaining_qty}
use order_forge_matching_eng.MatchingEngine.Fill.{matched_with, met, match_order-met}
use order_forge_matching_eng.PriceLevel
use order_forge_matching_eng.PriceLevel.{
  PriceLevel, PriceLevelUpdate, price_level, insert_order, remove_marked_order_nodes,
}
use order_forge_matching_eng.PriceLevel.Queue.{open_qty, rest_nodes}
use order_forge_matching_eng.PriceLevel.Fill.{IsBalanced}
use order_forge_matching_eng.PriceLevel.RoundTrip.{remove_order-add_order}
use order_forge_matching_eng.PriceLevel.Swept.{match_order-rest_nodes}
use order_forge_matching_eng.PriceLevel.Trace.{crossed}
use order_forge_matching_eng.BookSide
use order_forge_matching_eng.BookSide.{BookSide}
use order_forge_matching_eng.BookSide.Enqueue.{enqueue}
use order_forge_matching_eng.BookSide.Fill.{cont_of}
use order_forge_matching_eng.BookSide.Match.{all_nodes}
use order_forge_matching_eng.BookSide.Invariant.{SideInv}
use order_forge_matching_eng.BookSide.Joins.{add_order-enqueue}
use order_forge_matching_eng.OrderBook.{
  Session, find_id, match_order, dispatch, add_order, remove_order,
}
use order_forge_matching_eng.OrderBook.Adding.{
  Keeps, named_order, spec_add_order, add_order-spec_add_order,
}
use order_forge_matching_eng.OrderBook.Cancelled.{Cancels, remove_order-Cancels}
use order_forge_matching_eng.OrderBook.Conservation.{traded, match_order-conserves}
use order_forge_matching_eng.OrderBook.Feed.{level_events}
use order_forge_matching_eng.OrderBook.Invariant.{IsBook-Inv}
use order_forge_matching_eng.OrderBook.LimitPrice.{set_price, match_order-set_price}
use order_forge_matching_eng.OrderBook.Match.{
  opposite_queue, matched_session, match_order-matched_session,
}
use order_forge_matching_eng.OrderBook.Reachable.{reachable-uncrossed}
use order_forge_matching_eng.OrderBook.Resting.{IsAdmissible}
use order_forge_matching_eng.OrderBook.Sides.{greater}
use order_forge_matching_eng.OrderBook.Stale.{remove_order-stale}
use order_forge_matching_eng.OrderBook.Takers.{Takes, dispatch-Takes}
use order_forge_matching_eng.Tests.Books.{two_sides, two_sides-Reachable, two_sides-Inv, ask}
use order_forge_matching_eng.Tests.Fixtures.{symbol, order, today, program}

-- A bid for 7 at 101: it takes the ask of 5 at 100, and 2 come to rest.
abbrev taker : Order
taker = order limit buy 101 7 3

taker-IsAdmissible : IsAdmissible two_sides.book (named_order two_sides taker)
unfolding program
taker-IsAdmissible = record {
  positive = omega arith;
  named = λ e. omega arith;
  unknown = refl;
  fits = omega arith;
}

add_order_example : Keeps (add_order two_sides taker) (spec_add_order two_sides taker)
add_order_example = add_order-spec_add_order two_sides taker two_sides-Inv taker-IsAdmissible

conserves_example :
    let (s', x) = match_order two_sides taker in
    let left = open_qty (opposite_queue s'.book taker) in
    (traded s'.events + x.remaining_qty ≡ traded two_sides.events + taker.remaining_qty)
    × (traded s'.events + left
        ≡ traded two_sides.events + open_qty (opposite_queue two_sides.book taker))
    × ((x.remaining_qty ≡ 0) ⊎ (left ≡ 0))
unfolding program
conserves_example = match_order-conserves two_sides taker two_sides-Inv (omega arith) refl

cancel_example : Cancels 1 two_sides.book (remove_order two_sides 1).book
cancel_example = remove_order-Cancels two_sides 1 two_sides-Inv

uncrossed_example : pos 9900 <ℤ pos 10000
unfolding program
uncrossed_example =
    reachable-uncrossed two_sides (pos 9900) (pos 10000) two_sides-Reachable refl refl

match_order_example :
    match_order two_sides taker
    ≡ (matched_session two_sides taker, crossed taker (opposite_queue two_sides.book taker))
match_order_example =
    match_order-matched_session two_sides taker (IsBook-Inv two_sides-Inv) (omega arith)

set_price_example :
    match_order two_sides (set_price (pos 1) taker)
    ≡ ((match_order two_sides taker).0, set_price (pos 1) (match_order two_sides taker).1)
set_price_example = match_order-set_price two_sides taker (pos 1) two_sides-Inv (omega arith)

dispatch_example :
    (r : Session × Order) × (dispatch market two_sides taker ≡ some r) × Takes two_sides taker r
dispatch_example =
    dispatch-Takes two_sides taker market two_sides-Inv (omega arith) (λ e. ground arith)

stale_example :
    let s' = (match_order two_sides taker).0 in
    (find_id 1 s'.book.orders_id_map
      ≡ some (record { order_id = 1; price = pos 10000; side = sell }))
    × ((u : PriceLevelUpdate) × ((remove_order s' 1).events
          ≡ s'.events ++ level_events s'.book.handlers (u ∷ [])))
unfolding program
stale_example =
    remove_order-stale two_sides taker 1 (record { order_id = 1; price = pos 10000; side = sell })
      two_sides-Inv (omega arith) refl

enqueue_example :
    (b' : BookSide) × (u : PriceLevelUpdate) × (BookSide.add_order greater two_sides.book.bids taker
      ≡ some (b', u))
    × SideInv greater buy b'
    × (all_nodes (cont_of b')
        ≡ enqueue greater (3, taker) (all_nodes (cont_of two_sides.book.bids)))
unfolding program
enqueue_example =
    add_order-enqueue greater buy two_sides.book.bids taker two_sides-Inv.bids refl (omega arith)
      (λ e. omega arith) refl (omega arith)

-- A level with the ask of 5.
abbrev level : PriceLevel
level = (insert_order (price_level symbol (pos 10000) sell) ask).0

level-IsBalanced : IsBalanced level
unfolding program
level-IsBalanced = record { total = refl; bounded = omega arith; unmarked = refl }

abbrev engine : MatchingEngine
engine = matching_engine (id_generator today) taker

level_match_example :
    let (e', l', u) = PriceLevel.match_order level engine in
    let swept = remove_marked_order_nodes l' in
    (swept.order_cont ≡ rest_nodes (remaining_qty engine) level.order_cont)
    × IsBalanced swept
    × (u.total_qty ≡ open_qty swept.order_cont)
    × (u.price ≡ level.price)
    × (remaining_qty e' ≡ remaining_qty engine - open_qty level.order_cont)
unfolding program
level_match_example = match_order-rest_nodes level engine level-IsBalanced (omega arith)

level_round_trip_example :
    (l' : PriceLevel) × (u : PriceLevelUpdate) × (PriceLevel.add_order
        (price_level symbol (pos 10000) sell)
        ask
      ≡ some (l', u))
    × ((PriceLevel.remove_order l' 1).0 ≡ price_level symbol (pos 10000) sell)
unfolding program
level_round_trip_example =
    remove_order-add_order (price_level symbol (pos 10000) sell) ask refl (λ e. omega arith) refl
      (omega arith) (omega arith)

engine_example : MatchingEngine.match_order engine ask ≡ (
  met engine ask,
  matched_with (remaining_qty engine) ask,
  min ask.remaining_qty (remaining_qty engine),
)
unfolding program
engine_example = match_order-met engine ask (omega arith) (omega arith)

today-IsDate : IsDate today
today-IsDate = record { month = omega arith; day = omega arith; year = omega arith }

ids_example :
    (0 < nth_id 4 (id_generator today))
    × (nth_id 4 (id_generator today) < nth_id 9 (id_generator today))
ids_example =
    nth_id-grows today today 4 9 today-IsDate today-IsDate (omega arith) (omega arith)
      (inr (refl, omega arith))

wrap_example : sub_assign (add_assign 7 (u64_mod - 3)) (u64_mod - 3) ≡ 7
wrap_example = sub_assign-add_assign 7 (u64_mod - 3) (omega arith) (omega arith)

-- A bid for 0 at 101.
abbrev nothing : Order
nothing = order limit buy 101 0 4

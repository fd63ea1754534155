-- ===== src/Tests/Books.antt =====
-- Books that calls of `add_order` lead to.
use order_forge_matching_eng.Common.{refl, none, some, arith}
use order_forge_matching_eng.Common.Int.{pos}
use order_forge_matching_eng.Enums.{buy, sell, limit}
use order_forge_matching_eng.Order.{Order}
use order_forge_matching_eng.OrderBook.{Session, add_order}
use order_forge_matching_eng.OrderBook.Invariant.{Inv}
use order_forge_matching_eng.OrderBook.Resting.{IsAdmissible}
use order_forge_matching_eng.OrderBook.Reachable.{Reachable, made, added, reachable-Inv}
use order_forge_matching_eng.Tests.Fixtures.{symbol, all_handlers, order, today, start, program}

abbrev pub after_add : Session → Order → Session
after_add s o = elim (add_order s o) [ none ↦ s | some r ↦ r.0 ]

abbrev pub order_after : Session → Order → Order
order_after s o = elim (add_order s o) [ none ↦ o | some r ↦ r.1 ]

-- An ask of 5 at 100, then a bid of 3 at 99.
abbrev pub ask : Order
ask = order limit sell 100 5 1

abbrev pub bid : Order
bid = order limit buy 99 3 2

abbrev pub one_ask : Session
one_ask = after_add start ask

abbrev pub two_sides : Session
two_sides = after_add one_ask bid

start-Reachable : Reachable start
start-Reachable = made symbol (pos 1) all_handlers today today

ask-IsAdmissible : IsAdmissible start.book ask
unfolding program
ask-IsAdmissible = record {
  positive = omega arith;
  named = λ e. omega arith;
  unknown = refl;
  fits = omega arith;
}

pub one_ask-Reachable : Reachable one_ask
unfolding program
one_ask-Reachable =
    added start one_ask ask (order_after start ask) start-Reachable ask-IsAdmissible refl

bid-IsAdmissible : IsAdmissible one_ask.book bid
unfolding program
bid-IsAdmissible = record {
  positive = omega arith;
  named = λ e. omega arith;
  unknown = refl;
  fits = omega arith;
}

pub two_sides-Reachable : Reachable two_sides
unfolding program
two_sides-Reachable =
    added one_ask two_sides bid (order_after one_ask bid) one_ask-Reachable bid-IsAdmissible refl

pub two_sides-Inv : Inv two_sides.book
two_sides-Inv = reachable-Inv two_sides two_sides-Reachable

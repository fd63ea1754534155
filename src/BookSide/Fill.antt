-- ===== src/BookSide/Fill.antt =====
-- `BookSide::match_order` and the removal of the marked orders, in one statement each.
use order_forge_matching_eng.Common.{◌<◌, ◌≡◌, All, arith}
use order_forge_matching_eng.ScaledInt.{Quantity, u64_mod}
use order_forge_matching_eng.MatchingEngine.{MatchingEngine, remaining_qty}
use order_forge_matching_eng.OrderBookData.{CompFunc, OrderBookContainer}
use order_forge_matching_eng.OrderBookData.Sorted.{Sorted}
use order_forge_matching_eng.BookSide.{BookSide, match_order, remove_marked}
use order_forge_matching_eng.BookSide.Match.{
  IsLevel, met_levels, level_updates, swept_prices, match_levels_lem,
}
use order_forge_matching_eng.BookSide.Sweep.{
  exhausted, match_cont, with_levels, remove_exhausted_lem, remove_marked_lem,
}

abbrev pub cont_of : BookSide → OrderBookContainer
cont_of b = b.levels.book_cont

-- The map of a side is in order, and each of its levels is balanced and at its own price.
pub record IsSide (c : CompFunc) (b : BookSide) : Type 0 where
  pub sorted : Sorted c (cont_of b)
  pub levels : All IsLevel (cont_of b)

module _ (c : CompFunc) (b : BookSide) (v : IsSide c b) where
  pub match_order_lem :
      (e : MatchingEngine)
      → remaining_qty e < u64_mod
      → let q = remaining_qty e in
        match_order c b e ≡ (
          met_levels e (cont_of b),
          with_levels (exhausted q (cont_of b)) b,
          level_updates q (cont_of b),
        )
  unfolding match_order
  match_order_lem e he = ground (
    arith,
    match_levels_lem e (cont_of b),
    remove_exhausted_lem c (remaining_qty e) b.levels (cont_of b),
  )

  pub remove_marked-exhausted :
      (q : Quantity)
      → remove_marked c (swept_prices q (cont_of b)) (with_levels (exhausted q (cont_of b)) b)
        ≡ with_levels (match_cont q (cont_of b)) b
  remove_marked-exhausted q = remove_marked_lem c q b (cont_of b) v.sorted

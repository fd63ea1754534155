-- ===== src/BookSide/Sweep.antt =====
-- The map after `BookSide::match_order` and the removal of the marked orders: the exhausted levels
-- are gone, and the orders that are left are the rest of the side's queue.
use order_forge_matching_eng.Common.{◌-◌, ◌≡◌, refl, leb, ◌==◌, if◌then◌else◌, [], ◌∷◌, All, arith}
use order_forge_matching_eng.ScaledInt.{Quantity, Price}
use order_forge_matching_eng.PriceLevel.Fill.{
  filled_level, matched_level, remove_marked-filled_level, matched_level-IsBalanced,
}
use order_forge_matching_eng.OrderBookData.{
  CompFunc, OrderBookContainer, OrderBookDataMap, find, erase, store, remove_book_level,
}
use order_forge_matching_eng.OrderBookData.Sorted.{After, Sorted, find-After}
use order_forge_matching_eng.BookSide.{BookSide, remove_exhausted, remove_marked}
use order_forge_matching_eng.BookSide.Match.{
  IsLevel, filled_levels, level_updates, swept_prices, level_updates-zero, swept_prices-zero,
  filled_levels-zero,
}

-- The map once the exhausted levels are removed, and once the marked orders are.
unfoldable pub exhausted : Quantity → OrderBookContainer → OrderBookContainer
exhausted q [] = []
exhausted q ((p, l) ∷ rest) =
    let more = exhausted (q - l.total_qty) rest in
    if q == 0
    then (p, l) ∷ rest
    else if leb l.total_qty q
    then more
    else (p, filled_level q l) ∷ rest

unfoldable pub match_cont : Quantity → OrderBookContainer → OrderBookContainer
match_cont q [] = []
match_cont q ((p, l) ∷ rest) =
    let more = match_cont (q - l.total_qty) rest in
    if q == 0
    then (p, l) ∷ rest
    else if leb l.total_qty q
    then more
    else (p, matched_level q l) ∷ rest

abbrev pub with_cont : OrderBookContainer → OrderBookDataMap → OrderBookDataMap
with_cont cont m = record m { book_cont = cont }

abbrev pub with_levels : OrderBookContainer → BookSide → BookSide
with_levels cont b = record b { levels = with_cont cont b.levels }

module _ (c : CompFunc) where
  pub remove_exhausted_lem :
      (q : Quantity) (m : OrderBookDataMap) (cont : OrderBookContainer)
      → All IsLevel cont
      → remove_exhausted c (level_updates q cont) (with_cont (filled_levels q cont) m)
        ≡ with_cont (exhausted q cont) m
  unfolding remove_exhausted level_updates filled_levels exhausted remove_book_level erase
      filled_level
  remove_exhausted_lem q m [] vs = refl
  remove_exhausted_lem q m ((p, l) ∷ rest) vs = ground (
    arith,
    c.irrefl p,
    level_updates-zero rest,
    filled_levels-zero rest,
    remove_exhausted_lem (q - l.total_qty) m rest vs.1,
  )

  After-exhausted :
      (p : Price) (q : Quantity) (cont : OrderBookContainer)
      → After c p cont
      → After c p (exhausted q cont)
  unfolding exhausted
  After-exhausted p q [] a = tt
  After-exhausted p q ((k, l) ∷ rest) a =
      ground (arith, After-exhausted p (q - l.total_qty) rest a.1)

  pub remove_marked_lem :
      (q : Quantity) (b : BookSide) (cont : OrderBookContainer)
      → Sorted c cont
      → remove_marked c (swept_prices q cont) (with_levels (exhausted q cont) b)
        ≡ with_levels (match_cont q cont) b
  unfolding remove_marked swept_prices exhausted match_cont find store
  remove_marked_lem q b [] s = refl
  remove_marked_lem q b ((p, l) ∷ rest) s = ground (
    arith,
    c.irrefl p,
    swept_prices-zero rest,
    remove_marked-filled_level q l,
    After-exhausted p (q - l.total_qty) rest s.0,
    find-After c p (exhausted (q - l.total_qty) rest),
    remove_marked_lem (q - l.total_qty) b rest s.1,
  )

  pub match_cont-Sorted :
      (q : Quantity) (cont : OrderBookContainer) → Sorted c cont → Sorted c (match_cont q cont)
  unfolding match_cont
  match_cont-Sorted q [] s = tt
  match_cont-Sorted q ((p, l) ∷ rest) s =
      ground (arith, match_cont-Sorted (q - l.total_qty) rest s.1)

pub match_cont-IsLevel :
    (q : Quantity) (cont : OrderBookContainer) → All IsLevel cont → All IsLevel (match_cont q cont)
unfolding match_cont matched_level
match_cont-IsLevel q [] vs = tt
match_cont-IsLevel q ((p, l) ∷ rest) vs =
    ground
      (arith, match_cont-IsLevel (q - l.total_qty) rest vs.1, matched_level-IsBalanced q l vs.0.1)

-- ===== src/BookSide/Match.antt =====
-- `BookSide::match_order` computed. The orders of a side, level by level and oldest first within a
-- level, are one queue, and the loops over the levels take the crossing quantity down it.
use order_forge_matching_eng.Common.{
  ◌-◌, ◌<◌, ◌≡◌, refl, false, ◌==◌, if◌then◌else◌, List, [], ◌∷◌, ◌++◌, All, arith, append-nil,
  append_assoc,
}
use order_forge_matching_eng.ScaledInt.{Quantity, Price, u64_mod}
use order_forge_matching_eng.Order.{Order}
use order_forge_matching_eng.MatchingEngine.{
  MatchingEngine, remaining_qty, add_level_to_remove_orders,
}
use order_forge_matching_eng.NodeList.{NodeList}
use order_forge_matching_eng.PriceLevel.{PriceLevel, PriceLevelUpdate, update}
use order_forge_matching_eng.PriceLevel.Fill.{
  met_all, met_level, filled_level, IsBalanced, match_order_lem, with_levels, met_all-with_levels,
  remove_levels-met_all, remaining_qty-met_all, met_all-zero, met_all-append,
}
use order_forge_matching_eng.OrderBookData.{OrderBookContainer}
use order_forge_matching_eng.BookSide.{visit_level, match_levels}

-- The orders of a side in the order of their priority.
unfoldable pub all_nodes : OrderBookContainer → NodeList Order
all_nodes [] = []
all_nodes ((_, l) ∷ rest) = l.order_cont ++ all_nodes rest

-- Each level is balanced and stands at its own price.
abbrev pub IsLevel : Price × PriceLevel → Type 0
IsLevel (p, l) = (l.price ≡ p) × IsBalanced l

-- What the first loop leaves in the map, what it reports, and which levels the engine names.
unfoldable pub filled_levels : Quantity → OrderBookContainer → OrderBookContainer
filled_levels q [] = []
filled_levels q ((p, l) ∷ rest) =
    (p, if q == 0 then l else filled_level q l) ∷ filled_levels (q - l.total_qty) rest

unfoldable pub level_updates : Quantity → OrderBookContainer → List PriceLevelUpdate
level_updates q [] = []
level_updates q ((p, l) ∷ rest) =
    let more = level_updates (q - l.total_qty) rest in
    if q == 0 then [] else update (filled_level q l) l.symbol ∷ more

unfoldable pub swept_prices : Quantity → OrderBookContainer → List Price
swept_prices q [] = []
swept_prices q ((p, l) ∷ rest) =
    let more = swept_prices (q - l.total_qty) rest in
    if q == 0 then [] else if (l.total_qty - q) == l.total_qty then more else p ∷ more

pub level_updates-zero : (cont : OrderBookContainer) → level_updates 0 cont ≡ []
unfolding level_updates
level_updates-zero [] = refl
level_updates-zero ((p, l) ∷ rest) = refl

pub swept_prices-zero : (cont : OrderBookContainer) → swept_prices 0 cont ≡ []
unfolding swept_prices
swept_prices-zero [] = refl
swept_prices-zero ((p, l) ∷ rest) = refl

pub filled_levels-zero : (cont : OrderBookContainer) → filled_levels 0 cont ≡ cont
unfolding filled_levels
filled_levels-zero [] = refl
filled_levels-zero ((p, l) ∷ rest) = ground (arith, filled_levels-zero rest)

-- One level: the engine goes down its orders, and names it if that changed its total.
visit_level_lem :
    (e : MatchingEngine) (l : PriceLevel)
    → IsBalanced l
    → remaining_qty e < u64_mod
    → let q = remaining_qty e in
      visit_level e l ≡ (
        if q == 0
        then (e, l, [])
        else (met_level e l, filled_level q l, update (filled_level q l) l.symbol ∷ []))
unfolding visit_level
visit_level_lem e l v he = ground (arith, match_order_lem l e v)

unfoldable pub met_levels : MatchingEngine → OrderBookContainer → MatchingEngine
met_levels e cont =
    with_levels (e.remove_levels ++ swept_prices (remaining_qty e) cont)
      (met_all e (all_nodes cont))

met_levels-zero :
    (e : MatchingEngine) (cont : OrderBookContainer) → remaining_qty e ≡ 0 → met_levels e cont ≡ e
unfolding met_levels
met_levels-zero e cont h =
    ground
      (arith, met_all-zero e (all_nodes cont), swept_prices-zero cont, append-nil e.remove_levels)

remaining_qty-met_level :
    (e : MatchingEngine) (l : PriceLevel)
    → IsBalanced l
    → remaining_qty (met_level e l) ≡ remaining_qty e - l.total_qty
unfolding met_level add_level_to_remove_orders
remaining_qty-met_level e l v = ground (arith, remaining_qty-met_all e l.order_cont)

met_levels-nil : (e : MatchingEngine) → met_levels e [] ≡ e
unfolding met_levels met_all all_nodes swept_prices
met_levels-nil e = ground (arith, append-nil e.remove_levels)

met_levels-met_level :
    (e : MatchingEngine) (p : Price) (l : PriceLevel) (rest : OrderBookContainer)
    → IsLevel (p, l)
    → (remaining_qty e == 0) ≡ false
    → met_levels (met_level e l) rest ≡ met_levels e ((p, l) ∷ rest)
unfolding met_levels met_level add_level_to_remove_orders all_nodes swept_prices
met_levels-met_level e p l rest v more = ground (
  arith,
  remaining_qty-met_all e l.order_cont,
  remove_levels-met_all e l.order_cont,
  met_all-append e l.order_cont (all_nodes rest),
  met_all-with_levels (e.remove_levels ++ p ∷ []) (met_all e l.order_cont) (all_nodes rest),
  append_assoc e.remove_levels (p ∷ []) (swept_prices (remaining_qty e - l.total_qty) rest),
)

pub match_levels_lem :
    (e : MatchingEngine) (cont : OrderBookContainer)
    → All IsLevel cont
    → remaining_qty e < u64_mod
    → let q = remaining_qty e in
      match_levels e cont ≡ (met_levels e cont, filled_levels q cont, level_updates q cont)
unfolding match_levels filled_levels level_updates
match_levels_lem e [] vs he = ground (arith, met_levels-nil e)
match_levels_lem e ((p, l) ∷ rest) vs he = ground (
  arith,
  visit_level_lem e l,
  met_levels-zero e rest,
  met_levels-zero e ((p, l) ∷ rest),
  met_levels-met_level e p l rest,
  remaining_qty-met_level e l,
  match_levels_lem e rest vs.1,
  match_levels_lem (met_level e l) rest vs.1,
  filled_levels-zero rest,
  level_updates-zero rest,
)

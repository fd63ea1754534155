-- ===== src/BookSide.antt =====
-- order_forge/book_side.h: the levels of one side, best price first.
pub mod Add
pub mod Cancel
pub mod Gone
pub mod Enqueue
pub mod Fill
pub mod Invariant
pub mod Joins
pub mod Match
pub mod Queue
pub mod Rest
pub mod Sweep
pub mod Without
use order_forge_matching_eng.Common.{
  Bool, ◌==◌, if◌then◌else◌, Option, none, some, ◌>>=◌, List, [], ◌∷◌, ◌++◌,
}
use order_forge_matching_eng.ScaledInt.{Price}
use order_forge_matching_eng.Enums.{Side, Symbol, same_side}
use order_forge_matching_eng.Order.{Order, FindOrderHelper}
use order_forge_matching_eng.MatchingEngine.{MatchingEngine, has_remaining_qty}
use order_forge_matching_eng.PriceLevel
use order_forge_matching_eng.PriceLevel.{PriceLevel, PriceLevelUpdate, assert}
use order_forge_matching_eng.OrderBookData
use order_forge_matching_eng.OrderBookData.{
  CompFunc, OrderBookContainer, OrderBookDataMap, store, get_book_level, remove_book_level,
}

pub record BookSide : Type 0 where
  pub side : Side
  pub tick_size : Price
  pub levels : OrderBookDataMap

unfoldable pub book_side : Symbol → Side → Price → BookSide
book_side symbol side tick_size = record {
  side = side;
  tick_size = tick_size;
  levels = record { symbol = symbol; side = side; tick_size = tick_size; book_cont = [] };
}

abbrev pub best_price : BookSide → Option Price
best_price b = OrderBookData.best_price b.levels

abbrev pub empty : BookSide → Bool
empty b = OrderBookData.empty b.levels

abbrev pub Visited : Type 0
Visited = MatchingEngine × PriceLevel × List PriceLevelUpdate

-- The body of the loop of `match_order`: a level is matched while a quantity remains.
unfoldable pub visit_level : MatchingEngine → PriceLevel → Visited
visit_level e level =
    let (e', level', update) = PriceLevel.match_order level e in
    if has_remaining_qty e then (e', level', update ∷ []) else (e, level, [])

unfoldable pub match_levels :
    MatchingEngine
    → OrderBookContainer
    → MatchingEngine × OrderBookContainer × List PriceLevelUpdate
match_levels e [] = (e, [], [])
match_levels e ((price, level) ∷ rest) =
    let (e₁, level₁, update₁) = visit_level e level in
    let (e₂, rest₂, updates₂) = match_levels e₁ rest in
    (e₂, (price, level₁) ∷ rest₂, update₁ ++ updates₂)

module _ (c : CompFunc) where
  unfoldable pub add_order : BookSide → Order → Option (BookSide × PriceLevelUpdate)
  add_order b order = do
    _ ← assert (same_side order.side b.side)
    let (m, level) = get_book_level c b.levels order.price
    (level', update) ← PriceLevel.add_order level order
    some (
      record b { levels = record m { book_cont = store c order.price level' m.book_cont } },
      update,
    )

  unfoldable pub remove_order : BookSide → FindOrderHelper → BookSide × PriceLevelUpdate
  remove_order b helper =
      let (m, level) = get_book_level c b.levels helper.price in
      let (level', update) = PriceLevel.remove_order level helper.order_id in
      let m' = record m { book_cont = store c helper.price level' m.book_cont } in
      (
        record b {
          levels = if update.total_qty == 0 then remove_book_level c m' update.price else m';
        },
        update,
      )

  -- The second loop of `match_order`: the levels that are exhausted leave the map.
  unfoldable pub remove_exhausted : List PriceLevelUpdate → OrderBookDataMap → OrderBookDataMap
  remove_exhausted [] m = m
  remove_exhausted (update ∷ updates) m =
      remove_exhausted updates
        (if update.total_qty == 0 then remove_book_level c m update.price else m)

  unfoldable pub match_order :
      BookSide → MatchingEngine → MatchingEngine × BookSide × List PriceLevelUpdate
  match_order b e =
      let (e', cont, updates) = match_levels e b.levels.book_cont in
      let m = remove_exhausted updates (record b.levels { book_cont = cont }) in
      (e', record b { levels = m }, updates)

  -- `level->remove_marked_order_nodes()` for each level that the engine names. A level that has
  -- left the map is not reached from the book any more.
  unfoldable pub remove_marked : List Price → BookSide → BookSide
  remove_marked [] b = b
  remove_marked (price ∷ prices) b =
      remove_marked prices (elim (OrderBookData.find c price b.levels.book_cont) [
        | none ↦ b
        | some level ↦ record b {
          levels = record b.levels {
            book_cont =
                store c price (PriceLevel.remove_marked_order_nodes level) b.levels.book_cont;
          };
        }
      ])

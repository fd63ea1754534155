-- ===== src/BookSide/Add.antt =====
-- `BookSide::add_order` computed: the order goes behind the others at its price, in a level that is
-- made if there is none.
use order_forge_matching_eng.Common.{◌≡◌, ◌≢◌, true, inl, inr, Option-cases, none, some, arith}
use order_forge_matching_eng.ScaledInt.{Price}
use order_forge_matching_eng.Enums.{same_side}
use order_forge_matching_eng.Order.{Order}
use order_forge_matching_eng.PriceLevel
use order_forge_matching_eng.PriceLevel.{
  PriceLevel, PriceLevelUpdate, price_level, insert_order, update,
}
use order_forge_matching_eng.OrderBookData.{
  CompFunc, OrderBookContainer, OrderBookDataMap, find, emplace, store, get_book_level,
  add_book_level,
}
use order_forge_matching_eng.OrderBookData.Sorted.{find-emplace}
use order_forge_matching_eng.OrderBookData.Entries.{store-emplace}
use order_forge_matching_eng.BookSide.{BookSide, add_order}
use order_forge_matching_eng.BookSide.Sweep.{with_levels, with_cont}
use order_forge_matching_eng.BookSide.Fill.{cont_of}

module _ (c : CompFunc) where
  -- The level at a price, a new one if there is none.
  unfoldable pub level_at : OrderBookDataMap → Price → PriceLevel
  level_at m p = elim (find c p m.book_cont) [ some l ↦ l | none ↦ price_level m.symbol p m.side ]

  unfoldable pub put : Price → PriceLevel → OrderBookContainer → OrderBookContainer
  put p l cont = elim (find c p cont) [ some _ ↦ store c p l cont | none ↦ emplace c p l cont ]

  get_book_level_new :
      (m : OrderBookDataMap) (p : Price)
      → find c p m.book_cont ≡ none
      → let fresh = price_level m.symbol p m.side in
        get_book_level c m p ≡ (with_cont (emplace c p fresh m.book_cont) m, fresh)
  unfolding get_book_level add_book_level
  get_book_level_new m p e =
      ground (arith, e, find-emplace c p (price_level m.symbol p m.side) m.book_cont)

  get_book_level_old :
      (m : OrderBookDataMap) (p : Price) (l : PriceLevel)
      → find c p m.book_cont ≡ some l
      → get_book_level c m p ≡ (m, l)
  unfolding get_book_level
  get_book_level_old m p l e = ground arith

  -- A look-up, and a write through the pointer that it returns.
  pub get_book_level-store :
      (m : OrderBookDataMap) (p : Price) (l' : PriceLevel)
      → let r = get_book_level c m p in
        (r.1 ≡ level_at m p)
        × (record r.0 { book_cont = store c p l' r.0.book_cont }
            ≡ with_cont (put p l' m.book_cont) m)
  unfolding level_at put
  get_book_level-store m p l' = elim (Option-cases (find c p m.book_cont)) [
    | inl new ↦ ground (
      arith,
      new,
      get_book_level_new m p new,
      store-emplace c p (price_level m.symbol p m.side) l' m.book_cont new,
    )
    | inr (l, old) ↦ ground (arith, old, get_book_level_old m p l old)
  ]

  pub add_order_lem :
      (b : BookSide) (o : Order)
      → same_side o.side b.side ≡ true
      → o.order_id ≢ 0
      → (level_at b.levels o.price).price ≡ o.price
      → let (l, u) = insert_order (level_at b.levels o.price) o in
        add_order c b o ≡ some (with_levels (put o.price l (cont_of b)) b, u)
  unfolding add_order PriceLevel.add_order
  add_order_lem b o side id at =
      let l = (insert_order (level_at b.levels o.price) o).0 in
      ground (arith, side, get_book_level-store b.levels o.price l)

-- ===== src/OrderBookData.antt =====
-- order_forge/order_book_data.h: `OrderBookDataMap`, a `std::flat_map` from prices to levels. The
-- map holds pointers to levels; here it holds the levels, and `store` writes through a pointer.
pub mod Entries
pub mod Sorted
use order_forge_matching_eng.Common.{
  ◌≡◌, Bool, true, false, if◌then◌else◌, Option, none, some, List, [], ◌∷◌,
}
use order_forge_matching_eng.ScaledInt.{Price}
use order_forge_matching_eng.Enums.{Side, Symbol}
use order_forge_matching_eng.PriceLevel.{PriceLevel, price_level}

-- The template parameter `CompFunc`: a strict order on prices.
pub record CompFunc : Type 0 where
  pub comp : Price → Price → Bool
  pub irrefl : (p : Price) → comp p p ≡ false
  pub trans : (p q r : Price) → comp p q ≡ true → comp q r ≡ true → comp p r ≡ true
  pub total : (p q : Price) → comp p q ≡ false → comp q p ≡ false → p ≡ q

-- `std::flat_map<Price, PriceLvlPtr, CompFunc>`: the entries in the order of their keys.
abbrev pub OrderBookContainer : Type 0
OrderBookContainer = List (Price × PriceLevel)

pub record OrderBookDataMap : Type 0 where
  pub symbol : Symbol
  pub side : Side
  pub tick_size : Price
  pub book_cont : OrderBookContainer

module _ (c : CompFunc) where
  unfoldable pub find : Price → OrderBookContainer → Option PriceLevel
  find price [] = none
  find price ((key, level) ∷ rest) =
      if c.comp key price then find price rest else if c.comp price key then none else some level

  -- An entry with an equivalent key is kept.
  unfoldable pub emplace : Price → PriceLevel → OrderBookContainer → OrderBookContainer
  emplace price level [] = (price, level) ∷ []
  emplace price level ((key, old) ∷ rest) =
      if c.comp key price
      then (key, old) ∷ emplace price level rest
      else if c.comp price key
      then (price, level) ∷ (key, old) ∷ rest
      else (key, old) ∷ rest

  unfoldable pub erase : Price → OrderBookContainer → OrderBookContainer
  erase price [] = []
  erase price ((key, level) ∷ rest) =
      if c.comp key price
      then (key, level) ∷ erase price rest
      else if c.comp price key
      then (key, level) ∷ rest
      else rest

  -- A write through the pointer that the map holds at a price.
  unfoldable pub store : Price → PriceLevel → OrderBookContainer → OrderBookContainer
  store price level [] = []
  store price level ((key, old) ∷ rest) =
      if c.comp key price
      then (key, old) ∷ store price level rest
      else if c.comp price key
      then (key, old) ∷ rest
      else (key, level) ∷ rest

  unfoldable pub add_book_level : OrderBookDataMap → Price → OrderBookDataMap × PriceLevel
  add_book_level m price =
      let fresh = price_level m.symbol price m.side in
      let cont = emplace price fresh m.book_cont in
      let level : PriceLevel = elim (find price cont) [ some l ↦ l | none ↦ fresh ] in
      (record m { book_cont = cont }, level)

  unfoldable pub get_book_level : OrderBookDataMap → Price → OrderBookDataMap × PriceLevel
  get_book_level m price = elim (find price m.book_cont) [
    | some level ↦ (m, level)
    | none ↦ add_book_level m price
  ]

  unfoldable pub remove_book_level : OrderBookDataMap → Price → OrderBookDataMap
  remove_book_level m price = record m { book_cont = erase price m.book_cont }

-- `begin()->first`, at the empty map `none` for the undefined dereference
abbrev pub best_price : OrderBookDataMap → Option Price
best_price m = elim m.book_cont [ [] ↦ none | e ∷ _ ↦ some e.0 ]

abbrev pub empty : OrderBookDataMap → Bool
empty m = elim m.book_cont [ [] ↦ true | _ ∷ _ ↦ false ]

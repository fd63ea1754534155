-- ===== src/OrderBookData/Sorted.antt =====
-- The flat map in key order: what `find`, `emplace`, `erase` and `store` do to a sorted container.
use order_forge_matching_eng.Common.{
  ◌≡◌, refl, true, Option, none, some, [], ◌∷◌, All, All-mono, arith,
}
use order_forge_matching_eng.ScaledInt.{Price}
use order_forge_matching_eng.PriceLevel.{PriceLevel}
use order_forge_matching_eng.OrderBookData.{
  CompFunc, OrderBookContainer, find, emplace, erase, store,
}

module _ (c : CompFunc) where
  -- Every key comes after `p`.
  abbrev pub After : Price → OrderBookContainer → Type 0
  After p = All λ (e : Price × PriceLevel). c.comp p e.0 ≡ true

  abbrev pub Sorted : OrderBookContainer → Type 0
  Sorted [] = Unit {0}
  Sorted ((p, _) ∷ rest) = After p rest × Sorted rest

  pub After-trans :
      (p q : Price) (cont : OrderBookContainer) → c.comp p q ≡ true → After q cont → After p cont
  After-trans p q cont h = All-mono _ _ cont (λ e k. c.trans p q e.0 h k)

  pub After-emplace :
      (p k : Price) (l : PriceLevel) (cont : OrderBookContainer)
      → c.comp k p ≡ true
      → After k cont
      → After k (emplace c p l cont)
  unfolding emplace
  After-emplace p k l [] h a = (h, tt)
  After-emplace p k l ((key, old) ∷ rest) h a = ground (arith, After-emplace p k l rest h)

  pub emplace-Sorted :
      (p : Price) (l : PriceLevel) (cont : OrderBookContainer)
      → Sorted cont
      → Sorted (emplace c p l cont)
  unfolding emplace
  emplace-Sorted p l [] s = (tt, tt)
  emplace-Sorted p l ((key, old) ∷ rest) s =
      ground
        (arith, emplace-Sorted p l rest s.1, After-emplace p key l rest, After-trans p key rest)

  pub After-store :
      (p k : Price) (l : PriceLevel) (cont : OrderBookContainer)
      → After k cont
      → After k (store c p l cont)
  unfolding store
  After-store p k l [] a = tt
  After-store p k l ((key, old) ∷ rest) a = ground (arith, After-store p k l rest a.1)

  pub store-Sorted :
      (p : Price) (l : PriceLevel) (cont : OrderBookContainer)
      → Sorted cont
      → Sorted (store c p l cont)
  unfolding store
  store-Sorted p l [] s = tt
  store-Sorted p l ((key, old) ∷ rest) s =
      ground (arith, store-Sorted p l rest s.1, After-store p key l rest)

  pub After-erase :
      (p k : Price) (cont : OrderBookContainer) → After k cont → After k (erase c p cont)
  unfolding erase
  After-erase p k [] a = tt
  After-erase p k ((key, old) ∷ rest) a = ground (arith, After-erase p k rest a.1)

  pub erase-Sorted : (p : Price) (cont : OrderBookContainer) → Sorted cont → Sorted (erase c p cont)
  unfolding erase
  erase-Sorted p [] s = tt
  erase-Sorted p ((key, old) ∷ rest) s =
      ground (arith, erase-Sorted p rest s.1, After-erase p key rest)

  -- A price before all keys is not found.
  pub find-After : (p : Price) (cont : OrderBookContainer) → After p cont → find c p cont ≡ none
  unfolding find
  find-After p [] a = refl
  find-After p ((key, l) ∷ rest) a = ground (arith, c.trans p key p, c.irrefl p)

  pub find-emplace :
      (p : Price) (l : PriceLevel) (cont : OrderBookContainer)
      → find c p (emplace c p l cont)
        ≡ (elim (find c p cont) as (λ _. Option PriceLevel) [ some old ↦ some old | none ↦ some l ])
  unfolding find emplace
  find-emplace p l [] = ground (arith, c.irrefl p)
  find-emplace p l ((key, old) ∷ rest) = ground (arith, c.irrefl p, find-emplace p l rest)

-- ===== src/OrderBookData/Entries.antt =====
-- Properties of the entries of the flat map, and the level at a price that `get_book_level` makes.
use order_forge_matching_eng.Common.{
  ◌≡◌, ◌⊎◌, sym, true, false, inl, inr, subst, none, some, [], ◌∷◌, All, arith,
}
use order_forge_matching_eng.ScaledInt.{Price}
use order_forge_matching_eng.PriceLevel.{PriceLevel}
use order_forge_matching_eng.OrderBookData.{
  CompFunc, OrderBookContainer, find, emplace, erase, store,
}

-- A key lies before a price, after it, or is that price.
pub three_way :
    (c : CompFunc) (k p : Price)
    → (c.comp k p ≡ true)
      ⊎ ((c.comp k p ≡ false) × (c.comp p k ≡ true))
      ⊎ ((c.comp k p ≡ false) × (c.comp p k ≡ false) × (k ≡ p))
three_way c k p = ground (arith, c.total k p)

module _ (c : CompFunc) (P : Price × PriceLevel → Type 0) where
  -- What is found at a price stands under that very price.
  pub All-find :
      (p : Price) (l : PriceLevel) (cont : OrderBookContainer)
      → All P cont
      → find c p cont ≡ some l
      → P (p, l)
  unfolding find
  All-find p l [] a h = cc
  All-find p l ((k, old) ∷ rest) a h = elim (three_way c k p) [
    | inl before ↦ All-find p l rest a.1 (ground arith)
    | inr (inl after) ↦ absurd (ground arith)
    | inr (inr same) ↦ subst P (ground arith) a.0
  ]

  pub All-store :
      (p : Price) (l : PriceLevel) (cont : OrderBookContainer)
      → All P cont
      → P (p, l)
      → All P (store c p l cont)
  unfolding store
  All-store p l [] a h = tt
  All-store p l ((k, old) ∷ rest) a h = elim (three_way c k p) [
    | inl before ↦ rw before (a.0, All-store p l rest a.1 h)
    | inr (inl after) ↦ rw (after.0, after.1) a
    | inr (inr same) ↦ rw (same.0, same.1) (subst (λ x. P (x, l)) (sym same.2) h, a.1)
  ]

  pub All-emplace :
      (p : Price) (l : PriceLevel) (cont : OrderBookContainer)
      → All P cont
      → P (p, l)
      → All P (emplace c p l cont)
  unfolding emplace
  All-emplace p l [] a h = (h, tt)
  All-emplace p l ((k, old) ∷ rest) a h = elim (three_way c k p) [
    | inl before ↦ rw before (a.0, All-emplace p l rest a.1 h)
    | inr (inl after) ↦ rw (after.0, after.1) (h, a)
    | inr (inr same) ↦ rw (same.0, same.1) a
  ]

  pub All-erase : (p : Price) (cont : OrderBookContainer) → All P cont → All P (erase c p cont)
  unfolding erase
  All-erase p [] a = tt
  All-erase p ((k, old) ∷ rest) a = elim (three_way c k p) [
    | inl before ↦ rw before (a.0, All-erase p rest a.1)
    | inr (inl after) ↦ rw (after.0, after.1) a
    | inr (inr same) ↦ rw (same.0, same.1) a.1
  ]

module _ (c : CompFunc) where
  pub store-emplace :
      (p : Price) (l l' : PriceLevel) (cont : OrderBookContainer)
      → find c p cont ≡ none
      → store c p l' (emplace c p l cont) ≡ emplace c p l' cont
  unfolding find store emplace
  store-emplace p l l' [] h = ground (arith, c.irrefl p)
  store-emplace p l l' ((k, old) ∷ rest) h = ground (arith, c.irrefl p, store-emplace p l l' rest)

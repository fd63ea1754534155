-- ===== src/OrderBook/Sides.antt =====
-- `std::less<>` and `std::greater<>` of order_forge/order_book.h: the orders of the two sides.
use order_forge_matching_eng.Common.{◌≡◌, true, false, arith}
use order_forge_matching_eng.Common.Int.{ltb_ℤ}
use order_forge_matching_eng.ScaledInt.{Price}
use order_forge_matching_eng.OrderBookData.{CompFunc}

pub ltb_irrefl : (p : Price) → ltb_ℤ p p ≡ false
ltb_irrefl p = ground arith

pub ltb_trans : (p q r : Price) → ltb_ℤ p q ≡ true → ltb_ℤ q r ≡ true → ltb_ℤ p r ≡ true
ltb_trans p q r h k = ground arith

pub ltb_total : (p q : Price) → ltb_ℤ p q ≡ false → ltb_ℤ q p ≡ false → p ≡ q
ltb_total p q h k = ground arith

-- `std::less<>`: the asks, cheapest first
abbrev pub less : CompFunc
less = record { comp = ltb_ℤ; irrefl = ltb_irrefl; trans = ltb_trans; total = ltb_total }

-- `std::greater<>`: the bids, dearest first
abbrev pub greater : CompFunc
greater = record {
  comp = λ p q. ltb_ℤ q p;
  irrefl = ltb_irrefl;
  trans = λ p q r h k. ltb_trans r q p k h;
  total = λ p q h k. ltb_total p q k h;
}

-- ===== src/ScaledInt.antt =====
-- order_forge/data_types/scaled_int.h at the two instances of types.h. A `Quantity` is the raw
-- `uint64_t` of a `ScaledInt<uint64_t, 10^8>`, and its arithmetic wraps; a `Price` is the raw
-- `int64_t` of a `ScaledInt<int64_t, 10^2>`, which the engine only compares.
use order_forge_matching_eng.Common.{ℕ, ◌+◌, ◌-◌, ◌%◌, ◌^◌, ◌≤◌, ◌<◌, ◌≡◌, arith}
use order_forge_matching_eng.Common.Int.{ℤ}

abbrev pub Quantity : Type 0
Quantity = ℕ

abbrev pub Price : Type 0
Price = ℤ

abbrev pub u64_mod : ℕ
u64_mod = 2 ^ 64

abbrev pub qty_scale : ℕ
qty_scale = 100_000_000

-- `operator+=` and `operator+`
unfoldable pub add_assign : Quantity → Quantity → Quantity
add_assign a b = (a + b) % u64_mod

-- `operator-=` and `operator-`
unfoldable pub sub_assign : Quantity → Quantity → Quantity
sub_assign a b = (a + u64_mod - b) % u64_mod

pub add_assign-eq : (a b : Quantity) → a + b < u64_mod → add_assign a b ≡ a + b
unfolding add_assign
add_assign-eq a b h = omega arith

pub sub_assign-eq : (a b : Quantity) → a < u64_mod → b ≤ a → sub_assign a b ≡ a - b
unfolding sub_assign
sub_assign-eq a b h k = omega arith

pub add_assign-lt : (a b : Quantity) → add_assign a b < u64_mod
unfolding add_assign
add_assign-lt a b = omega arith

pub sub_assign-lt : (a b : Quantity) → sub_assign a b < u64_mod
unfolding sub_assign
sub_assign-lt a b = omega arith

-- The wrap-around of a subtraction undoes that of an addition, for all 64-bit values.
pub sub_assign-add_assign :
    (a b : Quantity) → a < u64_mod → b < u64_mod → sub_assign (add_assign a b) b ≡ a
unfolding add_assign sub_assign
sub_assign-add_assign a b h k = omega arith

-- ===== src/IdGenerator/Unique.antt =====
-- The ids that a generator gives out are set, and differ from one another, also between days.
use order_forge_matching_eng.Common.{ℕ, zero, suc, ◌+◌, ◌*◌, ◌≤◌, ◌<◌, ◌≡◌, ◌⊎◌, inl, inr, arith}
use order_forge_matching_eng.ScaledInt.{u64_mod}
use order_forge_matching_eng.IdGenerator.{
  Date, IdGenerator, id_generator, generate_id, get_current_datetime, counter_space,
}

-- The generator after `n` calls, and the id that the call after them returns.
unfoldable pub after : ℕ → IdGenerator → IdGenerator
after zero g = g
after (suc n) g = after n (generate_id g).0

abbrev pub nth_id : ℕ → IdGenerator → ℕ
nth_id n g = (generate_id (after n g)).1

nth_id-eq : (n : ℕ) (g : IdGenerator) → g.counter + n + 1 < u64_mod → nth_id n g ≡ g.counter + n + 1
unfolding after generate_id
nth_id-eq zero g h = omega arith
nth_id-eq (suc n) g h = ground (arith, nth_id-eq n (generate_id g).0)

-- The date as `YYYYMMDD`.
abbrev pub date_number : Date → ℕ
date_number d = d.year * 10000 + d.month * 100 + d.day

-- A date as the clock gives it, in a year that fits.
pub record IsDate (d : Date) : Type 0 where
  pub month : d.month ≤ 12
  pub day : d.day ≤ 31
  pub year : d.year < 1_800_000

id_generator-eq : (d : Date) → IsDate d → (id_generator d).counter ≡ date_number d * counter_space
unfolding id_generator get_current_datetime
id_generator-eq d v =
    let small : date_number d < 18_000_100_000 = omega (arith, v.month, v.day, v.year) in
    omega (arith, small)

-- For dates in years below 1,800,000 and at most 10^9 calls a day: the ids of a generator are not
-- 0 and grow with each call, and those of an earlier day are below those of a later one.
pub nth_id-grows :
    (d e : Date) (n m : ℕ)
    → IsDate d
    → IsDate e
    → n < counter_space
    → m < counter_space
    → (date_number d < date_number e) ⊎ ((date_number d ≡ date_number e) × (n < m))
    → (0 < nth_id n (id_generator d)) × (nth_id n (id_generator d) < nth_id m (id_generator e))
nth_id-grows d e n m v w h k order =
    let small : date_number d < 18_000_100_000 = omega (arith, v.month, v.day, v.year) in
    let small' : date_number e < 18_000_100_000 = omega (arith, w.month, w.day, w.year) in
    let first = nth_id-eq n (id_generator d) (omega (arith, id_generator-eq d v, small)) in
    let second = nth_id-eq m (id_generator e) (omega (arith, id_generator-eq e w, small')) in
    (
      omega (arith, first),
      elim order [
        | inl earlier ↦ omega (arith, first, second, id_generator-eq d v, id_generator-eq e w)
        | inr (same, less) ↦ omega (arith, first, second, id_generator-eq d v, id_generator-eq e w)
      ],
    )

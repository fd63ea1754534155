-- ===== src/IdGenerator.antt =====
-- order_forge/data_types/id_generator.h: a counter that starts at the date, as `YYYYMMDD`, times
-- `COUNTER_SPACE`. The local date is an argument, since the clock is the system's.
pub mod Unique
use order_forge_matching_eng.Common.{ℕ, ◌+◌, ◌*◌, ◌%◌}
use order_forge_matching_eng.ScaledInt.{u64_mod}

abbrev pub counter_space : ℕ
counter_space = 1_000_000_000

-- `now_tm` after the offsets of `tm_year` and `tm_mon` are added
pub record Date : Type 0 where
  pub year : ℕ
  pub month : ℕ
  pub day : ℕ

pub record IdGenerator : Type 0 where
  pub counter : ℕ

unfoldable pub get_current_datetime : Date → ℕ
get_current_datetime d = (d.year * 10000 + d.month * 100 + d.day) % u64_mod

unfoldable pub id_generator : Date → IdGenerator
id_generator d = record { counter = (get_current_datetime d * counter_space) % u64_mod }

-- `++counter_`: the new state and the id
unfoldable pub generate_id : IdGenerator → IdGenerator × ℕ
generate_id g = let next = (g.counter + 1) % u64_mod in (record { counter = next }, next)

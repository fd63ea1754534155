-- ===== src/HashLinkedList/Index.antt =====
-- `tsl::robin_map` from ids to nodes, which order_forge/data_types/hashed_linked_list.h uses: what
-- its documentation says of `find`, `emplace`, `erase` and `size`.
use order_forge_matching_eng.Common.{ℕ, ◌+◌, ◌≡◌, ◌==◌, if◌then◌else◌, Option, none, some}
use order_forge_matching_eng.PoolAllocator.{Address}

pub record RobinMap : Type 1 where
  pub Map : Type 0
  pub empty : Map
  pub find : ℕ → Map → Option Address
  pub emplace : ℕ → Address → Map → Map
  pub erase : ℕ → Map → Map
  pub size : Map → ℕ
  pub find-empty : (k : ℕ) → find k empty ≡ none
  pub size-empty : size empty ≡ 0
  pub find-emplace :
      (k j : ℕ) (a : Address) (m : Map)
      → find k m ≡ none
      → find j (emplace k a m) ≡ (if k == j then some a else find j m)
  pub size-emplace :
      (k : ℕ) (a : Address) (m : Map) → find k m ≡ none → size (emplace k a m) ≡ size m + 1
  pub find-erase : (k j : ℕ) (m : Map) → find j (erase k m) ≡ (if k == j then none else find j m)
  pub size-erase :
      (k : ℕ) (a : Address) (m : Map) → find k m ≡ some a → size m ≡ size (erase k m) + 1

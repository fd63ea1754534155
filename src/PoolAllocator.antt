-- ===== src/PoolAllocator.antt =====
-- order_forge/data_types/pool_allocator.h: the free list of the nodes. An element is named by its
-- block and its place in the block; the memory that `operator new[]` returns is fresh.
pub mod Fresh
use order_forge_matching_eng.Common.{
  ℕ, zero, suc, ◌*◌, ◌%◌, length, ltb, max, if◌then◌else◌, Option, none, some, List, [], ◌∷◌, ◌++◌,
}
use order_forge_matching_eng.ScaledInt.{u64_mod}

pub record Address : Type 0 where
  pub block : ℕ
  pub index : ℕ

-- `pool_blocks_` as the number of elements of each block; `free_list_` with its back first.
pub record PoolAllocator : Type 0 where
  pub pool_size : ℕ
  pub pool_blocks : List ℕ
  pub free_list : List Address

-- The elements of a block, the last one first.
unfoldable pub block_elements : (block n : ℕ) → List Address
block_elements block zero = []
block_elements block (suc i) = record { block = block; index = i } ∷ block_elements block i

unfoldable pub expand_pool : ℕ → PoolAllocator → PoolAllocator
expand_pool n p =
    let new_pool_size = max p.pool_size n in
    record {
      pool_size = (new_pool_size * 2) % u64_mod;
      pool_blocks = p.pool_blocks ++ new_pool_size ∷ [];
      free_list = block_elements (length p.pool_blocks) new_pool_size ++ p.free_list;
    }

unfoldable pub pool_allocator : (initial_size : ℕ) → PoolAllocator
pool_allocator initial_size =
    expand_pool initial_size (record { pool_size = initial_size; pool_blocks = []; free_list = [] })

-- `back()` and `pop_back()`; `none` is the undefined `back()` of an empty list.
unfoldable pub take_back : PoolAllocator → Option (PoolAllocator × Address)
take_back p = elim p.free_list [
  | [] ↦ none
  | address ∷ rest ↦ some (record p { free_list = rest }, address)
]

unfoldable pub allocate : ℕ → PoolAllocator → Option (PoolAllocator × Address)
allocate n p = take_back (if ltb (length p.free_list) n then expand_pool n p else p)

unfoldable pub deallocate : Address → PoolAllocator → PoolAllocator
deallocate address p = record p { free_list = address ∷ p.free_list }

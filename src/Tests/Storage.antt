-- ===== src/Tests/Storage.antt =====
-- The theorems on the pool and the ring buffer at concrete inputs.
use order_forge_matching_eng.Common.{◌+◌, ◌≡◌, some, [], ◌∷◌, ◌++◌, arith}
use order_forge_matching_eng.Common.{refl, true, All, ℕ, ◌≤◌, ◌≢◌, ap, inl}
use order_forge_matching_eng.PoolAllocator.{
  Address, PoolAllocator, expand_pool, block_elements, pool_allocator, allocate, deallocate,
}
use order_forge_matching_eng.PoolAllocator.Fresh
use order_forge_matching_eng.PoolAllocator.Fresh.{allocate-deallocate}
use order_forge_matching_eng.RingBuffer.{
  Pointer, RingBuffer, ring_buffer, get_write_pointer, forward_write_pointer,
}
use order_forge_matching_eng.RingBuffer.Fifo
use order_forge_matching_eng.RingBuffer.{
  can_read, get_read_pointer, forward_read_pointer, make_room, check_wrap_read_pointer,
}
use order_forge_matching_eng.RingBuffer.Lost.{read_on, can_read-stuck}
use order_forge_matching_eng.RingBuffer.Fifo.{ring_buffer-Inv}
use order_forge_matching_eng.RingBuffer.Write.{write-Inv}
use order_forge_matching_eng.RingBuffer.Read.{Reads, read-Inv}

-- A pool of two elements, both free.
abbrev pool : PoolAllocator
pool = pool_allocator 2

pool-Inv : Fresh.Inv pool []
unfolding pool_allocator expand_pool block_elements
pool-Inv = record {
  distinct = (
    ((λ e. (let i : 1 ≡ 0 = ap (λ (a : Address). a.index) e in absurd (omega (arith, i)))), tt),
    (tt, tt),
  );
  known = (omega arith, (omega arith, tt));
}

pool_example :
    (p' : PoolAllocator) × (a : Address) × (allocate 3 pool ≡ some (p', a))
    × All (λ b. a ≢ b) []
    × Fresh.Inv p' (a ∷ [])
    × Fresh.Inv (deallocate a p') []
pool_example = allocate-deallocate 3 pool [] pool-Inv (omega arith)

-- A buffer of five blocks of 100, and after a write of 40.
abbrev buffer : RingBuffer
buffer = ring_buffer 100 5

write_example :
    let (r', p) = get_write_pointer 40 buffer in
    Fifo.Inv (forward_write_pointer 40 r') ([] ++ (p, 40) ∷ [])
    × (p.offset + 40 ≤ buffer.mem_block_size)
unfolding ring_buffer
write_example =
    write-Inv buffer [] 40 (ring_buffer-Inv 100 5 (omega arith) (omega arith)) (omega arith)
      (omega arith) (inl (omega arith))

abbrev written : RingBuffer
written = forward_write_pointer 40 (get_write_pointer 40 buffer).0

abbrev chunk : Pointer × ℕ
chunk = ((get_write_pointer 40 buffer).1, 40)

written-Inv : Fifo.Inv written (chunk ∷ [])
unfolding ring_buffer
written-Inv =
    (write-Inv buffer [] 40 (ring_buffer-Inv 100 5 (omega arith) (omega arith)) (omega arith)
      (omega arith) (inl (omega arith))).0

read_example : Reads written (chunk ∷ [])
read_example = read-Inv written (chunk ∷ []) written-Inv

-- A third block is begun while the reader is in the first.
abbrev write_60 : RingBuffer → RingBuffer
write_60 r = forward_write_pointer 60 (get_write_pointer 60 r).0

abbrev far_ahead : RingBuffer
far_ahead =
    forward_read_pointer 60
      (get_read_pointer (can_read (write_60 (write_60 (write_60 buffer)))).0).0

-- The chunk that is lost stands at the start of block 2, but the reader goes on in block 1.
stuck_example :
    ((can_read (read_on (60 ∷ []) (can_read far_ahead).0)).1 ≡ true)
    × ((get_read_pointer (can_read (read_on (60 ∷ []) (can_read far_ahead).0)).0).1.block ≡ 1)
unfolding ring_buffer get_write_pointer make_room forward_write_pointer can_read get_read_pointer
    check_wrap_read_pointer forward_read_pointer
stuck_example = can_read-stuck (60 ∷ []) far_ahead (omega arith) refl (λ e. omega (arith, e))

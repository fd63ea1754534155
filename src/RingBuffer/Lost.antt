-- ===== src/RingBuffer/Lost.antt =====
-- A writer that is two blocks ahead, in a buffer of more than two blocks.
use order_forge_matching_eng.Common.{
  ℕ, ◌+◌, ◌%◌, ◌<◌, ◌≡◌, ◌≢◌, refl, sym, ◌∙◌, ap, true, List, [], ◌∷◌, arith,
}
use order_forge_matching_eng.RingBuffer.{
  RingBuffer, set_end, check_wrap_read_pointer, can_read, get_read_pointer, forward_read_pointer,
}

-- The reader after it has read chunks of the lengths, while nobody writes.
unfoldable pub read_on : List ℕ → RingBuffer → RingBuffer
read_on [] r = r
read_on (n ∷ ns) r = read_on ns (forward_read_pointer n (get_read_pointer (can_read r).0).0)

-- The reader's block has no end, and the writer is elsewhere.
record Stuck (b : ℕ) (r : RingBuffer) : Type 0 where
  here : r.read_block_index ≡ b
  unclosed : r.mem_blocks_end b ≡ 0
  elsewhere : r.write_block_index ≢ b

stays : (b : ℕ) (r : RingBuffer) → Stuck b r → check_wrap_read_pointer r ≡ r
unfolding check_wrap_read_pointer
stays b r k =
    let e : r.mem_blocks_end r.read_block_index ≡ 0 = ap r.mem_blocks_end k.here ∙ k.unclosed in
    ground (arith, e)

Stuck-read :
    (b n : ℕ) (r : RingBuffer)
    → Stuck b r
    → Stuck b (forward_read_pointer n (get_read_pointer (can_read r).0).0)
unfolding can_read get_read_pointer forward_read_pointer
Stuck-read b n r k =
    rw (stays b r k, stays b r k)
      (record { here = k.here; unclosed = k.unclosed; elsewhere = k.elsewhere })

Stuck-finds :
    (b : ℕ) (ns : List ℕ) (r : RingBuffer)
    → Stuck b r
    → ((can_read (read_on ns r)).1 ≡ true)
      × ((get_read_pointer (can_read (read_on ns r)).0).1.block ≡ b)
unfolding read_on can_read get_read_pointer
Stuck-finds b [] r k =
    let apart : r.read_block_index ≢ r.write_block_index = λ e. k.elsewhere (sym e ∙ k.here) in
    rw (stays b r k, stays b r k) (ground (arith, apart), k.here)
Stuck-finds b (n ∷ ns) r k =
    Stuck-finds b ns (forward_read_pointer n (get_read_pointer (can_read r).0).0)
      (Stuck-read b n r k)

-- Let a reader be at the end of its closed block and the writer not be in the next block, but further
-- ahead. Then the reader goes to the next block and forgets where it ends: whatever lengths it reads
-- there while the writer stays, it is told that there is more, and is sent into that same block.
pub can_read-stuck :
    (ns : List ℕ) (r : RingBuffer)
    → 0 < r.mem_blocks_end r.read_block_index
    → r.read_ptr_offset ≡ r.mem_blocks_end r.read_block_index
    → r.write_block_index ≢ (r.read_block_index + 1) % r.no_blocks
    → ((can_read (read_on ns (can_read r).0)).1 ≡ true)
      × ((get_read_pointer (can_read (read_on ns (can_read r).0)).0).1.block
          ≡ (r.read_block_index + 1) % r.no_blocks)
unfolding can_read check_wrap_read_pointer
can_read-stuck ns r closed at_end far =
    let next = (r.read_block_index + 1) % r.no_blocks in
    let moved : RingBuffer = record r {
      read_block_index = next;
      read_ptr_offset = 0;
      mem_blocks_end = set_end next 0 r.mem_blocks_end;
    } in
    let moves : (can_read r).0 ≡ moved = ground (arith, closed, at_end) in
    rw moves
      (Stuck-finds next ns moved (record { here = refl; unclosed = ground arith; elsewhere = far }))

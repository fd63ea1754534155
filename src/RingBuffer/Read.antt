-- ===== src/RingBuffer/Read.antt =====
-- `can_read`, `get_read_pointer` and `forward_read_pointer`, as the logger calls them in turn.
use order_forge_matching_eng.Common.{
  ℕ, ◌+◌, ◌%◌, ◌<◌, ◌≡◌, ◌≢◌, refl, true, false, inl, inr, [], ◌∷◌, ◌++◌, sym, ap, subst, ◌∙◌,
  arith,
}
use order_forge_matching_eng.ScaledInt.{u64_mod}
use order_forge_matching_eng.RingBuffer.{
  Pointer, RingBuffer, set_end, check_wrap_read_pointer, can_read, get_read_pointer,
  forward_read_pointer,
}
use order_forge_matching_eng.RingBuffer.Fifo.{
  Chunks, Tiles, Tiles-le, next_block, Together, Ahead, Inv,
}

-- What a reader finds: nothing, or the first chunk, after which the rest is left.
abbrev pub Reads : RingBuffer → Chunks → Type 0
Reads r [] = (can_read r).1 ≡ false
Reads r ((p, n) ∷ chunks) =
    ((can_read r).1 ≡ true)
    × ((get_read_pointer (can_read r).0).1 ≡ p)
    × Inv (forward_read_pointer n (get_read_pointer (can_read r).0).0) chunks

-- The reader is where the next chunk stands, if there is one.
abbrev Settled : RingBuffer → Type 0
Settled r = check_wrap_read_pointer r ≡ r

module _ (r : RingBuffer) where
  unclosed_stays : r.mem_blocks_end r.read_block_index ≡ 0 → Settled r
  unfolding check_wrap_read_pointer
  unclosed_stays e = ground (arith, e)

  inside_stays : r.read_ptr_offset < r.mem_blocks_end r.read_block_index → Settled r
  unfolding check_wrap_read_pointer
  inside_stays h = ground (arith, h)

  Reads-same :
      (q : RingBuffer) (chunks : Chunks)
      → check_wrap_read_pointer r ≡ check_wrap_read_pointer q
      → Reads q chunks
      → Reads r chunks
  unfolding can_read get_read_pointer
  Reads-same q [] e h = rw e h
  Reads-same q ((p, n) ∷ chunks) e h = rw e h

  read_same_block : (chunks : Chunks) → Inv r chunks → Together r chunks → Reads r chunks
  unfolding can_read get_read_pointer forward_read_pointer
  read_same_block [] v t = rw (unclosed_stays t.unclosed) (ground (arith, t.same, t.tiles))
  read_same_block ((p, n) ∷ chunks) v t =
      let le =
        Tiles-le r.read_block_index (r.read_ptr_offset + n) r.write_ptr_offset chunks t.tiles.2 in
      let to : (r.read_ptr_offset + n) % u64_mod ≡ r.read_ptr_offset + n =
        omega (arith, v.size, v.inside, le) in
      rw (unclosed_stays t.unclosed, unclosed_stays t.unclosed)
        (
          ground (arith, t.same, le, t.tiles.1),
          sym t.tiles.0,
          record {
            many = v.many;
            block = v.block;
            size = v.size;
            inside = v.inside;
            ends = v.ends;
            place = inl (record { same = t.same; unclosed = t.unclosed; tiles = rw to t.tiles.2 });
          },
        )

  read_other_block :
      (p : Pointer) (n : ℕ) (mine others : Chunks)
      → Inv r (((p, n) ∷ mine) ++ others)
      → r.write_block_index ≡ (r.read_block_index + 1) % r.no_blocks
      → Tiles r.read_block_index r.read_ptr_offset
          (r.mem_blocks_end r.read_block_index)
          ((p, n) ∷ mine)
      → Tiles r.write_block_index 0 r.write_ptr_offset others
      → Reads r (((p, n) ∷ mine) ++ others)
  unfolding can_read get_read_pointer forward_read_pointer
  read_other_block p n mine others v next t u =
      let le = Tiles-le r.read_block_index (r.read_ptr_offset + n) _ mine t.2 in
      let to : (r.read_ptr_offset + n) % u64_mod ≡ r.read_ptr_offset + n =
        omega (arith, v.size, v.ends, le) in
      let still = inside_stays (omega (arith, le, t.1)) in
      let apart : r.write_block_index ≢ r.read_block_index =
        λ same. (next_block r.read_block_index r.no_blocks v.many v.block).1 (sym next ∙ same) in
      rw (still, still)
        (
          ground (arith, apart),
          sym t.0,
          record {
            many = v.many;
            block = v.block;
            size = v.size;
            inside = v.inside;
            ends = v.ends;
            place = inr (record {
              others = others;
              mine = mine;
              all = refl;
              next = next;
              closed = omega (arith, le, t.1);
              my_tiles = rw to t.2;
              their_tiles = u;
            });
          },
        )

  moved : RingBuffer
  moved = record r {
    read_block_index = (r.read_block_index + 1) % r.no_blocks;
    read_ptr_offset = 0;
    mem_blocks_end = set_end ((r.read_block_index + 1) % r.no_blocks) 0 r.mem_blocks_end;
  }

  moved-end : moved.mem_blocks_end moved.read_block_index ≡ 0
  unfolding moved
  moved-end = ground arith

  moved_lem :
      0 < r.mem_blocks_end r.read_block_index
      → r.read_ptr_offset ≡ r.mem_blocks_end r.read_block_index
      → check_wrap_read_pointer r ≡ moved
  unfolding check_wrap_read_pointer moved
  moved_lem closed at_end = ground (arith, closed, at_end)

-- The reader is at the end of its block and goes to the writer's.
read_moved :
    (r : RingBuffer) (others : Chunks)
    → Inv r others
    → r.write_block_index ≡ (r.read_block_index + 1) % r.no_blocks
    → 0 < r.mem_blocks_end r.read_block_index
    → r.read_ptr_offset ≡ r.mem_blocks_end r.read_block_index
    → Tiles r.write_block_index 0 r.write_ptr_offset others
    → Reads r others
unfolding moved
read_moved r others v next closed at_end u =
    let to : (r.read_block_index + 1) % r.no_blocks ≡ r.write_block_index = sym next in
    let t : Together (moved r) others = record {
      same = to;
      unclosed = moved-end r;
      tiles = rw to u;
    } in
    let w : Inv (moved r) others = record {
      many = v.many;
      block = (next_block r.read_block_index r.no_blocks v.many v.block).0;
      size = v.size;
      inside = v.inside;
      ends = omega (arith, moved-end r);
      place = inl t;
    } in
    Reads-same r (moved r) others
      (moved_lem r closed at_end ∙ sym (unclosed_stays (moved r) (moved-end r)))
      (read_same_block (moved r) others w t)

-- Let a buffer of two blocks or more, each below 2^63 bytes, hold `chunks`, its writer in the reader's
-- block or in the next one. It reads as they stand: with none left there is nothing to read, and otherwise the reader may read, is sent to the first chunk, and once it moves on by
-- that chunk's length the buffer holds the others.
pub read-Inv : (r : RingBuffer) (chunks : Chunks) → Inv r chunks → Reads r chunks
read-Inv r chunks v = elim v.place [
  | inl t ↦ read_same_block r chunks v t
  | inr a ↦ go a a.mine refl
]
  where
    go : (a : Ahead r chunks) (mine : Chunks) → a.mine ≡ mine → Reads r chunks
    go a [] e =
        let all : chunks ≡ a.others = a.all ∙ ap (λ (m : Chunks). m ++ a.others) e in
        let t =
          subst (Tiles r.read_block_index r.read_ptr_offset (r.mem_blocks_end r.read_block_index)) e
            a.my_tiles in
        subst (Reads r) (sym all)
          (read_moved r a.others (subst (Inv r) all v) a.next a.closed t a.their_tiles)
    go a ((p, n) ∷ mine) e =
        let all : chunks ≡ ((p, n) ∷ mine) ++ a.others =
          a.all ∙ ap (λ (m : Chunks). m ++ a.others) e in
        let t =
          subst (Tiles r.read_block_index r.read_ptr_offset (r.mem_blocks_end r.read_block_index)) e
            a.my_tiles in
        subst (Reads r) (sym all)
          (read_other_block r p n mine a.others (subst (Inv r) all v) a.next t a.their_tiles)

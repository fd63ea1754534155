-- ===== src/RingBuffer/Write.antt =====
-- `get_write_pointer` and `forward_write_pointer`, as the logger calls them one after the other.
use order_forge_matching_eng.Common.{
  ℕ, ◌+◌, ◌%◌, ◌<◌, ◌≤◌, ◌≡◌, ◌⊎◌, refl, ltb, inl, inr, Bool-cases, [], ◌∷◌, ◌++◌, append_assoc,
  append-nil, sym, ap, ◌∙◌, arith,
}
use order_forge_matching_eng.ScaledInt.{u64_mod}
use order_forge_matching_eng.RingBuffer.{
  Pointer, RingBuffer, set_end, make_room, get_write_pointer, forward_write_pointer,
}
use order_forge_matching_eng.RingBuffer.Fifo.{Chunks, Tiles-append, next_block, Inv}

module _ (r : RingBuffer) (chunks : Chunks) (n : ℕ) (v : Inv r chunks) (h : 0 < n) where
  here : Pointer
  here = record { block = r.write_block_index; offset = r.write_ptr_offset }

  forward-Inv :
      r.write_ptr_offset + n ≤ r.mem_block_size
      → Inv (forward_write_pointer n r) (chunks ++ (here, n) ∷ [])
  unfolding forward_write_pointer here
  forward-Inv fits =
      let to : (n + r.write_ptr_offset) % u64_mod ≡ n + r.write_ptr_offset =
        omega (arith, v.size) in
      record {
        many = v.many;
        block = v.block;
        size = v.size;
        inside = omega (arith, to);
        ends = v.ends;
        place = elim v.place [
          | inl t ↦ inl (record {
            same = t.same;
            unclosed = t.unclosed;
            tiles =
                rw (to, ← t.same)
                  (Tiles-append r.read_block_index r.read_ptr_offset r.write_ptr_offset n chunks
                    t.tiles h);
          })
          | inr a ↦ inr (record {
            others = a.others ++ (here, n) ∷ [];
            mine = a.mine;
            all =
                ap (λ (c : Chunks). c ++ (here, n) ∷ []) a.all
                ∙ append_assoc a.mine a.others ((here, n) ∷ []);
            next = a.next;
            closed = a.closed;
            my_tiles = a.my_tiles;
            their_tiles =
                rw to (
                  Tiles-append r.write_block_index 0 r.write_ptr_offset n a.others a.their_tiles h);
          })
        ];
      }

  closed_block : RingBuffer
  closed_block = record r {
    mem_blocks_end = set_end r.write_block_index r.write_ptr_offset r.mem_blocks_end;
    write_block_index = (r.write_block_index + 1) % r.no_blocks;
    write_ptr_offset = 0;
  }

  closed_block-Inv :
      r.read_block_index ≡ r.write_block_index → 0 < r.write_ptr_offset → Inv closed_block chunks
  unfolding closed_block
  closed_block-Inv same some =
      let end : set_end r.write_block_index r.write_ptr_offset r.mem_blocks_end r.read_block_index
          ≡ r.write_ptr_offset =
        ground (arith, same) in
      record {
        many = v.many;
        block = v.block;
        size = v.size;
        inside = omega arith;
        ends = omega (arith, end, v.inside);
        place = elim v.place [
          | inl t ↦ inr (record {
            others = [];
            mine = chunks;
            all = sym (append-nil chunks);
            next = ap (λ b. (b + 1) % r.no_blocks) (sym same);
            closed = omega (arith, end);
            my_tiles = rw end t.tiles;
            their_tiles = refl;
          })
          | inr a ↦
              absurd (
                (next_block r.read_block_index r.no_blocks v.many v.block).1
                  (sym a.next ∙ sym same))
        ];
      }

-- Let a buffer of two blocks or more, each below 2^63 bytes, hold `chunks`, its writer in the reader's
-- block or in the next one. A write of a positive length that fits a block, and that does not take the
-- writer two blocks ahead of the reader, adds its chunk at the end and stays inside its block.
pub write-Inv :
    (r : RingBuffer) (chunks : Chunks) (n : ℕ)
    → Inv r chunks
    → 0 < n
    → n ≤ r.mem_block_size
    → (r.write_ptr_offset + n ≤ r.mem_block_size) ⊎ (r.read_block_index ≡ r.write_block_index)
    → let (r', p) = get_write_pointer n r in
      Inv (forward_write_pointer n r') (chunks ++ (p, n) ∷ []) × (p.offset + n ≤ r.mem_block_size)
unfolding get_write_pointer make_room forward_write_pointer here closed_block
write-Inv r chunks n v h k room =
    elim (Bool-cases (ltb r.mem_block_size ((r.write_ptr_offset + n) % u64_mod))) [
      | inl full ↦
          let tight : r.mem_block_size < r.write_ptr_offset + n =
            ground (arith, full, v.size, v.inside) in
          let same : r.read_block_index ≡ r.write_block_index = elim room [
            | inl fits ↦ absurd (omega (arith, fits, tight))
            | inr same ↦ same
          ] in
          let closed = closed_block-Inv r chunks n v h same (omega (arith, tight)) in
          rw full (
            forward-Inv (closed_block r chunks n v h) chunks n closed h (omega (arith, k)),
            omega (arith, k),
          )
      | inr fits ↦
          let loose : r.write_ptr_offset + n ≤ r.mem_block_size =
            ground (arith, fits, v.size, v.inside) in
          rw fits (forward-Inv r chunks n v h loose, loose)
    ]

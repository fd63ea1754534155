-- ===== src/RingBuffer/Fifo.antt =====
-- What a buffer holds whose writer is in the reader's block or in the next one: the chunks from the
-- reader to the writer.
use order_forge_matching_eng.Common.{
  ℕ, ◌+◌, ◌*◌, ◌%◌, ◌<◌, ◌≤◌, ◌≡◌, ◌≢◌, ◌⊎◌, refl, inl, inr, Bool-cases, ltb, ◌∙◌, List, [], ◌∷◌,
  ◌++◌, sym, ap, arith,
}
use native.Mathlib.Nat.{mod-eq_of_lt, mod_self}
use order_forge_matching_eng.ScaledInt.{u64_mod}
use order_forge_matching_eng.RingBuffer.{ring_buffer, Pointer, RingBuffer}

-- What is written and not yet read: where it stands and how long it is.
abbrev pub Chunks : Type 0
Chunks = List (Pointer × ℕ)

-- The chunks fill a block from one offset to another.
abbrev pub Tiles : (block from to : ℕ) → Chunks → Type 0
Tiles block from to [] = from ≡ to
Tiles block from to ((p, n) ∷ chunks) =
    (p ≡ record { block = block; offset = from }) × (0 < n) × Tiles block (from + n) to chunks

-- Reader and writer are in one block.
pub record Together (r : RingBuffer) (chunks : Chunks) : Type 0 where
  pub same : r.read_block_index ≡ r.write_block_index
  pub unclosed : r.mem_blocks_end r.read_block_index ≡ 0
  pub tiles : Tiles r.read_block_index r.read_ptr_offset r.write_ptr_offset chunks

-- The writer has closed the reader's block and is in the next one.
pub record Ahead (r : RingBuffer) (chunks : Chunks) : Type 0 where
  pub others : Chunks
  pub mine : Chunks
  pub all : chunks ≡ mine ++ others
  pub next : r.write_block_index ≡ (r.read_block_index + 1) % r.no_blocks
  pub closed : 0 < r.mem_blocks_end r.read_block_index
  pub my_tiles :
      Tiles r.read_block_index r.read_ptr_offset (r.mem_blocks_end r.read_block_index) mine
  pub their_tiles : Tiles r.write_block_index 0 r.write_ptr_offset others

pub record Inv (r : RingBuffer) (chunks : Chunks) : Type 0 where
  pub many : 2 ≤ r.no_blocks
  pub block : r.read_block_index < r.no_blocks
  pub size : r.mem_block_size * 2 < u64_mod
  pub inside : r.write_ptr_offset ≤ r.mem_block_size
  pub ends : r.mem_blocks_end r.read_block_index ≤ r.mem_block_size
  pub place : Together r chunks ⊎ Ahead r chunks

-- Of two blocks or more, the one behind a block is another one of them.
pub next_block : (b n : ℕ) → 2 ≤ n → b < n → ((b + 1) % n < n) × ((b + 1) % n ≢ b)
next_block b n many less = elim (Bool-cases (ltb (b + 1) n)) [
  | inl inner ↦
      let e : (b + 1) % n ≡ b + 1 = mod-eq_of_lt (ground (arith, inner)) in
      (ground (arith, e, inner), λ same. absurd (omega (arith, e, same)))
  | inr outer ↦
      let last : b + 1 ≡ n = ground (arith, outer, less) in
      let e : (b + 1) % n ≡ 0 = ap (λ m. m % n) last ∙ mod_self n in
      (omega (arith, e, many), λ same. absurd (omega (arith, e, same, last, many)))
]

pub Tiles-le : (b from to : ℕ) (chunks : Chunks) → Tiles b from to chunks → from ≤ to
Tiles-le b from to [] t = omega (arith, t)
Tiles-le b from to ((p, n) ∷ chunks) t = omega (arith, Tiles-le b (from + n) to chunks t.2)

pub Tiles-append :
    (b from to n : ℕ) (chunks : Chunks)
    → Tiles b from to chunks
    → 0 < n
    → Tiles b from (n + to) (chunks ++ (record { block = b; offset = to }, n) ∷ [])
Tiles-append b from to n [] t h =
    (ap (λ (x : ℕ). record { block = b; offset = x }) (sym t), h, omega (arith, t))
Tiles-append b from to n ((p, m) ∷ chunks) t h =
    (t.0, t.1, Tiles-append b (from + m) to n chunks t.2 h)

-- A buffer that is just made holds nothing.
pub ring_buffer-Inv :
    (mem_block_size no_blocks : ℕ)
    → mem_block_size * 2 < u64_mod
    → 2 ≤ no_blocks
    → Inv (ring_buffer mem_block_size no_blocks) []
unfolding ring_buffer
ring_buffer-Inv mem_block_size no_blocks h many = record {
  many = many;
  block = omega (arith, many);
  size = h;
  inside = omega arith;
  ends = omega arith;
  place = inl (record { same = refl; unclosed = refl; tiles = refl });
}

-- ===== src/Logger/Writes.antt =====
-- An entry that is logged leaves those before it in place.
use Prim.Native.String.{String}
use order_forge_matching_eng.Common.{
  ℕ, ◌+◌, ◌%◌, ◌<◌, ◌≤◌, ◌≡◌, ◌≢◌, ◌⊎◌, refl, sym, ◌∙◌, ap, subst, true, false, inl, inr,
  if◌then◌else◌, Option, some, [], ◌∷◌, ◌++◌, All, All-append, All-append_right, All-mono, arith,
}
use order_forge_matching_eng.RingBuffer.{Pointer, RingBuffer, get_write_pointer}
use order_forge_matching_eng.RingBuffer.Fifo.{Chunks, Tiles, next_block}
use order_forge_matching_eng.RingBuffer.Fifo
use order_forge_matching_eng.RingBuffer.Write.{write-Inv}
use order_forge_matching_eng.Logger.{
  LogType, log_type_value, Sizes, LogStruct, LogInfo, Logger, same_pointer, write_buffer,
}
use order_forge_matching_eng.Logger.Drains.{Entries, Stored}

-- No pointer stands twice.
abbrev Apart : Chunks → Type 0
Apart [] = Unit {0}
Apart (c ∷ chunks) = All (λ (d : Pointer × ℕ). same_pointer c.0 d.0 ≡ false) chunks × Apart chunks

Tiles-known :
    (b from to : ℕ) (chunks : Chunks)
    → Tiles b from to chunks
    → All (λ (c : Pointer × ℕ). (c.0.block ≡ b) × (from ≤ c.0.offset)) chunks
Tiles-known b from to [] t = tt
Tiles-known b from to ((p, n) ∷ chunks) t =
    let block : p.block ≡ b = ap (λ (q : Pointer). q.block) t.0 in
    let offset : p.offset ≡ from = ap (λ (q : Pointer). q.offset) t.0 in
    (
      (block, omega (arith, offset)),
      All-mono _ _ chunks (λ c k. (k.0, omega (arith, k.1)))
          (Tiles-known b (from + n) to chunks t.2),
    )

Tiles-Apart : (b from to : ℕ) (chunks : Chunks) → Tiles b from to chunks → Apart chunks
Tiles-Apart b from to [] t = tt
Tiles-Apart b from to ((p, n) ∷ chunks) t =
    let offset : p.offset ≡ from = ap (λ (q : Pointer). q.offset) t.0 in
    (
      All-mono _ _ chunks (λ c k. ground (arith, offset, t.1, k.1))
          (Tiles-known b (from + n) to chunks t.2),
      Tiles-Apart b (from + n) to chunks t.2,
    )

Apart-append :
    (xs ys : Chunks) (b c : ℕ)
    → b ≢ c
    → Apart xs
    → Apart ys
    → All (λ (d : Pointer × ℕ). d.0.block ≡ b) xs
    → All (λ (d : Pointer × ℕ). d.0.block ≡ c) ys
    → Apart (xs ++ ys)
Apart-append [] ys b c other u v h k = v
Apart-append (x ∷ xs) ys b c other u v h k = (
  All-append _ xs ys u.0 (All-mono _ _ ys (λ y there. ground (arith, there, h.0, other)) k),
  Apart-append xs ys b c other u.1 v h.1 k,
)

Apart-last :
    (xs : Chunks) (c : Pointer × ℕ)
    → Apart (xs ++ c ∷ [])
    → All (λ (d : Pointer × ℕ). same_pointer d.0 c.0 ≡ false) xs
Apart-last [] c u = tt
Apart-last (x ∷ xs) c u = ((All-append_right _ xs (c ∷ []) u.0).0, Apart-last xs c u.1)

Inv-Apart : (r : RingBuffer) (chunks : Chunks) → Fifo.Inv r chunks → Apart chunks
Inv-Apart r chunks v = elim v.place [
  | inl t ↦ Tiles-Apart _ _ _ chunks t.tiles
  | inr a ↦ subst Apart (sym a.all) (
      Apart-append a.mine a.others r.read_block_index ((r.read_block_index + 1) % r.no_blocks)
        (λ e. (next_block r.read_block_index r.no_blocks v.many v.block).1 (sym e))
        (Tiles-Apart _ _ _ a.mine a.my_tiles) (Tiles-Apart _ _ _ a.others a.their_tiles)
        (All-mono _ _ a.mine (λ c k. k.0) (Tiles-known _ _ _ a.mine a.my_tiles))
        (All-mono _ _ a.others (λ c k. k.0 ∙ a.next) (Tiles-known _ _ _ a.others a.their_tiles)))
]

module _ (sizes : Sizes) (memory : Pointer → Option (LogInfo × LogStruct))
    (register : ℕ → Option LogType) (p : Pointer) (e : LogInfo × LogStruct) where
  abbrev after : Pointer → Option (LogInfo × LogStruct)
  after q = if same_pointer q p then some e else memory q

  Stored-append :
      (n : ℕ) (chunks : Chunks) (entries : Entries)
      → All (λ (d : Pointer × ℕ). same_pointer d.0 p ≡ false) chunks
      → Stored sizes memory register chunks entries
      → n ≡ sizes.log_info + sizes.log_struct e.1.type
      → register (log_type_value e.0.log_type) ≡ some e.1.type
      → Stored sizes after register (chunks ++ (p, n) ∷ []) (entries ++ e ∷ [])
  Stored-append n [] [] apart s size known =
      let here : same_pointer p p ≡ true = ground arith in (rw here refl, size, known, tt)
  Stored-append n [] (_ ∷ _) apart s size known = absurd s
  Stored-append n (_ ∷ _) [] apart s size known = absurd s
  Stored-append n (c ∷ chunks) (f ∷ entries) apart s size known =
      (rw apart.0 s.0, s.1, s.2, Stored-append n chunks entries apart.1 s.3 size known)

-- Let the buffer of a logger, of two blocks or more, each below 2^63 bytes, hold the entries, its writer
-- in the reader's block or in the next one. An entry whose type is registered, that takes space and fits
-- a block, and that does not take the writer two blocks ahead of the reader, is held behind them, and
-- nothing before it is overwritten.
pub write_buffer-Stored :
    (sizes : Sizes) (type : LogType) (prepend : String) (item : LogStruct) (l : Logger)
    (chunks : Chunks) (entries : Entries)
    → Fifo.Inv l.ring chunks
    → Stored sizes l.memory l.function_register chunks entries
    → l.function_register (log_type_value type) ≡ some item.type
    → 0 < sizes.log_info + sizes.log_struct item.type
    → sizes.log_info + sizes.log_struct item.type ≤ l.ring.mem_block_size
    → (l.ring.write_ptr_offset + (sizes.log_info + sizes.log_struct item.type)
        ≤ l.ring.mem_block_size)
      ⊎ (l.ring.read_block_index ≡ l.ring.write_block_index)
    → (chunk : Pointer × ℕ) × Fifo.Inv
        (write_buffer sizes type prepend item l).ring
        (chunks ++ chunk ∷ [])
      × Stored sizes
          (write_buffer sizes type prepend item l).memory
          l.function_register
          (chunks ++ chunk ∷ [])
          (entries ++ (record { log_type = type; prepend = prepend }, item) ∷ [])
unfolding write_buffer
write_buffer-Stored sizes type prepend item l chunks entries v stored known positive fits room =
    let n = sizes.log_info + sizes.log_struct item.type in
    let (w, _) = write-Inv l.ring chunks n v positive fits room in
    let p = (get_write_pointer n l.ring).1 in
    (
      (p, n),
      w,
      Stored-append sizes l.memory l.function_register p
          (record { log_type = type; prepend = prepend }, item) n chunks entries
          (Apart-last chunks (p, n) (Inv-Apart _ (chunks ++ (p, n) ∷ []) w)) stored refl known,
    )

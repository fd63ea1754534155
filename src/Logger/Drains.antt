-- ===== src/Logger/Drains.antt =====
-- What the logging thread prints once the logger is stopped.
use Prim.Native.String.{String}
use order_forge_matching_eng.Common.{
  ℕ, zero, suc, ◌+◌, ◌<◌, ◌≡◌, refl, sym, ◌∙◌, ap, subst, Bool, true, false, ◌==◌, if◌then◌else◌,
  Option, some, bind-some, List, [], ◌∷◌, ◌++◌, append-nil, append_assoc, map, length, arith,
}
use order_forge_matching_eng.RingBuffer.{Pointer, can_read, get_read_pointer, forward_read_pointer}
use order_forge_matching_eng.RingBuffer.Fifo.{Chunks}
use order_forge_matching_eng.RingBuffer.Fifo
use order_forge_matching_eng.RingBuffer.Read.{read-Inv}
use order_forge_matching_eng.Logger.{
  LogType, log_type_value, Sizes, LogStruct, LogInfo, Logger, line, write, call_func, read_entry,
  read_buffer, stop,
}

abbrev pub Entries : Type 0
Entries = List (LogInfo × LogStruct)

-- The entries stand in the chunks, one in each, and the function that is registered for each reads
-- structs of its type.
abbrev pub Stored :
    Sizes
    → (Pointer → Option (LogInfo × LogStruct))
    → (ℕ → Option LogType)
    → Chunks
    → Entries
    → Type 0
Stored sizes memory register [] [] = Unit
Stored sizes memory register ((p, n) ∷ chunks) (e ∷ entries) =
    (memory p ≡ some e)
    × (n ≡ sizes.log_info + sizes.log_struct e.1.type)
    × (register (log_type_value e.0.log_type) ≡ some e.1.type)
    × Stored sizes memory register chunks entries
Stored sizes memory register _ _ = ⊥

read_entry-write :
    (sizes : Sizes) (l : Logger) (p : Pointer) (e : LogInfo × LogStruct)
    → (get_read_pointer l.ring).1 ≡ p
    → l.memory p ≡ some e
    → l.function_register (log_type_value e.0.log_type) ≡ some e.1.type
    → read_entry sizes l
      ≡ some (record (write e l) {
        ring =
            forward_read_pointer
              (sizes.log_info + sizes.log_struct e.1.type)
              (get_read_pointer l.ring).0;
      })
unfolding read_entry call_func
read_entry-write sizes l p e here stored known =
    let own : (log_type_value e.1.type == log_type_value e.1.type) ≡ true = ground arith in
    bind-some _ (ap l.memory here ∙ stored) (rw known (rw own refl))

at_false : {A : Type 0} (b : Bool) (x y : A) → b ≡ false → (elim b [ true ↦ y | false ↦ x ]) ≡ x
at_false b x y e = rw e refl

at_true : {A : Type 0} (b : Bool) (x y : A) → b ≡ true → (elim b [ true ↦ y | false ↦ x ]) ≡ y
at_true b x y e = rw e refl

-- What a stream has after the lines, if they are written to it.
abbrev pub shown : Bool → List String → List String → List String
shown set lines more = if set then lines ++ more else lines

shown-nil : (set : Bool) (lines : List String) → lines ≡ shown set lines []
shown-nil true lines = sym (append-nil lines)
shown-nil false lines = refl

shown-shown :
    (set : Bool) (lines first rest : List String)
    → shown set (shown set lines first) rest ≡ shown set lines (first ++ rest)
shown-shown true lines first rest = append_assoc lines first rest
shown-shown false lines first rest = refl

drained :
    (fuel : ℕ) (sizes : Sizes) (l : Logger) (chunks : Chunks) (entries : Entries)
    → Fifo.Inv l.ring chunks
    → Stored sizes l.memory l.function_register chunks entries
    → l.run ≡ false
    → length chunks < fuel
    → (l' : Logger) × (read_buffer fuel sizes l ≡ some l')
      × (l'.log_file ≡ shown l.log_file_open l.log_file (map line entries))
      × (l'.std_out ≡ shown l.write_std_out l.std_out (map line entries))
unfolding read_buffer write
drained zero sizes l chunks entries v stored stopped enough = absurd (omega (arith, enough))
drained (suc fuel) sizes l [] [] v stored stopped enough = (
  record l { ring = (can_read l.ring).0 },
  at_false _ _ _ (read-Inv l.ring [] v) ∙ at_false l.run _ _ stopped,
  shown-nil l.log_file_open l.log_file,
  shown-nil l.write_std_out l.std_out,
)
drained (suc fuel) sizes l [] (_ ∷ _) v stored stopped enough = absurd stored
drained (suc fuel) sizes l (_ ∷ _) [] v stored stopped enough = absurd stored
drained (suc fuel) sizes l ((p, n) ∷ chunks) (e ∷ entries) v stored stopped enough =
    let (ready, here, w) = read-Inv l.ring ((p, n) ∷ chunks) v in
    let l₁ : Logger = record l { ring = (can_read l.ring).0 } in
    let l₂ : Logger = record (write e l₁) {
      ring =
          forward_read_pointer (sizes.log_info + sizes.log_struct e.1.type)
            (get_read_pointer (can_read l.ring).0).0;
    } in
    let x : Fifo.Inv l₂.ring chunks =
      subst (λ k. Fifo.Inv (forward_read_pointer k (get_read_pointer (can_read l.ring).0).0) chunks)
        stored.1 w in
    let (l', done, file, out) =
      drained fuel sizes l₂ chunks entries x stored.3 stopped (omega (arith, enough)) in
    (
      l',
      at_true _ _ _ ready ∙ bind-some _ (read_entry-write sizes l₁ p e here stored.0 stored.2) done,
      file ∙ shown-shown l.log_file_open l.log_file (line e ∷ []) (map line entries),
      out ∙ shown-shown l.write_std_out l.std_out (line e ∷ []) (map line entries),
    )

-- Let the buffer of a logger, of two blocks or more, each below 2^63 bytes, hold the entries, its writer
-- in the reader's block or in the next one, each entry in a chunk of the size of its struct, and let the
-- type of each be registered. Once the logger is stopped, the
-- loop of the logging thread ends after one turn for each entry and one more, and has written one line
-- for each entry, in the order of logging, to the file if it is open and to the standard output if that is set.
pub stop-prints :
    (fuel : ℕ) (sizes : Sizes) (l : Logger) (chunks : Chunks) (entries : Entries)
    → Fifo.Inv l.ring chunks
    → Stored sizes l.memory l.function_register chunks entries
    → length chunks < fuel
    → (l' : Logger) × (stop fuel sizes l ≡ some l')
      × (l'.log_file ≡ shown l.log_file_open l.log_file (map line entries))
      × (l'.std_out ≡ shown l.write_std_out l.std_out (map line entries))
unfolding stop
stop-prints fuel sizes l chunks entries v stored enough =
    drained fuel sizes (record l { run = false }) chunks entries v stored refl enough

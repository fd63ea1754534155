-- ===== src/Logger.antt =====
-- logger/logger.h, with logger/defines.h and data_structs.h: what is logged goes into the ring buffer,
-- and the loop of the logging thread prints it. `none` is a call of a function that is not
-- registered, a read of a struct as another one, or a loop that runs on.
pub mod Prepend
pub mod Drains
pub mod Writes
use Prim.Native.String.{String}
use Prim.Native.String.{◌++◌ as joined}
use order_forge_matching_eng.Common.{
  ℕ, zero, suc, ◌+◌, ◌*◌, Bool, true, false, not, ◌&&◌, ◌==◌, leb, if◌then◌else◌, Option, none,
  some, ◌>>=◌, List, [], ◌∷◌, ◌++◌,
}
use order_forge_matching_eng.RingBuffer.{
  Pointer, RingBuffer, ring_buffer, can_read, get_read_pointer, forward_read_pointer,
  get_write_pointer, forward_write_pointer,
}

pub data LogType : Type 0 where
  test_struct format_string order trade level_update last_trade_update : LogType

-- `static_cast<uint8_t>(type)`
unfoldable pub log_type_value : LogType → ℕ
log_type_value test_struct = 1
log_type_value format_string = 2
log_type_value order = 10
log_type_value trade = 11
log_type_value level_update = 20
log_type_value last_trade_update = 21

pub data LogLevel : Type 0 where
  debug info warn error : LogLevel

abbrev pub level_value : LogLevel → ℕ
level_value debug = 0
level_value info = 1
level_value warn = 2
level_value error = 3

-- `g_log_level` is the first argument.
unfoldable pub level_enabled : LogLevel → LogLevel → Bool
level_enabled g_log_level lvl = leb (level_value g_log_level) (level_value lvl)

-- `sizeof` of the structs, and of `LogInfo`.
pub record Sizes : Type 0 where
  pub log_info : ℕ
  pub log_struct : LogType → ℕ

-- A struct of the buffer: whose type it is, and what its `get_str` gives.
pub record LogStruct : Type 0 where
  pub type : LogType
  pub str : String

pub record LogInfo : Type 0 where
  pub log_type : LogType
  pub prepend : String

-- `function_register` as the type that each function reads; the bytes of the blocks as what stands at
-- a pointer. The file and the standard output are their lines.
pub record Logger : Type 0 where
  pub ring : RingBuffer
  pub memory : Pointer → Option (LogInfo × LogStruct)
  pub function_register : ℕ → Option LogType
  pub write_std_out : Bool
  pub log_file_open : Bool
  pub log_file : List String
  pub std_out : List String
  pub run : Bool

abbrev pub mb : ℕ
mb = 1_048_576

-- A file that does not open is only reported.
unfoldable pub logger :
    (opened write_std_out : Bool) → (mem_block_size_mb number_blocks : ℕ) → Logger
logger opened write_std_out mem_block_size_mb number_blocks = record {
  ring = ring_buffer (mem_block_size_mb * mb) number_blocks;
  memory = λ _. none;
  function_register = λ _. none;
  write_std_out = write_std_out;
  log_file_open = opened;
  log_file = [];
  std_out = [];
  run = true;
}

-- `REGISTER_TYPE`, whose function reads the struct of the type and prints it.
unfoldable pub register_type : LogType → Logger → Logger
register_type type l = record l {
  function_register = λ i. if i == log_type_value type then some type else l.function_register i;
}

unfoldable pub register_common_types : Logger → Logger
register_common_types l = register_type format_string l

abbrev pub line : LogInfo × LogStruct → String
line (i, s) = joined i.prepend (joined " " s.str)

-- `write`. What goes to a file that is not open is lost.
unfoldable pub write : LogInfo × LogStruct → Logger → Logger
write e l = record l {
  log_file = if l.log_file_open then l.log_file ++ line e ∷ [] else l.log_file;
  std_out = if l.write_std_out then l.std_out ++ line e ∷ [] else l.std_out;
}

abbrev pub same_pointer : Pointer → Pointer → Bool
same_pointer p q = (p.block == q.block) && (p.offset == q.offset)

unfoldable pub write_buffer : Sizes → LogType → String → LogStruct → Logger → Logger
write_buffer sizes type prepend item l =
    let needed_space = sizes.log_info + sizes.log_struct item.type in
    let (ring, pointer) = get_write_pointer needed_space l.ring in
    record l {
      ring = forward_write_pointer needed_space ring;
      memory = λ p.
          if same_pointer p pointer
          then some (record { log_type = type; prepend = prepend }, item)
          else l.memory p;
    }

-- `func(prepend, pointer)`: the size of the struct that is read.
unfoldable pub call_func :
    Sizes → Option LogType → LogInfo × LogStruct → Logger → Option (ℕ × Logger)
call_func sizes none e l = none
call_func sizes (some type) (i, s) l =
    if log_type_value type == log_type_value s.type
    then some (sizes.log_struct type, write (i, s) l)
    else none

-- One turn of the loop, when there is something to read.
unfoldable pub read_entry : Sizes → Logger → Option Logger
read_entry sizes l = do
  let (ring, pointer) = get_read_pointer l.ring
  (log_info, item) ← l.memory pointer
  (read_size, l₁) ←
      call_func sizes (l.function_register (log_type_value log_info.log_type)) (log_info, item) l
  some (record l₁ { ring = forward_read_pointer (sizes.log_info + read_size) ring })

-- A turn that finds nothing ends the loop once the logger is stopped, and sleeps before.
unfoldable pub read_buffer : (fuel : ℕ) → Sizes → Logger → Option Logger
read_buffer zero sizes l = none
read_buffer (suc fuel) sizes l =
    let (ring, ready) = can_read l.ring in
    let l₁ = record l { ring = ring } in
    elim ready [
      | false ↦ elim l.run [ false ↦ some l₁ | true ↦ read_buffer fuel sizes l₁ ]
      | true ↦ (do l₂ ← read_entry sizes l₁; read_buffer fuel sizes l₂)
    ]

-- `run_.store(false)`, after which the thread is joined.
unfoldable pub stop : (fuel : ℕ) → Sizes → Logger → Option Logger
stop fuel sizes l = read_buffer fuel sizes (record l { run = false })

-- `log_if`, with logging compiled in, around `log_buffer`.
unfoldable pub log_if : LogLevel → LogLevel → Sizes → LogType → String → LogStruct → Logger → Logger
log_if g_log_level lvl sizes type tag item l =
    if level_enabled g_log_level lvl then write_buffer sizes type tag item l else l

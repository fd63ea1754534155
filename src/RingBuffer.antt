-- ===== src/RingBuffer.antt =====
-- logger/ring_buffer.h: the offsets and the blocks of the buffer between the threads that log and the
-- one that prints. A pointer into the buffer is a block and an offset; each operation is one step.
pub mod Fifo
pub mod Read
pub mod Write
pub mod Lost
use order_forge_matching_eng.Common.{ℕ, ◌+◌, ◌%◌, Bool, true, ltb, not, ◌&&◌, ◌==◌, if◌then◌else◌}
use order_forge_matching_eng.ScaledInt.{u64_mod}

pub record Pointer : Type 0 where
  pub block : ℕ
  pub offset : ℕ

-- `mem_blocks_end_` is a function of the block.
pub record RingBuffer : Type 0 where
  pub write_ptr_offset : ℕ
  pub write_block_index : ℕ
  pub read_ptr_offset : ℕ
  pub read_block_index : ℕ
  pub mem_block_size : ℕ
  pub no_blocks : ℕ
  pub mem_blocks_end : ℕ → ℕ

abbrev pub set_end : ℕ → ℕ → (ℕ → ℕ) → ℕ → ℕ
set_end block end ends i = if i == block then end else ends i

unfoldable pub ring_buffer : (mem_block_size no_blocks : ℕ) → RingBuffer
ring_buffer mem_block_size no_blocks = record {
  write_ptr_offset = 0;
  write_block_index = 0;
  read_ptr_offset = 0;
  read_block_index = 0;
  mem_block_size = mem_block_size;
  no_blocks = no_blocks;
  mem_blocks_end = λ _. 0;
}

-- The block is closed when the wanted space does not fit behind the offset.
unfoldable pub make_room : ℕ → RingBuffer → RingBuffer
make_room wanted_space r =
    if ltb r.mem_block_size ((r.write_ptr_offset + wanted_space) % u64_mod)
    then record r {
      mem_blocks_end = set_end r.write_block_index r.write_ptr_offset r.mem_blocks_end;
      write_block_index = (r.write_block_index + 1) % r.no_blocks;
      write_ptr_offset = 0;
    }
    else r

unfoldable pub get_write_pointer : ℕ → RingBuffer → RingBuffer × Pointer
get_write_pointer wanted_space r =
    let r' = make_room wanted_space r in
    (r', record { block = r'.write_block_index; offset = r'.write_ptr_offset })

unfoldable pub forward_write_pointer : ℕ → RingBuffer → RingBuffer
forward_write_pointer n r = record r { write_ptr_offset = (n + r.write_ptr_offset) % u64_mod }

unfoldable pub check_wrap_read_pointer : RingBuffer → RingBuffer
check_wrap_read_pointer r =
    let end = r.mem_blocks_end r.read_block_index in
    let next = (r.read_block_index + 1) % r.no_blocks in
    if not (end == 0) && (r.read_ptr_offset == end)
    then record r {
      read_block_index = next;
      read_ptr_offset = 0;
      mem_blocks_end = set_end next 0 r.mem_blocks_end;
    }
    else r

unfoldable pub can_read : RingBuffer → RingBuffer × Bool
can_read r =
    let r' = check_wrap_read_pointer r in
    (
      r',
      if r'.read_block_index == r'.write_block_index
          then ltb r'.read_ptr_offset r'.write_ptr_offset
          else true,
    )

unfoldable pub get_read_pointer : RingBuffer → RingBuffer × Pointer
get_read_pointer r =
    let r' = check_wrap_read_pointer r in
    (r', record { block = r'.read_block_index; offset = r'.read_ptr_offset })

unfoldable pub forward_read_pointer : ℕ → RingBuffer → RingBuffer
forward_read_pointer n r = record r { read_ptr_offset = (r.read_ptr_offset + n) % u64_mod }

-- ===== src/CodeCache.antt =====
-- light-rocr/arch/gfx11/code_cache.cpp and its header: the PM4 command that invalidates the caches
-- for a range of code, and the vendor packet that runs it. An array of words is a field for each word.
mod Examples
pub mod Words
use light_rocm_runtime.Prelude.{
  ℕ, ◌+◌, ◌-◌, ◌*◌, ◌/◌, ◌%◌, ◌^◌, Bool, ◌||◌, bit_and, bit_or, ltb, ◌==◌, ◌!=◌, if◌then◌else◌,
}
use light_rocm_runtime.Word.{u64_max, u32_limit}

abbrev pub code_cache_granule : ℕ
code_cache_granule = 256

abbrev pub maximum_code_range_granules : ℕ
maximum_code_range_granules = 2 ^ 40 - 1

abbrev pub maximum_indirect_buffer_address : ℕ
maximum_indirect_buffer_address = 2 ^ 48 - 1

abbrev pub pm4_acquire_memory_opcode : ℕ
pm4_acquire_memory_opcode = 0x58

abbrev pub pm4_indirect_buffer_opcode : ℕ
pm4_indirect_buffer_opcode = 0x3f

abbrev pub pm4_global_invalidate : ℕ
pm4_global_invalidate = 1 + 2 ^ 7 + 2 ^ 8 + 2 ^ 9 + 2 ^ 14

-- The words of a command, first to last.
pub record Command : Type 0 where
  pub word0 : ℕ
  pub word1 : ℕ
  pub word2 : ℕ
  pub word3 : ℕ
  pub word4 : ℕ
  pub word5 : ℕ
  pub word6 : ℕ
  pub word7 : ℕ

-- The reserved words are zero and left out.
pub record AqlPm4IndirectBufferPacket : Type 0 where
  pub header : ℕ
  pub vendor_header : ℕ
  pub indirect_buffer0 : ℕ
  pub indirect_buffer1 : ℕ
  pub indirect_buffer2 : ℕ
  pub indirect_buffer3 : ℕ
  pub dword_count_remaining : ℕ
  pub completion_signal : ℕ

pub data CodeCacheCommandError : Type 0 where
  invalid_code_range invalid_command_address invalid_completion_signal : CodeCacheCommandError

pub data CodeCacheCommandResult : Type 0 where
  built : Command → AqlPm4IndirectBufferPacket → CodeCacheCommandResult
  refused : CodeCacheCommandError → CodeCacheCommandResult

pub pm4_header : ℕ → ℕ → ℕ
pm4_header opcode dword_count =
    bit_or (bit_or (3 * 2 ^ 30) (opcode * 2 ^ 8)) ((dword_count - 2) * 2 ^ 16)

abbrev add_overflows : ℕ → ℕ → Bool
add_overflows left right = ltb (u64_max - right) left

acquire_command : ℕ → ℕ → Command
unfolding pm4_header
acquire_command code_gpu_address code_size = record {
  word0 = pm4_header pm4_acquire_memory_opcode 8;
  word1 = 0;
  word2 = code_size / code_cache_granule % u32_limit;
  word3 = code_size / code_cache_granule / 2 ^ 32 % u32_limit;
  word4 = code_gpu_address / 2 ^ 8 % u32_limit;
  word5 = code_gpu_address / 2 ^ 40 % u32_limit;
  word6 = 0;
  word7 = pm4_global_invalidate;
}

indirect_packet : ℕ → ℕ → AqlPm4IndirectBufferPacket
unfolding pm4_header
indirect_packet command_gpu_address completion_signal = record {
  header = 0;
  vendor_header = 1;
  indirect_buffer0 = pm4_header pm4_indirect_buffer_opcode 4;
  indirect_buffer1 = bit_and (command_gpu_address % u32_limit) 0xfffffffc;
  indirect_buffer2 = bit_and (command_gpu_address / 2 ^ 32 % u32_limit) 0xffff;
  indirect_buffer3 = bit_or 8 (1 * 2 ^ 23);
  dword_count_remaining = 0xa;
  completion_signal = completion_signal;
}

pub build_code_cache_invalidate : ℕ → ℕ → ℕ → ℕ → CodeCacheCommandResult
unfolding acquire_command indirect_packet
build_code_cache_invalidate code_gpu_address code_size command_gpu_address completion_signal =
    if code_size == 0
      || code_gpu_address % code_cache_granule != 0
      || code_size % code_cache_granule != 0
      || ltb maximum_code_range_granules (code_size / code_cache_granule)
      || add_overflows code_gpu_address code_size
    then refused invalid_code_range
    else if command_gpu_address % 4 != 0
        || ltb maximum_indirect_buffer_address command_gpu_address
        || add_overflows command_gpu_address (8 * 4)
        || ltb maximum_indirect_buffer_address (command_gpu_address + 8 * 4 - 1)
    then refused invalid_command_address
    else if completion_signal == 0 || completion_signal % 64 != 0
    then refused invalid_completion_signal
    else built (acquire_command code_gpu_address code_size)
        (indirect_packet command_gpu_address completion_signal)

-- ===== src/CodeCache/Words.antt =====
-- The words that light-rocr/arch/gfx11/code_cache.cpp builds, as the command processor decodes them.
use light_rocm_runtime.Prelude.{ℕ, ◌+◌, ◌*◌, ◌/◌, ◌%◌, ◌^◌, ◌≤◌, ◌<◌, ◌≡◌, refl, arith}
use light_rocm_runtime.Prelude.Bits.{bit_and_ones, bit_and_high}
use light_rocm_runtime.Word.{u64_limit, u32_limit}
use light_rocm_runtime.CodeCache.{
  Command, AqlPm4IndirectBufferPacket, built, pm4_header, acquire_command, indirect_packet,
  build_code_cache_invalidate,
}

-- What the command processor reads: type 3 packets of eight and of four words, the code range in
-- granules, the command's address and its length in words.
pub record Invalidates (code code_size command_address signal : ℕ) (c : Command)
    (p : AqlPm4IndirectBufferPacket) : Type 0 where
  pub acquire :
      (c.word0 / 2 ^ 30 ≡ 3)
      × (c.word0 / 2 ^ 16 % 2 ^ 14 + 2 ≡ 8)
      × (c.word0 / 2 ^ 8 % 2 ^ 8 ≡ 0x58)
  pub range_size : (c.word2 + 2 ^ 32 * c.word3) * 256 ≡ code_size
  pub range_base : (c.word4 + 2 ^ 32 * c.word5) * 256 ≡ code
  pub range_words :
      (c.word2 < u32_limit) × (c.word3 < 2 ^ 8) × (c.word4 < u32_limit) × (c.word5 < 2 ^ 24)
  pub indirect :
      (p.indirect_buffer0 / 2 ^ 30 ≡ 3)
      × (p.indirect_buffer0 / 2 ^ 16 % 2 ^ 14 + 2 ≡ 4)
      × (p.indirect_buffer0 / 2 ^ 8 % 2 ^ 8 ≡ 0x3f)
  pub command_base : p.indirect_buffer1 + 2 ^ 32 * p.indirect_buffer2 ≡ command_address
  pub command_words : p.indirect_buffer3 % 2 ^ 20 ≡ 8
  pub command_valid : p.indirect_buffer3 / 2 ^ 23 % 2 ≡ 1
  pub signalled : p.completion_signal ≡ signal

-- The ranges that the command can express.
pub record IsExpressible (code code_size command_address signal : ℕ) : Type 0 where
  pub some_code : 0 < code_size
  pub code_aligned : code % 256 ≡ 0
  pub size_aligned : code_size % 256 ≡ 0
  pub size_field : code_size < 2 ^ 48
  pub code_end : code + code_size < u64_limit
  pub command_aligned : command_address % 4 ≡ 0
  pub command_end : command_address + 32 ≤ 2 ^ 48
  pub some_signal : 0 < signal
  pub signal_aligned : signal % 64 ≡ 0

module _ (code code_size command_address signal : ℕ) where
  words-Invalidates :
      IsExpressible code code_size command_address signal
      → Invalidates code code_size command_address signal
          (acquire_command code code_size)
          (indirect_packet command_address signal)
  unfolding acquire_command indirect_packet pm4_header
  words-Invalidates h =
      let low = bit_and_high 30 2 (command_address % u32_limit) (omega arith) in
      let high = bit_and_ones 16 (command_address / 2 ^ 32 % u32_limit) in
      record {
        acquire = (refl, refl, refl);
        range_size = omega (arith, h.size_aligned, h.size_field);
        range_base = omega (arith, h.code_aligned, h.code_end);
        range_words = omega (arith, h.size_field, h.code_end);
        indirect = (refl, refl, refl);
        command_base = omega (arith, low, high, h.command_aligned, h.command_end);
        command_words = refl;
        command_valid = refl;
        signalled = refl;
      }

  -- For a range, a command address and a signal that the command can express, it is built.
  pub build_code_cache_invalidate_accepts :
      IsExpressible code code_size command_address signal
      → (c : Command) × (p : AqlPm4IndirectBufferPacket) × (build_code_cache_invalidate code
            code_size command_address signal
          ≡ built c p)
  unfolding build_code_cache_invalidate
  build_code_cache_invalidate_accepts h =
      (acquire_command code code_size, indirect_packet command_address signal, ground (arith, h))

  -- A command that is built was asked for with a range, a command address and a signal that it can
  -- express, and its words decode to them.
  pub build_code_cache_invalidate-Invalidates :
      (c : Command) (p : AqlPm4IndirectBufferPacket)
      → build_code_cache_invalidate code code_size command_address signal ≡ built c p
      → IsExpressible code code_size command_address signal
        × Invalidates code code_size command_address signal c p
  unfolding build_code_cache_invalidate
  build_code_cache_invalidate-Invalidates c p e =
      let h : IsExpressible code code_size command_address signal = ground arith in
      (h, ground (arith, words-Invalidates h))

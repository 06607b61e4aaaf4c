-- ===== src/CodeCache/Examples.antt =====
-- Two pages of code, for light-rocr/arch/gfx11/code_cache.cpp.
use light_rocm_runtime.Prelude.{ℕ, ◌≡◌, refl, arith}
use light_rocm_runtime.CodeCache.{
  Command, AqlPm4IndirectBufferPacket, build_code_cache_invalidate, built, refused,
  invalid_code_range,
}
use light_rocm_runtime.CodeCache.Words.{
  IsExpressible, Invalidates, build_code_cache_invalidate_accepts,
  build_code_cache_invalidate-Invalidates,
}

abbrev code : ℕ
code = 0x7f0000002000

abbrev command_address : ℕ
command_address = 0x7f0000001000

abbrev command : Command
command = record {
  word0 = 0xc0065800;
  word1 = 0;
  word2 = 32;
  word3 = 0;
  word4 = 0x20;
  word5 = 0x7f;
  word6 = 0;
  word7 = 0x4381;
}

abbrev packet : AqlPm4IndirectBufferPacket
packet = record {
  header = 0;
  vendor_header = 1;
  indirect_buffer0 = 0xc0023f00;
  indirect_buffer1 = 0x1000;
  indirect_buffer2 = 0x7f00;
  indirect_buffer3 = 0x800008;
  dword_count_remaining = 10;
  completion_signal = 64;
}

builds : build_code_cache_invalidate code 0x2000 command_address 64 ≡ built command packet
unfolding build_code_cache_invalidate
builds = refl

refuses_part_of_a_granule :
    build_code_cache_invalidate code 0x2080 command_address 64 ≡ refused invalid_code_range
unfolding build_code_cache_invalidate
refuses_part_of_a_granule = refl

expressible : IsExpressible code 0x2000 command_address 64
expressible = record {
  some_code = omega arith;
  code_aligned = refl;
  size_aligned = refl;
  size_field = omega arith;
  code_end = omega arith;
  command_aligned = refl;
  command_end = omega arith;
  some_signal = omega arith;
  signal_aligned = refl;
}

build_code_cache_invalidate_accepts_example :
    (c : Command) × (p : AqlPm4IndirectBufferPacket) × (build_code_cache_invalidate code 0x2000
        command_address 64
      ≡ built c p)
build_code_cache_invalidate_accepts_example =
    build_code_cache_invalidate_accepts code 0x2000 command_address 64 expressible

build_code_cache_invalidate-Invalidates_example :
    IsExpressible code 0x2000 command_address 64
    × Invalidates code 0x2000 command_address 64 command packet
build_code_cache_invalidate-Invalidates_example =
    build_code_cache_invalidate-Invalidates code 0x2000 command_address 64 command packet builds

-- ===== src/Kernarg/Examples.antt =====
-- Three argument bytes in a segment of sixteen, in a block of eighteen, for light-rocr/runtime/launch.cpp.
use light_rocm_runtime.Prelude.{ℕ, ◌≡◌, ◌⊎◌, refl, List, [], ◌∷◌, arith}
use light_rocm_runtime.Word.{is_power_of_two}
use light_rocm_runtime.Kernarg.{
  KernelInfo, KernargBufferError, memory_at, failure, misaligned_gpu_address, write_bytes,
  materialize_kernarg_buffer,
}
use light_rocm_runtime.Kernarg.Segment.{
  Segment, IsPlaceable, materialize_kernarg_buffer-Segment, materialize_kernarg_buffer_accepts,
}

abbrev kernel : KernelInfo
kernel = record { kernarg_size = 16; kernarg_alignment = 16 }

abbrev arguments : List ℕ
arguments = 1 ∷ 2 ∷ 3 ∷ []

abbrev block : List ℕ
block = 9 ∷ 9 ∷ 9 ∷ 9 ∷ 9 ∷ 9 ∷ 9 ∷ 9 ∷ 9 ∷ 9 ∷ 9 ∷ 9 ∷ 9 ∷ 9 ∷ 9 ∷ 9 ∷ 7 ∷ 7 ∷ []

fills :
    materialize_kernarg_buffer kernel (memory_at arguments) (memory_at block) 0x1000
    ≡ Segment kernel arguments block 0x1000
unfolding materialize_kernarg_buffer write_bytes is_power_of_two
fills = refl

refuses :
    materialize_kernarg_buffer kernel (memory_at arguments) (memory_at block) 0x1008
    ≡ failure misaligned_gpu_address (memory_at block)
unfolding materialize_kernarg_buffer is_power_of_two
refuses = refl

placeable : IsPlaceable kernel arguments block 0x1000
placeable = record {
  some_alignment = (4, refl);
  minimum = omega arith;
  arguments_fit = omega arith;
  destination_fits = omega arith;
  some_address = omega arith;
  aligned = refl;
  in_range = omega arith;
}

materialize_kernarg_buffer-Segment_example :
    ((e : KernargBufferError) × (materialize_kernarg_buffer kernel
          (memory_at arguments)
          (memory_at block)
          0x1000
        ≡ failure e (memory_at block)))
    ⊎ (IsPlaceable kernel arguments block 0x1000
        × (materialize_kernarg_buffer kernel (memory_at arguments) (memory_at block) 0x1000
            ≡ Segment kernel arguments block 0x1000))
materialize_kernarg_buffer-Segment_example =
    materialize_kernarg_buffer-Segment kernel arguments block 0x1000 (omega arith)

materialize_kernarg_buffer_accepts_example :
    materialize_kernarg_buffer kernel (memory_at arguments) (memory_at block) 0x1000
    ≡ Segment kernel arguments block 0x1000
materialize_kernarg_buffer_accepts_example =
    materialize_kernarg_buffer_accepts kernel arguments block 0x1000 (omega arith) placeable

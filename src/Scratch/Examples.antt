-- ===== src/Scratch/Examples.antt =====
-- A gfx1101 node with 54 compute units and an aperture of 4 GiB.
use light_rocm_runtime.Prelude.{ℕ, ◌+◌, ◌^◌, ◌≡◌, refl, [], ◌∷◌, arith}
use light_rocm_runtime.Topology.{Node, MemoryHeapType, is_gpu, compute_unit_count}
use light_rocm_runtime.Scratch.{
  QueueScratchRequirements, QueueScratchControl, ScratchAperture, ok, failure, requirements_in,
  control_in, queue_scratch_requirements, make_queue_scratch_control, scratch_aperture_too_small,
  invalid_backing_address, control_words,
}
use light_rocm_runtime.Scratch.Bounds.{IsLaidOut, requirements_in-IsLaidOut}
use light_rocm_runtime.Scratch.Control.{Describes, control_in-Describes}

abbrev aperture : ScratchAperture
aperture = record { base = 2 ^ 40; size = 2 ^ 32 }

abbrev node : Node
node = record {
  simd_count = 108;
  simd_per_compute_unit = 2;
  wavefront_size = 32;
  maximum_waves_per_simd = 16;
  shader_engine_count = 3;
  maximum_scratch_waves_per_compute_unit = 32;
  xcc_count = 1;
  architecture = record { major = 11; minor = 0; stepping = 1 };
  memory_banks =
      record { heap_type = MemoryHeapType.scratch; size = 2 ^ 32; virtual_base_address = 2 ^ 40 }
      ∷ [];
}

-- 260 bytes for each work item: 65 units of 256 bytes for a wave.
abbrev requirements : QueueScratchRequirements
requirements = record {
  private_segment_size = 260;
  allocation_size = 28753920;
  backing_size_per_xcc = 28753920;
  wave_size_units = 65;
  waves_per_shader_engine = 576;
}

made : requirements_in node 260 aperture ≡ ok requirements
unfolding requirements_in is_gpu compute_unit_count
made = refl

made_from_topology : queue_scratch_requirements node 260 ≡ ok requirements
unfolding queue_scratch_requirements requirements_in is_gpu compute_unit_count
made_from_topology = refl

too_small :
    requirements_in node 260 (record { base = 2 ^ 40; size = 4096 })
    ≡ failure scratch_aperture_too_small
unfolding requirements_in is_gpu compute_unit_count
too_small = refl

misplaced : make_queue_scratch_control node 260 4096 ≡ failure invalid_backing_address
unfolding make_queue_scratch_control is_gpu compute_unit_count
misplaced = refl

abbrev address : ℕ
address = 2 ^ 40 + 2 ^ 16

abbrev control : QueueScratchControl
control = control_words requirements 260 address

controlled : control_in node 260 address aperture ≡ ok (requirements, control)
unfolding control_in control_words is_gpu compute_unit_count
controlled = refl

requirements_in-IsLaidOut_example : IsLaidOut node 260 aperture requirements
requirements_in-IsLaidOut_example =
    requirements_in-IsLaidOut node 260 aperture requirements (omega arith) made

control_in-Describes_example :
    IsLaidOut node 260 aperture requirements × Describes address requirements control
control_in-Describes_example =
    control_in-Describes 260 address node aperture requirements control (omega arith) controlled

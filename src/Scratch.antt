-- ===== src/Scratch.antt =====
-- light-rocr/arch/gfx11/scratch.cpp and its header: the size and the register words of the scratch
-- memory of a queue. `uint64_t` sums and products that the code tests for overflow are exact here
-- behind the test; the others stay below 2 ^ 64 for the 32-bit fields of a node.

mod Examples
pub mod Bounds
pub mod Control
use light_rocm_runtime.Prelude.{
  ℕ, ◌+◌, ◌-◌, ◌*◌, ◌/◌, ◌%◌, ◌^◌, Bool, true, false, not, ◌&&◌, ◌||◌, Option, none, some, List, [],
  ◌∷◌, min, bit_and, bit_or, ltb, leb, ◌==◌, ◌!=◌, if◌then◌else◌,
}
use light_rocm_runtime.Word.{u64_max, u32_max, u32_limit}
use light_rocm_runtime.Topology.{Node, MemoryBank, MemoryHeapType, is_gpu, compute_unit_count}

abbrev pub page_size : ℕ
page_size = 4096

abbrev pub maximum_private_segment_size : ℕ
maximum_private_segment_size = 262128

abbrev pub maximum_wave_size_units : ℕ
maximum_wave_size_units = 2 ^ 15 - 1

abbrev pub maximum_waves_per_shader_engine : ℕ
maximum_waves_per_shader_engine = 2 ^ 12 - 1

abbrev pub maximum_descriptor_address : ℕ
maximum_descriptor_address = 2 ^ 48 - 1

abbrev scratch_srd_word3 : ℕ
scratch_srd_word3 = 0x20814fac

abbrev pub scratch_descriptor_alignment : ℕ
scratch_descriptor_alignment = 256

abbrev pub scratch_backing_alignment : ℕ
scratch_backing_alignment = 64 * 1024

abbrev pub scratch_lanes_per_wave : ℕ
scratch_lanes_per_wave = 64

pub data QueueScratchError : Type 0 where
  unsupported_architecture invalid_topology missing_scratch_aperture : QueueScratchError
  invalid_scratch_aperture private_segment_too_large size_overflow : QueueScratchError
  scratch_aperture_too_small register_overflow invalid_backing_address : QueueScratchError

pub data Result (A : Type 0) : Type 0 where
  ok : A → Result A
  failure : QueueScratchError → Result A

pub record QueueScratchRequirements : Type 0 where
  pub private_segment_size : ℕ
  pub allocation_size : ℕ
  pub backing_size_per_xcc : ℕ
  pub wave_size_units : ℕ
  pub waves_per_shader_engine : ℕ

pub record ScratchAperture : Type 0 where
  pub base : ℕ
  pub size : ℕ

-- The resource descriptor is an array of four words.
pub record QueueScratchControl : Type 0 where
  pub descriptor0 : ℕ
  pub descriptor1 : ℕ
  pub descriptor2 : ℕ
  pub descriptor3 : ℕ
  pub compute_tmpring_size : ℕ
  pub backing_memory_location : ℕ
  pub backing_memory_byte_size : ℕ
  pub wave64_lane_byte_size : ℕ

multiply_overflows : ℕ → ℕ → Bool
multiply_overflows left right = right != 0 && ltb (u64_max / right) left

round_up_overflows : ℕ → ℕ → Bool
round_up_overflows value alignment = ltb (u64_max - (alignment - 1)) value

-- The loop over the factors: `none` when a product would not fit.
multiply_all : ℕ → List ℕ → Option ℕ
unfolding multiply_overflows
multiply_all raw_size [] = some raw_size
multiply_all raw_size (factor ∷ factors) =
    let rest = multiply_all (raw_size * factor) factors in
    if multiply_overflows raw_size factor then none else rest

is_scratch : MemoryBank → Bool
is_scratch bank = elim bank.heap_type [ MemoryHeapType.scratch ↦ true | _ ↦ false ]

-- The last scratch bank, and how many there are.
scratch_aperture : List MemoryBank → Option MemoryBank → ℕ → Option MemoryBank × ℕ
unfolding is_scratch
scratch_aperture [] result match_count = (result, match_count)
scratch_aperture (bank ∷ banks) result match_count =
    scratch_aperture banks (if is_scratch bank then some bank else result)
      (if is_scratch bank then match_count + 1 else match_count)

incomplete_topology : Node → Bool
incomplete_topology node =
    not (is_gpu node)
    || compute_unit_count node == 0
    || node.wavefront_size != 32
    || node.maximum_waves_per_simd == 0
    || node.shader_engine_count == 0
    || node.maximum_scratch_waves_per_compute_unit == 0
    || node.xcc_count != 1

-- The register fields, once the backing size is known.
wave_layout : Node → ℕ → ℕ → Result QueueScratchRequirements
wave_layout node private_segment_size allocation_size =
    let wave_bytes = private_segment_size * scratch_lanes_per_wave in
    let wave_size_units =
      (wave_bytes + scratch_descriptor_alignment - 1) / scratch_descriptor_alignment in
    let total_waves = allocation_size / (wave_size_units * scratch_descriptor_alignment) in
    let configured_waves =
      min (total_waves / node.shader_engine_count)
        (compute_unit_count node * node.maximum_scratch_waves_per_compute_unit) in
    if wave_size_units == 0 || ltb maximum_wave_size_units wave_size_units
    then failure register_overflow
    else if configured_waves == 0 || ltb maximum_waves_per_shader_engine configured_waves
    then failure register_overflow
    else ok (record {
      private_segment_size = private_segment_size;
      allocation_size = allocation_size;
      backing_size_per_xcc = allocation_size;
      wave_size_units = wave_size_units;
      waves_per_shader_engine = configured_waves;
    })

-- The backing size: the product rounded up to a page, tested against the aperture and the descriptor.
backing : Node → ℕ → ScratchAperture → Option ℕ → Result QueueScratchRequirements
unfolding wave_layout round_up_overflows
backing node private_segment_size aperture none = failure size_overflow
backing node private_segment_size aperture (some raw_size) =
    let allocation_size = bit_and (raw_size + page_size - 1) (u64_max - (page_size - 1)) in
    if round_up_overflows raw_size page_size
    then failure size_overflow
    else if ltb aperture.size allocation_size
    then failure scratch_aperture_too_small
    else if ltb u32_max allocation_size
    then failure register_overflow
    else wave_layout node private_segment_size allocation_size

-- `queue_scratch_requirements` with the aperture given.
pub requirements_in : Node → ℕ → ScratchAperture → Result QueueScratchRequirements
unfolding incomplete_topology backing multiply_all
requirements_in node private_segment_size aperture =
    if node.architecture.major != 11
      || node.architecture.minor != 0
      || node.architecture.stepping != 1
    then failure unsupported_architecture
    else if incomplete_topology node
    then failure invalid_topology
    else if aperture.size == 0
        || aperture.base == 0
        || aperture.base % scratch_backing_alignment != 0
    then failure invalid_scratch_aperture
    else if private_segment_size == 0
    then ok (record {
      private_segment_size = private_segment_size;
      allocation_size = 0;
      backing_size_per_xcc = 0;
      wave_size_units = 0;
      waves_per_shader_engine = 0;
    })
    else if ltb maximum_private_segment_size private_segment_size
    then failure private_segment_too_large
    else backing node private_segment_size aperture (
        multiply_all private_segment_size (
          scratch_lanes_per_wave
          ∷ node.maximum_scratch_waves_per_compute_unit
          ∷ compute_unit_count node
          ∷ []))

-- The aperture that the topology of a node gives.
pub aperture_of : Node → Result ScratchAperture
unfolding scratch_aperture
aperture_of node =
    let (result, count) = scratch_aperture node.memory_banks none 0 in
    if count == 0
    then failure missing_scratch_aperture
    else if count != 1
    then failure invalid_scratch_aperture
    else elim result [
      | none ↦ failure invalid_scratch_aperture
      | some bank ↦ ok (record { base = bank.virtual_base_address; size = bank.size })
    ]

pub queue_scratch_requirements : Node → ℕ → Result QueueScratchRequirements
unfolding aperture_of requirements_in
queue_scratch_requirements node private_segment_size = elim (aperture_of node) [
  | failure e ↦ failure e
  | ok aperture ↦ requirements_in node private_segment_size aperture
]

-- The register words for a backing address that has passed its test.
control_words : QueueScratchRequirements → ℕ → ℕ → QueueScratchControl
control_words r private_segment_size address = record {
  descriptor0 = address % u32_limit;
  descriptor1 = bit_or (bit_and (address / 2 ^ 32) 0xffff) (1 * 2 ^ 30);
  descriptor2 = r.backing_size_per_xcc % u32_limit;
  descriptor3 = scratch_srd_word3;
  compute_tmpring_size = bit_or (r.wave_size_units * 2 ^ 12) r.waves_per_shader_engine;
  backing_memory_location = address;
  backing_memory_byte_size = r.backing_size_per_xcc;
  wave64_lane_byte_size = private_segment_size;
}

scratch_free : QueueScratchControl
scratch_free = record {
  descriptor0 = 0;
  descriptor1 = 2 ^ 30;
  descriptor2 = 0;
  descriptor3 = scratch_srd_word3;
  compute_tmpring_size = 0;
  backing_memory_location = 0;
  backing_memory_byte_size = 0;
  wave64_lane_byte_size = 0;
}

control_for :
    ℕ → ℕ → QueueScratchRequirements → Result (QueueScratchRequirements × QueueScratchControl)
unfolding control_words scratch_free
control_for private_segment_size address r =
    if r.allocation_size == 0
    then (if address != 0 then failure invalid_backing_address else ok (r, scratch_free))
    else if address == 0
        || address % scratch_backing_alignment != 0
        || ltb maximum_descriptor_address address
        || ltb (maximum_descriptor_address - address) (r.allocation_size - 1)
    then failure invalid_backing_address
    else ok (r, control_words r private_segment_size address)

-- `make_queue_scratch_control` with the aperture given.
pub control_in :
    Node → ℕ → ℕ → ScratchAperture → Result (QueueScratchRequirements × QueueScratchControl)
unfolding requirements_in control_for
control_in node private_segment_size address aperture =
    elim (requirements_in node private_segment_size aperture) [
      | failure e ↦ failure e
      | ok r ↦ control_for private_segment_size address r
    ]

pub make_queue_scratch_control :
    Node → ℕ → ℕ → Result (QueueScratchRequirements × QueueScratchControl)
unfolding aperture_of control_in
make_queue_scratch_control node private_segment_size address = elim (aperture_of node) [
  | failure e ↦ failure e
  | ok aperture ↦ control_in node private_segment_size address aperture
]

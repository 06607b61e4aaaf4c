-- ===== src/Kernarg.antt =====
-- light-rocr/runtime/launch.cpp and its header: the test of a kernel's arguments, and the bytes of
-- its kernarg segment. An argument or destination pointer that is null comes with its size; one that
-- is not null points at a list of bytes whose length is the size. The text of a message is left out.
mod Examples
pub mod Segment
use light_rocm_runtime.Prelude.{
  ℕ, zero, suc, ◌+◌, ◌-◌, ◌%◌, Bool, true, false, not, ◌&&◌, ◌||◌, Option, none, some, List, [],
  ◌∷◌, length, replicate, ltb, ◌==◌, ◌!=◌, if◌then◌else◌,
}
use light_rocm_runtime.Word.{u64_max, is_power_of_two}

pub data KernargBufferError : Type 0 where
  invalid_kernel_metadata invalid_arguments argument_size_exceeded : KernargBufferError
  invalid_destination destination_too_small unsupported_alignment : KernargBufferError
  misaligned_gpu_address gpu_address_overflow allocation_failed : KernargBufferError

-- The part of a kernel's record that is read here.
pub record KernelInfo : Type 0 where
  pub kernarg_size : ℕ
  pub kernarg_alignment : ℕ

pub data Memory : Type 0 where
  null_memory : ℕ → Memory
  memory_at : List ℕ → Memory

abbrev pub memory_size : Memory → ℕ
memory_size (null_memory size) = size
memory_size (memory_at bytes) = length bytes

abbrev is_null : Memory → Bool
is_null (null_memory size) = true
is_null (memory_at bytes) = false

pub data KernargBufferRequirementsResult : Type 0 where
  required : (storage_size alignment : ℕ) → KernargBufferRequirementsResult
  rejected : KernargBufferError → KernargBufferRequirementsResult

-- A buffer that is valid; a moved-from or default one is `empty_buffer`.
pub record KernargBufferInfo : Type 0 where
  pub gpu_address : ℕ
  pub kernarg_size : ℕ
  pub alignment : ℕ
  pub valid : Bool

-- `reset`, and the default constructor.
unfoldable pub empty_buffer : KernargBufferInfo
empty_buffer = record { gpu_address = 0; kernarg_size = 0; alignment = 0; valid = false }

-- The move assignment from another object: the new value of the target, and of the source.
pub move_buffer : KernargBufferInfo → KernargBufferInfo × KernargBufferInfo
unfolding empty_buffer
move_buffer other = (other, empty_buffer)

-- The outcome of a materialization, with the destination afterwards; `fault` when a byte outside
-- the destination is written.
pub data Materialized : Type 0 where
  buffer : KernargBufferInfo → Memory → Materialized
  failure : KernargBufferError → Memory → Materialized
  fault : Materialized

abbrev kernarg_minimum_alignment : ℕ
kernarg_minimum_alignment = 16

-- `validate_kernarg_request`, which is `kernarg_buffer_requirements`.
pub kernarg_buffer_requirements : KernelInfo → Memory → KernargBufferRequirementsResult
kernarg_buffer_requirements kernel arguments =
    if not (is_power_of_two kernel.kernarg_alignment)
      || ltb kernel.kernarg_alignment kernarg_minimum_alignment
    then rejected invalid_kernel_metadata
    else if memory_size arguments != 0 && is_null arguments
    then rejected invalid_arguments
    else if ltb kernel.kernarg_size (memory_size arguments)
    then rejected argument_size_exceeded
    else required kernel.kernarg_size kernel.kernarg_alignment

-- Bytes over the bytes of a memory, from an offset on; `none` outside of it.
pub write_bytes : ℕ → List ℕ → List ℕ → Option (List ℕ)
write_bytes zero [] memory = some memory
write_bytes zero (b ∷ bytes) [] = none
write_bytes zero (b ∷ bytes) (x ∷ memory) = elim (write_bytes zero bytes memory) [
  | none ↦ none
  | some rest ↦ some (b ∷ rest)
]
write_bytes (suc offset) bytes [] = none
write_bytes (suc offset) bytes (x ∷ memory) = elim (write_bytes offset bytes memory) [
  | none ↦ none
  | some rest ↦ some (x ∷ rest)
]

abbrev bytes_of : Memory → List ℕ
bytes_of (null_memory size) = []
bytes_of (memory_at bytes) = bytes

-- The copy of the arguments, then the zeros behind them up to the storage size.
fill_segment : ℕ → List ℕ → List ℕ → Option (List ℕ)
unfolding write_bytes
fill_segment storage_size arguments destination = elim (write_bytes 0 arguments destination) [
  | none ↦ none
  | some copied ↦
      write_bytes (length arguments) (replicate (storage_size - length arguments) 0) copied
]

fill : KernargBufferInfo → ℕ → List ℕ → List ℕ → Materialized
unfolding fill_segment
fill info storage_size arguments destination =
    elim (fill_segment storage_size arguments destination) [
      | none ↦ fault
      | some filled ↦ buffer info (memory_at filled)
    ]

-- The segment of at least one byte, once the arguments have passed.
materialize_storage : ℕ → ℕ → List ℕ → Memory → ℕ → Materialized
unfolding fill
materialize_storage storage_size alignment arguments (null_memory size) gpu_address =
    failure invalid_destination (null_memory size)
materialize_storage storage_size alignment arguments (memory_at bytes) gpu_address =
    if ltb (length bytes) storage_size
    then failure destination_too_small (memory_at bytes)
    else if gpu_address == 0 || gpu_address % alignment != 0
    then failure misaligned_gpu_address (memory_at bytes)
    else if ltb (u64_max - storage_size) gpu_address
    then failure gpu_address_overflow (memory_at bytes)
    else fill
        (record {
          gpu_address = gpu_address;
          kernarg_size = storage_size;
          alignment = alignment;
          valid = true;
        })
        storage_size arguments bytes

-- The overload on requirements that were computed before.
pub materialize_required : KernargBufferRequirementsResult → Memory → Memory → ℕ → Materialized
unfolding materialize_storage
materialize_required (rejected error) arguments destination gpu_address = failure error destination
materialize_required (required storage_size alignment) arguments destination gpu_address =
    if memory_size arguments != 0 && is_null arguments
    then failure invalid_arguments destination
    else if ltb storage_size (memory_size arguments)
    then failure argument_size_exceeded destination
    else if storage_size == 0
    then (if not (is_null destination) || memory_size destination != 0 || gpu_address != 0
        then failure invalid_destination destination
        else buffer
            (record { gpu_address = 0; kernarg_size = 0; alignment = alignment; valid = true })
            destination)
    else materialize_storage storage_size alignment (bytes_of arguments) destination gpu_address

pub materialize_kernarg_buffer : KernelInfo → Memory → Memory → ℕ → Materialized
unfolding kernarg_buffer_requirements materialize_required
materialize_kernarg_buffer kernel arguments destination gpu_address =
    materialize_required (kernarg_buffer_requirements kernel arguments) arguments destination
      gpu_address

-- ===== src/Hidden.antt =====
-- src/light_rocr_kernargs.cpp: the hidden arguments of a kernel launch, written behind the explicit ones
-- of a kernarg segment. The types are those of light-rocr/loader/include/light_rocr/loader/code_object.hpp
-- and include/lrrt/lrrt.h.

mod Examples
pub mod Written
pub mod Meaning
pub mod Filled
pub mod Refused
use light_rocm_runtime.Prelude.{
  ℕ, zero, suc, ◌+◌, ◌-◌, ◌/◌, ◌%◌, Bool, true, false, not, ◌&&◌, ◌||◌, Option, none, some, List,
  [], ◌∷◌, ltb, ◌==◌, ◌!=◌, if◌then◌else◌,
}
use light_rocm_runtime.Image.Materialize.{Block, store}

pub data KernelArgumentKind : Type 0 where
  by_value global_buffer dynamic_shared_pointer sampler image pipe queue : KernelArgumentKind
  hidden_block_count_x hidden_block_count_y hidden_block_count_z : KernelArgumentKind
  hidden_group_size_x hidden_group_size_y hidden_group_size_z : KernelArgumentKind
  hidden_remainder_x hidden_remainder_y hidden_remainder_z : KernelArgumentKind
  hidden_global_offset_x hidden_global_offset_y hidden_global_offset_z : KernelArgumentKind
  hidden_grid_dims hidden_none hidden_printf_buffer hidden_hostcall_buffer : KernelArgumentKind
  hidden_heap_v1 hidden_default_queue hidden_completion_action : KernelArgumentKind
  hidden_multi_grid_sync_arg hidden_dynamic_lds_size hidden_private_base : KernelArgumentKind
  hidden_shared_base hidden_queue_ptr : KernelArgumentKind

pub record KernelArgumentInfo : Type 0 where
  pub offset : ℕ
  pub size : ℕ
  pub kind : KernelArgumentKind

-- The part of a kernel's record that is read here.
pub record KernelInfo : Type 0 where
  pub kernarg_size : ℕ
  pub explicit_argument_size : ℕ
  pub arguments : List KernelArgumentInfo

pub record Dim3 : Type 0 where
  pub x : ℕ
  pub y : ℕ
  pub z : ℕ

pub record LaunchConfig : Type 0 where
  pub grid : Dim3
  pub block : Dim3
  pub shared_memory_bytes : ℕ

pub dispatch_dimensions : LaunchConfig → ℕ
dispatch_dimensions config =
    if ltb 1 config.grid.z || ltb 1 config.block.z
    then 3
    else if ltb 1 config.grid.y || ltb 1 config.block.y
    then 2
    else 1

-- A value that is written, with the size of its C type.
pub record HiddenValue : Type 0 where
  pub width : ℕ
  pub value : ℕ

abbrev word32 : ℕ → Option HiddenValue
word32 value = some (record { width = 4; value = value })

abbrev word16 : ℕ → Option HiddenValue
word16 value = some (record { width = 2; value = value % 0x10000 })

-- The cases of the `switch`; `none` is its default, which writes nothing.
unfoldable pub hidden_value : LaunchConfig → KernelArgumentKind → Option HiddenValue
unfolding dispatch_dimensions
hidden_value config hidden_block_count_x = word32 (config.grid.x / config.block.x)
hidden_value config hidden_block_count_y = word32 (config.grid.y / config.block.y)
hidden_value config hidden_block_count_z = word32 (config.grid.z / config.block.z)
hidden_value config hidden_group_size_x = word16 config.block.x
hidden_value config hidden_group_size_y = word16 config.block.y
hidden_value config hidden_group_size_z = word16 config.block.z
hidden_value config hidden_remainder_x = word16 (config.grid.x % config.block.x)
hidden_value config hidden_remainder_y = word16 (config.grid.y % config.block.y)
hidden_value config hidden_remainder_z = word16 (config.grid.z % config.block.z)
hidden_value config hidden_grid_dims = word16 (dispatch_dimensions config)
hidden_value config hidden_dynamic_lds_size = word32 config.shared_memory_bytes
hidden_value config _ = none

-- A null pointer comes with the size that the caller states; any other points at that many bytes.
pub data KernargMemory : Type 0 where
  null_kernarg : ℕ → KernargMemory
  kernarg_at : Block → KernargMemory

abbrev pub memory_size : KernargMemory → ℕ
memory_size (null_kernarg size) = size
memory_size (kernarg_at b) = b.size

abbrev is_null : KernargMemory → Bool
is_null (null_kernarg size) = true
is_null (kernarg_at b) = false

-- The result, with the memory afterwards; `fault` when a byte outside of it is written.
pub data Populated : Type 0 where
  populated refused : KernargMemory → Populated
  fault : Populated

-- Byte `i` of a number, lowest first.
pub byte_of : ℕ → ℕ → ℕ
byte_of value zero = value % 256
byte_of value (suc i) = byte_of (value / 256) i

copy_value : KernargMemory → KernelArgumentInfo → HiddenValue → Populated
unfolding byte_of store
copy_value (null_kernarg size) argument v = fault
copy_value (kernarg_at b) argument v = elim (store argument.offset v.width (byte_of v.value) b) [
  | none ↦ fault
  | some written ↦ populated (kernarg_at written)
]

pub write_argument : KernargMemory → KernelArgumentInfo → HiddenValue → Populated
unfolding copy_value
write_argument m argument v =
    if argument.size != v.width
      || ltb (memory_size m) argument.offset
      || ltb (memory_size m - argument.offset) argument.size
    then refused m
    else copy_value m argument v

write_hidden : LaunchConfig → KernargMemory → KernelArgumentInfo → Populated
unfolding hidden_value write_argument
write_hidden config m argument = elim (hidden_value config argument.kind) [
  | none ↦ populated m
  | some v ↦ write_argument m argument v
]

-- `std::lower_bound` on arguments that are sorted by offset.
first_hidden : ℕ → List KernelArgumentInfo → List KernelArgumentInfo
first_hidden explicit_size [] = []
first_hidden explicit_size (a ∷ rest) =
    let later = first_hidden explicit_size rest in
    if ltb a.offset explicit_size then later else a ∷ rest

pub write_all_hidden : LaunchConfig → KernargMemory → List KernelArgumentInfo → Populated
unfolding write_hidden
write_all_hidden config m [] = populated m
write_all_hidden config m (a ∷ rest) = elim (write_hidden config m a) [
  | populated m' ↦ write_all_hidden config m' rest
  | refused m' ↦ refused m'
  | fault ↦ fault
]

-- The guard on the sizes, the pointer and the launch.
pub is_refused : KernelInfo → LaunchConfig → KernargMemory → Bool
is_refused kernel config m =
    ltb (memory_size m) kernel.kernarg_size
    || (kernel.kernarg_size != 0 && is_null m)
    || config.grid.x == 0
    || config.grid.y == 0
    || config.grid.z == 0
    || config.block.x == 0
    || config.block.y == 0
    || config.block.z == 0
    || ltb 0xffff config.block.x
    || ltb 0xffff config.block.y
    || ltb 0xffff config.block.z
    || ltb config.grid.x config.block.x
    || ltb config.grid.y config.block.y
    || ltb config.grid.z config.block.z

pub populate_light_rocr_hidden_kernargs : KernelInfo → LaunchConfig → KernargMemory → Populated
unfolding is_refused write_all_hidden first_hidden
populate_light_rocr_hidden_kernargs kernel config m =
    if is_refused kernel config m
    then refused m
    else write_all_hidden config m (first_hidden kernel.explicit_argument_size kernel.arguments)

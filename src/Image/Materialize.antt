-- ===== src/Image/Materialize.antt =====
-- light-rocr/runtime/executable_image.cpp, `materialize_executable_image`: the bytes of an image. A
-- destination is its size and its bytes by offset; a write outside of it, or a read outside of the
-- code object, is the result `outside`, which in the source is undefined behaviour.
pub mod Bytes
pub mod Written
pub mod Outcome
use light_rocm_runtime.Prelude.{
  ℕ, zero, suc, ◌+◌, ◌-◌, ◌*◌, ◌/◌, ◌%◌, ◌^◌, Bool, true, false, not, ◌&&◌, ◌||◌, Option, none,
  some, List, [], ◌∷◌, length, get_or, ltb, leb, ◌==◌, ◌!=◌, if◌then◌else◌,
}
use light_rocm_runtime.Word.{u64_limit, checked_add}
use light_rocm_runtime.Plan.{LoadPlan, LoadCopy, LoadZeroFill, Relocation, RelocationEncoding}
use light_rocm_runtime.Image.{
  ExecutableImageError, Result, ok, err, ◌>>=◌, ◌>>◌, reject_if, KernelInfo, page_size,
  descriptor_size, validate_plan, translate_executable_address, invalid_argument,
  misaligned_allocation, gpu_address_overflow, is_some,
}

pub record Block : Type 0 where
  pub size : ℕ
  pub byte : ℕ → ℕ

-- The block with `count` bytes from an offset on, the i-th of them `source i`.
unfoldable pub overlay : ℕ → ℕ → (ℕ → ℕ) → Block → Block
overlay offset count source b = record {
  size = b.size;
  byte = λ i. if leb offset i && ltb i (offset + count) then source (i - offset) else b.byte i;
}

-- `memset` and `memcpy`: `none` outside of the block.
unfoldable pub store : ℕ → ℕ → (ℕ → ℕ) → Block → Option Block
store offset count source b =
    if ltb b.size (offset + count) then none else some (overlay offset count source b)

abbrev pub then_do : Option Block → (Block → Option Block) → Option Block
then_do none f = none
then_do (some b) f = f b

unfoldable pub apply_copy : ℕ → List ℕ → LoadCopy → Block → Option Block
unfolding store
apply_copy base hsaco c b =
    if ltb (length hsaco) (c.file_offset + c.size)
    then none
    else store (c.virtual_address - base) c.size (λ i. get_or hsaco (c.file_offset + i) 0) b

unfoldable pub apply_copies : ℕ → List ℕ → List LoadCopy → Block → Option Block
unfolding apply_copy
apply_copies base hsaco [] b = some b
apply_copies base hsaco (c ∷ cs) b =
    then_do (apply_copy base hsaco c b) (λ b'. apply_copies base hsaco cs b')

unfoldable pub apply_zero_fills : ℕ → List LoadZeroFill → Block → Option Block
unfolding store
apply_zero_fills base [] b = some b
apply_zero_fills base (z ∷ zs) b =
    then_do (store (z.virtual_address - base) z.size (λ i. 0) b) (λ b'. apply_zero_fills base zs b')

-- The bytes of a number in the block, lowest first.
unfoldable pub load : ℕ → ℕ → Block → ℕ
load zero offset b = 0
load (suc count) offset b = b.byte offset + 256 * load count (offset + 1) b

-- The addend, which the encoding without one has in the image.
addend_of : Relocation → ℕ → Block → ℕ
unfolding load
addend_of r target b = elim r.encoding [
  | RelocationEncoding.rel ↦ load 8 target b
  | RelocationEncoding.rela ↦ r.addend
]

relocated : ℕ → Relocation → ℕ → ℕ
relocated load_bias r addend =
    if r.kind == 13
    then (load_bias + addend) % u64_limit
    else ((if r.symbol_is_absolute
          then r.symbol_value
          else (load_bias + r.symbol_value) % u64_limit)
        + addend)
      % u64_limit

pub relocation_byte : ℕ → Relocation → ℕ → Block → ℕ → ℕ
unfolding addend_of relocated
relocation_byte load_bias r target b i =
    relocated load_bias r (addend_of r target b) / 256 ^ i % 256

unfoldable pub apply_relocation : ℕ → ℕ → Relocation → Block → Option Block
unfolding store relocation_byte
apply_relocation base load_bias r b =
    let target = r.target_virtual_address - base in
    if r.kind == 0
    then some b
    else if ltb b.size (target + 8)
    then none
    else store target 8 (relocation_byte load_bias r target b) b

unfoldable pub apply_relocations : ℕ → ℕ → List Relocation → Block → Option Block
unfolding apply_relocation
apply_relocations base load_bias [] b = some b
apply_relocations base load_bias (r ∷ rs) b =
    then_do (apply_relocation base load_bias r b) (λ b'. apply_relocations base load_bias rs b')

-- What is written, in order: zeros over the allocation, the copies, the zero fills, the relocations.
unfoldable pub write_image : ℕ → List ℕ → LoadPlan → ℕ → Block → Option Block
unfolding store apply_copies apply_zero_fills apply_relocations
write_image allocation_size hsaco plan load_bias destination =
    let base = plan.image_virtual_address in
    then_do (store 0 allocation_size (λ i. 0) destination) (λ b0.
      then_do (apply_copies base hsaco plan.copies b0) (λ b1.
        then_do (apply_zero_fills base plan.zero_fills b1)
          (λ b2. apply_relocations base load_bias plan.relocations b2)))

pub record ResolvedKernel : Type 0 where
  pub descriptor_gpu_address : ℕ
  pub code_entry_gpu_address : ℕ

resolve_kernels : LoadPlan → ℕ → List KernelInfo → Result (List ResolvedKernel)
resolve_kernels plan gpu_address [] = ok []
resolve_kernels plan gpu_address (k ∷ ks) =
    translate_executable_address plan gpu_address k.descriptor_virtual_address descriptor_size 64
    >>= λ descriptor.
        translate_executable_address plan gpu_address k.code_entry_virtual_address 1 1
        >>= λ code_entry. resolve_kernels plan gpu_address ks >>= λ rest. ok (
            record { descriptor_gpu_address = descriptor; code_entry_gpu_address = code_entry }
            ∷ rest)

all_symbols_fit : ℕ → List Relocation → Bool
all_symbols_fit load_bias [] = true
all_symbols_fit load_bias (r ∷ rs) =
    not (
      r.kind == 3
      && not r.symbol_is_absolute
      && not (is_some (checked_add load_bias r.symbol_value)))
    && all_symbols_fit load_bias rs

-- The checks, up to the first write: the size of the allocation and the kernels' addresses.
unfoldable pub prepare_image :
    List ℕ → LoadPlan → List KernelInfo → ℕ → ℕ → Result (ℕ × List ResolvedKernel)
unfolding resolve_kernels all_symbols_fit
prepare_image hsaco plan kernels destination_size gpu_address =
    validate_plan (length hsaco) plan kernels >>= λ allocation_size.
    reject_if (ltb destination_size allocation_size) invalid_argument >>= λ _.
    reject_if
      (gpu_address % page_size != 0
        || gpu_address % plan.alignment != plan.image_virtual_address % plan.alignment)
      misaligned_allocation
    >>= λ _.
        reject_if (not (is_some (checked_add gpu_address allocation_size))) gpu_address_overflow
        >>= λ _.
            reject_if (ltb gpu_address plan.image_virtual_address) gpu_address_overflow >>= λ _.
            reject_if
              (not (all_symbols_fit (gpu_address - plan.image_virtual_address) plan.relocations))
              gpu_address_overflow
            >>= λ _. resolve_kernels plan gpu_address kernels >>= λ resolved.
                ok (allocation_size, resolved)

pub data Materialization : Type 0 where
  materialized : (allocation_size gpu_address : ℕ) → List ResolvedKernel → Block → Materialization
  refused : ExecutableImageError → Materialization
  outside : Materialization

finish_image : List ℕ → LoadPlan → ℕ → Block → ℕ × List ResolvedKernel → Materialization
unfolding write_image
finish_image hsaco plan gpu_address destination (allocation_size, resolved) =
    elim (write_image allocation_size hsaco plan (gpu_address - plan.image_virtual_address)
      destination) [
        | none ↦ outside
        | some image ↦ materialized allocation_size gpu_address resolved image
      ]

-- A destination that is null is refused after the plan is validated.
unfoldable pub materialize_executable_image :
    List ℕ → LoadPlan → List KernelInfo → Option Block → ℕ → Materialization
unfolding prepare_image finish_image
materialize_executable_image hsaco plan kernels none gpu_address =
    elim (validate_plan (length hsaco) plan kernels) [
      | err e ↦ refused e
      | ok allocation_size ↦ refused invalid_argument
    ]
materialize_executable_image hsaco plan kernels (some destination) gpu_address =
    elim (prepare_image hsaco plan kernels destination.size gpu_address) [
      | err e ↦ refused e
      | ok prepared ↦ finish_image hsaco plan gpu_address destination prepared
    ]

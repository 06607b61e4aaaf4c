-- ===== src/Image.antt =====
-- light-rocr/runtime/executable_image.cpp and its header: the test of a load plan against a code
-- object's bytes, the translation of addresses, and the bytes of a materialized image.

mod Examples
pub mod Validate
pub mod Usable
pub mod Materialize
pub mod Ranges
use light_rocm_runtime.Prelude.{
  ℕ, ◌+◌, ◌-◌, ◌*◌, ◌%◌, ◌^◌, Bool, true, false, not, ◌&&◌, ◌||◌, Option, none, some, List, [], ◌∷◌,
  ltb, leb, ◌==◌, ◌!=◌, if◌then◌else◌, bit_and, zero, suc,
}
use light_rocm_runtime.Word.{
  u64_max, u64_limit, u32_max, checked_add, range_is_in_file, is_power_of_two,
}
use light_rocm_runtime.Plan.{
  LoadPlan, LoadCopy, LoadZeroFill, LoadProtection, Relocation, RelocationEncoding,
}

-- `image_offset`, with `none` for false.
unfoldable pub image_offset : LoadPlan → ℕ → ℕ → Option ℕ
image_offset plan virtual_address size =
    let candidate = virtual_address - plan.image_virtual_address in
    if size == 0 || ltb virtual_address plan.image_virtual_address
    then none
    else if ltb plan.image_size candidate || ltb (plan.image_size - candidate) size
    then none
    else some candidate

abbrev pub is_some : Option ℕ → Bool
is_some none = false
is_some (some n) = true

module _ {A : Type 0} (address size : A → ℕ) where
  -- The loop, with the end of the operation before.
  ordered_from : Option ℕ → List A → Bool
  ordered_from previous [] = true
  ordered_from previous (operation ∷ rest) =
      elim (checked_add (address operation) (size operation)) [
        | none ↦ false
        | some operation_end ↦
            let later = ordered_from (some operation_end) rest in
            if size operation == 0 then false else elim previous [
              | none ↦ later
              | some previous_end ↦ if ltb (address operation) previous_end then false else later
            ]
      ]

  unfoldable pub operations_are_ordered : List A → Bool
  unfolding ordered_from
  operations_are_ordered = ordered_from none

-- The loop with one index into each list.
unfoldable pub copy_and_zero_fill_ranges_overlap : List LoadCopy → List LoadZeroFill → Bool
copy_and_zero_fill_ranges_overlap [] zs = false
copy_and_zero_fill_ranges_overlap (c ∷ cs) [] = false
copy_and_zero_fill_ranges_overlap (c ∷ cs) (z ∷ zs) =
    let copy_end = (c.virtual_address + c.size) % u64_limit in
    let zero_fill_end = (z.virtual_address + z.size) % u64_limit in
    let next_copy = copy_and_zero_fill_ranges_overlap cs (z ∷ zs) in
    let next_zero_fill = copy_and_zero_fill_ranges_overlap (c ∷ cs) zs in
    if ltb c.virtual_address zero_fill_end && ltb z.virtual_address copy_end
    then true
    else if leb copy_end z.virtual_address
    then next_copy
    else next_zero_fill

module _ {A : Type 0} (start : A → ℕ) where
  -- The element before the first that starts behind the address (`std::upper_bound`, one step back).
  last_at_or_before : ℕ → Option A → List A → Option A
  last_at_or_before address best [] = best
  last_at_or_before address best (x ∷ xs) =
      let later = last_at_or_before address (some x) xs in
      if ltb address (start x) then best else later

pub data ExecutableImageError : Type 0 where
  invalid_argument empty_image image_size_overflow unsupported_alignment : ExecutableImageError
  unsupported_relocations invalid_copy_operation invalid_zero_fill_operation : ExecutableImageError
  invalid_protection_operation invalid_kernel_descriptor allocation_failed : ExecutableImageError
  misaligned_allocation invalid_virtual_address gpu_address_overflow : ExecutableImageError

pub data Result {ℓ} (A : Type ℓ) : Type ℓ where
  ok : A → Result A
  err : ExecutableImageError → Result A

infixl 5 ◌>>=◌ ◌>>◌
abbrev pub ◌>>=◌ {ℓ κ} : {A : Type ℓ} {B : Type κ} → Result A → (A → Result B) → Result B
ok a >>= f = f a
err e >>= f = err e

abbrev pub ◌>>◌ {κ} : {B : Type κ} → Result (Unit {0}) → Result B → Result B
m >> k = m >>= λ _. k

abbrev pub reject_if : Bool → ExecutableImageError → Result (Unit {0})
reject_if true e = err e
reject_if false e = ok tt

abbrev pub page_size : ℕ
page_size = 4096

abbrev pub descriptor_size : ℕ
descriptor_size = 64

-- The part of a kernel's record that the image code reads; the byte offset is the bit pattern of
-- the `int64_t`.
pub record KernelInfo : Type 0 where
  pub descriptor_virtual_address : ℕ
  pub code_entry_byte_offset : ℕ
  pub code_entry_virtual_address : ℕ

range_in_operation : ℕ → ℕ → ℕ → ℕ → Bool
range_in_operation start extent address size =
    let offset = address - start in
    leb start address && leb offset extent && leb size (extent - offset)

has_flags : ℕ → ℕ → Bool
has_flags flags required = bit_and flags required == required

unfoldable pub range_has_protection : List LoadProtection → ℕ → ℕ → ℕ → Bool
unfolding last_at_or_before range_in_operation has_flags
range_has_protection protections address size required =
    elim (last_at_or_before (λ p. p.virtual_address) address none protections) [
      | none ↦ false
      | some p ↦
          has_flags p.flags required && range_in_operation p.virtual_address p.size address size
    ]

unfoldable pub range_is_file_backed : List LoadCopy → ℕ → ℕ → Bool
unfolding last_at_or_before range_in_operation
range_is_file_backed copies address size =
    elim (last_at_or_before (λ c. c.virtual_address) address none copies) [
      | none ↦ false
      | some c ↦ range_in_operation c.virtual_address c.size address size
    ]

-- The offset is negative from 2 ^ 63 on.
add_signed_offset : ℕ → ℕ → Option ℕ
add_signed_offset base offset =
    if ltb offset (2 ^ 63)
    then checked_add base offset
    else if ltb base (u64_limit - offset)
    then none
    else some (base - (u64_limit - offset))

-- Zero for the types that an image does not support, and for type 0, which writes nothing.
unfoldable pub relocation_width : ℕ → ℕ
relocation_width kind = if kind == 3 || kind == 13 then 8 else 0

pub all_copies_inside : LoadPlan → ℕ → List LoadCopy → Bool
all_copies_inside plan file_size [] = true
all_copies_inside plan file_size (c ∷ cs) =
    range_is_in_file c.file_offset c.size file_size
    && is_some (image_offset plan c.virtual_address c.size)
    && all_copies_inside plan file_size cs

pub all_zero_fills_inside : LoadPlan → List LoadZeroFill → Bool
all_zero_fills_inside plan [] = true
all_zero_fills_inside plan (z ∷ zs) =
    is_some (image_offset plan z.virtual_address z.size) && all_zero_fills_inside plan zs

pub all_protections_inside : LoadPlan → List LoadProtection → Bool
all_protections_inside plan [] = true
all_protections_inside plan (p ∷ ps) =
    bit_and p.flags (u32_max - 7) == 0
    && is_some (image_offset plan p.virtual_address p.size)
    && all_protections_inside plan ps

-- The loop over the relocations, with the end of the target before, if there was one.
pub all_relocations_supported : LoadPlan → Option ℕ → List Relocation → Bool
unfolding relocation_width
all_relocations_supported plan previous [] = true
all_relocations_supported plan previous (r ∷ rs) =
    let skipped = all_relocations_supported plan previous rs in
    let target_end = r.target_virtual_address + relocation_width r.kind in
    let written = all_relocations_supported plan (some target_end) rs in
    if (r.kind != 0 && relocation_width r.kind == 0) || (r.kind == 13 && r.symbol_index != 0)
    then false
    else if relocation_width r.kind == 0
    then skipped
    else is_some (image_offset plan r.target_virtual_address (relocation_width r.kind))
      && is_some (checked_add r.target_virtual_address (relocation_width r.kind))
      && elim previous [ none ↦ true | some e ↦ leb e r.target_virtual_address ]
      && written

pub all_copies_protected : LoadPlan → List LoadCopy → Bool
all_copies_protected plan [] = true
all_copies_protected plan (c ∷ cs) =
    range_has_protection plan.protections c.virtual_address c.size 0 && all_copies_protected plan cs

pub all_zero_fills_protected : LoadPlan → List LoadZeroFill → Bool
all_zero_fills_protected plan [] = true
all_zero_fills_protected plan (z ∷ zs) =
    range_has_protection plan.protections z.virtual_address z.size 0
    && all_zero_fills_protected plan zs

kernel_is_consistent : LoadPlan → KernelInfo → Bool
unfolding add_signed_offset
kernel_is_consistent plan k =
    elim (image_offset plan k.descriptor_virtual_address descriptor_size) [
      | none ↦ false
      | some descriptor_offset ↦
          k.descriptor_virtual_address % 64 == 0
          && descriptor_offset % 64 == 0
          && range_is_file_backed plan.copies k.descriptor_virtual_address descriptor_size
          && elim (add_signed_offset k.descriptor_virtual_address k.code_entry_byte_offset) [
            | none ↦ false
            | some expected_code_entry ↦ expected_code_entry == k.code_entry_virtual_address
          ]
          && range_is_file_backed plan.copies k.code_entry_virtual_address 1
          && range_has_protection plan.protections k.code_entry_virtual_address 1 1
    ]

pub all_kernels_consistent : LoadPlan → List KernelInfo → Bool
unfolding kernel_is_consistent
all_kernels_consistent plan [] = true
all_kernels_consistent plan (k ∷ ks) = kernel_is_consistent plan k && all_kernels_consistent plan ks

abbrev pub copies_are_ordered : LoadPlan → Bool
copies_are_ordered plan =
    operations_are_ordered (λ (c : LoadCopy). c.virtual_address) (λ c. c.size) plan.copies

abbrev pub zero_fills_are_ordered : LoadPlan → Bool
zero_fills_are_ordered plan =
    operations_are_ordered (λ (z : LoadZeroFill). z.virtual_address) (λ z. z.size) plan.zero_fills

abbrev pub protections_are_ordered : LoadPlan → Bool
protections_are_ordered plan =
    operations_are_ordered (λ (p : LoadProtection). p.virtual_address) (λ p. p.size)
      plan.protections

abbrev pub page_rounded : ℕ → ℕ
page_rounded n = bit_and (n + page_size - 1) (u64_max - (page_size - 1))

-- `validate_plan` on a code object of `file_size` bytes at a pointer that is not null.
pub validate_plan : ℕ → LoadPlan → List KernelInfo → Result ℕ
unfolding all_copies_inside all_zero_fills_inside all_protections_inside all_relocations_supported
    all_copies_protected all_zero_fills_protected all_kernels_consistent
validate_plan file_size plan kernels = do
  reject_if (plan.image_size == 0) empty_image
  reject_if (not (is_some (checked_add plan.image_virtual_address plan.image_size)))
      image_size_overflow
  reject_if
      (not (is_power_of_two plan.alignment)
        || ltb page_size plan.alignment
        || plan.image_virtual_address % plan.alignment != 0)
      unsupported_alignment
  reject_if (ltb (u64_max - (page_size - 1)) plan.image_size) image_size_overflow
  reject_if (not (copies_are_ordered plan)) invalid_copy_operation
  reject_if (not (all_copies_inside plan file_size plan.copies)) invalid_copy_operation
  reject_if (not (zero_fills_are_ordered plan)) invalid_zero_fill_operation
  reject_if (not (all_zero_fills_inside plan plan.zero_fills)) invalid_zero_fill_operation
  reject_if (not (all_relocations_supported plan none plan.relocations)) unsupported_relocations
  reject_if (copy_and_zero_fill_ranges_overlap plan.copies plan.zero_fills)
      invalid_zero_fill_operation
  reject_if (not (protections_are_ordered plan)) invalid_protection_operation
  reject_if (not (all_protections_inside plan plan.protections)) invalid_protection_operation
  reject_if (not (all_copies_protected plan plan.copies)) invalid_protection_operation
  reject_if (not (all_zero_fills_protected plan plan.zero_fills)) invalid_protection_operation
  reject_if (not (all_kernels_consistent plan kernels)) invalid_kernel_descriptor
  ok (page_rounded plan.image_size)

pub translate_executable_address : LoadPlan → ℕ → ℕ → ℕ → ℕ → Result ℕ
translate_executable_address plan gpu_address virtual_address size alignment =
    if not (is_power_of_two alignment)
    then err invalid_virtual_address
    else elim (image_offset plan virtual_address size) [
      | none ↦ err invalid_virtual_address
      | some offset ↦ elim (checked_add gpu_address offset) [
        | none ↦ err gpu_address_overflow
        | some translated ↦
            if translated % alignment != 0 then err invalid_virtual_address else ok translated
      ]
    ]

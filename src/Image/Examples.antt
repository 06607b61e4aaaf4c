-- ===== src/Image/Examples.antt =====
-- The plan of a code object of two segments, and an address of it on the GPU.
use light_rocm_runtime.Prelude.{
  ℕ, zero, suc, some, ◌⊎◌, ◌+◌, ◌%◌, ◌≤◌, ◌<◌, ◌≡◌, ◌↔◌, refl, true, false, List, [], ◌∷◌, All,
  arith,
}
use light_rocm_runtime.Prelude.Sorting.{AllPairs}
use light_rocm_runtime.Word.{u64_limit, checked_add, is_power_of_two, range_is_in_file}
use light_rocm_runtime.Plan.{LoadPlan, LoadCopy, LoadZeroFill}
use light_rocm_runtime.Image.{
  ExecutableImageError, page_size, operations_are_ordered, copy_and_zero_fill_ranges_overlap,
  image_offset, ok, err, invalid_virtual_address, translate_executable_address, KernelInfo,
  validate_plan, range_has_protection, range_is_file_backed, relocation_width,
}
use light_rocm_runtime.Image.Ranges.{
  IsProper, EndsBefore, AreApart, operations_are_ordered_iff, copy_and_zero_fill_ranges_overlap_iff,
  translate_executable_address_sound,
}
use light_rocm_runtime.Image.Materialize.{
  Block, overlay, store, Materialization, materialized, refused, outside, ResolvedKernel,
  materialize_executable_image, write_image, apply_copies, apply_zero_fills, apply_relocations,
  prepare_image,
}
use light_rocm_runtime.Image.Materialize.Written.{IsMaterialized}
use light_rocm_runtime.Image.Materialize.Outcome.{materialize_executable_image-IsMaterialized}
use light_rocm_runtime.Image.Usable.{IsUsable, validate_plan-IsUsable}

abbrev copies : List LoadCopy
copies = record { file_offset = 0; virtual_address = 0; size = 176 } ∷ []

abbrev zero_fills : List LoadZeroFill
zero_fills = record { virtual_address = 0x10b0; size = 32 } ∷ []

abbrev plan : LoadPlan
plan = record {
  image_virtual_address = 0;
  image_size = 0x10d0;
  alignment = 4096;
  copies = copies;
  zero_fills = zero_fills;
  protections =
      record { virtual_address = 0; size = 176; flags = 5 }
      ∷ record { virtual_address = 0x10b0; size = 32; flags = 6 }
      ∷ [];
  relocations = [];
}

abbrev kernel : KernelInfo
kernel = record {
  descriptor_virtual_address = 64;
  code_entry_byte_offset = 64;
  code_entry_virtual_address = 128;
}

program : Unit {0}
unfolding validate_plan operations_are_ordered copy_and_zero_fill_ranges_overlap image_offset
    translate_executable_address range_has_protection range_is_file_backed relocation_width
    checked_add is_power_of_two range_is_in_file
program = tt

validates : validate_plan 176 plan (kernel ∷ []) ≡ ok 0x2000
unfolding program
validates = refl

translates : translate_executable_address plan 0x7000 0x40 64 64 ≡ ok 0x7040
unfolding program
translates = refl

refuses_behind_the_end :
    translate_executable_address plan 0x7000 0x10c0 32 1 ≡ err invalid_virtual_address
unfolding program
refuses_behind_the_end = refl

operations_are_ordered_iff_example :
    (operations_are_ordered (λ (c : LoadCopy). c.virtual_address) (λ c. c.size) copies ≡ true) ↔ (
      All (IsProper (λ (c : LoadCopy). c.virtual_address) (λ c. c.size)) copies
      × AllPairs (EndsBefore (λ (c : LoadCopy). c.virtual_address) (λ c. c.size)) copies)
operations_are_ordered_iff_example =
    operations_are_ordered_iff (λ c. c.virtual_address) (λ c. c.size) copies

copy_and_zero_fill_ranges_overlap_iff_example :
    (copy_and_zero_fill_ranges_overlap copies zero_fills ≡ false)
    ↔ (All (λ c. All (AreApart c) zero_fills) copies)
copy_and_zero_fill_ranges_overlap_iff_example =
    copy_and_zero_fill_ranges_overlap_iff copies zero_fills
      (((omega arith, omega arith), tt), (tt, tt)) (((omega arith, omega arith), tt), (tt, tt))

translate_executable_address_sound_example :
    (0x7040 + 0 ≡ 0x7000 + 0x40)
    × (0x7000 ≤ 0x7040)
    × (0x7040 + 64 ≤ 0x7000 + 0x10d0)
    × (0x7040 % 64 ≡ 0)
    × (0x7040 < u64_limit)
translate_executable_address_sound_example =
    translate_executable_address_sound plan 0x7000 0x40 64 64 0x7040 (omega arith) translates

validate_plan-IsUsable_example : IsUsable 176 plan (kernel ∷ []) 0x2000
validate_plan-IsUsable_example = validate_plan-IsUsable 176 plan (kernel ∷ []) 0x2000 validates

-- A code object whose byte i is i, for the 176 bytes of its copy.
abbrev counting : ℕ → ℕ → List ℕ
counting zero at = []
counting (suc n) at = at ∷ counting n (at + 1)

abbrev blank : Block
blank = record { size = 0x3000; byte = λ i. 0xff }

abbrev image_bytes : Materialization → ℕ → ℕ
image_bytes (materialized n at resolved image) i = image.byte i
image_bytes (refused e) i = 0x100
image_bytes outside i = 0x100

run : Materialization
run = materialize_executable_image (counting 176 0) plan (kernel ∷ []) (some blank) 0x7000

copied_byte : image_bytes run 100 ≡ 100
unfolding program run materialize_executable_image write_image apply_copies apply_zero_fills
    apply_relocations prepare_image store overlay
copied_byte = refl

zeroed_byte : image_bytes run 0x1fff ≡ 0
unfolding program run materialize_executable_image write_image apply_copies apply_zero_fills
    apply_relocations prepare_image store overlay
zeroed_byte = refl

untouched_byte : image_bytes run 0x2000 ≡ 0xff
unfolding program run materialize_executable_image write_image apply_copies apply_zero_fills
    apply_relocations prepare_image store overlay
untouched_byte = refl

materialize_executable_image-IsMaterialized_example :
    ((e : ExecutableImageError) × (materialize_executable_image
          (counting 176 0)
          plan
          (kernel ∷ [])
          (some blank)
          0x7000
        ≡ refused e))
    ⊎ ((n : ℕ) × (resolved : List ResolvedKernel) × (image : Block) × (materialize_executable_image
            (counting 176 0)
            plan
            (kernel ∷ [])
            (some blank)
            0x7000
          ≡ materialized n 0x7000 resolved image)
        × IsMaterialized (counting 176 0) plan n blank image
        × (0x7000 % page_size ≡ 0)
        × (0 ≤ 0x7000)
        × (0x7000 + n < u64_limit))
materialize_executable_image-IsMaterialized_example =
    materialize_executable_image-IsMaterialized (counting 176 0) plan (kernel ∷ []) blank 0x7000
      (omega arith)

-- ===== src/Plan.antt =====
-- light-rocr/loader/load_plan_reader.cpp, `build_load_plan` up to the relocations: what is copied,
-- zeroed and protected for each segment, and the extent of the image. The types are those of
-- light-rocr/loader/include/light_rocr/loader/code_object.hpp.

mod Examples
pub mod Dynamic
pub mod Table
pub mod Build
pub mod Fold
pub mod Collected
pub mod Accepted
use light_rocm_runtime.Prelude.{
  ℕ, ◌-◌, min, max, Bool, Option, none, some, List, [], ◌∷◌, ◌++◌, ltb, ◌==◌, ◌!=◌, if◌then◌else◌,
}
use light_rocm_runtime.Prelude.Sorting.{sort}
use light_rocm_runtime.Word.{u64_max, checked_add}
use light_rocm_runtime.Loader.{
  Outcome, done, failed, ◌>>=◌, LoadSegment, segment_virtual_range_overflow, ParseError,
}

pub record LoadCopy : Type 0 where
  pub file_offset : ℕ
  pub virtual_address : ℕ
  pub size : ℕ

pub record LoadZeroFill : Type 0 where
  pub virtual_address : ℕ
  pub size : ℕ

pub record LoadProtection : Type 0 where
  pub virtual_address : ℕ
  pub size : ℕ
  pub flags : ℕ

pub data RelocationEncoding : Type 0 where
  rel rela : RelocationEncoding

-- The addend is the bit pattern of the `int64_t`.
pub record Relocation : Type 0 where
  pub encoding : RelocationEncoding
  pub target_virtual_address : ℕ
  pub kind : ℕ
  pub symbol_index : ℕ
  pub addend : ℕ
  pub symbol_value : ℕ
  pub symbol_is_absolute : Bool

-- The plan while the loop over the segments runs, with the end of the image beside it.
pub record Layout : Type 0 where
  pub image_virtual_address : ℕ
  pub image_end : ℕ
  pub alignment : ℕ
  pub copies : List LoadCopy
  pub zero_fills : List LoadZeroFill
  pub protections : List LoadProtection

pub record LoadPlan : Type 0 where
  pub image_virtual_address : ℕ
  pub image_size : ℕ
  pub alignment : ℕ
  pub copies : List LoadCopy
  pub zero_fills : List LoadZeroFill
  pub protections : List LoadProtection
  pub relocations : List Relocation

empty_layout : Layout
empty_layout = record {
  image_virtual_address = u64_max;
  image_end = 0;
  alignment = 1;
  copies = [];
  zero_fills = [];
  protections = [];
}

range_overflow : LoadSegment → ParseError
range_overflow s = record { code = segment_virtual_range_overflow; offset = s.virtual_address }

or_overflow : LoadSegment → Option ℕ → Outcome ℕ
unfolding range_overflow
or_overflow s none = failed (range_overflow s)
or_overflow s (some n) = done n

-- The zero fill of the memory behind the file bytes.
add_zero_fill : LoadSegment → List LoadZeroFill → Outcome (List LoadZeroFill)
unfolding or_overflow
add_zero_fill s fills =
    if ltb s.file_size s.memory_size
    then (or_overflow s (checked_add s.virtual_address s.file_size) >>= λ zero_address. done (
        fills
        ++ (record { virtual_address = zero_address; size = s.memory_size - s.file_size } ∷ [])))
    else done fills

-- The body of the loop.
add_segment : Layout → LoadSegment → Outcome Layout
unfolding or_overflow add_zero_fill
add_segment l s =
    if s.memory_size == 0
    then done l
    else (or_overflow s (checked_add s.virtual_address s.memory_size) >>= λ segment_end.
        add_zero_fill s l.zero_fills >>= λ zero_fills. done (record {
          image_virtual_address = min l.image_virtual_address s.virtual_address;
          image_end = max l.image_end segment_end;
          alignment = max l.alignment s.alignment;
          copies =
              if s.file_size != 0
              then l.copies
                ++ (record {
                  file_offset = s.file_offset;
                  virtual_address = s.virtual_address;
                  size = s.file_size;
                }
                    ∷ [])
              else l.copies;
          zero_fills = zero_fills;
          protections =
              l.protections
              ++ (record {
                virtual_address = s.virtual_address;
                size = s.memory_size;
                flags = s.flags;
              }
                  ∷ []);
        }))

pub add_segments : Layout → List LoadSegment → Outcome Layout
unfolding add_segment
add_segments l [] = done l
add_segments l (s ∷ ss) = add_segment l s >>= λ l'. add_segments l' ss

copy_before : LoadCopy → LoadCopy → Bool
copy_before lhs rhs =
    if lhs.virtual_address != rhs.virtual_address
    then ltb lhs.virtual_address rhs.virtual_address
    else ltb lhs.file_offset rhs.file_offset

zero_fill_before : LoadZeroFill → LoadZeroFill → Bool
zero_fill_before lhs rhs = ltb lhs.virtual_address rhs.virtual_address

protection_before : LoadProtection → LoadProtection → Bool
protection_before lhs rhs = ltb lhs.virtual_address rhs.virtual_address

finish_plan : Layout → LoadPlan
unfolding copy_before zero_fill_before protection_before sort
finish_plan l = record {
  image_virtual_address = if l.image_virtual_address == u64_max then 0 else l.image_virtual_address;
  image_size =
      if l.image_virtual_address == u64_max then 0 else l.image_end - l.image_virtual_address;
  alignment = l.alignment;
  copies = sort copy_before l.copies;
  zero_fills = sort zero_fill_before l.zero_fills;
  protections = sort protection_before l.protections;
  relocations = [];
}

unfoldable pub plan_segments : List LoadSegment → Outcome LoadPlan
unfolding empty_layout add_segments finish_plan
plan_segments segments = add_segments empty_layout segments >>= λ l. done (finish_plan l)

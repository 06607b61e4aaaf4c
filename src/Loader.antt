-- ===== src/Loader.antt =====
-- light-rocr/loader: what its readers share. The types are those of
-- light-rocr/loader/include/light_rocr/loader/code_object.hpp; the text of an error message is left out.
pub mod Bytes
pub mod Elf
use light_rocm_runtime.Prelude.{ℕ, ◌≡◌, refl, ◌≢◌, ◌⊎◌, inl, inr, Bool, true, false, List}

pub data ParseErrorCode : Type 0 where
  invalid_argument truncated_elf_header invalid_elf_magic unsupported_elf_class : ParseErrorCode
  unsupported_endianness unsupported_elf_version unsupported_os_abi : ParseErrorCode
  unsupported_abi_version unsupported_object_type unsupported_machine unsupported_target :
      ParseErrorCode
  invalid_elf_header_size missing_program_headers : ParseErrorCode
  unsupported_extended_program_header_count invalid_program_header_entry_size : ParseErrorCode
  program_header_table_out_of_bounds invalid_segment_flags : ParseErrorCode
  segment_file_size_exceeds_memory_size segment_file_range_out_of_bounds : ParseErrorCode
  segment_virtual_range_overflow invalid_segment_alignment incongruent_segment_alignment :
      ParseErrorCode
  overlapping_segment_file_ranges overlapping_segment_virtual_ranges : ParseErrorCode
  missing_load_segments malformed_note duplicate_metadata_note : ParseErrorCode
  unsupported_metadata_encoding invalid_metadata unsupported_metadata_version : ParseErrorCode
  metadata_target_mismatch missing_dynamic_segment duplicate_dynamic_segment : ParseErrorCode
  invalid_dynamic_table missing_dynamic_entry invalid_symbol_table invalid_string_table :
      ParseErrorCode
  missing_kernel_symbol invalid_kernel_symbol kernel_descriptor_out_of_bounds : ParseErrorCode
  invalid_kernel_descriptor kernel_metadata_mismatch kernel_entry_out_of_bounds : ParseErrorCode
  invalid_relocation_table unsupported_relocation_format unsupported_relocation_type :
      ParseErrorCode
  relocation_symbol_out_of_bounds relocation_target_out_of_bounds : ParseErrorCode

pub record ParseError : Type 0 where
  pub code : ParseErrorCode
  pub offset : ℕ

-- A reader returns a value, reports an error, or reads outside the code object: a fault, which in
-- the source is undefined behaviour.
pub data Outcome {ℓ} (A : Type ℓ) : Type ℓ where
  done : A → Outcome A
  failed : ParseError → Outcome A
  fault : Outcome A

infixl 5 ◌>>=◌ ◌>>◌
abbrev pub ◌>>=◌ {ℓ κ} : {A : Type ℓ} {B : Type κ} → Outcome A → (A → Outcome B) → Outcome B
done a >>= f = f a
failed e >>= f = failed e
fault >>= f = fault

abbrev pub ◌>>◌ {κ} : {B : Type κ} → Outcome (Unit {0}) → Outcome B → Outcome B
m >> k = m >>= λ _. k

-- `if (test) return failure(code, offset, ...)`.
abbrev pub reject_if : Bool → ParseErrorCode → ℕ → Outcome (Unit {0})
reject_if true code offset = failed (record { code = code; offset = offset })
reject_if false code offset = done tt

pub record LoadSegment : Type 0 where
  pub file_offset : ℕ
  pub file_size : ℕ
  pub virtual_address : ℕ
  pub memory_size : ℕ
  pub alignment : ℕ
  pub flags : ℕ

-- The code object is read inside its bounds only.
abbrev pub Safe {ℓ} : {A : Type ℓ} → Outcome A → Type ℓ
Safe m = m ≢ fault

module _ {ℓ} {A : Type ℓ} where
  pub >>=-Safe {κ} :
      {B : Type κ} (m : Outcome A) (f : A → Outcome B)
      → Safe m
      → ((a : A) → m ≡ done a → Safe (f a))
      → Safe (m >>= f)
  >>=-Safe (done a) f s h = h a refl
  >>=-Safe (failed e) f s h = λ x. cc
  >>=-Safe fault f s h = λ x. s refl

  -- What a successful bind has gone through.
  pub >>=-done {κ} :
      {B : Type κ} (m : Outcome A) (f : A → Outcome B) {b : B}
      → (m >>= f) ≡ done b
      → (a : A) × (m ≡ done a) × (f a ≡ done b)
  >>=-done (done a) f h = (a, refl, h)
  >>=-done (failed e) f h = cc
  >>=-done fault f h = cc

pub done-injective {ℓ} : {A : Type ℓ} {a b : A} → done a ≡ done b → a ≡ b
done-injective e = cc

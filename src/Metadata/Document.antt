-- ===== src/Metadata/Document.antt =====
-- `decode_metadata_document` of light-rocr/loader/metadata_reader.cpp.

mod Examples
pub mod Kernels
use light_rocm_runtime.Prelude.{
  ℕ, ◌-◌, max, Bool, true, false, not, ◌&&◌, ◌||◌, Option, none, some, List, [], ◌∷◌, length, drop,
  ltb, ◌==◌, ◌!=◌, if◌then◌else◌,
}
use light_rocm_runtime.Word.{is_power_of_two}
use light_rocm_runtime.Loader.{
  Outcome, done, failed, fault, ◌>>=◌, ◌>>◌, reject_if, invalid_metadata,
  unsupported_metadata_version, metadata_target_mismatch,
}
use light_rocm_runtime.Hidden.{KernelInfo}
use light_rocm_runtime.Metadata.MessagePack.{
  Value, boolean, text, array, Items, no_items, item, offset_of, bytes_equal, has_key,
}
use light_rocm_runtime.Metadata.Arguments.{
  invalid_at, is_map, is_text, text_of, integer_of, find_field, required_field, metadata_uint32,
  decode_kernel_arguments,
}

abbrev pub version_name : List ℕ
version_name =
    b'a' ∷ b'm' ∷ b'd' ∷ b'h' ∷ b's' ∷ b'a' ∷ b'.' ∷ b'v' ∷ b'e' ∷ b'r' ∷ b's' ∷ b'i' ∷ b'o' ∷ b'n'
    ∷ []

abbrev pub target_name : List ℕ
target_name =
    b'a' ∷ b'm' ∷ b'd' ∷ b'h' ∷ b's' ∷ b'a' ∷ b'.' ∷ b't' ∷ b'a' ∷ b'r' ∷ b'g' ∷ b'e' ∷ b't' ∷ []

abbrev pub kernels_name : List ℕ
kernels_name =
    b'a' ∷ b'm' ∷ b'd' ∷ b'h' ∷ b's' ∷ b'a' ∷ b'.' ∷ b'k' ∷ b'e' ∷ b'r' ∷ b'n' ∷ b'e' ∷ b'l' ∷ b's'
    ∷ []

abbrev pub kernarg_size_name : List ℕ
kernarg_size_name =
    b'.' ∷ b'k' ∷ b'e' ∷ b'r' ∷ b'n' ∷ b'a' ∷ b'r' ∷ b'g' ∷ b'_' ∷ b's' ∷ b'e' ∷ b'g' ∷ b'm' ∷ b'e'
    ∷ b'n' ∷ b't' ∷ b'_' ∷ b's' ∷ b'i' ∷ b'z' ∷ b'e' ∷ []

abbrev pub alignment_name : List ℕ
alignment_name =
    b'.' ∷ b'k' ∷ b'e' ∷ b'r' ∷ b'n' ∷ b'a' ∷ b'r' ∷ b'g' ∷ b'_' ∷ b's' ∷ b'e' ∷ b'g' ∷ b'm' ∷ b'e'
    ∷ b'n' ∷ b't' ∷ b'_' ∷ b'a' ∷ b'l' ∷ b'i' ∷ b'g' ∷ b'n' ∷ []

abbrev pub group_size_name : List ℕ
group_size_name =
    b'.' ∷ b'g' ∷ b'r' ∷ b'o' ∷ b'u' ∷ b'p' ∷ b'_' ∷ b's' ∷ b'e' ∷ b'g' ∷ b'm' ∷ b'e' ∷ b'n' ∷ b't'
    ∷ b'_' ∷ b'f' ∷ b'i' ∷ b'x' ∷ b'e' ∷ b'd' ∷ b'_' ∷ b's' ∷ b'i' ∷ b'z' ∷ b'e' ∷ []

abbrev pub private_size_name : List ℕ
private_size_name =
    b'.' ∷ b'p' ∷ b'r' ∷ b'i' ∷ b'v' ∷ b'a' ∷ b't' ∷ b'e' ∷ b'_' ∷ b's' ∷ b'e' ∷ b'g' ∷ b'm' ∷ b'e'
    ∷ b'n' ∷ b't' ∷ b'_' ∷ b'f' ∷ b'i' ∷ b'x' ∷ b'e' ∷ b'd' ∷ b'_' ∷ b's' ∷ b'i' ∷ b'z' ∷ b'e' ∷ []

abbrev pub wavefront_name : List ℕ
wavefront_name =
    b'.' ∷ b'w' ∷ b'a' ∷ b'v' ∷ b'e' ∷ b'f' ∷ b'r' ∷ b'o' ∷ b'n' ∷ b't' ∷ b'_' ∷ b's' ∷ b'i' ∷ b'z'
    ∷ b'e' ∷ []

abbrev pub dynamic_stack_name : List ℕ
dynamic_stack_name =
    b'.' ∷ b'u' ∷ b's' ∷ b'e' ∷ b's' ∷ b'_' ∷ b'd' ∷ b'y' ∷ b'n' ∷ b'a' ∷ b'm' ∷ b'i' ∷ b'c' ∷ b'_'
    ∷ b's' ∷ b't' ∷ b'a' ∷ b'c' ∷ b'k' ∷ []

abbrev pub descriptor_suffix : List ℕ
descriptor_suffix = b'.' ∷ b'k' ∷ b'd' ∷ []

abbrev pub target_text : List ℕ
target_text =
    b'a' ∷ b'm' ∷ b'd' ∷ b'g' ∷ b'c' ∷ b'n' ∷ b'-' ∷ b'a' ∷ b'm' ∷ b'd' ∷ b'-' ∷ b'a' ∷ b'm' ∷ b'd'
    ∷ b'h' ∷ b's' ∷ b'a' ∷ b'-' ∷ b'-' ∷ b'g' ∷ b'f' ∷ b'x' ∷ b'1' ∷ b'1' ∷ b'0' ∷ b'1' ∷ []

abbrev pub unknown_target_text : List ℕ
unknown_target_text =
    b'a' ∷ b'm' ∷ b'd' ∷ b'g' ∷ b'c' ∷ b'n' ∷ b'-' ∷ b'a' ∷ b'm' ∷ b'd' ∷ b'-' ∷ b'a' ∷ b'm' ∷ b'd'
    ∷ b'h' ∷ b's' ∷ b'a' ∷ b'-' ∷ b'u' ∷ b'n' ∷ b'k' ∷ b'n' ∷ b'o' ∷ b'w' ∷ b'n' ∷ b'-' ∷ b'g'
    ∷ b'f' ∷ b'x' ∷ b'1' ∷ b'1' ∷ b'0' ∷ b'1' ∷ []

abbrev pub key_of_name : List ℕ
key_of_name = b'.' ∷ b'n' ∷ b'a' ∷ b'm' ∷ b'e' ∷ []

abbrev pub key_of_symbol : List ℕ
key_of_symbol = b'.' ∷ b's' ∷ b'y' ∷ b'm' ∷ b'b' ∷ b'o' ∷ b'l' ∷ []

abbrev is_array : Value → Bool
is_array (array offset items) = true
is_array other = false

abbrev is_boolean : Value → Bool
is_boolean (boolean offset b) = true
is_boolean other = false

abbrev boolean_of : Value → Bool
boolean_of (boolean offset b) = b
boolean_of other = false

abbrev elements_of : Value → Items
elements_of (array offset items) = items
elements_of other = no_items

abbrev is_empty : List ℕ → Bool
is_empty [] = true
is_empty (c ∷ cs) = false

-- The offset of a field that is there; a null pointer would be read without it.
reject_field : Bool → Value → List ℕ → Outcome (Unit {0})
unfolding find_field
reject_field true kernel_value name = elim (find_field kernel_value name) [
  | none ↦ fault
  | some value ↦ invalid_at (offset_of value)
]
reject_field false kernel_value name = done tt

-- A kernel of the document; `launch` holds its arguments, as the launch reads them.
pub record MetadataKernel : Type 0 where
  pub name : List ℕ
  pub symbol_name : List ℕ
  pub metadata_kernarg_alignment : ℕ
  pub kernarg_alignment : ℕ
  pub group_segment_size : ℕ
  pub private_segment_size : ℕ
  pub wavefront_size : ℕ
  pub uses_dynamic_stack : Bool
  pub launch : KernelInfo
  pub metadata_offset : ℕ

abbrev minimum_kernarg_alignment : ℕ
minimum_kernarg_alignment = 16

pub is_descriptor_symbol : List ℕ → Bool
unfolding bytes_equal
is_descriptor_symbol symbol =
    not (ltb (length symbol) 3) && bytes_equal (drop (length symbol - 3) symbol) descriptor_suffix

-- The table `integer_fields`, read.
pub record IntegerFields : Type 0 where
  pub kernarg_size : ℕ
  pub alignment : ℕ
  pub group_size : ℕ
  pub private_size : ℕ
  pub wavefront : ℕ

pub decode_integer_fields : Value → Outcome IntegerFields
unfolding metadata_uint32
decode_integer_fields kernel_value = do
  kernarg_size ← metadata_uint32 kernel_value kernarg_size_name
  alignment ← metadata_uint32 kernel_value alignment_name
  group_size ← metadata_uint32 kernel_value group_size_name
  private_size ← metadata_uint32 kernel_value private_size_name
  wavefront ← metadata_uint32 kernel_value wavefront_name
  done (record {
    kernarg_size = kernarg_size;
    alignment = alignment;
    group_size = group_size;
    private_size = private_size;
    wavefront = wavefront;
  })

-- The rest of a kernel whose names and integers are read.
pub finish_kernel : Value → List ℕ → List ℕ → IntegerFields → Outcome MetadataKernel
unfolding required_field reject_field is_power_of_two decode_kernel_arguments
finish_kernel kernel_value name symbol fields = do
  reject_field (not (is_power_of_two fields.alignment)) kernel_value alignment_name
  reject_field (fields.wavefront != 32 && fields.wavefront != 64) kernel_value wavefront_name
  launch ← decode_kernel_arguments kernel_value fields.kernarg_size
  dynamic_stack ← required_field kernel_value dynamic_stack_name is_boolean
  done (record {
    name = name;
    symbol_name = symbol;
    metadata_kernarg_alignment = fields.alignment;
    kernarg_alignment = max fields.alignment minimum_kernarg_alignment;
    group_segment_size = fields.group_size;
    private_segment_size = fields.private_size;
    wavefront_size = fields.wavefront;
    uses_dynamic_stack = boolean_of dynamic_stack;
    launch = launch;
    metadata_offset = offset_of kernel_value;
  })

-- The body of the loop over `amdhsa.kernels`, up to the test for duplicates.
pub decode_kernel : Value → Outcome MetadataKernel
unfolding required_field is_descriptor_symbol decode_integer_fields finish_kernel
decode_kernel kernel_value = do
  reject_if (not (is_map kernel_value)) invalid_metadata (offset_of kernel_value)
  name ← required_field kernel_value key_of_name is_text
  symbol ← required_field kernel_value key_of_symbol is_text
  reject_if (is_empty (text_of name) || is_empty (text_of symbol)) invalid_metadata
      (offset_of symbol)
  reject_if (not (is_descriptor_symbol (text_of symbol))) invalid_metadata (offset_of symbol)
  fields ← decode_integer_fields kernel_value
  finish_kernel kernel_value (text_of name) (text_of symbol) fields

-- The loop, with the names and the symbols so far.
pub decode_kernels : List (List ℕ) → List (List ℕ) → Items → Outcome (List MetadataKernel)
unfolding decode_kernel has_key
decode_kernels names symbols no_items = done []
decode_kernels names symbols (item kernel_value rest) = decode_kernel kernel_value >>= λ kernel.
    reject_if (has_key kernel.name names || has_key kernel.symbol_name symbols) invalid_metadata
      (offset_of kernel_value)
    >>= λ _. decode_kernels (kernel.name ∷ names) (kernel.symbol_name ∷ symbols) rest >>= λ kernels.
        done (kernel ∷ kernels)

pub record MetadataVersion : Type 0 where
  pub major : ℕ
  pub minor : ℕ

version_integer : Value → Option ℕ
version_integer value = elim (integer_of value) [
  | none ↦ none
  | some n ↦ if ltb 0xffffffff n then none else some n
]

-- The two elements of `amdhsa.version`.
version_of : ℕ → Items → Outcome MetadataVersion
unfolding version_integer
version_of offset (item first (item second no_items)) = elim (version_integer first) [
  | none ↦ invalid_at offset
  | some major ↦ elim (version_integer second) [
    | none ↦ invalid_at offset
    | some minor ↦ reject_if (major != 1 || minor != 2) unsupported_metadata_version offset >>= λ _.
        done (record { major = major; minor = minor })
  ]
]
version_of offset other = invalid_at offset

pub record MetadataDocument : Type 0 where
  pub metadata_version : MetadataVersion
  pub target_isa : List ℕ
  pub kernels : List MetadataKernel

abbrev has_no_items : Items → Bool
has_no_items no_items = true
has_no_items (item x xs) = false

unfoldable pub decode_metadata_document : Value → Outcome MetadataDocument
unfolding required_field version_of decode_kernels bytes_equal
decode_metadata_document root = do
  reject_if (not (is_map root)) invalid_metadata (offset_of root)
  version_value ← required_field root version_name is_array
  version ← version_of (offset_of version_value) (elements_of version_value)
  target ← required_field root target_name is_text
  reject_if
      (not (bytes_equal (text_of target) target_text)
        && not (bytes_equal (text_of target) unknown_target_text))
      metadata_target_mismatch (offset_of target)
  kernel_array ← required_field root kernels_name is_array
  reject_if (has_no_items (elements_of kernel_array)) invalid_metadata (offset_of kernel_array)
  kernels ← decode_kernels [] [] (elements_of kernel_array)
  done (record { metadata_version = version; target_isa = text_of target; kernels = kernels })

-- ===== src/Metadata/Document/Examples.antt =====
-- A document with two kernels, for `decode_metadata_document` of
-- light-rocr/loader/metadata_reader.cpp.
use light_rocm_runtime.Prelude.{ℕ, ◌≡◌, refl, false, List, [], ◌∷◌, All}
use light_rocm_runtime.Prelude.Sorting.{sort, AllPairs}
use light_rocm_runtime.Word.{is_power_of_two}
use light_rocm_runtime.Loader.{done, failed, invalid_metadata}
use light_rocm_runtime.Metadata.MessagePack.{
  Value, Items, boolean, unsigned, text, array, map_of, item, no_items, field, no_fields,
  bytes_equal, has_key,
}
use light_rocm_runtime.Metadata.Kinds.{kernel_argument_kind}
use light_rocm_runtime.Metadata.Arguments.{
  find_field, required_field, metadata_uint32, decode_kernel_arguments,
}
use light_rocm_runtime.Metadata.Document.{
  MetadataKernel, MetadataDocument, decode_metadata_document, key_of_name, key_of_symbol,
  kernarg_size_name, alignment_name, group_size_name, private_size_name, wavefront_name,
  dynamic_stack_name, version_name, target_name, kernels_name, target_text,
}
use light_rocm_runtime.Metadata.Document.Kernels.{
  IsKernel, HaveOtherNames, decode_metadata_document-HaveOtherNames,
}

-- The map of a kernel with an empty kernarg segment.
abbrev kernel_map : ℕ → List ℕ → List ℕ → Value
kernel_map start name symbol = map_of start (
    field key_of_name (text start name) (
      field key_of_symbol (text start symbol) (
        field kernarg_size_name (unsigned start 0) (
          field alignment_name (unsigned start 8) (
            field group_size_name (unsigned start 64) (
              field private_size_name (unsigned start 0) (
                field wavefront_name (unsigned start 32)
                  (field dynamic_stack_name (boolean start false) no_fields))))))))

abbrev root_map : Items → Value
root_map kernels = map_of 1 (
    field version_name (array 2 (item (unsigned 3 1) (item (unsigned 4 2) no_items)))
      (field target_name (text 5 target_text) (field kernels_name (array 6 kernels) no_fields)))

abbrev root : Value
root = root_map (
    item (kernel_map 10 (b'f' ∷ []) (b'f' ∷ b'.' ∷ b'k' ∷ b'd' ∷ []))
      (item (kernel_map 20 (b'g' ∷ []) (b'g' ∷ b'.' ∷ b'k' ∷ b'd' ∷ [])) no_items))

abbrev kernel : ℕ → List ℕ → List ℕ → MetadataKernel
kernel start name symbol = record {
  name = name;
  symbol_name = symbol;
  metadata_kernarg_alignment = 8;
  kernarg_alignment = 16;
  group_segment_size = 64;
  private_segment_size = 0;
  wavefront_size = 32;
  uses_dynamic_stack = false;
  launch = record { kernarg_size = 0; explicit_argument_size = 0; arguments = [] };
  metadata_offset = start;
}

abbrev document : MetadataDocument
document = record {
  metadata_version = record { major = 1; minor = 2 };
  target_isa = target_text;
  kernels =
      kernel 10 (b'f' ∷ []) (b'f' ∷ b'.' ∷ b'k' ∷ b'd' ∷ [])
      ∷ kernel 20 (b'g' ∷ []) (b'g' ∷ b'.' ∷ b'k' ∷ b'd' ∷ [])
      ∷ [];
}

program : Unit {0}
unfolding decode_metadata_document is_power_of_two bytes_equal has_key find_field required_field
    metadata_uint32 decode_kernel_arguments kernel_argument_kind sort
program = tt

decodes : decode_metadata_document root ≡ done document
unfolding program
decodes = refl

refuses_symbol_twice :
    decode_metadata_document (
      root_map (
        item
          (kernel_map 10 (b'f' ∷ []) (b'f' ∷ b'.' ∷ b'k' ∷ b'd' ∷ []))
          (item (kernel_map 20 (b'g' ∷ []) (b'f' ∷ b'.' ∷ b'k' ∷ b'd' ∷ [])) no_items)))
    ≡ failed (record { code = invalid_metadata; offset = 20 })
unfolding program
refuses_symbol_twice = refl

decode_metadata_document-HaveOtherNames_example :
    All IsKernel document.kernels × AllPairs HaveOtherNames document.kernels
decode_metadata_document-HaveOtherNames_example =
    decode_metadata_document-HaveOtherNames root document decodes

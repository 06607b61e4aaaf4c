-- ===== src/Metadata/Examples.antt =====
-- A code object with a metadata note, and MessagePack values, for light-rocr/loader/metadata_reader.cpp.
use light_rocm_runtime.Prelude.{arith, ℕ, ◌+◌, ◌≤◌, ◌≡◌, refl, some, List, [], ◌∷◌}
use light_rocm_runtime.Prelude.Sorting.{sort}
use light_rocm_runtime.Word.{checked_add, range_is_in_file, is_power_of_two}
use light_rocm_runtime.Loader.{done, failed, Safe, invalid_metadata}
use light_rocm_runtime.Loader.Bytes.{IsBytes, all_bytes_sound, byte_at, read_le}
use light_rocm_runtime.Loader.Elf.{
  ElfObject, bytes_at, parse_elf, read_header, read_entries, validate_load_segment,
  find_overlapping_segment,
}
use light_rocm_runtime.Image.Materialize.{Block}
use light_rocm_runtime.Hidden.{
  KernelInfo, LaunchConfig, by_value, hidden_block_count_x, kernarg_at, populated,
  populate_light_rocr_hidden_kernargs,
}
use light_rocm_runtime.Hidden.Meaning.{IsLaunch}
use light_rocm_runtime.Hidden.Filled.{IsFilled}
use light_rocm_runtime.Metadata.Kinds.{kernel_argument_kind}
use light_rocm_runtime.Metadata.Arguments.{
  args_name, offset_name, size_name, value_kind_name, decode_kernel_arguments,
}
use light_rocm_runtime.Metadata.Arguments.Decoded.{
  AreArguments, decode_kernel_arguments-AreArguments,
}
use light_rocm_runtime.Metadata.Arguments.Filled.{decode-populate-IsFilled}
use light_rocm_runtime.Metadata.Note.{MetadataBytes, find_metadata_note}
use light_rocm_runtime.Metadata.Note.Found.{find_metadata_note_lem}
use light_rocm_runtime.Metadata.MessagePack.{
  Value, Items, text, map_of, unsigned, signed, array, item, no_items, field, no_fields,
  parse_message_pack,
}
use light_rocm_runtime.Metadata.MessagePack.Reads.{HasDistinctKeys}
use light_rocm_runtime.Metadata.MessagePack.Values.{parse_message_pack_lem}

abbrev code_object : List ℕ
code_object =
    127 ∷ 69 ∷ 76 ∷ 70 ∷ 2 ∷ 1 ∷ 1 ∷ 64 ∷ 4 ∷ 0 ∷ 0 ∷ 0 ∷ 0 ∷ 0 ∷ 0 ∷ 0 ∷ 3 ∷ 0 ∷ 224 ∷ 0 ∷ 1 ∷ 0
    ∷ 0 ∷ 0 ∷ 0 ∷ 0 ∷ 0 ∷ 0 ∷ 0 ∷ 0 ∷ 0 ∷ 0 ∷ 64 ∷ 0 ∷ 0 ∷ 0 ∷ 0 ∷ 0 ∷ 0 ∷ 0 ∷ 0 ∷ 0 ∷ 0 ∷ 0 ∷ 0 ∷ 0
    ∷ 0 ∷ 0 ∷ 70 ∷ 0 ∷ 0 ∷ 0 ∷ 64 ∷ 0 ∷ 56 ∷ 0 ∷ 2 ∷ 0 ∷ 0 ∷ 0 ∷ 0 ∷ 0 ∷ 0 ∷ 0 ∷ 1 ∷ 0 ∷ 0 ∷ 0 ∷ 5
    ∷ 0 ∷ 0 ∷ 0 ∷ 0 ∷ 0 ∷ 0 ∷ 0 ∷ 0 ∷ 0 ∷ 0 ∷ 0 ∷ 0 ∷ 0 ∷ 0 ∷ 0 ∷ 0 ∷ 0 ∷ 0 ∷ 0 ∷ 0 ∷ 0 ∷ 0 ∷ 0 ∷ 0
    ∷ 0 ∷ 0 ∷ 0 ∷ 200 ∷ 0 ∷ 0 ∷ 0 ∷ 0 ∷ 0 ∷ 0 ∷ 0 ∷ 200 ∷ 0 ∷ 0 ∷ 0 ∷ 0 ∷ 0 ∷ 0 ∷ 0 ∷ 0 ∷ 16 ∷ 0 ∷ 0
    ∷ 0 ∷ 0 ∷ 0 ∷ 0 ∷ 4 ∷ 0 ∷ 0 ∷ 0 ∷ 4 ∷ 0 ∷ 0 ∷ 0 ∷ 176 ∷ 0 ∷ 0 ∷ 0 ∷ 0 ∷ 0 ∷ 0 ∷ 0 ∷ 176 ∷ 0 ∷ 0
    ∷ 0 ∷ 0 ∷ 0 ∷ 0 ∷ 0 ∷ 0 ∷ 0 ∷ 0 ∷ 0 ∷ 0 ∷ 0 ∷ 0 ∷ 0 ∷ 24 ∷ 0 ∷ 0 ∷ 0 ∷ 0 ∷ 0 ∷ 0 ∷ 0 ∷ 24 ∷ 0
    ∷ 0 ∷ 0 ∷ 0 ∷ 0 ∷ 0 ∷ 0 ∷ 4 ∷ 0 ∷ 0 ∷ 0 ∷ 0 ∷ 0 ∷ 0 ∷ 0 ∷ 7 ∷ 0 ∷ 0 ∷ 0 ∷ 4 ∷ 0 ∷ 0 ∷ 0 ∷ 32 ∷ 0
    ∷ 0 ∷ 0 ∷ 65 ∷ 77 ∷ 68 ∷ 71 ∷ 80 ∷ 85 ∷ 0 ∷ 0 ∷ 129 ∷ 161 ∷ 97 ∷ 5 ∷ []

code_object-IsBytes : IsBytes code_object
code_object-IsBytes = all_bytes_sound code_object refl

abbrev object : ElfObject
object = record {
  header = record {
    magic0 = 0x7f;
    magic1 = b'E';
    magic2 = b'L';
    magic3 = b'F';
    ident_class = 2;
    ident_data = 1;
    ident_version = 1;
    os_abi = 64;
    abi_version = 4;
    object_type = 3;
    machine = 224;
    version = 1;
    program_header_offset = 64;
    elf_flags = 0x46;
    header_size = 64;
    program_header_entry_size = 56;
    program_header_count = 2;
  };
  segments =
      record {
        segment = record {
          file_offset = 0;
          file_size = 200;
          virtual_address = 0;
          memory_size = 200;
          alignment = 4096;
          flags = 5;
        };
        program_header_offset = 64;
      }
      ∷ [];
}

program : Unit {0}
unfolding parse_elf read_header read_entries validate_load_segment byte_at read_le
    find_overlapping_segment sort checked_add range_is_in_file is_power_of_two find_metadata_note
    parse_message_pack
program = tt

parses : parse_elf (bytes_at code_object) ≡ done object
unfolding program
parses = refl

finds : find_metadata_note code_object ≡ done (some (record { size = 4; file_offset = 196 }))
unfolding program
finds = refl

find_metadata_note_lem_example :
    Safe (find_metadata_note code_object)
    × ((m : MetadataBytes)
        → find_metadata_note code_object ≡ done (some m)
        → m.file_offset + m.size ≤ 200)
find_metadata_note_lem_example =
    find_metadata_note_lem code_object code_object-IsBytes object parses

abbrev descriptor : List ℕ
descriptor = 0x81 ∷ 0xa1 ∷ 0x61 ∷ 5 ∷ []

reads_map :
    parse_message_pack descriptor 196
    ≡ done (map_of 196 (field (0x61 ∷ []) (unsigned 199 5) no_fields))
unfolding program
reads_map = refl

-- [-1, 256]
reads_array :
    parse_message_pack (0x92 ∷ 0xff ∷ 0xcd ∷ 1 ∷ 0 ∷ []) 0
    ≡ done (array 0 (item (signed 1 0xffffffffffffffff) (item (unsigned 2 256) no_items)))
unfolding program
reads_array = refl

-- {"a": 1, "a": 2}
refuses_duplicate :
    parse_message_pack (0x82 ∷ 0xa1 ∷ 0x61 ∷ 1 ∷ 0xa1 ∷ 0x61 ∷ 2 ∷ []) 0
    ≡ failed (record { code = invalid_metadata; offset = 4 })
unfolding program
refuses_duplicate = refl

refuses_trailing :
    parse_message_pack (5 ∷ 5 ∷ []) 10 ≡ failed (record { code = invalid_metadata; offset = 11 })
unfolding program
refuses_trailing = refl

parse_message_pack_lem_example :
    Safe (parse_message_pack descriptor 196)
    × ((v : Value) → parse_message_pack descriptor 196 ≡ done v → HasDistinctKeys v)
parse_message_pack_lem_example = parse_message_pack_lem descriptor 196

-- The map of one argument, at the file offset `start`.
abbrev argument : ℕ → ℕ → ℕ → List ℕ → Value
argument start offset size kind = map_of start (
    field offset_name (unsigned start offset)
      (field size_name (unsigned start size) (field value_kind_name (text start kind) no_fields)))

-- A kernel map with the arguments.
abbrev kernel_map : Items → Value
kernel_map items = map_of 10 (field args_name (array 11 items) no_fields)

abbrev block_count : List ℕ
block_count =
    b'h' ∷ b'i' ∷ b'd' ∷ b'd' ∷ b'e' ∷ b'n' ∷ b'_' ∷ b'b' ∷ b'l' ∷ b'o' ∷ b'c' ∷ b'k' ∷ b'_' ∷ b'c'
    ∷ b'o' ∷ b'u' ∷ b'n' ∷ b't' ∷ b'_' ∷ b'x' ∷ []

abbrev value_name : List ℕ
value_name = b'b' ∷ b'y' ∷ b'_' ∷ b'v' ∷ b'a' ∷ b'l' ∷ b'u' ∷ b'e' ∷ []

-- An explicit argument behind a hidden one in the list, which the sort puts in front.
abbrev kernel_value : Value
kernel_value =
    kernel_map (item (argument 20 8 4 block_count) (item (argument 30 0 8 value_name) no_items))

abbrev kernel : KernelInfo
kernel = record {
  kernarg_size = 12;
  explicit_argument_size = 8;
  arguments =
      record { offset = 0; size = 8; kind = by_value }
      ∷ record { offset = 8; size = 4; kind = hidden_block_count_x }
      ∷ [];
}

decodes : decode_kernel_arguments kernel_value 12 ≡ done kernel
unfolding decode_kernel_arguments kernel_argument_kind sort
decodes = refl

refuses_overlap :
    decode_kernel_arguments
      (kernel_map (item (argument 20 8 4 block_count) (item (argument 30 2 8 value_name) no_items)))
      12
    ≡ failed (record { code = invalid_metadata; offset = 11 })
unfolding decode_kernel_arguments kernel_argument_kind sort
refuses_overlap = refl

decode_kernel_arguments-AreArguments_example : AreArguments 12 kernel
decode_kernel_arguments-AreArguments_example =
    decode_kernel_arguments-AreArguments kernel_value 12 kernel decodes

abbrev config : LaunchConfig
config = record {
  grid = record { x = 10; y = 2; z = 1 };
  block = record { x = 4; y = 1; z = 1 };
  shared_memory_bytes = 0;
}

config-IsLaunch : IsLaunch config
config-IsLaunch = record {
  grid_x = omega arith;
  grid_y = omega arith;
  grid_z = omega arith;
  block_x = omega arith;
  block_y = omega arith;
  block_z = omega arith;
  shared = omega arith;
}

abbrev segment : Block
segment = record { size = 16; byte = λ i. 0xcc }

decode-populate-IsFilled_example :
    (after : Block) × (populate_light_rocr_hidden_kernargs kernel config (kernarg_at segment)
      ≡ populated (kernarg_at after))
    × IsFilled config kernel segment after
decode-populate-IsFilled_example =
    decode-populate-IsFilled kernel_value 12 kernel config segment decodes config-IsLaunch
      (omega arith)

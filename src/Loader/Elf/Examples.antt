-- ===== src/Loader/Elf/Examples.antt =====
-- A code object of two segments: text with the headers, and memory that is zeroed.
use light_rocm_runtime.Prelude.{ℕ, ◌≡◌, ◌↔◌, refl, none, List, [], ◌∷◌, arith, take}
use light_rocm_runtime.Prelude.Sorting.{AllPairs, sort}
use light_rocm_runtime.Word.{checked_add, range_is_in_file, is_power_of_two}
use light_rocm_runtime.Loader.{LoadSegment, done, failed, Safe, truncated_elf_header}
use light_rocm_runtime.Loader.Bytes.{IsBytes, all_bytes_sound, byte_at, read_le}
use light_rocm_runtime.Loader.Elf.{
  ParsedLoadSegment, ElfObject, bytes_at, read_header, read_entries, validate_load_segment,
  parse_elf, find_overlapping_segment, memory_start, memory_extent,
}
use light_rocm_runtime.Loader.Elf.Overlap.{AreDisjoint, find_overlapping_segment_iff}
use light_rocm_runtime.Loader.Elf.Safety.{IsMappable, parse_elf-Safe, parse_elf-IsMappable}

abbrev code_object : List ℕ
code_object =
    0x7f ∷ 0x45 ∷ 0x4c ∷ 0x46 ∷ 2 ∷ 1 ∷ 1 ∷ 0x40 ∷ 4 ∷ 0 ∷ 0 ∷ 0 ∷ 0 ∷ 0 ∷ 0 ∷ 0 ∷ 3 ∷ 0 ∷ 0xe0 ∷ 0
    ∷ 1 ∷ 0 ∷ 0 ∷ 0 ∷ 0 ∷ 0 ∷ 0 ∷ 0 ∷ 0 ∷ 0 ∷ 0 ∷ 0 ∷ 0x40 ∷ 0 ∷ 0 ∷ 0 ∷ 0 ∷ 0 ∷ 0 ∷ 0 ∷ 0 ∷ 0 ∷ 0
    ∷ 0 ∷ 0 ∷ 0 ∷ 0 ∷ 0 ∷ 0x46 ∷ 0 ∷ 0 ∷ 0 ∷ 0x40 ∷ 0 ∷ 0x38 ∷ 0 ∷ 2 ∷ 0 ∷ 0 ∷ 0 ∷ 0 ∷ 0 ∷ 0 ∷ 0 ∷ 1
    ∷ 0 ∷ 0 ∷ 0 ∷ 5 ∷ 0 ∷ 0 ∷ 0 ∷ 0 ∷ 0 ∷ 0 ∷ 0 ∷ 0 ∷ 0 ∷ 0 ∷ 0 ∷ 0 ∷ 0 ∷ 0 ∷ 0 ∷ 0 ∷ 0 ∷ 0 ∷ 0 ∷ 0
    ∷ 0 ∷ 0 ∷ 0 ∷ 0 ∷ 0 ∷ 0 ∷ 0 ∷ 0xb0 ∷ 0 ∷ 0 ∷ 0 ∷ 0 ∷ 0 ∷ 0 ∷ 0 ∷ 0xb0 ∷ 0 ∷ 0 ∷ 0 ∷ 0 ∷ 0 ∷ 0
    ∷ 0 ∷ 0 ∷ 0x10 ∷ 0 ∷ 0 ∷ 0 ∷ 0 ∷ 0 ∷ 0 ∷ 1 ∷ 0 ∷ 0 ∷ 0 ∷ 6 ∷ 0 ∷ 0 ∷ 0 ∷ 0xb0 ∷ 0 ∷ 0 ∷ 0 ∷ 0
    ∷ 0 ∷ 0 ∷ 0 ∷ 0xb0 ∷ 0x10 ∷ 0 ∷ 0 ∷ 0 ∷ 0 ∷ 0 ∷ 0 ∷ 0 ∷ 0 ∷ 0 ∷ 0 ∷ 0 ∷ 0 ∷ 0 ∷ 0 ∷ 0 ∷ 0 ∷ 0
    ∷ 0 ∷ 0 ∷ 0 ∷ 0 ∷ 0 ∷ 0x20 ∷ 0 ∷ 0 ∷ 0 ∷ 0 ∷ 0 ∷ 0 ∷ 0 ∷ 0 ∷ 0x10 ∷ 0 ∷ 0 ∷ 0 ∷ 0 ∷ 0 ∷ 0 ∷ []

abbrev text : LoadSegment
text = record {
  file_offset = 0;
  file_size = 176;
  virtual_address = 0;
  memory_size = 176;
  alignment = 4096;
  flags = 5;
}

abbrev zeroed : LoadSegment
zeroed = record {
  file_offset = 176;
  file_size = 0;
  virtual_address = 0x10b0;
  memory_size = 32;
  alignment = 4096;
  flags = 6;
}

abbrev segments : List ParsedLoadSegment
segments =
    record { segment = text; program_header_offset = 64 }
    ∷ record { segment = zeroed; program_header_offset = 120 }
    ∷ []

abbrev object : ElfObject
object = record {
  header = record {
    magic0 = 0x7f;
    magic1 = b'E';
    magic2 = b'L';
    magic3 = b'F';
    ident_class = 2;
    ident_data = 1;
    ident_version = 1;
    os_abi = 64;
    abi_version = 4;
    object_type = 3;
    machine = 224;
    version = 1;
    program_header_offset = 64;
    elf_flags = 0x46;
    header_size = 64;
    program_header_entry_size = 56;
    program_header_count = 2;
  };
  segments = segments;
}

code_object-IsBytes : IsBytes code_object
code_object-IsBytes = all_bytes_sound code_object refl

program : Unit {0}
unfolding parse_elf read_header read_entries validate_load_segment byte_at read_le
    find_overlapping_segment sort checked_add range_is_in_file is_power_of_two
program = tt

parses : parse_elf (bytes_at code_object) ≡ done object
unfolding program
parses = refl

refuses_prefix :
    parse_elf (bytes_at (take 63 code_object))
    ≡ failed (record { code = truncated_elf_header; offset = 63 })
unfolding program
refuses_prefix = refl

find_overlapping_segment_iff_example :
    (find_overlapping_segment memory_start memory_extent segments ≡ none)
    ↔ (AllPairs (AreDisjoint memory_start memory_extent) segments)
find_overlapping_segment_iff_example =
    find_overlapping_segment_iff memory_start memory_extent segments
      (omega arith, (omega arith, tt))

parse_elf-Safe_example : Safe (parse_elf (bytes_at code_object))
parse_elf-Safe_example = parse_elf-Safe code_object code_object-IsBytes

parse_elf-IsMappable_example : IsMappable 176 segments
parse_elf-IsMappable_example =
    parse_elf-IsMappable code_object code_object-IsBytes object (omega arith) parses

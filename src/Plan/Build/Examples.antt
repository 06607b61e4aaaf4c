-- ===== src/Plan/Build/Examples.antt =====
-- A code object with one segment, a dynamic table, two symbols and two RELA relocations, for
-- light-rocr/loader/load_plan_reader.cpp.
use light_rocm_runtime.Prelude.{
  ℕ, ◌+◌, ◌<◌, ◌≤◌, ◌≡◌, ◌↔◌, ◌⊎◌, inr, refl, true, false, some, List, [], ◌∷◌, arith,
}
use light_rocm_runtime.Prelude.Sorting.{sort}
use light_rocm_runtime.Word.{u64_limit, checked_add, range_is_in_file, is_power_of_two}
use light_rocm_runtime.Loader.{LoadSegment, done, Safe}
use light_rocm_runtime.Loader.Bytes.{IsBytes, all_bytes_sound, byte_at, read_le}
use light_rocm_runtime.Loader.Elf.{
  ParsedLoadSegment, ElfObject, bytes_at, parse_elf, read_header, read_entries,
  validate_load_segment, find_overlapping_segment,
}
use light_rocm_runtime.Plan.{Relocation, rela, LoadPlan, plan_segments}
use light_rocm_runtime.Loader.Elf.Segments.{IsLoadable}
use light_rocm_runtime.Plan.Dynamic.{
  DynamicValue, RelocationTableInfo, validate_relocation_table_info,
  validate_disjoint_relocation_tables,
}
use light_rocm_runtime.Plan.Dynamic.Tables.{
  IsTableInfo, validate_relocation_table_info_iff, validate_disjoint_relocation_tables_iff,
}
use light_rocm_runtime.Plan.Table.{
  DynamicSymbol, read_relocation_table, virtual_address_to_file, virtual_address_in_memory,
}
use light_rocm_runtime.Plan.Table.Read.{AreEntries, read_relocation_table-AreEntries}
use light_rocm_runtime.Plan.Build.{build_load_plan}
use light_rocm_runtime.Plan.Build.Safety.{build_load_plan-Safe}

abbrev code_object : List ℕ
code_object =
    127 ∷ 69 ∷ 76 ∷ 70 ∷ 2 ∷ 1 ∷ 1 ∷ 64 ∷ 4 ∷ 0 ∷ 0 ∷ 0 ∷ 0 ∷ 0 ∷ 0 ∷ 0 ∷ 3 ∷ 0 ∷ 224 ∷ 0 ∷ 1 ∷ 0
    ∷ 0 ∷ 0 ∷ 0 ∷ 0 ∷ 0 ∷ 0 ∷ 0 ∷ 0 ∷ 0 ∷ 0 ∷ 64 ∷ 0 ∷ 0 ∷ 0 ∷ 0 ∷ 0 ∷ 0 ∷ 0 ∷ 0 ∷ 0 ∷ 0 ∷ 0 ∷ 0 ∷ 0
    ∷ 0 ∷ 0 ∷ 70 ∷ 0 ∷ 0 ∷ 0 ∷ 64 ∷ 0 ∷ 56 ∷ 0 ∷ 2 ∷ 0 ∷ 0 ∷ 0 ∷ 0 ∷ 0 ∷ 0 ∷ 0 ∷ 1 ∷ 0 ∷ 0 ∷ 0 ∷ 6
    ∷ 0 ∷ 0 ∷ 0 ∷ 0 ∷ 0 ∷ 0 ∷ 0 ∷ 0 ∷ 0 ∷ 0 ∷ 0 ∷ 0 ∷ 0 ∷ 0 ∷ 0 ∷ 0 ∷ 0 ∷ 0 ∷ 0 ∷ 0 ∷ 0 ∷ 0 ∷ 0 ∷ 0
    ∷ 0 ∷ 0 ∷ 0 ∷ 168 ∷ 1 ∷ 0 ∷ 0 ∷ 0 ∷ 0 ∷ 0 ∷ 0 ∷ 168 ∷ 1 ∷ 0 ∷ 0 ∷ 0 ∷ 0 ∷ 0 ∷ 0 ∷ 0 ∷ 16 ∷ 0 ∷ 0
    ∷ 0 ∷ 0 ∷ 0 ∷ 0 ∷ 2 ∷ 0 ∷ 0 ∷ 0 ∷ 6 ∷ 0 ∷ 0 ∷ 0 ∷ 176 ∷ 0 ∷ 0 ∷ 0 ∷ 0 ∷ 0 ∷ 0 ∷ 0 ∷ 176 ∷ 0 ∷ 0
    ∷ 0 ∷ 0 ∷ 0 ∷ 0 ∷ 0 ∷ 0 ∷ 0 ∷ 0 ∷ 0 ∷ 0 ∷ 0 ∷ 0 ∷ 0 ∷ 112 ∷ 0 ∷ 0 ∷ 0 ∷ 0 ∷ 0 ∷ 0 ∷ 0 ∷ 112 ∷ 0
    ∷ 0 ∷ 0 ∷ 0 ∷ 0 ∷ 0 ∷ 0 ∷ 8 ∷ 0 ∷ 0 ∷ 0 ∷ 0 ∷ 0 ∷ 0 ∷ 0 ∷ 4 ∷ 0 ∷ 0 ∷ 0 ∷ 0 ∷ 0 ∷ 0 ∷ 0 ∷ 32 ∷ 1
    ∷ 0 ∷ 0 ∷ 0 ∷ 0 ∷ 0 ∷ 0 ∷ 6 ∷ 0 ∷ 0 ∷ 0 ∷ 0 ∷ 0 ∷ 0 ∷ 0 ∷ 56 ∷ 1 ∷ 0 ∷ 0 ∷ 0 ∷ 0 ∷ 0 ∷ 0 ∷ 11
    ∷ 0 ∷ 0 ∷ 0 ∷ 0 ∷ 0 ∷ 0 ∷ 0 ∷ 24 ∷ 0 ∷ 0 ∷ 0 ∷ 0 ∷ 0 ∷ 0 ∷ 0 ∷ 7 ∷ 0 ∷ 0 ∷ 0 ∷ 0 ∷ 0 ∷ 0 ∷ 0
    ∷ 104 ∷ 1 ∷ 0 ∷ 0 ∷ 0 ∷ 0 ∷ 0 ∷ 0 ∷ 8 ∷ 0 ∷ 0 ∷ 0 ∷ 0 ∷ 0 ∷ 0 ∷ 0 ∷ 48 ∷ 0 ∷ 0 ∷ 0 ∷ 0 ∷ 0 ∷ 0
    ∷ 0 ∷ 9 ∷ 0 ∷ 0 ∷ 0 ∷ 0 ∷ 0 ∷ 0 ∷ 0 ∷ 24 ∷ 0 ∷ 0 ∷ 0 ∷ 0 ∷ 0 ∷ 0 ∷ 0 ∷ 0 ∷ 0 ∷ 0 ∷ 0 ∷ 0 ∷ 0 ∷ 0
    ∷ 0 ∷ 0 ∷ 0 ∷ 0 ∷ 0 ∷ 0 ∷ 0 ∷ 0 ∷ 0 ∷ 1 ∷ 0 ∷ 0 ∷ 0 ∷ 2 ∷ 0 ∷ 0 ∷ 0 ∷ 1 ∷ 0 ∷ 0 ∷ 0 ∷ 0 ∷ 0 ∷ 0
    ∷ 0 ∷ 0 ∷ 0 ∷ 0 ∷ 0 ∷ 0 ∷ 0 ∷ 0 ∷ 0 ∷ 0 ∷ 0 ∷ 0 ∷ 0 ∷ 0 ∷ 0 ∷ 0 ∷ 0 ∷ 0 ∷ 0 ∷ 0 ∷ 0 ∷ 0 ∷ 0 ∷ 0
    ∷ 0 ∷ 0 ∷ 0 ∷ 0 ∷ 0 ∷ 0 ∷ 0 ∷ 0 ∷ 0 ∷ 0 ∷ 0 ∷ 0 ∷ 0 ∷ 0 ∷ 0 ∷ 1 ∷ 0 ∷ 64 ∷ 0 ∷ 0 ∷ 0 ∷ 0 ∷ 0 ∷ 0
    ∷ 0 ∷ 0 ∷ 0 ∷ 0 ∷ 0 ∷ 0 ∷ 0 ∷ 0 ∷ 0 ∷ 160 ∷ 1 ∷ 0 ∷ 0 ∷ 0 ∷ 0 ∷ 0 ∷ 0 ∷ 13 ∷ 0 ∷ 0 ∷ 0 ∷ 0 ∷ 0
    ∷ 0 ∷ 0 ∷ 5 ∷ 0 ∷ 0 ∷ 0 ∷ 0 ∷ 0 ∷ 0 ∷ 0 ∷ 152 ∷ 1 ∷ 0 ∷ 0 ∷ 0 ∷ 0 ∷ 0 ∷ 0 ∷ 3 ∷ 0 ∷ 0 ∷ 0 ∷ 1
    ∷ 0 ∷ 0 ∷ 0 ∷ 0 ∷ 0 ∷ 0 ∷ 0 ∷ 0 ∷ 0 ∷ 0 ∷ 0 ∷ 0 ∷ 0 ∷ 0 ∷ 0 ∷ 0 ∷ 0 ∷ 0 ∷ 0 ∷ 0 ∷ 0 ∷ 0 ∷ 0 ∷ 0
    ∷ 0 ∷ 0 ∷ 0 ∷ []

code_object-IsBytes : IsBytes code_object
code_object-IsBytes = all_bytes_sound code_object refl

abbrev segment : LoadSegment
segment = record {
  file_offset = 0;
  file_size = 424;
  virtual_address = 0;
  memory_size = 424;
  alignment = 4096;
  flags = 6;
}

abbrev segments : List ParsedLoadSegment
segments = record { segment = segment; program_header_offset = 64 } ∷ []

abbrev object : ElfObject
object = record {
  header = record {
    magic0 = 0x7f;
    magic1 = b'E';
    magic2 = b'L';
    magic3 = b'F';
    ident_class = 2;
    ident_data = 1;
    ident_version = 1;
    os_abi = 64;
    abi_version = 4;
    object_type = 3;
    machine = 224;
    version = 1;
    program_header_offset = 64;
    elf_flags = 0x46;
    header_size = 64;
    program_header_entry_size = 56;
    program_header_count = 2;
  };
  segments = segments;
}

-- The second relocation of the table comes first: its target is lower.
abbrev plan : LoadPlan
plan = record {
  image_virtual_address = 0;
  image_size = 424;
  alignment = 4096;
  copies = record { file_offset = 0; virtual_address = 0; size = 424 } ∷ [];
  zero_fills = [];
  protections = record { virtual_address = 0; size = 424; flags = 6 } ∷ [];
  relocations =
      record {
        encoding = rela;
        target_virtual_address = 408;
        kind = 3;
        symbol_index = 1;
        addend = 0;
        symbol_value = 0x40;
        symbol_is_absolute = false;
      }
      ∷ record {
        encoding = rela;
        target_virtual_address = 416;
        kind = 13;
        symbol_index = 0;
        addend = 5;
        symbol_value = 0;
        symbol_is_absolute = false;
      }
      ∷ [];
}

program : Unit {0}
unfolding parse_elf read_header read_entries validate_load_segment byte_at read_le
    find_overlapping_segment sort checked_add range_is_in_file is_power_of_two build_load_plan
    read_relocation_table virtual_address_to_file virtual_address_in_memory plan_segments
program = tt

parses : parse_elf (bytes_at code_object) ≡ done object
unfolding program
parses = refl

build_load_plan-Safe_example : Safe (build_load_plan code_object (segment ∷ []))
build_load_plan-Safe_example =
    build_load_plan-Safe code_object code_object-IsBytes object (omega arith) parses

abbrev tag : ℕ → ℕ → DynamicValue
tag value file_offset = record { present = true; value = value; file_offset = file_offset }

abbrev rela_tags : RelocationTableInfo
rela_tags = record {
  address = tag 360 232;
  size = tag 48 248;
  entry_size = tag 24 264;
  relative_count = record { present = false; value = 0; file_offset = 0 };
}

abbrev rel_tags : RelocationTableInfo
rel_tags = record {
  address = tag 408 300;
  size = tag 16 316;
  entry_size = tag 16 332;
  relative_count = record { present = false; value = 0; file_offset = 0 };
}

abbrev symbols : List DynamicSymbol
symbols =
    record { value = 0; defined = false; absolute = false }
    ∷ record { value = 0x40; defined = true; absolute = false }
    ∷ []

abbrev in_file_order : List Relocation
in_file_order =
    record {
      encoding = rela;
      target_virtual_address = 416;
      kind = 13;
      symbol_index = 0;
      addend = 5;
      symbol_value = 0;
      symbol_is_absolute = false;
    }
    ∷ record {
      encoding = rela;
      target_virtual_address = 408;
      kind = 3;
      symbol_index = 1;
      addend = 0;
      symbol_value = 0x40;
      symbol_is_absolute = false;
    }
    ∷ []

reads_table :
    read_relocation_table code_object (segment ∷ []) rela_tags rela symbols ≡ done in_file_order
unfolding program
reads_table = refl

segment-IsLoadable : IsLoadable 424 segment
segment-IsLoadable = record {
  known_flags = omega arith;
  zero_tail = omega arith;
  in_file = omega arith;
  in_memory = omega arith;
  power = inr (12, refl);
  congruent = inr refl;
}

read_relocation_table-AreEntries_example :
    (at : ℕ) × (virtual_address_to_file (segment ∷ []) 360 48 ≡ some at)
    × AreEntries code_object code_object-IsBytes (segment ∷ []) symbols rela 0 0 at 2 in_file_order
read_relocation_table-AreEntries_example =
    read_relocation_table-AreEntries code_object code_object-IsBytes (segment ∷ []) symbols rela
      rela_tags (segment-IsLoadable, tt) in_file_order refl (omega arith) reads_table

validate_relocation_table_info_iff_example :
    (validate_relocation_table_info rela_tags 24 ≡ done tt) ↔ IsTableInfo rela_tags 24
validate_relocation_table_info_iff_example = validate_relocation_table_info_iff rela_tags 24

validate_disjoint_relocation_tables_iff_example :
    (validate_disjoint_relocation_tables rel_tags rela_tags ≡ done tt)
    ↔ ((408 + 16 < u64_limit) × (360 + 48 < u64_limit) × ((408 + 16 ≤ 360) ⊎ (360 + 48 ≤ 408)))
validate_disjoint_relocation_tables_iff_example =
    validate_disjoint_relocation_tables_iff rel_tags rela_tags refl refl (omega arith) (omega arith)

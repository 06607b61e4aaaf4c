-- ===== src/Loader/Elf.antt =====
-- light-rocr/loader/elf_reader.cpp: the ELF header, the program headers and the PT_LOAD segments of
-- a code object. The bytes are a list; a null pointer is an input of its own.

mod Examples
pub mod Overlap
pub mod Segments
pub mod Safety
use light_rocm_runtime.Prelude.{
  ℕ, zero, suc, ◌+◌, ◌-◌, ◌*◌, ◌%◌, ◌^◌, ◌≡◌, Bool, true, false, not, ◌&&◌, ◌||◌, Option, none,
  some, List, [], ◌∷◌, map, length, bit_and, ltb, leb, ◌==◌, ◌!=◌, if◌then◌else◌,
}
use light_rocm_runtime.Prelude.Sorting.{sort}
use light_rocm_runtime.Word.{u64_limit, u32_max, checked_add, range_is_in_file, is_power_of_two}
use light_rocm_runtime.Loader.{
  ParseErrorCode, ParseError, Outcome, done, failed, fault, ◌>>=◌, ◌>>◌, reject_if, LoadSegment,
  invalid_argument, truncated_elf_header, invalid_elf_magic, unsupported_elf_class,
  unsupported_endianness, unsupported_elf_version, unsupported_os_abi, unsupported_abi_version,
  unsupported_object_type, unsupported_machine, unsupported_target, invalid_elf_header_size,
  missing_program_headers, unsupported_extended_program_header_count,
  invalid_program_header_entry_size, program_header_table_out_of_bounds, invalid_segment_flags,
  segment_file_size_exceeds_memory_size, segment_file_range_out_of_bounds,
  segment_virtual_range_overflow, invalid_segment_alignment, incongruent_segment_alignment,
  overlapping_segment_file_ranges, overlapping_segment_virtual_ranges, missing_load_segments,
}
use light_rocm_runtime.Loader.Bytes.{byte_at, read_u16, read_u32, read_u64, read_le}

abbrev pub elf64_header_size : ℕ
elf64_header_size = 64

abbrev pub elf64_program_header_size : ℕ
elf64_program_header_size = 56

abbrev known_segment_flags : ℕ
known_segment_flags = 7

abbrev extended_program_header_count : ℕ
extended_program_header_count = 0xffff

abbrev amdgpu_machine_gfx1101 : ℕ
amdgpu_machine_gfx1101 = 0x46

-- `validate_load_segment`; the header offset is that of the segment's program header.
unfoldable pub validate_load_segment : LoadSegment → ℕ → ℕ → Outcome (Unit {0})
validate_load_segment segment file_size header_offset = do
  reject_if (bit_and segment.flags (u32_max - known_segment_flags) != 0) invalid_segment_flags
      (header_offset + 4)
  reject_if (ltb segment.memory_size segment.file_size) segment_file_size_exceeds_memory_size
      (header_offset + 32)
  reject_if (not (range_is_in_file segment.file_offset segment.file_size file_size))
      segment_file_range_out_of_bounds (header_offset + 8)
  reject_if (overflows (checked_add segment.virtual_address segment.memory_size))
      segment_virtual_range_overflow (header_offset + 16)
  reject_if (ltb 1 segment.alignment && not (is_power_of_two segment.alignment))
      invalid_segment_alignment (header_offset + 48)
  reject_if
      (ltb 1 segment.alignment
        && segment.file_offset % segment.alignment != segment.virtual_address % segment.alignment)
      incongruent_segment_alignment (header_offset + 48)
  where
    overflows : Option ℕ → Bool
    overflows none = true
    overflows (some end) = false

pub record ParsedLoadSegment : Type 0 where
  pub segment : LoadSegment
  pub program_header_offset : ℕ

module _ (offset range_size : LoadSegment → ℕ) where
  nonempty : List ParsedLoadSegment → List ParsedLoadSegment
  nonempty [] = []
  nonempty (p ∷ ps) = if range_size p.segment != 0 then p ∷ nonempty ps else nonempty ps

  -- The comparison of the sort: by offset, then by program header.
  comes_before : ParsedLoadSegment → ParsedLoadSegment → Bool
  comes_before lhs rhs =
      if offset lhs.segment != offset rhs.segment
      then ltb (offset lhs.segment) (offset rhs.segment)
      else ltb lhs.program_header_offset rhs.program_header_offset

  -- The scan over neighbours, from `previous` on.
  first_overlap : ParsedLoadSegment → List ParsedLoadSegment → Option ParsedLoadSegment
  first_overlap previous [] = none
  first_overlap previous (current ∷ rest) =
      let later = first_overlap current rest in
      let previous_end = (offset previous.segment + range_size previous.segment) % u64_limit in
      if ltb (offset current.segment) previous_end then some current else later

  overlap_in : List ParsedLoadSegment → Option ParsedLoadSegment
  unfolding first_overlap
  overlap_in [] = none
  overlap_in (p ∷ ps) = first_overlap p ps

  unfoldable pub find_overlapping_segment : List ParsedLoadSegment → Option ParsedLoadSegment
  unfolding nonempty comes_before overlap_in sort
  find_overlapping_segment segments = overlap_in (sort comes_before (nonempty segments))

-- The fields of the header that the checks read; every offset is below the header's 64 bytes.
pub record ElfHeader : Type 0 where
  pub magic0 : ℕ
  pub magic1 : ℕ
  pub magic2 : ℕ
  pub magic3 : ℕ
  pub ident_class : ℕ
  pub ident_data : ℕ
  pub ident_version : ℕ
  pub os_abi : ℕ
  pub abi_version : ℕ
  pub object_type : ℕ
  pub machine : ℕ
  pub version : ℕ
  pub program_header_offset : ℕ
  pub elf_flags : ℕ
  pub header_size : ℕ
  pub program_header_entry_size : ℕ
  pub program_header_count : ℕ

unfoldable pub read_header : List ℕ → Outcome ElfHeader
unfolding byte_at read_le
read_header bytes = do
  magic0 ← byte_at bytes 0
  magic1 ← byte_at bytes 1
  magic2 ← byte_at bytes 2
  magic3 ← byte_at bytes 3
  ident_class ← byte_at bytes 4
  ident_data ← byte_at bytes 5
  ident_version ← byte_at bytes 6
  os_abi ← byte_at bytes 7
  abi_version ← byte_at bytes 8
  object_type ← read_u16 bytes 16
  machine ← read_u16 bytes 18
  version ← read_u32 bytes 20
  program_header_offset ← read_u64 bytes 32
  elf_flags ← read_u32 bytes 48
  header_size ← read_u16 bytes 52
  program_header_entry_size ← read_u16 bytes 54
  program_header_count ← read_u16 bytes 56
  done (record {
    magic0 = magic0;
    magic1 = magic1;
    magic2 = magic2;
    magic3 = magic3;
    ident_class = ident_class;
    ident_data = ident_data;
    ident_version = ident_version;
    os_abi = os_abi;
    abi_version = abi_version;
    object_type = object_type;
    machine = machine;
    version = version;
    program_header_offset = program_header_offset;
    elf_flags = elf_flags;
    header_size = header_size;
    program_header_entry_size = program_header_entry_size;
    program_header_count = program_header_count;
  })

-- The checks of the header, in the order of the source, each with the offset that it reports.
check_header : ElfHeader → ℕ → Outcome (Unit {0})
check_header h size = do
  reject_if (not (h.magic0 == 0x7f && h.magic1 == b'E' && h.magic2 == b'L' && h.magic3 == b'F'))
      invalid_elf_magic 0
  reject_if (h.ident_class != 2) unsupported_elf_class 4
  reject_if (h.ident_data != 1) unsupported_endianness 5
  reject_if (h.ident_version != 1 || h.version != 1) unsupported_elf_version 6
  reject_if (h.os_abi != 64) unsupported_os_abi 7
  reject_if (ltb h.abi_version 3 || ltb 4 h.abi_version) unsupported_abi_version 8
  reject_if (h.object_type != 3) unsupported_object_type 16
  reject_if (h.machine != 224) unsupported_machine 18
  reject_if (h.header_size != elf64_header_size) invalid_elf_header_size 52
  reject_if (bit_and h.elf_flags 0xff != amdgpu_machine_gfx1101) unsupported_target 48
  reject_if (h.program_header_count == 0) missing_program_headers 56
  reject_if (h.program_header_count == extended_program_header_count)
      unsupported_extended_program_header_count 56
  reject_if (h.program_header_entry_size != elf64_program_header_size)
      invalid_program_header_entry_size 54
  reject_if
      (not (
        range_is_in_file h.program_header_offset
          (h.program_header_count * elf64_program_header_size) size))
      program_header_table_out_of_bounds 32

read_segment : List ℕ → ℕ → Outcome LoadSegment
unfolding read_le
read_segment bytes entry = do
  flags ← read_u32 bytes (entry + 4)
  file_offset ← read_u64 bytes (entry + 8)
  virtual_address ← read_u64 bytes (entry + 16)
  file_size ← read_u64 bytes (entry + 32)
  memory_size ← read_u64 bytes (entry + 40)
  alignment ← read_u64 bytes (entry + 48)
  done (record {
    file_offset = file_offset;
    file_size = file_size;
    virtual_address = virtual_address;
    memory_size = memory_size;
    alignment = alignment;
    flags = flags;
  })

-- One entry of the program header table: a PT_LOAD segment that passes its test, or nothing.
read_entry : List ℕ → ℕ → Outcome (Option ParsedLoadSegment)
unfolding read_le read_segment validate_load_segment
read_entry bytes entry = read_u32 bytes entry >>= λ kind.
    if kind != 1
    then done none
    else (read_segment bytes entry >>= λ segment.
        validate_load_segment segment (length bytes) entry >>= λ _.
        done (some (record { segment = segment; program_header_offset = entry })))

abbrev keep : Option ParsedLoadSegment → List ParsedLoadSegment → List ParsedLoadSegment
keep none rest = rest
keep (some p) rest = p ∷ rest

-- The loop over the table, with `count` entries left.
unfoldable pub read_entries : List ℕ → ℕ → ℕ → Outcome (List ParsedLoadSegment)
unfolding read_entry
read_entries bytes entry zero = done []
read_entries bytes entry (suc count) = read_entry bytes entry >>= λ found.
    read_entries bytes (entry + elf64_program_header_size) count >>= λ rest. done (keep found rest)

abbrev pub file_start : LoadSegment → ℕ
file_start s = s.file_offset

abbrev pub file_extent : LoadSegment → ℕ
file_extent s = s.file_size

abbrev pub memory_start : LoadSegment → ℕ
memory_start s = s.virtual_address

abbrev pub memory_extent : LoadSegment → ℕ
memory_extent s = s.memory_size

reject_overlap : Option ParsedLoadSegment → ParseErrorCode → ℕ → Outcome (Unit {0})
reject_overlap none code field = done tt
reject_overlap (some p) code field =
    failed (record { code = code; offset = p.program_header_offset + field })

check_overlaps : List ParsedLoadSegment → Outcome (Unit {0})
unfolding find_overlapping_segment reject_overlap
check_overlaps segments = do
  reject_overlap (find_overlapping_segment file_start file_extent segments)
      overlapping_segment_file_ranges 8
  reject_overlap (find_overlapping_segment memory_start memory_extent segments)
      overlapping_segment_virtual_ranges 16

pub data Input : Type 0 where
  null_data : ℕ → Input
  bytes_at : List ℕ → Input

pub record ElfObject : Type 0 where
  pub header : ElfHeader
  pub segments : List ParsedLoadSegment

-- The parse of a code object that is long enough for an ELF header.
parse_table : List ℕ → Outcome ElfObject
unfolding read_header check_header read_entries check_overlaps
parse_table bytes = read_header bytes >>= λ header. check_header header (length bytes) >>= λ _.
    read_entries bytes header.program_header_offset header.program_header_count >>= λ segments.
    reject_if (length segments == 0) missing_load_segments header.program_header_offset >>= λ _.
    check_overlaps segments >>= λ _. done (record { header = header; segments = segments })

-- `parse_code_object` up to the metadata and the load plan.
unfoldable pub parse_elf : Input → Outcome ElfObject
unfolding parse_table
parse_elf (null_data size) =
    if size != 0
    then failed (record { code = invalid_argument; offset = 0 })
    else failed (record { code = truncated_elf_header; offset = 0 })
parse_elf (bytes_at bytes) =
    if ltb (length bytes) elf64_header_size
    then failed (record { code = truncated_elf_header; offset = length bytes })
    else parse_table bytes

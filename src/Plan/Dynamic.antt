-- ===== src/Plan/Dynamic.antt =====
-- light-rocr/loader/load_plan_reader.cpp: the dynamic table of a code object, and the tests of the tags
-- that describe its relocation tables. The sums of file offsets do not wrap: the program header table
-- and the dynamic table lie in the file.

pub mod Safety
pub mod Tables
use light_rocm_runtime.Prelude.{
  ℕ, zero, suc, ◌+◌, ◌/◌, ◌%◌, Bool, true, false, not, ◌&&◌, ◌||◌, Option, none, some, List, length,
  ltb, ◌==◌, ◌!=◌, if◌then◌else◌,
}
use light_rocm_runtime.Word.{checked_add, range_is_in_file}
use light_rocm_runtime.Loader.{
  Outcome, done, failed, ◌>>=◌, ◌>>◌, reject_if, duplicate_dynamic_segment, invalid_dynamic_table,
  unsupported_relocation_format, invalid_relocation_table,
}
use light_rocm_runtime.Loader.Bytes.{read_u16, read_u32, read_u64, read_le}

pub record DynamicValue : Type 0 where
  pub present : Bool
  pub value : ℕ
  pub file_offset : ℕ

pub record RelocationTableInfo : Type 0 where
  pub address : DynamicValue
  pub size : DynamicValue
  pub entry_size : DynamicValue
  pub relative_count : DynamicValue

pub record DynamicRelocationInfo : Type 0 where
  pub hash : DynamicValue
  pub symbol_table : DynamicValue
  pub symbol_entry_size : DynamicValue
  pub rel_table : RelocationTableInfo
  pub rela_table : RelocationTableInfo

abbrev pub absent : DynamicValue
absent = record { present = false; value = 0; file_offset = 0 }

abbrev pub absent_table : RelocationTableInfo
absent_table = record {
  address = absent;
  size = absent;
  entry_size = absent;
  relative_count = absent;
}

abbrev pub empty_dynamic_info : DynamicRelocationInfo
empty_dynamic_info = record {
  hash = absent;
  symbol_table = absent;
  symbol_entry_size = absent;
  rel_table = absent_table;
  rela_table = absent_table;
}

-- The tags the reader tells apart.
pub data DynamicTag : Type 0 where
  dynamic_plt_relocation_size dynamic_hash dynamic_symbol_table : DynamicTag
  dynamic_rela dynamic_rela_size dynamic_rela_entry_size dynamic_symbol_entry_size : DynamicTag
  dynamic_rel dynamic_rel_size dynamic_rel_entry_size dynamic_plt_relocation_type : DynamicTag
  dynamic_jump_relocation dynamic_relr_size dynamic_relr dynamic_relr_entry_size : DynamicTag
  dynamic_rela_count dynamic_rel_count dynamic_other : DynamicTag

-- The tag is the bit pattern of an `int64_t`; all the known ones are positive.
pub dynamic_tag : ℕ → DynamicTag
dynamic_tag tag =
    if tag == 2
    then dynamic_plt_relocation_size
    else if tag == 4
    then dynamic_hash
    else if tag == 6
    then dynamic_symbol_table
    else if tag == 7
    then dynamic_rela
    else if tag == 8
    then dynamic_rela_size
    else if tag == 9
    then dynamic_rela_entry_size
    else if tag == 11
    then dynamic_symbol_entry_size
    else if tag == 17
    then dynamic_rel
    else if tag == 18
    then dynamic_rel_size
    else if tag == 19
    then dynamic_rel_entry_size
    else if tag == 20
    then dynamic_plt_relocation_type
    else if tag == 23
    then dynamic_jump_relocation
    else if tag == 35
    then dynamic_relr_size
    else if tag == 36
    then dynamic_relr
    else if tag == 37
    then dynamic_relr_entry_size
    else if tag == 0x6ffffff9
    then dynamic_rela_count
    else if tag == 0x6ffffffa
    then dynamic_rel_count
    else dynamic_other

set_dynamic_value : DynamicValue → ℕ → ℕ → Outcome DynamicValue
set_dynamic_value destination value file_offset =
    if destination.present
    then failed (record { code = invalid_dynamic_table; offset = file_offset })
    else done (record { present = true; value = value; file_offset = file_offset })

-- The `switch` on the tag of the entry at `file_offset`.
set_tag : DynamicRelocationInfo → DynamicTag → ℕ → ℕ → Outcome DynamicRelocationInfo
unfolding set_dynamic_value
set_tag info dynamic_hash value file_offset =
    set_dynamic_value info.hash value (file_offset + 8) >>= λ v. done (record info { hash = v })
set_tag info dynamic_symbol_table value file_offset =
    set_dynamic_value info.symbol_table value (file_offset + 8) >>= λ v.
    done (record info { symbol_table = v })
set_tag info dynamic_symbol_entry_size value file_offset =
    set_dynamic_value info.symbol_entry_size value (file_offset + 8) >>= λ v.
    done (record info { symbol_entry_size = v })
set_tag info dynamic_rel value file_offset =
    set_dynamic_value info.rel_table.address value (file_offset + 8) >>= λ v.
    done (record info { rel_table = record info.rel_table { address = v } })
set_tag info dynamic_rel_size value file_offset =
    set_dynamic_value info.rel_table.size value (file_offset + 8) >>= λ v.
    done (record info { rel_table = record info.rel_table { size = v } })
set_tag info dynamic_rel_entry_size value file_offset =
    set_dynamic_value info.rel_table.entry_size value (file_offset + 8) >>= λ v.
    done (record info { rel_table = record info.rel_table { entry_size = v } })
set_tag info dynamic_rel_count value file_offset =
    set_dynamic_value info.rel_table.relative_count value (file_offset + 8) >>= λ v.
    done (record info { rel_table = record info.rel_table { relative_count = v } })
set_tag info dynamic_rela value file_offset =
    set_dynamic_value info.rela_table.address value (file_offset + 8) >>= λ v.
    done (record info { rela_table = record info.rela_table { address = v } })
set_tag info dynamic_rela_size value file_offset =
    set_dynamic_value info.rela_table.size value (file_offset + 8) >>= λ v.
    done (record info { rela_table = record info.rela_table { size = v } })
set_tag info dynamic_rela_entry_size value file_offset =
    set_dynamic_value info.rela_table.entry_size value (file_offset + 8) >>= λ v.
    done (record info { rela_table = record info.rela_table { entry_size = v } })
set_tag info dynamic_rela_count value file_offset =
    set_dynamic_value info.rela_table.relative_count value (file_offset + 8) >>= λ v.
    done (record info { rela_table = record info.rela_table { relative_count = v } })
set_tag info dynamic_plt_relocation_size value file_offset =
    failed (record { code = unsupported_relocation_format; offset = file_offset })
set_tag info dynamic_plt_relocation_type value file_offset =
    failed (record { code = unsupported_relocation_format; offset = file_offset })
set_tag info dynamic_jump_relocation value file_offset =
    failed (record { code = unsupported_relocation_format; offset = file_offset })
set_tag info dynamic_relr value file_offset =
    failed (record { code = unsupported_relocation_format; offset = file_offset })
set_tag info dynamic_relr_size value file_offset =
    failed (record { code = unsupported_relocation_format; offset = file_offset })
set_tag info dynamic_relr_entry_size value file_offset =
    failed (record { code = unsupported_relocation_format; offset = file_offset })
set_tag info dynamic_other value file_offset = done info

-- PT_DYNAMIC: its file range.
pub record DynamicSegment : Type 0 where
  pub dynamic_offset : ℕ
  pub dynamic_size : ℕ

abbrev is_found : Option DynamicSegment → Bool
is_found none = false
is_found (some d) = true

-- One program header, with the PT_DYNAMIC found before it.
scan_header : List ℕ → ℕ → Option DynamicSegment → Outcome (Option DynamicSegment)
unfolding read_le
scan_header bytes header found = read_u32 bytes header >>= λ kind.
    if kind != 2
    then done found
    else (reject_if (is_found found) duplicate_dynamic_segment header >>= λ _.
        read_u64 bytes (header + 8) >>= λ dynamic_offset.
        read_u64 bytes (header + 32) >>= λ dynamic_size.
        reject_if
          (not (range_is_in_file dynamic_offset dynamic_size (length bytes))
            || dynamic_size == 0
            || dynamic_size % 16 != 0)
          invalid_dynamic_table (header + 8)
        >>= λ _.
            done (some (record { dynamic_offset = dynamic_offset; dynamic_size = dynamic_size })))

-- The loop over the program headers, with `count` of them left.
scan_headers : List ℕ → ℕ → ℕ → ℕ → Option DynamicSegment → Outcome (Option DynamicSegment)
unfolding scan_header
scan_headers bytes header entry_size zero found = done found
scan_headers bytes header entry_size (suc count) found = scan_header bytes header found >>= λ next.
    scan_headers bytes (header + entry_size) entry_size count next

-- The loop over the dynamic table, with `count` entries left; `start` is where the table starts.
read_dynamic_entries : List ℕ → ℕ → ℕ → ℕ → DynamicRelocationInfo → Outcome DynamicRelocationInfo
unfolding read_le set_tag dynamic_tag
read_dynamic_entries bytes start file_offset zero info =
    failed (record { code = invalid_dynamic_table; offset = start })
read_dynamic_entries bytes start file_offset (suc count) info =
    read_u64 bytes file_offset >>= λ tag. read_u64 bytes (file_offset + 8) >>= λ value.
    if tag == 0
    then done info
    else (set_tag info (dynamic_tag tag) value file_offset >>= λ info'.
        read_dynamic_entries bytes start (file_offset + 16) count info')

read_dynamic_table : List ℕ → Option DynamicSegment → Outcome DynamicRelocationInfo
unfolding read_dynamic_entries
read_dynamic_table bytes none = done empty_dynamic_info
read_dynamic_table bytes (some d) =
    read_dynamic_entries bytes d.dynamic_offset d.dynamic_offset (d.dynamic_size / 16)
      empty_dynamic_info

unfoldable pub read_dynamic_relocation_info : List ℕ → Outcome DynamicRelocationInfo
unfolding read_le scan_headers read_dynamic_table
read_dynamic_relocation_info bytes = do
  program_header_offset ← read_u64 bytes 32
  entry_size ← read_u16 bytes 54
  count ← read_u16 bytes 56
  found ← scan_headers bytes program_header_offset entry_size count none
  read_dynamic_table bytes found

abbrev pub table_is_present : RelocationTableInfo → Bool
table_is_present table = table.address.present || table.size.present || table.entry_size.present

unfoldable pub validate_relocation_table_info : RelocationTableInfo → ℕ → Outcome (Unit {0})
validate_relocation_table_info table expected_entry_size =
    if not (table_is_present table)
    then reject_if (table.relative_count.present && table.relative_count.value != 0)
        invalid_relocation_table table.relative_count.file_offset
    else (do
      reject_if
          (not table.address.present || not table.size.present || not table.entry_size.present)
          invalid_relocation_table
          (if table.address.present
            then table.address.file_offset
            else if table.size.present
            then table.size.file_offset
            else table.entry_size.file_offset)
      reject_if (table.entry_size.value != expected_entry_size) invalid_relocation_table
          table.entry_size.file_offset
      reject_if (table.size.value % expected_entry_size != 0) invalid_relocation_table
          table.size.file_offset
      reject_if
          (table.relative_count.present
            && ltb (table.size.value / expected_entry_size) table.relative_count.value)
          invalid_relocation_table table.relative_count.file_offset)

-- The ends of the two tables, where neither wraps.
ends_overlap : ℕ → ℕ → Option ℕ → Option ℕ → ℕ → Outcome (Unit {0})
ends_overlap rel rela (some rel_end) (some rela_end) offset =
    reject_if (ltb rel rela_end && ltb rela rel_end) invalid_relocation_table offset
ends_overlap rel rela (some rel_end) none offset =
    failed (record { code = invalid_relocation_table; offset = offset })
ends_overlap rel rela none rela_end offset =
    failed (record { code = invalid_relocation_table; offset = offset })

unfoldable pub validate_disjoint_relocation_tables :
    RelocationTableInfo → RelocationTableInfo → Outcome (Unit {0})
unfolding ends_overlap
validate_disjoint_relocation_tables rel rela =
    if not (table_is_present rel)
      || not (table_is_present rela)
      || rel.size.value == 0
      || rela.size.value == 0
    then done tt
    else ends_overlap rel.address.value rela.address.value
        (checked_add rel.address.value rel.size.value)
        (checked_add rela.address.value rela.size.value) rela.address.file_offset

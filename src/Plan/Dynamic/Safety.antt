-- ===== src/Plan/Dynamic/Safety.antt =====
-- `read_dynamic_relocation_info` of light-rocr/loader/load_plan_reader.cpp on arbitrary bytes.
use light_rocm_runtime.Prelude.{
  ℕ, zero, suc, ◌+◌, ◌*◌, ◌/◌, ◌≤◌, ◌≡◌, Option, none, some, List, length, arith, subst,
}
use light_rocm_runtime.Word.Laws.{range_is_in_file_iff}
use light_rocm_runtime.Loader.{done, Safe, >>=-Safe, >>=-done, done-injective}
use light_rocm_runtime.Loader.Bytes.{IsBytes, value_of, read_le_lem}
use light_rocm_runtime.Plan.Dynamic.{
  DynamicRelocationInfo, DynamicSegment, DynamicTag, set_tag, scan_header, scan_headers,
  read_dynamic_entries, read_dynamic_table, read_dynamic_relocation_info, empty_dynamic_info,
  dynamic_tag,
}

set_tag-Safe :
    (info : DynamicRelocationInfo) (tag : DynamicTag) (value file_offset : ℕ)
    → Safe (set_tag info tag value file_offset)
unfolding set_tag
set_tag-Safe info tag value file_offset = ground arith

-- The dynamic table lies in the file.
abbrev InFile : ℕ → Option DynamicSegment → Type 0
InFile size none = Unit {0}
InFile size (some d) = d.dynamic_offset + d.dynamic_size ≤ size

module _ (bytes : List ℕ) (are_bytes : IsBytes bytes) where
  scan_header-Safe :
      (header : ℕ) (found : Option DynamicSegment)
      → header + 40 ≤ length bytes
      → Safe (scan_header bytes header found)
  unfolding scan_header
  scan_header-Safe header found fits = ground (
    arith,
    read_le_lem 4 bytes header are_bytes,
    read_le_lem 8 bytes (header + 8) are_bytes,
    read_le_lem 8 bytes (header + 32) are_bytes,
  )

  scan_header-InFile :
      (header : ℕ) (found next : Option DynamicSegment)
      → header + 40 ≤ length bytes
      → InFile (length bytes) found
      → scan_header bytes header found ≡ done next
      → InFile (length bytes) next
  unfolding scan_header
  scan_header-InFile header found next fits h e = ground (
    arith,
    read_le_lem 4 bytes header are_bytes,
    read_le_lem 8 bytes (header + 8) are_bytes,
    read_le_lem 8 bytes (header + 32) are_bytes,
    (range_is_in_file_iff (value_of 8 bytes (header + 8)) (value_of 8 bytes (header + 32))
        (length bytes)).0,
  )

  read_dynamic_entries-Safe :
      (start file_offset count : ℕ) (info : DynamicRelocationInfo)
      → file_offset + count * 16 ≤ length bytes
      → Safe (read_dynamic_entries bytes start file_offset count info)
  unfolding read_dynamic_entries
  read_dynamic_entries-Safe start file_offset zero info fits = λ e. cc
  read_dynamic_entries-Safe start file_offset (suc count) info fits =
      rw
        (
          read_le_lem 8 bytes file_offset are_bytes (omega arith),
          read_le_lem 8 bytes (file_offset + 8) are_bytes (omega arith),
          read_dynamic_entries,
        )
        (ground (
          arith,
          >>=-Safe
              (set_tag info (dynamic_tag (value_of 8 bytes file_offset))
                (value_of 8 bytes (file_offset + 8)) file_offset)
              (λ info'. read_dynamic_entries bytes start (file_offset + 16) count info')
              (set_tag-Safe info _ _ file_offset)
              (λ info' _.
                read_dynamic_entries-Safe start (file_offset + 16) count info' (omega arith)),
        ))

  scan_headers-Safe :
      (header entry_size count : ℕ) (found : Option DynamicSegment)
      → header + count * 56 ≤ length bytes
      → entry_size ≡ 56
      → Safe (scan_headers bytes header entry_size count found)
  unfolding scan_headers
  scan_headers-Safe header entry_size zero found fits e = λ x. cc
  scan_headers-Safe header entry_size (suc count) found fits e =
      >>=-Safe (scan_header bytes header found) _ (scan_header-Safe header found (omega arith))
        λ next _. scan_headers-Safe (header + entry_size) entry_size count next (omega arith) e

  scan_headers-InFile :
      (header entry_size count : ℕ) (found last : Option DynamicSegment)
      → header + count * 56 ≤ length bytes
      → entry_size ≡ 56
      → InFile (length bytes) found
      → scan_headers bytes header entry_size count found ≡ done last
      → InFile (length bytes) last
  unfolding scan_headers
  scan_headers-InFile header entry_size zero found last fits e h run =
      subst (InFile (length bytes)) (done-injective run) h
  scan_headers-InFile header entry_size (suc count) found last fits e h run =
      let (next, head, tail) = >>=-done (scan_header bytes header found) _ run in
      scan_headers-InFile (header + entry_size) entry_size count next last (omega arith) e
        (scan_header-InFile header found next (omega arith) h head) tail

  read_dynamic_table-Safe :
      (found : Option DynamicSegment)
      → InFile (length bytes) found
      → Safe (read_dynamic_table bytes found)
  unfolding read_dynamic_table
  read_dynamic_table-Safe none h = λ e. cc
  read_dynamic_table-Safe (some d) h =
      read_dynamic_entries-Safe d.dynamic_offset d.dynamic_offset (d.dynamic_size / 16)
        empty_dynamic_info (omega arith)

  -- The program header table is in the file, with entries of 56 bytes.
  abbrev pub HasTable : Type 0
  HasTable =
      (64 ≤ length bytes)
      × (value_of 2 bytes 54 ≡ 56)
      × (value_of 8 bytes 32 + value_of 2 bytes 56 * 56 ≤ length bytes)

  pub read_dynamic_relocation_info-Safe : HasTable → Safe (read_dynamic_relocation_info bytes)
  unfolding read_dynamic_relocation_info
  read_dynamic_relocation_info-Safe h =
      rw
        (
          read_le_lem 8 bytes 32 are_bytes (omega arith),
          read_le_lem 2 bytes 54 are_bytes (omega arith),
          read_le_lem 2 bytes 56 are_bytes (omega arith),
          read_dynamic_relocation_info,
        )
        (>>=-Safe
          (scan_headers bytes (value_of 8 bytes 32) (value_of 2 bytes 54) (value_of 2 bytes 56)
            none)
          _
          (scan_headers-Safe (value_of 8 bytes 32) (value_of 2 bytes 54) (value_of 2 bytes 56) none
            (omega arith) h.1)
          λ found run. read_dynamic_table-Safe found (
            scan_headers-InFile (value_of 8 bytes 32) (value_of 2 bytes 54) (value_of 2 bytes 56)
              none found (omega arith) h.1 tt run))

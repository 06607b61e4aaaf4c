-- ===== src/Loader/Elf/Safety.antt =====
-- `parse_elf` as a whole: light-rocr/loader/elf_reader.cpp on arbitrary bytes.
use light_rocm_runtime.Prelude.{
  ℕ, ◌+◌, ◌*◌, ◌≤◌, ◌<◌, ◌≡◌, ap, none, List, [], ◌∷◌, All, arith, length, subst, sym, ◌∙◌, ◌==◌,
}
use light_rocm_runtime.Prelude.Sorting.{AllPairs}
use light_rocm_runtime.Word.{u64_limit}
use light_rocm_runtime.Word.Laws.{range_is_in_file_iff}
use light_rocm_runtime.Loader.{
  Outcome, done, failed, fault, Safe, >>=-Safe, >>=-done, done-injective, reject_if,
  missing_load_segments,
}
use light_rocm_runtime.Loader.Bytes.{IsBytes, value_of}
use light_rocm_runtime.Loader.Elf.{
  ParsedLoadSegment, ElfHeader, ElfObject, bytes_at, elf64_header_size, elf64_program_header_size,
  read_header, check_header, read_entries, check_overlaps, parse_table, parse_elf,
  find_overlapping_segment, file_start, file_extent, memory_start, memory_extent,
}
use light_rocm_runtime.Loader.Elf.Overlap.{AreDisjoint, find_overlapping_segment_iff, Ends}
use light_rocm_runtime.Loader.Elf.Segments.{
  IsLoadable, read_entries-Safe, read_entries-IsLoadable, read_header_lem, header_at,
}

check_header-Safe : (h : ElfHeader) (size : ℕ) → Safe (check_header h size)
unfolding check_header
check_header-Safe h size = ground arith

-- The program header table of a header that passes lies in the file.
check_header-table :
    (h : ElfHeader) (size : ℕ)
    → check_header h size ≡ done tt
    → h.program_header_offset + h.program_header_count * elf64_program_header_size ≤ size
unfolding check_header
check_header-table h size e =
    (range_is_in_file_iff h.program_header_offset
        (h.program_header_count * elf64_program_header_size) size).0
      (ground arith)

check_overlaps-Safe : (ps : List ParsedLoadSegment) → Safe (check_overlaps ps)
unfolding check_overlaps
check_overlaps-Safe ps = ground arith

-- The segments lie in the file and in the address space one by one, and share no byte of either.
pub record IsMappable (size : ℕ) (ps : List ParsedLoadSegment) : Type 0 where
  pub some_segment : 0 < length ps
  pub loadable : All (λ p. IsLoadable size p.segment) ps
  pub disjoint_files : AllPairs (AreDisjoint file_start file_extent) ps
  pub disjoint_memory : AllPairs (AreDisjoint memory_start memory_extent) ps

file_Ends :
    (size : ℕ) (ps : List ParsedLoadSegment)
    → size < u64_limit
    → All (λ p. IsLoadable size p.segment) ps
    → All (Ends file_start file_extent) ps
file_Ends size [] small h = tt
file_Ends size (p ∷ ps) small h = (omega (arith, h.0.in_file), file_Ends size ps small h.1)

memory_Ends :
    (size : ℕ) (ps : List ParsedLoadSegment)
    → All (λ p. IsLoadable size p.segment) ps
    → All (Ends memory_start memory_extent) ps
memory_Ends size [] h = tt
memory_Ends size (p ∷ ps) h = (h.0.in_memory, memory_Ends size ps h.1)

check_overlaps-none :
    (ps : List ParsedLoadSegment)
    → check_overlaps ps ≡ done tt
    → (find_overlapping_segment file_start file_extent ps ≡ none)
      × (find_overlapping_segment memory_start memory_extent ps ≡ none)
unfolding check_overlaps
check_overlaps-none ps e = ground arith

not_empty :
    (ps : List ParsedLoadSegment) (at : ℕ)
    → reject_if (length ps == 0) missing_load_segments at ≡ done tt
    → 0 < length ps
not_empty [] at e = cc
not_empty (p ∷ ps) at e = omega arith

module _ (bytes : List ℕ) (are_bytes : IsBytes bytes) where
  parse_table-Safe : elf64_header_size ≤ length bytes → Safe (parse_table bytes)
  unfolding parse_table
  parse_table-Safe long =
      let h = header_at bytes are_bytes in
      rw (read_header_lem bytes are_bytes long, parse_table)
        (>>=-Safe (check_header h (length bytes)) _ (check_header-Safe h (length bytes)) λ _ ok.
          >>=-Safe (read_entries bytes h.program_header_offset h.program_header_count) _
            (read_entries-Safe bytes are_bytes h.program_header_offset h.program_header_count
              (check_header-table h (length bytes) ok))
            λ ps _. ground (arith, check_overlaps-Safe ps))

  -- Whatever its bytes are, each below 256, the parser does not read outside the code object.
  pub parse_elf-Safe : Safe (parse_elf (bytes_at bytes))
  unfolding parse_elf
  parse_elf-Safe = ground (arith, parse_table-Safe)

  parse_table-IsMappable :
      (o : ElfObject)
      → elf64_header_size ≤ length bytes
      → length bytes < u64_limit
      → parse_table bytes ≡ done o
      → IsMappable (length bytes) o.segments
  unfolding parse_table
  parse_table-IsMappable o long small e =
      let (h, _, e1) = >>=-done (read_header bytes) _ e in
      let (_, ok, e2) = >>=-done (check_header h (length bytes)) _ e1 in
      let (ps, found, e3) =
        >>=-done (read_entries bytes h.program_header_offset h.program_header_count) _ e2 in
      let (_, some_ps, e4) =
        >>=-done (reject_if (length ps == 0) missing_load_segments h.program_header_offset) _ e3 in
      let (_, apart, e5) = >>=-done (check_overlaps ps) _ e4 in
      let all =
        read_entries-IsLoadable bytes are_bytes h.program_header_offset h.program_header_count ps
          (check_header-table h (length bytes) ok) found in
      let none_found = check_overlaps-none ps apart in
      subst (IsMappable (length bytes)) (ap (λ r. segments_of r) e5) (record {
        some_segment = not_empty ps _ some_ps;
        loadable = all;
        disjoint_files =
            (find_overlapping_segment_iff file_start file_extent ps
                (file_Ends (length bytes) ps small all)).0
              none_found.0;
        disjoint_memory =
            (find_overlapping_segment_iff memory_start memory_extent ps
                (memory_Ends (length bytes) ps all)).0
              none_found.1;
      })
    where
      segments_of : Outcome ElfObject → List ParsedLoadSegment
      segments_of (done r) = r.segments
      segments_of (failed err) = []
      segments_of fault = []

  -- A code object of fewer than 2 ^ 64 bytes that is accepted has load segments; each of them lies in the
  -- file, has known flags, an address range that does not wrap, no more file bytes than memory, and an
  -- alignment that is a power of two, or at most 1, and agrees with its addresses; and no two share a
  -- byte of the file or of memory.
  pub parse_elf-IsMappable :
      (o : ElfObject)
      → length bytes < u64_limit
      → parse_elf (bytes_at bytes) ≡ done o
      → IsMappable (length bytes) o.segments
  unfolding parse_elf
  parse_elf-IsMappable o small e = ground (arith, parse_table-IsMappable o)

  check_header-entry_size :
      (h : ElfHeader) (size : ℕ)
      → check_header h size ≡ done tt
      → h.program_header_entry_size ≡ elf64_program_header_size
  unfolding check_header
  check_header-entry_size h size e = ground arith

  -- The program header table of an accepted code object lies in the file, with entries of 56 bytes.
  pub parse_elf-table :
      (o : ElfObject)
      → parse_elf (bytes_at bytes) ≡ done o
      → (elf64_header_size ≤ length bytes)
        × (value_of 2 bytes 54 ≡ elf64_program_header_size)
        × (value_of 8 bytes 32 + value_of 2 bytes 56 * elf64_program_header_size ≤ length bytes)
  unfolding parse_elf parse_table
  parse_elf-table o e =
      let long : elf64_header_size ≤ length bytes = ground arith in
      let run : parse_table bytes ≡ done o = ground arith in
      let (h, read, e1) = >>=-done (read_header bytes) _ run in
      let (_, ok, e2) = >>=-done (check_header h (length bytes)) _ e1 in
      let same = done-injective (sym (read_header_lem bytes are_bytes long) ∙ read) in
      let fine : check_header (header_at bytes are_bytes) (length bytes) ≡ done tt =
        ap (λ h. check_header h (length bytes)) same ∙ ok in
      (
        long,
        check_header-entry_size (header_at bytes are_bytes) (length bytes) fine,
        check_header-table (header_at bytes are_bytes) (length bytes) fine,
      )

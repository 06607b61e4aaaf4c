-- ===== src/Loader/Elf/Segments.antt =====
-- The single steps of the ELF reader of light-rocr/loader/elf_reader.cpp, as total functions on bytes.
use light_rocm_runtime.Prelude.{
  ℕ, zero, suc, ◌+◌, ◌-◌, ◌*◌, ◌%◌, ◌^◌, ◌≤◌, ◌<◌, ◌≡◌, refl, ◌⊎◌, inl, inr, ◌∙◌, Option, none,
  some, List, All, arith, subst, length, get_or, bit_and, ap,
}
use native.Mathlib.Decide.{dec_lt}
use light_rocm_runtime.Prelude.Bits.{bit_and_high}
use light_rocm_runtime.Word.{u64_limit, u32_max, u32_limit, checked_add}
use light_rocm_runtime.Word.Laws.{range_is_in_file_iff, is_power_of_two_sound}
use light_rocm_runtime.Loader.{LoadSegment, done, Safe, >>=-Safe, >>=-done, done-injective}
use light_rocm_runtime.Loader.Bytes.{IsBytes, byte_at_lem, read_le_lem, value_of, value_of-lt}
use light_rocm_runtime.Loader.Elf.{
  ParsedLoadSegment, ElfHeader, elf64_header_size, elf64_program_header_size, validate_load_segment,
  read_header, read_segment, read_entry, read_entries, keep,
}

-- A segment that can be copied from a file of `size` bytes and mapped.
pub record IsLoadable (size : ℕ) (s : LoadSegment) : Type 0 where
  pub known_flags : s.flags < 8
  pub zero_tail : s.file_size ≤ s.memory_size
  pub in_file : s.file_offset + s.file_size ≤ size
  pub in_memory : s.virtual_address + s.memory_size < u64_limit
  pub power : (s.alignment ≤ 1) ⊎ ((k : ℕ) × (s.alignment ≡ 2 ^ k))
  pub congruent :
      (s.alignment ≤ 1) ⊎ (s.file_offset % s.alignment ≡ s.virtual_address % s.alignment)

-- The fields of a segment fit their widths.
record HasWidths (s : LoadSegment) : Type 0 where
  flags_width : s.flags < u32_limit
  address_width : s.virtual_address < u64_limit

unknown_flags : (f : ℕ) → f < u32_limit → bit_and f (u32_max - 7) ≡ 0 → f < 8
unknown_flags f h e = omega (arith, bit_and_high 29 3 f h)

validate-IsLoadable :
    (s : LoadSegment) (size at : ℕ)
    → HasWidths s
    → validate_load_segment s size at ≡ done tt
    → IsLoadable size s
unfolding validate_load_segment checked_add
validate-IsLoadable s size at w e = record {
  known_flags = ground (arith, unknown_flags s.flags w.flags_width);
  zero_tail = ground arith;
  in_file = (range_is_in_file_iff s.file_offset s.file_size size).0 (ground arith);
  in_memory = ground arith;
  power = elim (dec_lt 1 s.alignment) [
    | yes big ↦ inr (is_power_of_two_sound s.alignment (ground arith))
    | no small ↦ inl (omega arith)
  ];
  congruent = ground arith;
}

keep-All :
    {P : ParsedLoadSegment → Type 0} (found : Option ParsedLoadSegment)
    (ps : List ParsedLoadSegment)
    → ((p : ParsedLoadSegment) → found ≡ some p → P p)
    → All P ps
    → All P (keep found ps)
keep-All none ps h all = all
keep-All (some p) ps h all = (h p refl, all)

module _ (bytes : List ℕ) (are_bytes : IsBytes bytes) where
  -- The segment that a program header describes.
  segment_at : ℕ → LoadSegment
  segment_at entry = record {
    file_offset = value_of 8 bytes (entry + 8);
    file_size = value_of 8 bytes (entry + 32);
    virtual_address = value_of 8 bytes (entry + 16);
    memory_size = value_of 8 bytes (entry + 40);
    alignment = value_of 8 bytes (entry + 48);
    flags = value_of 4 bytes (entry + 4);
  }

  segment_at-HasWidths : (entry : ℕ) → HasWidths (segment_at entry)
  unfolding segment_at
  segment_at-HasWidths entry = record {
    flags_width = value_of-lt 4 bytes (entry + 4) are_bytes;
    address_width = value_of-lt 8 bytes (entry + 16) are_bytes;
  }

  read_segment_lem :
      (entry : ℕ)
      → entry + elf64_program_header_size ≤ length bytes
      → read_segment bytes entry ≡ done (segment_at entry)
  unfolding read_segment segment_at
  read_segment_lem entry fits = rw (
    read_le_lem 4 bytes (entry + 4) are_bytes (omega arith),
    read_le_lem 8 bytes (entry + 8) are_bytes (omega arith),
    read_le_lem 8 bytes (entry + 16) are_bytes (omega arith),
    read_le_lem 8 bytes (entry + 32) are_bytes (omega arith),
    read_le_lem 8 bytes (entry + 40) are_bytes (omega arith),
    read_le_lem 8 bytes (entry + 48) are_bytes (omega arith),
  )

  validate-Safe : (s : LoadSegment) (size at : ℕ) → Safe (validate_load_segment s size at)
  unfolding validate_load_segment
  validate-Safe s size at = ground arith

  read_entry-Safe :
      (entry : ℕ) → entry + elf64_program_header_size ≤ length bytes → Safe (read_entry bytes entry)
  unfolding read_entry
  read_entry-Safe entry fits = ground (
    arith,
    read_le_lem 4 bytes entry are_bytes,
    read_segment_lem entry fits,
    validate-Safe (segment_at entry) (length bytes) entry,
  )

  read_entry-IsLoadable :
      (entry : ℕ) (p : ParsedLoadSegment)
      → entry + elf64_program_header_size ≤ length bytes
      → read_entry bytes entry ≡ done (some p)
      → IsLoadable (length bytes) p.segment
  unfolding read_entry
  read_entry-IsLoadable entry p fits e = ground (
    arith,
    read_le_lem 4 bytes entry are_bytes,
    read_segment_lem entry fits,
    validate-IsLoadable (segment_at entry) (length bytes) entry (segment_at-HasWidths entry),
  )

  pub read_entries-Safe :
      (entry count : ℕ)
      → entry + count * elf64_program_header_size ≤ length bytes
      → Safe (read_entries bytes entry count)
  unfolding read_entries
  read_entries-Safe entry zero fits = λ e. cc
  read_entries-Safe entry (suc count) fits =
      >>=-Safe (read_entry bytes entry) _ (read_entry-Safe entry (omega arith)) λ found _.
        >>=-Safe (read_entries bytes (entry + elf64_program_header_size) count) _
          (read_entries-Safe (entry + elf64_program_header_size) count (omega arith)) λ rest _ e. cc

  pub read_entries-IsLoadable :
      (entry count : ℕ) (ps : List ParsedLoadSegment)
      → entry + count * elf64_program_header_size ≤ length bytes
      → read_entries bytes entry count ≡ done ps
      → All (λ p. IsLoadable (length bytes) p.segment) ps
  unfolding read_entries
  read_entries-IsLoadable entry zero ps fits e =
      subst (All (λ p. IsLoadable (length bytes) p.segment)) (done-injective e) tt
  read_entries-IsLoadable entry (suc count) ps fits e =
      let (found, head, more) = >>=-done (read_entry bytes entry) _ e in
      let (rest, tail, last) =
        >>=-done (read_entries bytes (entry + elf64_program_header_size) count) _ more in
      let loadable =
        read_entries-IsLoadable (entry + elf64_program_header_size) count rest (omega arith) tail in
      subst (All (λ p. IsLoadable (length bytes) p.segment)) (done-injective last) (
        keep-All found rest
          (λ p e'. read_entry-IsLoadable entry p (omega arith) (head ∙ ap done e')) loadable)

  -- The header that the first 64 bytes describe.
  abbrev pub header_at : ElfHeader
  header_at = record {
    magic0 = get_or bytes 0 0;
    magic1 = get_or bytes 1 0;
    magic2 = get_or bytes 2 0;
    magic3 = get_or bytes 3 0;
    ident_class = get_or bytes 4 0;
    ident_data = get_or bytes 5 0;
    ident_version = get_or bytes 6 0;
    os_abi = get_or bytes 7 0;
    abi_version = get_or bytes 8 0;
    object_type = value_of 2 bytes 16;
    machine = value_of 2 bytes 18;
    version = value_of 4 bytes 20;
    program_header_offset = value_of 8 bytes 32;
    elf_flags = value_of 4 bytes 48;
    header_size = value_of 2 bytes 52;
    program_header_entry_size = value_of 2 bytes 54;
    program_header_count = value_of 2 bytes 56;
  }

  pub read_header_lem : elf64_header_size ≤ length bytes → read_header bytes ≡ done header_at
  unfolding read_header
  read_header_lem fits = rw (
    byte_at_lem bytes 0 (omega arith),
    byte_at_lem bytes 1 (omega arith),
    byte_at_lem bytes 2 (omega arith),
    byte_at_lem bytes 3 (omega arith),
    byte_at_lem bytes 4 (omega arith),
    byte_at_lem bytes 5 (omega arith),
    byte_at_lem bytes 6 (omega arith),
    byte_at_lem bytes 7 (omega arith),
    byte_at_lem bytes 8 (omega arith),
    read_le_lem 2 bytes 16 are_bytes (omega arith),
    read_le_lem 2 bytes 18 are_bytes (omega arith),
    read_le_lem 4 bytes 20 are_bytes (omega arith),
    read_le_lem 8 bytes 32 are_bytes (omega arith),
    read_le_lem 4 bytes 48 are_bytes (omega arith),
    read_le_lem 2 bytes 52 are_bytes (omega arith),
    read_le_lem 2 bytes 54 are_bytes (omega arith),
    read_le_lem 2 bytes 56 are_bytes (omega arith),
  )

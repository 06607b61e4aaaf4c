-- ===== src/Metadata/Note.antt =====
-- `find_metadata_note` of light-rocr/loader/metadata_reader.cpp. The sums of file offsets do not wrap where
-- no overflow is tested: the program header table and the notes lie in the file. A run out of fuel
-- counts as a fault.

pub mod Found
use light_rocm_runtime.Prelude.{
  ℕ, zero, suc, ◌+◌, ◌-◌, Bool, true, false, not, ◌&&◌, ◌||◌, Option, none, some, List, [], ◌∷◌,
  length, bit_and, ltb, ◌==◌, ◌!=◌, if◌then◌else◌,
}
use light_rocm_runtime.Word.{u64_max, checked_add, range_is_in_file}
use light_rocm_runtime.Loader.{
  Outcome, done, failed, fault, ◌>>=◌, reject_if, malformed_note, duplicate_metadata_note,
}
use light_rocm_runtime.Loader.Bytes.{byte_at, read_u16, read_u32, read_u64, read_le}

-- The descriptor of the note: its range in the file. `none` is the null pointer.
pub record MetadataBytes : Type 0 where
  pub size : ℕ
  pub file_offset : ℕ

-- `align4`, with `none` for false.
align4 : ℕ → Option ℕ
align4 value = elim (checked_add value 3) [
  | none ↦ none
  | some with_padding ↦ some (bit_and with_padding (u64_max - 3))
]

-- `memcmp` of bytes of the file with a text.
bytes_are : List ℕ → ℕ → List ℕ → Outcome Bool
unfolding byte_at
bytes_are bytes offset [] = done true
bytes_are bytes offset (c ∷ cs) =
    byte_at bytes offset >>= λ b. if b == c then bytes_are bytes (offset + 1) cs else done false

abbrev amdgpu_owner : List ℕ
amdgpu_owner = b'A' ∷ b'M' ∷ b'D' ∷ b'G' ∷ b'P' ∷ b'U' ∷ 0 ∷ []

-- The owner's name is compared when it has the length.
is_amdgpu : List ℕ → ℕ → ℕ → Outcome Bool
unfolding bytes_are
is_amdgpu bytes name_size name_offset =
    if name_size == 7 then bytes_are bytes name_offset amdgpu_owner else done false

abbrev is_found : Option MetadataBytes → Bool
is_found none = false
is_found (some m) = true

-- Where the descriptor and the next note start, if no sum overflows.
abbrev then_sum : Option ℕ → (ℕ → Option ℕ) → Option ℕ
then_sum none f = none
then_sum (some n) f = f n

descriptor_start : ℕ → ℕ → Option ℕ
unfolding align4
descriptor_start cursor name_size =
    then_sum (align4 name_size) (λ aligned. checked_add (cursor + 12) aligned)

note_end : ℕ → ℕ → Option ℕ
unfolding align4
note_end descriptor_offset descriptor_size =
    then_sum (align4 descriptor_size) (λ aligned. checked_add descriptor_offset aligned)

keep_note : Bool → ℕ → ℕ → ℕ → ℕ → Option MetadataBytes → Outcome (Option MetadataBytes)
keep_note amdgpu kind cursor descriptor_offset descriptor_size found =
    if amdgpu && kind == 32
    then (reject_if (is_found found) duplicate_metadata_note cursor >>= λ _.
        done (some (record { size = descriptor_size; file_offset = descriptor_offset })))
    else done found

-- One note: the next cursor and what is found.
pub record NoteStep : Type 0 where
  pub next : ℕ
  pub found : Option MetadataBytes

note_of : List ℕ → ℕ → ℕ → Option MetadataBytes → ℕ → ℕ → ℕ → Outcome NoteStep
unfolding descriptor_start note_end is_amdgpu keep_note
note_of bytes cursor end found name_size descriptor_size kind =
    elim (descriptor_start cursor name_size) [
      | none ↦ failed (record { code = malformed_note; offset = cursor })
      | some descriptor_offset ↦ elim (note_end descriptor_offset descriptor_size) [
        | none ↦ failed (record { code = malformed_note; offset = cursor })
        | some next ↦ reject_if (ltb end next) malformed_note cursor >>= λ _.
            is_amdgpu bytes name_size (cursor + 12) >>= λ amdgpu.
            keep_note amdgpu kind cursor descriptor_offset descriptor_size found >>= λ found'.
            done (record { next = next; found = found' })
      ]
    ]

read_note : List ℕ → ℕ → ℕ → Option MetadataBytes → Outcome NoteStep
unfolding read_le note_of
read_note bytes cursor end found = reject_if (ltb (end - cursor) 12) malformed_note cursor >>= λ _.
    read_u32 bytes cursor >>= λ name_size. read_u32 bytes (cursor + 4) >>= λ descriptor_size.
    read_u32 bytes (cursor + 8) >>= λ kind.
    note_of bytes cursor end found name_size descriptor_size kind

-- The loop over the notes of a segment.
read_notes : List ℕ → ℕ → ℕ → ℕ → Option MetadataBytes → Outcome (Option MetadataBytes)
unfolding read_note
read_notes bytes zero cursor end found = if ltb cursor end then fault else done found
read_notes bytes (suc fuel) cursor end found =
    if not (ltb cursor end)
    then done found
    else (read_note bytes cursor end found >>= λ step.
        read_notes bytes fuel step.next end step.found)

-- One program header.
scan_header : List ℕ → ℕ → Option MetadataBytes → Outcome (Option MetadataBytes)
unfolding read_le read_notes
scan_header bytes header found = read_u32 bytes header >>= λ kind.
    if kind != 4
    then done found
    else (read_u64 bytes (header + 8) >>= λ note_offset.
        read_u64 bytes (header + 32) >>= λ note_size.
        reject_if (not (range_is_in_file note_offset note_size (length bytes))) malformed_note
          (header + 8)
        >>= λ _. read_notes bytes note_size note_offset (note_offset + note_size) found)

-- The loop over the program headers, with `count` of them left.
scan_headers : List ℕ → ℕ → ℕ → ℕ → Option MetadataBytes → Outcome (Option MetadataBytes)
unfolding scan_header
scan_headers bytes header entry_size zero found = done found
scan_headers bytes header entry_size (suc count) found = scan_header bytes header found >>= λ next.
    scan_headers bytes (header + entry_size) entry_size count next

unfoldable pub find_metadata_note : List ℕ → Outcome (Option MetadataBytes)
unfolding read_le scan_headers
find_metadata_note bytes = do
  program_header_offset ← read_u64 bytes 32
  entry_size ← read_u16 bytes 54
  count ← read_u16 bytes 56
  scan_headers bytes program_header_offset entry_size count none

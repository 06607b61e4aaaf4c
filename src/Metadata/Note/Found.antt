-- ===== src/Metadata/Note/Found.antt =====
-- `find_metadata_note` of light-rocr/loader/metadata_reader.cpp on arbitrary bytes.
use light_rocm_runtime.Prelude.{
  ℕ, zero, suc, ◌+◌, ◌-◌, ◌*◌, ◌^◌, ◌%◌, ◌≤◌, ◌<◌, ◌≡◌, inl, inr, Bool, false, Bool-cases,
  Option-cases, Option, none, some, List, [], ◌∷◌, length, bit_and, ltb, arith, subst, ◌!=◌,
}
use light_rocm_runtime.Prelude.Bits.{bit_and_high}
use light_rocm_runtime.Word.{u64_max, checked_add, range_is_in_file}
use light_rocm_runtime.Word.Laws.{range_is_in_file_iff}
use light_rocm_runtime.Loader.{
  ParseError, Outcome, done, failed, Safe, >>=-Safe, >>=-done, done-injective,
}
use light_rocm_runtime.Loader.Bytes.{IsBytes, byte_at_lem, value_of, read_le_lem}
use light_rocm_runtime.Loader.Elf.{ElfObject, parse_elf, bytes_at}
use light_rocm_runtime.Loader.Elf.Safety.{parse_elf-table}
use light_rocm_runtime.Metadata.Note.{
  MetadataBytes, amdgpu_owner, align4, bytes_are, is_amdgpu, descriptor_start, note_end, keep_note,
  NoteStep, note_of, read_note, read_notes, scan_header, scan_headers, find_metadata_note,
}

bytes_are-Safe :
    (bytes : List ℕ) (offset : ℕ) (cs : List ℕ)
    → offset + length cs ≤ length bytes
    → Safe (bytes_are bytes offset cs)
unfolding bytes_are
bytes_are-Safe bytes offset [] fits = λ e. cc
bytes_are-Safe bytes offset (c ∷ cs) fits =
    rw (byte_at_lem bytes offset (omega arith), bytes_are)
      (ground (arith, bytes_are-Safe bytes (offset + 1) cs))

align4-ge : (n m : ℕ) → align4 n ≡ some m → n ≤ m
unfolding align4 checked_add
align4-ge n m e =
    let high : n + 3 < 2 ^ 62 * 2 ^ 2 → bit_and (n + 3) (u64_max - 3) ≡ n + 3 - (n + 3) % 4 =
      λ small. bit_and_high 62 2 (n + 3) small in
    ground (arith, high)

descriptor_start-ge :
    (cursor name_size d : ℕ)
    → descriptor_start cursor name_size ≡ some d
    → cursor + 12 + name_size ≤ d
unfolding descriptor_start checked_add
descriptor_start-ge cursor name_size d e = elim (Option-cases (align4 name_size)) [
  | inl none_aligned ↦ absurd (ground (arith, e, none_aligned))
  | inr (aligned, found) ↦ ground (arith, align4-ge name_size aligned found, e, found)
]

note_end-ge : (start size next : ℕ) → note_end start size ≡ some next → start + size ≤ next
unfolding note_end checked_add
note_end-ge start size next e = elim (Option-cases (align4 size)) [
  | inl none_aligned ↦ absurd (ground (arith, e, none_aligned))
  | inr (aligned, found) ↦ ground (arith, align4-ge size aligned found, e, found)
]

-- The descriptor lies in the file.
abbrev pub InFile : ℕ → Option MetadataBytes → Type 0
InFile size none = Unit {0}
InFile size (some m) = m.file_offset + m.size ≤ size

module _ (bytes : List ℕ) where
  is_amdgpu-Safe :
      (name_size offset : ℕ)
      → offset + name_size ≤ length bytes
      → Safe (is_amdgpu bytes name_size offset)
  unfolding is_amdgpu
  is_amdgpu-Safe name_size offset fits = ground (arith, bytes_are-Safe bytes offset amdgpu_owner)

  keep_note-Safe :
      (amdgpu : Bool) (kind cursor start size : ℕ) (found : Option MetadataBytes)
      → Safe (keep_note amdgpu kind cursor start size found)
  unfolding keep_note
  keep_note-Safe amdgpu kind cursor start size found = ground arith

  keep_note-InFile :
      (amdgpu : Bool) (kind cursor start size : ℕ) (found next : Option MetadataBytes)
      → start + size ≤ length bytes
      → InFile (length bytes) found
      → keep_note amdgpu kind cursor start size found ≡ done next
      → InFile (length bytes) next
  unfolding keep_note
  keep_note-InFile amdgpu kind cursor start size found next fits h e = ground arith

  -- A note ends behind its header, inside the segment.
  record IsStep (cursor end : ℕ) (m : Outcome NoteStep) : Type 0 where
    no_fault : Safe m
    ends :
        (s : NoteStep)
        → m ≡ done s
        → (cursor + 12 ≤ s.next) × (s.next ≤ end) × InFile (length bytes) s.found

  failed-IsStep : (cursor end : ℕ) (e : ParseError) → IsStep cursor end (failed e)
  failed-IsStep cursor end e = record { no_fault = λ x. cc; ends = λ s x. cc }

  note_of-IsStep :
      (cursor end name_size size kind : ℕ) (found : Option MetadataBytes)
      → end ≤ length bytes
      → InFile (length bytes) found
      → IsStep cursor end (note_of bytes cursor end found name_size size kind)
  unfolding note_of
  note_of-IsStep cursor end name_size size kind found inside h =
      elim (Option-cases (descriptor_start cursor name_size)) [
        | inl e ↦ rw (e, note_of) (failed-IsStep cursor end _)
        | inr (start, e) ↦ elim (Option-cases (note_end start size)) [
          | inl f ↦ rw (e, note_of, f) (failed-IsStep cursor end _)
          | inr (next, f) ↦ elim (Bool-cases (ltb end next)) [
            | inl over ↦ rw (e, note_of, f, over) (failed-IsStep cursor end _)
            | inr within ↦
                let start_ge = descriptor_start-ge cursor name_size start e in
                let next_ge = note_end-ge start size next f in
                let le : next ≤ end = ground arith in
                rw (e, note_of, f, within)
                  (record {
                    no_fault =
                        >>=-Safe (is_amdgpu bytes name_size (cursor + 12)) _
                          (is_amdgpu-Safe name_size (cursor + 12) (omega arith))
                          λ amdgpu _.
                            >>=-Safe (keep_note amdgpu kind cursor start size found) _
                              (keep_note-Safe amdgpu kind cursor start size found) λ found' _ x. cc;
                    ends = λ s run.
                        let (amdgpu, _, run1) =
                          >>=-done (is_amdgpu bytes name_size (cursor + 12)) _ run in
                        let (found', kept, run2) =
                          >>=-done (keep_note amdgpu kind cursor start size found) _ run1 in
                        subst
                          (λ s.
                            (cursor + 12 ≤ s.next) × (s.next ≤ end) × InFile (length bytes) s.found)
                          (done-injective run2)
                          (
                            omega arith,
                            le,
                            keep_note-InFile amdgpu kind cursor start size found found'
                                (omega arith) h kept,
                          );
                  })
          ]
        ]
      ]

  module _ (are_bytes : IsBytes bytes) where
    read_note-IsStep :
        (cursor end : ℕ) (found : Option MetadataBytes)
        → cursor ≤ end
        → end ≤ length bytes
        → InFile (length bytes) found
        → IsStep cursor end (read_note bytes cursor end found)
    unfolding read_note
    read_note-IsStep cursor end found le inside h = elim (Bool-cases (ltb (end - cursor) 12)) [
      | inl short ↦ rw (short, read_note) (failed-IsStep cursor end _)
      | inr long ↦
          rw
            (
              long,
              read_le_lem 4 bytes cursor are_bytes (ground arith),
              read_le_lem 4 bytes (cursor + 4) are_bytes (ground arith),
              read_le_lem 4 bytes (cursor + 8) are_bytes (ground arith),
              read_note,
            )
            (note_of-IsStep cursor end _ _ _ found inside h)
    ]

    -- The loop does not fault, and what it finds lies in the file.
    record IsSearch (m : Outcome (Option MetadataBytes)) : Type 0 where
      search_no_fault : Safe m
      found_inside : (last : Option MetadataBytes) → m ≡ done last → InFile (length bytes) last

    found-IsSearch :
        (found : Option MetadataBytes) → InFile (length bytes) found → IsSearch (done found)
    found-IsSearch found h = record {
      search_no_fault = λ x. cc;
      found_inside = λ last e. subst (InFile (length bytes)) (done-injective e) h;
    }

    failed-IsSearch : (e : ParseError) → IsSearch (failed e)
    failed-IsSearch e = record { search_no_fault = λ x. cc; found_inside = λ last x. cc }

    read_notes-IsSearch :
        (fuel cursor end : ℕ) (found : Option MetadataBytes)
        → cursor ≤ end
        → end ≤ cursor + fuel
        → end ≤ length bytes
        → InFile (length bytes) found
        → IsSearch (read_notes bytes fuel cursor end found)
    unfolding read_notes
    read_notes-IsSearch zero cursor end found le enough inside h =
        let at_end : ltb cursor end ≡ false = ground arith in
        rw (read_notes, at_end) (found-IsSearch found h)
    read_notes-IsSearch (suc fuel) cursor end found le enough inside h =
        elim (Bool-cases (ltb cursor end)) [
          | inr at_end ↦ rw (read_notes, at_end) (found-IsSearch found h)
          | inl more ↦
              let step = read_note-IsStep cursor end found le inside h in
              let rest : (s : NoteStep)
                  → read_note bytes cursor end found ≡ done s
                  → IsSearch (read_notes bytes fuel s.next end s.found) =
                λ s e.
                  let (far, within, kept) = step.ends s e in
                  read_notes-IsSearch fuel s.next end s.found within (omega arith) inside kept in
              rw (read_notes, more)
                (record {
                  search_no_fault =
                      >>=-Safe (read_note bytes cursor end found) _ step.no_fault
                        λ s e. (rest s e).search_no_fault;
                  found_inside = λ last run.
                      let (s, e, tail) = >>=-done (read_note bytes cursor end found) _ run in
                      (rest s e).found_inside last tail;
                })
        ]

    scan_header-IsSearch :
        (header : ℕ) (found : Option MetadataBytes)
        → header + 40 ≤ length bytes
        → InFile (length bytes) found
        → IsSearch (scan_header bytes header found)
    unfolding scan_header
    scan_header-IsSearch header found fits h =
        let kind = value_of 4 bytes header in
        let start = value_of 8 bytes (header + 8) in
        let size = value_of 8 bytes (header + 32) in
        rw (scan_header, read_le_lem 4 bytes header are_bytes (omega arith))
          (elim (Bool-cases (kind != 4)) [
            | inl other ↦ rw other (found-IsSearch found h)
            | inr is_note ↦
                rw
                  (
                    is_note,
                    read_le_lem 8 bytes (header + 8) are_bytes (omega arith),
                    read_le_lem 8 bytes (header + 32) are_bytes (omega arith),
                  )
                  (elim (Bool-cases (range_is_in_file start size (length bytes))) [
                    | inr out ↦ rw out (failed-IsSearch _)
                    | inl within ↦
                        let fits = (range_is_in_file_iff start size (length bytes)).0 within in
                        rw within (
                          read_notes-IsSearch size start (start + size) found (omega arith)
                            (omega arith) (omega arith) h)
                  ])
          ])

    scan_headers-IsSearch :
        (header entry_size count : ℕ) (found : Option MetadataBytes)
        → header + count * 56 ≤ length bytes
        → entry_size ≡ 56
        → InFile (length bytes) found
        → IsSearch (scan_headers bytes header entry_size count found)
    unfolding scan_headers
    scan_headers-IsSearch header entry_size zero found fits e h = found-IsSearch found h
    scan_headers-IsSearch header entry_size (suc count) found fits e h =
        let head = scan_header-IsSearch header found (omega arith) h in
        let rest : (next : Option MetadataBytes)
            → scan_header bytes header found ≡ done next
            → IsSearch (scan_headers bytes (header + entry_size) entry_size count next) =
          λ next ran.
            scan_headers-IsSearch (header + entry_size) entry_size count next (omega arith) e
              (head.found_inside next ran) in
        record {
          search_no_fault =
              >>=-Safe (scan_header bytes header found) _ head.search_no_fault
                λ next ran. (rest next ran).search_no_fault;
          found_inside = λ last run.
              let (next, ran, tail) = >>=-done (scan_header bytes header found) _ run in
              (rest next ran).found_inside last tail;
        }

    -- On a file that `parse_elf` accepts, the search for the note faults nowhere: it reads no byte outside
    -- of the file and its loops end. A descriptor that it finds lies in the file.
    pub find_metadata_note_lem :
        (object : ElfObject)
        → parse_elf (bytes_at bytes) ≡ done object
        → Safe (find_metadata_note bytes)
          × ((m : MetadataBytes)
              → find_metadata_note bytes ≡ done (some m)
              → m.file_offset + m.size ≤ length bytes)
    unfolding find_metadata_note
    find_metadata_note_lem object accepted =
        let table = parse_elf-table bytes are_bytes object accepted in
        let search =
          scan_headers-IsSearch (value_of 8 bytes 32) (value_of 2 bytes 54) (value_of 2 bytes 56)
            none (omega arith) table.1 tt in
        rw
          (
            read_le_lem 8 bytes 32 are_bytes (omega arith),
            read_le_lem 2 bytes 54 are_bytes (omega arith),
            read_le_lem 2 bytes 56 are_bytes (omega arith),
            find_metadata_note,
          )
          (search.search_no_fault, λ m run. search.found_inside (some m) run)

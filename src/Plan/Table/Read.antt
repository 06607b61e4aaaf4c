-- ===== src/Plan/Table/Read.antt =====
-- The loops over the symbol and relocation tables of light-rocr/loader/load_plan_reader.cpp.
use light_rocm_runtime.Prelude.{
  ℕ, zero, suc, ◌+◌, ◌*◌, ◌/◌, ◌%◌, ◌≤◌, ◌<◌, ◌≡◌, refl, false, true, ◌!=◌, ◌==◌, Option, some,
  List, [], ◌∷◌, All, length, arith, sym, ◌∙◌, subst, inl, inr, Bool-cases, if◌then◌else◌, not,
  ◌||◌,
}
use light_rocm_runtime.Word.{u32_limit}
use light_rocm_runtime.Loader.{
  LoadSegment, Outcome, done, ◌>>=◌, reject_if, invalid_relocation_table, Safe, >>=-Safe, >>=-done,
  done-injective,
}
use light_rocm_runtime.Loader.Bytes.{IsBytes, value_of, read_le_lem}
use light_rocm_runtime.Loader.Elf.Segments.{IsLoadable}
use light_rocm_runtime.Plan.{Relocation, RelocationEncoding, rel, rela}
use light_rocm_runtime.Plan.Dynamic.{
  DynamicValue, DynamicRelocationInfo, RelocationTableInfo, table_is_present,
}
use light_rocm_runtime.Plan.Table.{
  DynamicSymbol, relocation_entry_size, read_symbol_count, in_file_or, read_symbol, read_symbols,
  read_dynamic_symbols, read_addend, read_relocation, accept_relocation, read_relocations,
  read_relocation_table, virtual_address_to_file,
}
use light_rocm_runtime.Plan.Table.Addresses.{virtual_address_to_file-le}
use light_rocm_runtime.Plan.Table.Sound.{
  IsResolved, Binds, accept_relocation-Safe, accept_relocation-IsResolved,
}

in_file_or-Safe : (offset : ℕ) (o : Option ℕ) → Safe (in_file_or offset o)
unfolding in_file_or
in_file_or-Safe offset o = ground arith

in_file_or-some : (offset at : ℕ) (o : Option ℕ) → in_file_or offset o ≡ done at → o ≡ some at
unfolding in_file_or
in_file_or-some offset at o e = ground arith

module _ (bytes : List ℕ) (are_bytes : IsBytes bytes) where
  -- The symbol that a symbol table's entry describes.
  pub symbol_at : ℕ → DynamicSymbol
  symbol_at entry = record {
    value = value_of 8 bytes (entry + 8);
    defined = value_of 2 bytes (entry + 6) != 0;
    absolute = value_of 2 bytes (entry + 6) == 0xfff1;
  }

  read_symbol_lem :
      (entry : ℕ) → entry + 24 ≤ length bytes → read_symbol bytes entry ≡ done (symbol_at entry)
  unfolding read_symbol symbol_at
  read_symbol_lem entry fits = rw (
    read_le_lem 2 bytes (entry + 6) are_bytes (omega arith),
    read_le_lem 8 bytes (entry + 8) are_bytes (omega arith),
  )

  pub symbols_at : ℕ → ℕ → List DynamicSymbol
  unfolding symbol_at
  symbols_at entry zero = []
  symbols_at entry (suc count) = symbol_at entry ∷ symbols_at (entry + 24) count

  pub read_symbols_lem :
      (entry count : ℕ)
      → entry + count * 24 ≤ length bytes
      → read_symbols bytes entry count ≡ done (symbols_at entry count)
  unfolding read_symbols symbols_at
  read_symbols_lem entry zero fits = refl
  read_symbols_lem entry (suc count) fits = rw (
    read_symbol_lem entry (omega arith),
    read_symbols_lem (entry + 24) count (omega arith),
    read_symbols,
  )

  -- The addend that an entry holds.
  abbrev addend_at : RelocationEncoding → ℕ → ℕ
  addend_at rel entry = 0
  addend_at rela entry = value_of 8 bytes (entry + 16)

  read_addend_lem :
      (encoding : RelocationEncoding) (entry : ℕ)
      → entry + relocation_entry_size encoding ≤ length bytes
      → read_addend bytes encoding entry ≡ done (addend_at encoding entry)
  unfolding read_addend
  read_addend_lem rel entry fits = refl
  read_addend_lem rela entry fits = read_le_lem 8 bytes (entry + 16) are_bytes (omega arith)

  pub entry_at : RelocationEncoding → ℕ → Relocation
  entry_at encoding entry = record {
    encoding = encoding;
    target_virtual_address = value_of 8 bytes entry;
    kind = value_of 8 bytes (entry + 8) % u32_limit;
    symbol_index = value_of 8 bytes (entry + 8) / u32_limit;
    addend = addend_at encoding entry;
    symbol_value = 0;
    symbol_is_absolute = false;
  }

  entry_size-ge : (encoding : RelocationEncoding) → 16 ≤ relocation_entry_size encoding
  entry_size-ge rel = omega arith
  entry_size-ge rela = omega arith

  read_relocation_lem :
      (encoding : RelocationEncoding) (entry : ℕ)
      → entry + relocation_entry_size encoding ≤ length bytes
      → read_relocation bytes encoding entry ≡ done (entry_at encoding entry)
  unfolding read_relocation entry_at
  read_relocation_lem encoding entry fits = rw (
    read_le_lem 8 bytes entry are_bytes (omega (arith, entry_size-ge encoding)),
    read_le_lem 8 bytes (entry + 8) are_bytes (omega (arith, entry_size-ge encoding)),
    read_addend_lem encoding entry fits,
  )

  pub read_symbol_count-Safe :
      (segments : List LoadSegment) (hash : DynamicValue)
      → All (IsLoadable (length bytes)) segments
      → Safe (read_symbol_count bytes segments hash)
  unfolding read_symbol_count in_file_or
  read_symbol_count-Safe segments hash h =
      >>=-Safe (reject_if (not hash.present) invalid_relocation_table 0) _ (ground arith) λ _ _.
        >>=-Safe (in_file_or hash.file_offset (virtual_address_to_file segments hash.value 8)) _
          (in_file_or-Safe _ _)
          λ at found.
            let fits =
              virtual_address_to_file-le (length bytes) segments hash.value 8 at h
                (in_file_or-some hash.file_offset at _ found) in
            rw
              (
                read_le_lem 4 bytes at are_bytes (omega arith),
                read_le_lem 4 bytes (at + 4) are_bytes (omega arith),
              )
              (ground arith)

  pub read_dynamic_symbols-Safe :
      (segments : List LoadSegment) (dynamic : DynamicRelocationInfo) (count : ℕ)
      → All (IsLoadable (length bytes)) segments
      → Safe (read_dynamic_symbols bytes segments dynamic count)
  unfolding read_dynamic_symbols in_file_or
  read_dynamic_symbols-Safe segments dynamic count h =
      >>=-Safe
        (reject_if
          (not dynamic.symbol_table.present
            || not dynamic.symbol_entry_size.present
            || dynamic.symbol_entry_size.value != 24)
          invalid_relocation_table _)
        _ (ground arith)
        λ _ _.
          >>=-Safe
            (in_file_or dynamic.symbol_table.file_offset
              (virtual_address_to_file segments dynamic.symbol_table.value (count * 24)))
            _ (in_file_or-Safe _ _)
            λ at found.
              let fits =
                virtual_address_to_file-le (length bytes) segments dynamic.symbol_table.value
                  (count * 24) at h (in_file_or-some dynamic.symbol_table.file_offset at _ found) in
              rw (read_symbols_lem at count fits) (λ e. cc)

  -- Where the symbols of a successful read stand.
  pub read_dynamic_symbols_lem :
      (segments : List LoadSegment) (dynamic : DynamicRelocationInfo) (count : ℕ)
      (symbols : List DynamicSymbol)
      → All (IsLoadable (length bytes)) segments
      → read_dynamic_symbols bytes segments dynamic count ≡ done symbols
      → (at : ℕ) × (at + count * 24 ≤ length bytes) × (symbols ≡ symbols_at at count)
  unfolding read_dynamic_symbols
  read_dynamic_symbols_lem segments dynamic count symbols h e =
      let (_, _, e1) =
        >>=-done
          (reject_if
            (not dynamic.symbol_table.present
              || not dynamic.symbol_entry_size.present
              || dynamic.symbol_entry_size.value != 24)
            invalid_relocation_table
            (if dynamic.symbol_table.present
              then dynamic.symbol_entry_size.file_offset
              else dynamic.hash.file_offset))
          _ e in
      let place = virtual_address_to_file segments dynamic.symbol_table.value (count * 24) in
      let (at, found, read) = >>=-done (in_file_or dynamic.symbol_table.file_offset place) _ e1 in
      let fits =
        virtual_address_to_file-le (length bytes) segments dynamic.symbol_table.value (count * 24)
          at h (in_file_or-some dynamic.symbol_table.file_offset at place found) in
      (at, fits, done-injective (sym read ∙ read_symbols_lem at count fits))

  -- A table's first entry and the others lie where the table does.
  step_fits :
      (encoding : RelocationEncoding) (entry count : ℕ)
      → entry + suc count * relocation_entry_size encoding ≤ length bytes
      → (entry + relocation_entry_size encoding ≤ length bytes)
        × (entry + relocation_entry_size encoding + count * relocation_entry_size encoding
            ≤ length bytes)
  step_fits rel entry count fits = omega arith
  step_fits rela entry count fits = omega arith

  module _ (segments : List LoadSegment) (symbols : List DynamicSymbol)
      (encoding : RelocationEncoding) (relative_count : ℕ) where
    -- The relocations are those of `count` entries from the file offset `entry` on.
    pub AreEntries : ℕ → ℕ → ℕ → List Relocation → Type 0
    unfolding entry_at
    AreEntries index entry zero [] = Unit {0}
    AreEntries index entry zero (r ∷ rs) = ⊥
    AreEntries index entry (suc count) [] = ⊥
    AreEntries index entry (suc count) (r ∷ rs) =
        Binds segments symbols (entry_at encoding entry) r
        × IsResolved segments symbols r
        × (index < relative_count → (r.kind ≡ 13) × (r.symbol_index ≡ 0))
        × AreEntries (index + 1) (entry + relocation_entry_size encoding) count rs

    read_relocations-Safe :
        (index entry count : ℕ)
        → entry + count * relocation_entry_size encoding ≤ length bytes
        → Safe (read_relocations bytes segments symbols encoding relative_count index entry count)
    unfolding read_relocations
    read_relocations-Safe index entry zero fits = λ e. cc
    read_relocations-Safe index entry (suc count) fits =
        let fit = step_fits encoding entry count fits in
        rw (read_relocation_lem encoding entry fit.0, read_relocations)
          (>>=-Safe
            (accept_relocation segments symbols relative_count index entry
              (entry_at encoding entry))
            _
            (accept_relocation-Safe segments symbols relative_count index entry
              (entry_at encoding entry))
            λ accepted _.
              >>=-Safe
                (read_relocations bytes segments symbols encoding relative_count (index + 1)
                  (entry + relocation_entry_size encoding) count)
                _
                (read_relocations-Safe (index + 1) (entry + relocation_entry_size encoding) count
                  fit.1)
                λ rest _ e. cc)

    read_relocations-AreEntries :
        (index entry count : ℕ) (rs : List Relocation)
        → entry + count * relocation_entry_size encoding ≤ length bytes
        → read_relocations bytes segments symbols encoding relative_count index entry count
          ≡ done rs
        → AreEntries index entry count rs
    unfolding read_relocations AreEntries
    read_relocations-AreEntries index entry zero rs fits e =
        subst (AreEntries index entry zero) (done-injective e) tt
    read_relocations-AreEntries index entry (suc count) rs fits e =
        let fit = step_fits encoding entry count fits in
        let first = entry_at encoding entry in
        let (r, read, e0) = >>=-done (read_relocation bytes encoding entry) _ e in
        let same = done-injective (sym (read_relocation_lem encoding entry fit.0) ∙ read) in
        let (accepted, accept, e1) =
          >>=-done (accept_relocation segments symbols relative_count index entry r) _ e0 in
        let (rest, loop, e2) =
          >>=-done
            (read_relocations bytes segments symbols encoding relative_count (index + 1)
              (entry + relocation_entry_size encoding) count)
            _ e1 in
        let (binds, resolved, prefix) =
          accept_relocation-IsResolved segments symbols relative_count index entry r accepted
            accept in
        subst (AreEntries index entry (suc count)) (done-injective e2) (
          subst (λ r. Binds segments symbols r accepted) (sym same) binds,
          resolved,
          prefix,
          read_relocations-AreEntries (index + 1) (entry + relocation_entry_size encoding) count
              rest fit.1 loop,
        )

  -- Entries are resolved, one by one.
  pub AreEntries-IsResolved :
      (segments : List LoadSegment) (symbols : List DynamicSymbol) (encoding : RelocationEncoding)
      (relative_count index entry count : ℕ) (rs : List Relocation)
      → AreEntries segments symbols encoding relative_count index entry count rs
      → All (IsResolved segments symbols) rs
  unfolding AreEntries
  AreEntries-IsResolved segments symbols encoding relative_count index entry zero [] h = tt
  AreEntries-IsResolved segments symbols encoding relative_count index entry zero (r ∷ rs) h =
      absurd h
  AreEntries-IsResolved segments symbols encoding relative_count index entry (suc count) [] h =
      absurd h
  AreEntries-IsResolved segments symbols encoding relative_count index entry (suc count) (r ∷ rs)
        h =
      (
        h.1,
        AreEntries-IsResolved segments symbols encoding relative_count (index + 1)
            (entry + relocation_entry_size encoding) count rs h.3,
      )

  table_fits :
      (encoding : RelocationEncoding) (at size : ℕ)
      → at + size ≤ length bytes
      → at + size / relocation_entry_size encoding * relocation_entry_size encoding ≤ length bytes
  table_fits rel at size fits = omega arith
  table_fits rela at size fits = omega arith

  module _ (segments : List LoadSegment) (symbols : List DynamicSymbol)
      (encoding : RelocationEncoding) (table : RelocationTableInfo)
      (loadable : All (IsLoadable (length bytes)) segments) where
    abbrev place : Option ℕ
    place = virtual_address_to_file segments table.address.value table.size.value

    abbrev entries : ℕ
    entries = table.size.value / relocation_entry_size encoding

    -- A table that the segments place stands in the file with all its entries.
    placed_fits :
        (at : ℕ)
        → in_file_or table.address.file_offset place ≡ done at
        → at + entries * relocation_entry_size encoding ≤ length bytes
    placed_fits at e = table_fits encoding at table.size.value (
        virtual_address_to_file-le (length bytes) segments table.address.value table.size.value at
          loadable (in_file_or-some table.address.file_offset at place e))

    abbrev placed_read : Outcome (List Relocation)
    placed_read = in_file_or table.address.file_offset place >>= λ at.
        read_relocations bytes segments symbols encoding table.relative_count.value 0 at entries

    placed_read-Safe : Safe placed_read
    placed_read-Safe =
        >>=-Safe (in_file_or table.address.file_offset place) _ (in_file_or-Safe _ place) λ at e.
          read_relocations-Safe segments symbols encoding table.relative_count.value 0 at entries
            (placed_fits at e)

    pub read_relocation_table-Safe :
        Safe (read_relocation_table bytes segments table encoding symbols)
    unfolding read_relocation_table
    read_relocation_table-Safe = ground (arith, placed_read-Safe)

    -- What a table that is there and not empty gives: the relocations are its entries, one by one, at the
    -- file offset where the load segments place the table.
    pub read_relocation_table-AreEntries :
        (rs : List Relocation)
        → table_is_present table ≡ true
        → 0 < table.size.value
        → read_relocation_table bytes segments table encoding symbols ≡ done rs
        → (at : ℕ) × (virtual_address_to_file segments table.address.value table.size.value
            ≡ some at)
          × AreEntries segments symbols encoding table.relative_count.value 0 at
              (table.size.value / relocation_entry_size encoding)
              rs
    unfolding read_relocation_table
    read_relocation_table-AreEntries rs there pos e =
        let run : placed_read ≡ done rs = ground arith in
        let (at, found, loop) = >>=-done (in_file_or table.address.file_offset place) _ run in
        (
          at,
          in_file_or-some table.address.file_offset at place found,
          read_relocations-AreEntries segments symbols encoding table.relative_count.value 0 at
              entries rs (placed_fits at found) loop,
        )

    pub read_relocation_table-IsResolved :
        (rs : List Relocation)
        → read_relocation_table bytes segments table encoding symbols ≡ done rs
        → All (IsResolved segments symbols) rs
    unfolding read_relocation_table
    read_relocation_table-IsResolved rs e =
        elim (Bool-cases (not (table_is_present table) || table.size.value == 0)) [
          | inl empty ↦
              let none_read : done [] ≡ done rs = ground arith in
              subst (All (IsResolved segments symbols)) (done-injective none_read) tt
          | inr some_entries ↦
              let run : placed_read ≡ done rs = ground arith in
              let (at, found, loop) = >>=-done (in_file_or table.address.file_offset place) _ run in
              AreEntries-IsResolved segments symbols encoding table.relative_count.value 0 at
                entries rs
                (read_relocations-AreEntries segments symbols encoding table.relative_count.value 0
                  at entries rs (placed_fits at found) loop)
        ]

-- ===== src/Plan/Table.antt =====
-- light-rocr/loader/load_plan_reader.cpp: virtual addresses, the dynamic symbols and the relocation
-- tables. The load segments stand in the order of the program headers. The sums of file offsets do
-- not wrap, since the ranges lie in the file.

pub mod Addresses
pub mod Sound
pub mod Read
use light_rocm_runtime.Prelude.{
  ℕ, zero, suc, ◌+◌, ◌-◌, ◌*◌, ◌/◌, ◌%◌, ◌^◌, Bool, true, false, not, ◌&&◌, ◌||◌, Option, none,
  some, List, [], ◌∷◌, length, get_elem?, bit_and, ltb, leb, ◌==◌, ◌!=◌, if◌then◌else◌,
}
use light_rocm_runtime.Word.{u64_max, u32_limit, u32_max}
use light_rocm_runtime.Loader.{
  Outcome, done, failed, fault, ◌>>=◌, ◌>>◌, reject_if, LoadSegment, invalid_relocation_table,
  unsupported_relocation_type, relocation_symbol_out_of_bounds, relocation_target_out_of_bounds,
}
use light_rocm_runtime.Loader.Bytes.{read_u16, read_u32, read_u64, read_le}
use light_rocm_runtime.Plan.{Relocation, RelocationEncoding, rel, rela}
use light_rocm_runtime.Plan.Dynamic.{
  DynamicValue, RelocationTableInfo, DynamicRelocationInfo, table_is_present,
}

unfoldable pub virtual_address_to_file : List LoadSegment → ℕ → ℕ → Option ℕ
virtual_address_to_file [] address length = none
virtual_address_to_file (segment ∷ rest) address length =
    let later = virtual_address_to_file rest address length in
    let delta = address - segment.virtual_address in
    if ltb address segment.virtual_address
    then later
    else if leb delta segment.file_size && leb length (segment.file_size - delta)
    then some (segment.file_offset + delta)
    else later

unfoldable pub virtual_address_in_memory : List LoadSegment → ℕ → ℕ → Bool
virtual_address_in_memory [] address length = false
virtual_address_in_memory (segment ∷ rest) address length =
    let later = virtual_address_in_memory rest address length in
    let delta = address - segment.virtual_address in
    if ltb address segment.virtual_address
    then later
    else if leb delta segment.memory_size && leb length (segment.memory_size - delta)
    then true
    else later

pub is_known_amdgpu_relocation : ℕ → Bool
is_known_amdgpu_relocation kind = leb kind 11 || kind == 13 || kind == 14

pub relocation_width : ℕ → ℕ
relocation_width kind =
    if kind == 14
    then 2
    else if kind == 1 || kind == 2 || kind == 4 || leb 6 kind && leb kind 11
    then 4
    else if kind == 3 || kind == 5 || kind == 13
    then 8
    else 0

abbrev pub relocation_uses_symbol : ℕ → Bool
relocation_uses_symbol kind = kind != 0 && kind != 13

pub record DynamicSymbol : Type 0 where
  pub value : ℕ
  pub defined : Bool
  pub absolute : Bool

abbrev table_failure {ℓ} : {A : Type ℓ} → ℕ → Outcome A
table_failure offset = failed (record { code = invalid_relocation_table; offset = offset })

-- `virtual_address_to_file`, and the error of a range without file bytes.
in_file_or : ℕ → Option ℕ → Outcome ℕ
in_file_or offset none = table_failure offset
in_file_or offset (some file_offset) = done file_offset

unfoldable pub read_symbol_count : List ℕ → List LoadSegment → DynamicValue → Outcome ℕ
unfolding read_le in_file_or
read_symbol_count bytes segments hash = do
  reject_if (not hash.present) invalid_relocation_table 0
  hash_offset ← in_file_or hash.file_offset (virtual_address_to_file segments hash.value 8)
  bucket_count ← read_u32 bytes hash_offset
  symbol_count ← read_u32 bytes (hash_offset + 4)
  reject_if (bucket_count == 0) invalid_relocation_table hash.file_offset
  reject_if (ltb ((u64_max - 8) / 4) (bucket_count + symbol_count)) invalid_relocation_table
      hash.file_offset
  whole ←
      in_file_or hash.file_offset
        (virtual_address_to_file segments hash.value (8 + (bucket_count + symbol_count) * 4))
  done symbol_count

read_symbol : List ℕ → ℕ → Outcome DynamicSymbol
unfolding read_le
read_symbol bytes entry = do
  section_index ← read_u16 bytes (entry + 6)
  value ← read_u64 bytes (entry + 8)
  done (record { value = value; defined = section_index != 0; absolute = section_index == 0xfff1 })

-- The loop, with `count` symbols left.
pub read_symbols : List ℕ → ℕ → ℕ → Outcome (List DynamicSymbol)
unfolding read_symbol
read_symbols bytes entry zero = done []
read_symbols bytes entry (suc count) = read_symbol bytes entry >>= λ symbol.
    read_symbols bytes (entry + 24) count >>= λ rest. done (symbol ∷ rest)

unfoldable pub read_dynamic_symbols :
    List ℕ → List LoadSegment → DynamicRelocationInfo → ℕ → Outcome (List DynamicSymbol)
unfolding in_file_or read_symbols
read_dynamic_symbols bytes segments dynamic symbol_count = do
  reject_if
      (not dynamic.symbol_table.present
        || not dynamic.symbol_entry_size.present
        || dynamic.symbol_entry_size.value != 24)
      invalid_relocation_table
      (if dynamic.symbol_table.present
        then dynamic.symbol_entry_size.file_offset
        else dynamic.hash.file_offset)
  table_offset ←
      in_file_or dynamic.symbol_table.file_offset
        (virtual_address_to_file segments dynamic.symbol_table.value (symbol_count * 24))
  read_symbols bytes table_offset symbol_count

abbrev pub relocation_entry_size : RelocationEncoding → ℕ
relocation_entry_size rela = 24
relocation_entry_size rel = 16

-- The fields that the entry itself holds; a REL entry has addend 0.
read_addend : List ℕ → RelocationEncoding → ℕ → Outcome ℕ
unfolding read_le
read_addend bytes rela entry = read_u64 bytes (entry + 16)
read_addend bytes rel entry = done 0

read_relocation : List ℕ → RelocationEncoding → ℕ → Outcome Relocation
unfolding read_le read_addend
read_relocation bytes encoding entry = do
  target ← read_u64 bytes entry
  info ← read_u64 bytes (entry + 8)
  addend ← read_addend bytes encoding entry
  done (record {
    encoding = encoding;
    target_virtual_address = target;
    kind = info % u32_limit;
    symbol_index = info / u32_limit;
    addend = addend;
    symbol_value = 0;
    symbol_is_absolute = false;
  })

-- The relocation with the symbol that it uses.
with_symbol : List LoadSegment → Relocation → ℕ → DynamicSymbol → Outcome Relocation
with_symbol segments relocation entry symbol = do
  reject_if (not symbol.defined) invalid_relocation_table (entry + 8)
  reject_if (not symbol.absolute && not (virtual_address_in_memory segments symbol.value 1))
      invalid_relocation_table (entry + 8)
  done (record relocation { symbol_value = symbol.value; symbol_is_absolute = symbol.absolute })

bind_symbol : List LoadSegment → List DynamicSymbol → Relocation → ℕ → Outcome Relocation
unfolding with_symbol
bind_symbol segments symbols relocation entry =
    if not (relocation_uses_symbol relocation.kind)
    then done relocation
    else elim (get_elem? symbols relocation.symbol_index) [
      | none ↦ fault
      | some symbol ↦ with_symbol segments relocation entry symbol
    ]

-- The tests of entry `index` of a table, which stands at file offset `entry`: first those before the
-- symbol, then that of the target.
check_entry : List DynamicSymbol → ℕ → ℕ → ℕ → Relocation → Outcome (Unit {0})
unfolding is_known_amdgpu_relocation
check_entry symbols relative_count index entry relocation = do
  reject_if (not (is_known_amdgpu_relocation relocation.kind)) unsupported_relocation_type
      (entry + 8)
  reject_if (leb (length symbols) relocation.symbol_index) relocation_symbol_out_of_bounds
      (entry + 8)
  reject_if (ltb index relative_count && (relocation.kind != 13 || relocation.symbol_index != 0))
      invalid_relocation_table (entry + 8)

check_target : List LoadSegment → ℕ → Relocation → Outcome (Unit {0})
unfolding relocation_width virtual_address_in_memory
check_target segments entry relocation =
    reject_if
      (relocation_width relocation.kind != 0
        && not (
            virtual_address_in_memory segments relocation.target_virtual_address
              (relocation_width relocation.kind)))
      relocation_target_out_of_bounds entry

pub accept_relocation :
    List LoadSegment → List DynamicSymbol → ℕ → ℕ → ℕ → Relocation → Outcome Relocation
unfolding check_entry bind_symbol check_target
accept_relocation segments symbols relative_count index entry relocation = do
  check_entry symbols relative_count index entry relocation
  bound ← bind_symbol segments symbols relocation entry
  check_target segments entry bound
  done bound

module _ (bytes : List ℕ) (segments : List LoadSegment) (symbols : List DynamicSymbol)
    (encoding : RelocationEncoding) (relative_count : ℕ) where
  -- The loop over a table, with `count` entries left.
  pub read_relocations : ℕ → ℕ → ℕ → Outcome (List Relocation)
  unfolding read_relocation accept_relocation
  read_relocations index entry zero = done []
  read_relocations index entry (suc count) = read_relocation bytes encoding entry >>= λ relocation.
      accept_relocation segments symbols relative_count index entry relocation >>= λ accepted.
      read_relocations (index + 1) (entry + relocation_entry_size encoding) count >>= λ rest.
      done (accepted ∷ rest)

unfoldable pub read_relocation_table :
    List ℕ
    → List LoadSegment
    → RelocationTableInfo
    → RelocationEncoding
    → List DynamicSymbol
    → Outcome (List Relocation)
unfolding in_file_or read_relocations
read_relocation_table bytes segments table encoding symbols =
    if not (table_is_present table) || table.size.value == 0
    then done []
    else (in_file_or table.address.file_offset
          (virtual_address_to_file segments table.address.value table.size.value)
        >>= λ table_offset.
            read_relocations bytes segments symbols encoding table.relative_count.value 0
              table_offset (table.size.value / relocation_entry_size encoding))

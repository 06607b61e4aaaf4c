-- ===== src/Plan/Build.antt =====
-- `append_relocations` and `build_load_plan` of light-rocr/loader/load_plan_reader.cpp.

mod Examples
pub mod Order
pub mod Safety
pub mod Contents
use light_rocm_runtime.Prelude.{
  ℕ, ◌+◌, ◌%◌, ◌^◌, Bool, true, false, not, ◌&&◌, ◌||◌, List, [], ◌++◌, ltb, ◌==◌, ◌!=◌,
  if◌then◌else◌,
}
use light_rocm_runtime.Prelude.Sorting.{sort}
use light_rocm_runtime.Word.{u64_limit}
use light_rocm_runtime.Loader.{Outcome, done, ◌>>=◌, ◌>>◌, LoadSegment}
use light_rocm_runtime.Plan.{Relocation, RelocationEncoding, rel, rela, LoadPlan, plan_segments}
use light_rocm_runtime.Plan.Dynamic.{
  DynamicRelocationInfo, read_dynamic_relocation_info, table_is_present,
  validate_relocation_table_info, validate_disjoint_relocation_tables,
}
use light_rocm_runtime.Plan.Table.{read_symbol_count, read_dynamic_symbols, read_relocation_table}

-- The enumerators in order: Rel, Rela.
abbrev encoding_rank : RelocationEncoding → ℕ
encoding_rank rel = 0
encoding_rank rela = 1

-- The `int64_t` order of two bit patterns.
abbrev signed_ltb : ℕ → ℕ → Bool
signed_ltb lhs rhs = ltb ((lhs + 2 ^ 63) % u64_limit) ((rhs + 2 ^ 63) % u64_limit)

pub relocation_before : Relocation → Relocation → Bool
relocation_before lhs rhs =
    if lhs.target_virtual_address != rhs.target_virtual_address
    then ltb lhs.target_virtual_address rhs.target_virtual_address
    else if encoding_rank lhs.encoding != encoding_rank rhs.encoding
    then ltb (encoding_rank lhs.encoding) (encoding_rank rhs.encoding)
    else if lhs.kind != rhs.kind
    then ltb lhs.kind rhs.kind
    else if lhs.symbol_index != rhs.symbol_index
    then ltb lhs.symbol_index rhs.symbol_index
    else signed_ltb lhs.addend rhs.addend

-- The tests of the dynamic table's tags.
validate_dynamic : DynamicRelocationInfo → Outcome (Unit {0})
unfolding validate_relocation_table_info validate_disjoint_relocation_tables
validate_dynamic dynamic = do
  validate_relocation_table_info dynamic.rel_table 16
  validate_relocation_table_info dynamic.rela_table 24
  validate_disjoint_relocation_tables dynamic.rel_table dynamic.rela_table

abbrev has_relocations : DynamicRelocationInfo → Bool
has_relocations dynamic =
    (table_is_present dynamic.rel_table && dynamic.rel_table.size.value != 0)
    || (table_is_present dynamic.rela_table && dynamic.rela_table.size.value != 0)

read_tables : List ℕ → List LoadSegment → DynamicRelocationInfo → Outcome (List Relocation)
unfolding read_symbol_count read_dynamic_symbols read_relocation_table relocation_before sort
read_tables bytes segments dynamic = do
  symbol_count ← read_symbol_count bytes segments dynamic.hash
  symbols ← read_dynamic_symbols bytes segments dynamic symbol_count
  rels ← read_relocation_table bytes segments dynamic.rel_table rel symbols
  relas ← read_relocation_table bytes segments dynamic.rela_table rela symbols
  done (sort relocation_before (rels ++ relas))

-- The relocations of the code object, sorted.
pub append_relocations : List ℕ → List LoadSegment → Outcome (List Relocation)
unfolding read_dynamic_relocation_info validate_dynamic read_tables
append_relocations bytes segments = read_dynamic_relocation_info bytes >>= λ dynamic.
    validate_dynamic dynamic >>= λ _.
    if not (has_relocations dynamic) then done [] else read_tables bytes segments dynamic

pub build_load_plan : List ℕ → List LoadSegment → Outcome LoadPlan
unfolding plan_segments append_relocations
build_load_plan bytes segments = plan_segments segments >>= λ plan.
    append_relocations bytes segments >>= λ relocations.
    done (record plan { relocations = relocations })

-- ===== src/Plan/Build/Safety.antt =====
-- `build_load_plan` of light-rocr/loader/load_plan_reader.cpp: its reads of the code object.
use light_rocm_runtime.Prelude.{ℕ, ◌<◌, ◌≡◌, inl, inr, List, [], ◌∷◌, Bool-cases, All, map, length}
use light_rocm_runtime.Word.{u64_limit}
use light_rocm_runtime.Loader.{LoadSegment, done, Safe, >>=-Safe}
use light_rocm_runtime.Loader.Bytes.{IsBytes}
use light_rocm_runtime.Loader.Elf.{ElfObject, ParsedLoadSegment, bytes_at, parse_elf}
use light_rocm_runtime.Loader.Elf.Segments.{IsLoadable}
use light_rocm_runtime.Loader.Elf.Safety.{parse_elf-IsMappable, parse_elf-table}
use light_rocm_runtime.Plan.{rel, rela}
use light_rocm_runtime.Plan.Accepted.{plan_segments-IsExecutable}
use light_rocm_runtime.Plan.Dynamic.{DynamicRelocationInfo, read_dynamic_relocation_info}
use light_rocm_runtime.Plan.Dynamic.Safety.{HasTable, read_dynamic_relocation_info-Safe}
use light_rocm_runtime.Plan.Dynamic.Tables.{
  validate_relocation_table_info-Safe, validate_disjoint_relocation_tables-Safe,
}
use light_rocm_runtime.Plan.Table.{read_symbol_count, read_dynamic_symbols, read_relocation_table}
use light_rocm_runtime.Plan.Table.Read.{
  read_symbol_count-Safe, read_dynamic_symbols-Safe, read_relocation_table-Safe,
}
use light_rocm_runtime.Plan.Build.{
  validate_dynamic, read_tables, append_relocations, build_load_plan, has_relocations,
}

validate_dynamic-Safe : (dynamic : DynamicRelocationInfo) → Safe (validate_dynamic dynamic)
unfolding validate_dynamic
validate_dynamic-Safe dynamic =
    >>=-Safe _ _ (validate_relocation_table_info-Safe dynamic.rel_table 16) λ _ _.
      >>=-Safe _ _ (validate_relocation_table_info-Safe dynamic.rela_table 24)
        λ _ _. validate_disjoint_relocation_tables-Safe dynamic.rel_table dynamic.rela_table

pub IsLoadable-map :
    (size : ℕ) (ps : List ParsedLoadSegment)
    → All (λ p. IsLoadable size p.segment) ps
    → All (IsLoadable size) (map (λ p. p.segment) ps)
IsLoadable-map size [] h = tt
IsLoadable-map size (p ∷ ps) h = (h.0, IsLoadable-map size ps h.1)

module _ (bytes : List ℕ) (are_bytes : IsBytes bytes) where
  read_tables-Safe :
      (segments : List LoadSegment) (dynamic : DynamicRelocationInfo)
      → All (IsLoadable (length bytes)) segments
      → Safe (read_tables bytes segments dynamic)
  unfolding read_tables
  read_tables-Safe segments dynamic h =
      >>=-Safe (read_symbol_count bytes segments dynamic.hash) _
        (read_symbol_count-Safe bytes are_bytes segments dynamic.hash h)
        λ count _.
          >>=-Safe (read_dynamic_symbols bytes segments dynamic count) _
            (read_dynamic_symbols-Safe bytes are_bytes segments dynamic count h)
            λ symbols _.
              >>=-Safe (read_relocation_table bytes segments dynamic.rel_table rel symbols) _
                (read_relocation_table-Safe bytes are_bytes segments symbols rel dynamic.rel_table
                  h)
                λ rels _.
                  >>=-Safe (read_relocation_table bytes segments dynamic.rela_table rela symbols) _
                    (read_relocation_table-Safe bytes are_bytes segments symbols rela
                      dynamic.rela_table h)
                    λ relas _ e. cc

  append_relocations-Safe :
      (segments : List LoadSegment)
      → All (IsLoadable (length bytes)) segments
      → HasTable bytes are_bytes
      → Safe (append_relocations bytes segments)
  unfolding append_relocations
  append_relocations-Safe segments h table =
      >>=-Safe (read_dynamic_relocation_info bytes) _
        (read_dynamic_relocation_info-Safe bytes are_bytes table)
        λ dynamic _. >>=-Safe (validate_dynamic dynamic) _ (validate_dynamic-Safe dynamic) λ _ _.
          elim (Bool-cases (has_relocations dynamic)) [
            | inl e ↦ rw e (read_tables-Safe segments dynamic h)
            | inr e ↦ rw e (λ x. cc)
          ]

  -- For a code object of fewer than 2 ^ 64 bytes that the ELF reader accepts, building the load plan
  -- reads no byte outside the code object, whatever its dynamic table, its symbols and its relocations
  -- are.
  pub build_load_plan-Safe :
      (o : ElfObject)
      → length bytes < u64_limit
      → parse_elf (bytes_at bytes) ≡ done o
      → Safe (build_load_plan bytes (map (λ p. p.segment) o.segments))
  unfolding build_load_plan
  build_load_plan-Safe o small e =
      let mappable = parse_elf-IsMappable bytes are_bytes o small e in
      let (plan, run, executable) = plan_segments-IsExecutable (length bytes) o.segments mappable in
      rw (run, build_load_plan)
        (>>=-Safe (append_relocations bytes (map (λ p. p.segment) o.segments)) _
          (append_relocations-Safe (map (λ p. p.segment) o.segments)
            (IsLoadable-map (length bytes) o.segments mappable.loadable)
            (parse_elf-table bytes are_bytes o e))
          λ relocations _ x. cc)

-- ===== src/Plan/Build/Contents.antt =====
-- `build_load_plan` of light-rocr/loader/load_plan_reader.cpp: what a finished plan holds.
use light_rocm_runtime.Prelude.{ℕ, ◌+◌, ◌*◌, ◌≤◌, List, All, length}
use light_rocm_runtime.Loader.{LoadSegment}
use light_rocm_runtime.Loader.Bytes.{IsBytes}
use light_rocm_runtime.Plan.{Relocation}
use light_rocm_runtime.Plan.Table.Sound.{IsResolved}
use light_rocm_runtime.Plan.Table.Read.{symbols_at}
use light_rocm_runtime.Plan.Build.Order.{AreSorted}

module _ (bytes : List ℕ) (are_bytes : IsBytes bytes) where
  -- The relocations are in the order of the comparison, and all are resolved against one symbol table,
  -- which stands in the file.
  pub record IsRelocated (segments : List LoadSegment) (relocations : List Relocation)
      : Type 0 where
    pub symbol_offset : ℕ
    pub symbol_count : ℕ
    pub symbols_in_file : symbol_offset + symbol_count * 24 ≤ length bytes
    pub resolved :
        All
          (IsResolved segments (symbols_at bytes are_bytes symbol_offset symbol_count))
          relocations
    pub sorted : AreSorted relocations

-- ===== src/Plan/Dynamic/Tables.antt =====
-- The tests of the relocation tables' tags in light-rocr/loader/load_plan_reader.cpp.
use light_rocm_runtime.Prelude.{ℕ, ◌+◌, ◌/◌, ◌%◌, ◌≤◌, ◌<◌, ◌≡◌, ◌↔◌, ◌⊎◌, true, false, arith}
use light_rocm_runtime.Word.{u64_limit, checked_add}
use light_rocm_runtime.Loader.{done, Safe}
use light_rocm_runtime.Plan.Dynamic.{
  RelocationTableInfo, table_is_present, validate_relocation_table_info,
  validate_disjoint_relocation_tables,
}

pub validate_relocation_table_info-Safe :
    (table : RelocationTableInfo) (entry_size : ℕ)
    → Safe (validate_relocation_table_info table entry_size)
unfolding validate_relocation_table_info
validate_relocation_table_info-Safe table entry_size = ground arith

pub validate_disjoint_relocation_tables-Safe :
    (rel_table rela_table : RelocationTableInfo)
    → Safe (validate_disjoint_relocation_tables rel_table rela_table)
unfolding validate_disjoint_relocation_tables
validate_disjoint_relocation_tables-Safe rel_table rela_table = ground arith

-- The tags of a table: all three or none; then the entries have the size of their kind, the table has
-- no part of an entry, and no more relative entries than entries.
pub IsTableInfo : RelocationTableInfo → ℕ → Type 0
IsTableInfo table entry_size =
    ((table.address.present ≡ false)
      × (table.size.present ≡ false)
      × (table.entry_size.present ≡ false)
      × ((table.relative_count.present ≡ false) ⊎ (table.relative_count.value ≡ 0)))
    ⊎ ((table.address.present ≡ true)
        × (table.size.present ≡ true)
        × (table.entry_size.present ≡ true)
        × (table.entry_size.value ≡ entry_size)
        × (table.size.value % entry_size ≡ 0)
        × ((table.relative_count.present ≡ false)
            ⊎ (table.relative_count.value ≤ table.size.value / entry_size)))

-- The tags of a relocation table are accepted exactly when all three of address, size and entry size
-- are there or none is; in the first case the entry size is the expected one, the size is a multiple of
-- it and a relative count, if there is one, is at most the number of entries; in the second case a
-- relative count, if there is one, is 0.
pub validate_relocation_table_info_iff :
    (table : RelocationTableInfo) (entry_size : ℕ)
    → (validate_relocation_table_info table entry_size ≡ done tt) ↔ IsTableInfo table entry_size
unfolding validate_relocation_table_info IsTableInfo
validate_relocation_table_info_iff table entry_size = ground arith

-- Two tables that are both there and not empty are accepted exactly when neither range wraps around and
-- they share no address.
pub validate_disjoint_relocation_tables_iff :
    (rel_table rela_table : RelocationTableInfo)
    → table_is_present rel_table ≡ true
    → table_is_present rela_table ≡ true
    → 0 < rel_table.size.value
    → 0 < rela_table.size.value
    → (validate_disjoint_relocation_tables rel_table rela_table ≡ done tt) ↔ (
        (rel_table.address.value + rel_table.size.value < u64_limit)
        × (rela_table.address.value + rela_table.size.value < u64_limit)
        × ((rel_table.address.value + rel_table.size.value ≤ rela_table.address.value)
            ⊎ (rela_table.address.value + rela_table.size.value ≤ rel_table.address.value)))
unfolding validate_disjoint_relocation_tables checked_add
validate_disjoint_relocation_tables_iff rel_table rela_table p q r s = ground arith

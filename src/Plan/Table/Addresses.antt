-- ===== src/Plan/Table/Addresses.antt =====
-- The two searches over the load segments of light-rocr/loader/load_plan_reader.cpp.
use light_rocm_runtime.Prelude.{ℕ, ◌+◌, ◌≤◌, ◌≡◌, ◌⊎◌, ◌↔◌, true, some, List, [], ◌∷◌, All, arith}
use light_rocm_runtime.Loader.{LoadSegment}
use light_rocm_runtime.Loader.Elf.Segments.{IsLoadable}
use light_rocm_runtime.Plan.Table.{virtual_address_to_file, virtual_address_in_memory}

-- Some segment has all of the range in its memory.
pub InMemory : List LoadSegment → ℕ → ℕ → Type 0
InMemory [] address extent = ⊥
InMemory (s ∷ ss) address extent =
    ((s.virtual_address ≤ address) × (address + extent ≤ s.virtual_address + s.memory_size))
    ⊎ InMemory ss address extent

pub virtual_address_in_memory_iff :
    (segments : List LoadSegment) (address extent : ℕ)
    → (virtual_address_in_memory segments address extent ≡ true) ↔ InMemory segments address extent
unfolding virtual_address_in_memory InMemory
virtual_address_in_memory_iff [] address extent = ((λ e. cc), λ h. absurd h)
virtual_address_in_memory_iff (s ∷ ss) address extent =
    let later = virtual_address_in_memory_iff ss address extent in ground (arith, later.0, later.1)

-- What a translated range is: file bytes of a loadable segment, so bytes of the file.
pub virtual_address_to_file-le :
    (size : ℕ) (segments : List LoadSegment) (address extent file_offset : ℕ)
    → All (IsLoadable size) segments
    → virtual_address_to_file segments address extent ≡ some file_offset
    → file_offset + extent ≤ size
unfolding virtual_address_to_file
virtual_address_to_file-le size [] address extent file_offset h e = cc
virtual_address_to_file-le size (s ∷ ss) address extent file_offset h e =
    ground (arith, h.0.in_file, virtual_address_to_file-le size ss address extent file_offset h.1)

-- ===== src/Topology.antt =====
-- light-rocr/runtime/topology.cpp and its header: the nodes of a snapshot, and the choice of the
-- one GPU that a code object targets. A text is the list of its bytes.

mod Examples
pub mod Select
use light_rocm_runtime.Prelude.{
  ℕ, zero, suc, ◌+◌, ◌-◌, ◌/◌, ◌%◌, Bool, true, false, not, ◌&&◌, ◌||◌, Option, none, some, List,
  [], ◌∷◌, ◌++◌, length, take, drop, ltb, leb, ◌==◌, ◌!=◌, if◌then◌else◌,
}

pub record GpuArchitecture : Type 0 where
  pub major : ℕ
  pub minor : ℕ
  pub stepping : ℕ

pub data MemoryHeapType : Type 0 where
  system frame_buffer_public frame_buffer_private gds lds scratch device_svm mmio_remap unknown :
      MemoryHeapType

pub record MemoryBank : Type 0 where
  pub heap_type : MemoryHeapType
  pub size : ℕ
  pub virtual_base_address : ℕ

-- The fields of a node that a computation reads; the others are only reported.
pub record Node : Type 0 where
  pub simd_count : ℕ
  pub simd_per_compute_unit : ℕ
  pub wavefront_size : ℕ
  pub maximum_waves_per_simd : ℕ
  pub shader_engine_count : ℕ
  pub maximum_scratch_waves_per_compute_unit : ℕ
  pub xcc_count : ℕ
  pub architecture : GpuArchitecture
  pub memory_banks : List MemoryBank

unfoldable pub is_gpu : Node → Bool
is_gpu node = node.simd_count != 0

unfoldable pub compute_unit_count : Node → ℕ
compute_unit_count node =
    if node.simd_per_compute_unit == 0 || node.simd_count % node.simd_per_compute_unit != 0
    then 0
    else node.simd_count / node.simd_per_compute_unit

-- The digit as a lower-case character.
digit_char : ℕ → ℕ
digit_char d = if ltb d 10 then b'0' + d else b'a' + (d - 10)

-- A number in a base from 2 to 16, the lowest digit last, in front of `rest`. Ten rounds are enough for 32 bits.
print_digits : ℕ → ℕ → ℕ → List ℕ → List ℕ
print_digits zero base n rest = rest
print_digits (suc rounds) base n rest =
    let more = print_digits rounds base (n / base) (digit_char (n % base) ∷ rest) in
    if ltb n base then digit_char n ∷ rest else more

abbrev gfx : List ℕ
gfx = b'g' ∷ b'f' ∷ b'x' ∷ []

pub gfx_target_name : GpuArchitecture → List ℕ
unfolding print_digits digit_char
gfx_target_name a =
    if a.major == 0
    then []
    else gfx
      ++ print_digits 10 10 a.major (print_digits 10 10 a.minor (print_digits 10 16 a.stepping []))

bytes_eq : List ℕ → List ℕ → Bool
bytes_eq [] [] = true
bytes_eq [] (y ∷ ys) = false
bytes_eq (x ∷ xs) [] = false
bytes_eq (x ∷ xs) (y ∷ ys) = x == y && bytes_eq xs ys

-- What stands behind the last "--", or all of it (`rfind`).
after_last_dashes : List ℕ → List ℕ → List ℕ
after_last_dashes best [] = best
after_last_dashes best (x ∷ []) = best
after_last_dashes best (x ∷ y ∷ rest) =
    after_last_dashes (if x == b'-' && y == b'-' then rest else best) (y ∷ rest)

until_colon : List ℕ → List ℕ
until_colon [] = []
until_colon (x ∷ rest) = if x == b':' then [] else x ∷ until_colon rest

-- `isxdigit` and not `isupper`.
is_lower_hex : ℕ → Bool
is_lower_hex c = (leb b'0' c && leb c b'9') || (leb b'a' c && leb c b'f')

all_lower_hex : List ℕ → Bool
all_lower_hex [] = true
all_lower_hex (c ∷ cs) = is_lower_hex c && all_lower_hex cs

pub canonical_gfx_target : List ℕ → List ℕ
unfolding after_last_dashes until_colon all_lower_hex is_lower_hex bytes_eq
canonical_gfx_target target_isa =
    let target = until_colon (after_last_dashes target_isa target_isa) in
    if ltb (length target) 5 || not (bytes_eq (take 3 target) gfx)
    then []
    else if all_lower_hex (drop 3 target)
    then target
    else []

pub data GpuSelectionError : Type 0 where
  invalid_target no_matching_gpu multiple_matching_gpus : GpuSelectionError

pub data GpuSelectionResult : Type 0 where
  selected : ℕ → GpuSelectionResult
  rejected : GpuSelectionError → GpuSelectionResult

pub matches : List ℕ → Node → Bool
unfolding bytes_eq
matches target node = is_gpu node && bytes_eq (gfx_target_name node.architecture) target

-- The loop over the nodes: the index of the last match and the number of matches.
scan : List ℕ → List Node → ℕ → ℕ → ℕ → ℕ × ℕ
scan target [] index matching_node_index match_count = (matching_node_index, match_count)
scan target (node ∷ nodes) index matching_node_index match_count =
    scan target nodes (index + 1) (if matches target node then index else matching_node_index)
      (if matches target node then match_count + 1 else match_count)

pub select_unique_gpu : List Node → List ℕ → GpuSelectionResult
unfolding scan
select_unique_gpu nodes target_isa =
    let target = canonical_gfx_target target_isa in
    let (matching_node_index, match_count) = scan target nodes 0 0 0 in
    if length target == 0
    then rejected invalid_target
    else if match_count == 0
    then rejected no_matching_gpu
    else if match_count != 1
    then rejected multiple_matching_gpus
    else selected matching_node_index

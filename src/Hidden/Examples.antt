-- ===== src/Hidden/Examples.antt =====
-- A launch of 10 by 2 work items in blocks of 4 by 1, for src/light_rocr_kernargs.cpp.
use light_rocm_runtime.Prelude.{ℕ, ◌+◌, some, ◌≤◌, ◌≡◌, refl, inl, inr, [], ◌∷◌, All, arith}
use light_rocm_runtime.Prelude.Sorting.{AllPairs}
use light_rocm_runtime.Image.Materialize.{Block, load, overlay, store}
use light_rocm_runtime.Hidden.{
  KernelArgumentInfo, KernelArgumentKind, hidden_value, HiddenValue, KernelInfo, LaunchConfig,
  kernarg_at, Populated, populated, by_value, hidden_block_count_x, hidden_group_size_x,
  hidden_remainder_x, hidden_none, populate_light_rocr_hidden_kernargs,
}
use light_rocm_runtime.Hidden.Written.{EndsBefore, IsWritable}
use light_rocm_runtime.Hidden.Meaning.{IsLaunch}
use light_rocm_runtime.Hidden.Filled.{IsFilled, populate-IsFilled}
use light_rocm_runtime.Hidden.Refused.{IsKept, populate-IsKept}

abbrev argument : ℕ → ℕ → KernelArgumentKind → KernelArgumentInfo
argument offset size kind = record { offset = offset; size = size; kind = kind }

abbrev kernel : KernelInfo
kernel = record {
  kernarg_size = 24;
  explicit_argument_size = 8;
  arguments =
      argument 0 8 by_value
      ∷ argument 8 4 hidden_block_count_x
      ∷ argument 12 2 hidden_group_size_x
      ∷ argument 14 2 hidden_remainder_x
      ∷ argument 16 8 hidden_none
      ∷ [];
}

abbrev config : LaunchConfig
config = record {
  grid = record { x = 10; y = 2; z = 1 };
  block = record { x = 4; y = 1; z = 1 };
  shared_memory_bytes = 0;
}

abbrev segment : Block
segment = record { size = 24; byte = λ i. 0xcc }

-- The remainder of a written segment, read back.
abbrev loaded : ℕ → ℕ → Populated → ℕ
loaded count offset (populated (kernarg_at b)) = load count offset b
loaded count offset _ = 999

fills :
    (loaded 4 8 (populate_light_rocr_hidden_kernargs kernel config (kernarg_at segment)) ≡ 2)
    × (loaded 2 12 (populate_light_rocr_hidden_kernargs kernel config (kernarg_at segment)) ≡ 4)
    × (loaded 2 14 (populate_light_rocr_hidden_kernargs kernel config (kernarg_at segment)) ≡ 2)
    × (loaded 1 7 (populate_light_rocr_hidden_kernargs kernel config (kernarg_at segment)) ≡ 0xcc)
unfolding populate_light_rocr_hidden_kernargs load overlay store
fills = (refl, refl, refl, refl)

config-IsLaunch : IsLaunch config
config-IsLaunch = record {
  grid_x = omega arith;
  grid_y = omega arith;
  grid_z = omega arith;
  block_x = omega arith;
  block_y = omega arith;
  block_z = omega arith;
  shared = omega arith;
}

kernel-AllPairs : AllPairs EndsBefore kernel.arguments
kernel-AllPairs = ground arith

kernel-IsWritable : All (λ a. 8 ≤ a.offset → IsWritable config 24 a) kernel.arguments
unfolding hidden_value
kernel-IsWritable = (
  (λ h. absurd (omega arith)),
  (
    written hidden_block_count_x 8 4 (record { width = 4; value = 2 }) refl refl (omega arith),
    (
      written hidden_group_size_x 12 2 (record { width = 2; value = 4 }) refl refl (omega arith),
      (
        written hidden_remainder_x 14 2 (record { width = 2; value = 2 }) refl refl (omega arith),
        ((λ h. inl refl), tt),
      ),
    ),
  ),
)
  where
    written :
        (kind : KernelArgumentKind) (offset size : ℕ) (v : HiddenValue)
        → hidden_value config kind ≡ some v
        → size ≡ v.width
        → offset + size ≤ 24
        → 8 ≤ offset
        → IsWritable config 24 (argument offset size kind)
    written kind offset size v e same fits h = inr (v, e, same, fits)

populate-IsFilled_example :
    (after : Block) × (populate_light_rocr_hidden_kernargs kernel config (kernarg_at segment)
      ≡ populated (kernarg_at after))
    × IsFilled config kernel segment after
populate-IsFilled_example =
    populate-IsFilled kernel config segment config-IsLaunch (omega arith) kernel-AllPairs
      kernel-IsWritable

populate-IsKept_example :
    IsKept 8 segment (populate_light_rocr_hidden_kernargs kernel config (kernarg_at segment))
populate-IsKept_example = populate-IsKept kernel config segment (ground arith)

-- ===== src/Hidden/Meaning.antt =====
-- What the hidden arguments of src/light_rocr_kernargs.cpp tell a kernel about its launch.
use light_rocm_runtime.Prelude.{
  ℕ, ◌+◌, ◌*◌, ◌/◌, ◌%◌, ◌≤◌, ◌<◌, ◌≡◌, refl, ◌⊎◌, none, some, subst, arith,
}
use native.Mathlib.Nat.{div-add-mod, mod-lt}
use light_rocm_runtime.Word.{u32_limit}
use light_rocm_runtime.Hidden.{
  KernelArgumentKind, LaunchConfig, Dim3, HiddenValue, hidden_value, dispatch_dimensions,
  hidden_block_count_x, hidden_block_count_y, hidden_block_count_z, hidden_group_size_x,
  hidden_group_size_y, hidden_group_size_z, hidden_remainder_x, hidden_remainder_y,
  hidden_remainder_z, hidden_grid_dims, hidden_dynamic_lds_size,
}

-- A launch that the guard lets pass; the fields are `uint32_t`.
pub record IsLaunch (config : LaunchConfig) : Type 0 where
  pub grid_x : (0 < config.block.x) × (config.block.x ≤ config.grid.x) × (config.grid.x < u32_limit)
  pub grid_y : (0 < config.block.y) × (config.block.y ≤ config.grid.y) × (config.grid.y < u32_limit)
  pub grid_z : (0 < config.block.z) × (config.block.z ≤ config.grid.z) × (config.grid.z < u32_limit)
  pub block_x : config.block.x ≤ 0xffff
  pub block_y : config.block.y ≤ 0xffff
  pub block_z : config.block.z ≤ 0xffff
  pub shared : config.shared_memory_bytes < u32_limit

-- As many whole blocks as fit into the grid.
abbrev pub Counts : ℕ → ℕ → ℕ → Type 0
Counts grid block n = (block * n ≤ grid) × (grid < block * n + block)

-- The work items behind the whole blocks.
abbrev pub Remains : ℕ → ℕ → ℕ → Type 0
Remains grid block n = (n < block) × ((q : ℕ) × (grid ≡ block * q + n))

-- The last direction in which the grid has more than one work item.
abbrev pub Spans : Dim3 → ℕ → Type 0
Spans grid n =
    ((n ≡ 3) × (1 < grid.z))
    ⊎ ((n ≡ 2) × (grid.z ≤ 1) × (1 < grid.y))
    ⊎ ((n ≡ 1) × (grid.z ≤ 1) × (grid.y ≤ 1))

-- What an argument of the kind says; any value does for a kind that the launch does not write.
abbrev pub Says : LaunchConfig → KernelArgumentKind → ℕ → Type 0
Says config hidden_block_count_x n = Counts config.grid.x config.block.x n
Says config hidden_block_count_y n = Counts config.grid.y config.block.y n
Says config hidden_block_count_z n = Counts config.grid.z config.block.z n
Says config hidden_group_size_x n = n ≡ config.block.x
Says config hidden_group_size_y n = n ≡ config.block.y
Says config hidden_group_size_z n = n ≡ config.block.z
Says config hidden_remainder_x n = Remains config.grid.x config.block.x n
Says config hidden_remainder_y n = Remains config.grid.y config.block.y n
Says config hidden_remainder_z n = Remains config.grid.z config.block.z n
Says config hidden_grid_dims n = Spans config.grid n
Says config hidden_dynamic_lds_size n = n ≡ config.shared_memory_bytes
Says config _ n = Unit {0}

module _ (grid block : ℕ) (some_items : 0 < block) where
  div-Counts : Counts grid block (grid / block)
  div-Counts = omega (arith, div-add-mod grid block, mod-lt grid some_items)

  mod-Remains : block ≤ 0xffff → Remains grid block (grid % block % 0x10000)
  mod-Remains small =
      let below = mod-lt grid some_items in
      let whole = mod-small (grid % block) (omega arith) in
      (omega arith, (grid / block, omega (arith, div-add-mod grid block)))
    where
      mod-small : (n : ℕ) → n < 0x10000 → n % 0x10000 ≡ n
      mod-small n h = omega arith

module _ (config : LaunchConfig) (launch : IsLaunch config) where
  open launch use {grid_x, grid_y, grid_z, block_x, block_y, block_z}

  dispatch_dimensions-Spans : Spans config.grid (dispatch_dimensions config % 0x10000)
  unfolding dispatch_dimensions
  dispatch_dimensions-Spans = ground arith

  same :
      (kind : KernelArgumentKind) {w v : HiddenValue}
      → some w ≡ some v
      → Says config kind w.value
      → Says config kind v.value
  same kind {w} {v} e h = subst (λ u. Says config kind u.value) (some-injective e) h
    where
      some-injective : some w ≡ some v → w ≡ v
      some-injective x = cc

  -- The values that are written say what they are to say.
  pub hidden_value-Says :
      (kind : KernelArgumentKind) (v : HiddenValue)
      → hidden_value config kind ≡ some v
      → Says config kind v.value
  unfolding hidden_value
  hidden_value-Says hidden_block_count_x v e =
      same hidden_block_count_x e (div-Counts config.grid.x config.block.x grid_x.0)
  hidden_value-Says hidden_block_count_y v e =
      same hidden_block_count_y e (div-Counts config.grid.y config.block.y grid_y.0)
  hidden_value-Says hidden_block_count_z v e =
      same hidden_block_count_z e (div-Counts config.grid.z config.block.z grid_z.0)
  hidden_value-Says hidden_group_size_x v e = same hidden_group_size_x e (omega arith)
  hidden_value-Says hidden_group_size_y v e = same hidden_group_size_y e (omega arith)
  hidden_value-Says hidden_group_size_z v e = same hidden_group_size_z e (omega arith)
  hidden_value-Says hidden_remainder_x v e =
      same hidden_remainder_x e (mod-Remains config.grid.x config.block.x grid_x.0 block_x)
  hidden_value-Says hidden_remainder_y v e =
      same hidden_remainder_y e (mod-Remains config.grid.y config.block.y grid_y.0 block_y)
  hidden_value-Says hidden_remainder_z v e =
      same hidden_remainder_z e (mod-Remains config.grid.z config.block.z grid_z.0 block_z)
  hidden_value-Says hidden_grid_dims v e = same hidden_grid_dims e dispatch_dimensions-Spans
  hidden_value-Says hidden_dynamic_lds_size v e = same hidden_dynamic_lds_size e refl
  hidden_value-Says _ v e = ground arith

  -- A kind without a value may say anything.
  pub hidden_value-none :
      (kind : KernelArgumentKind) (n : ℕ) → hidden_value config kind ≡ none → Says config kind n
  unfolding hidden_value
  hidden_value-none kind n e = ground arith

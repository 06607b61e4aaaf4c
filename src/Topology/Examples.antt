-- ===== src/Topology/Examples.antt =====
-- A host with a processor node and two different GPUs, and the choice between them.
use light_rocm_runtime.Prelude.{ℕ, ◌<◌, ◌≡◌, refl, List, [], ◌∷◌, arith, length}
use light_rocm_runtime.Topology.{
  Node, is_gpu, matches, gfx_target_name, canonical_gfx_target, select_unique_gpu, selected,
  rejected, multiple_matching_gpus, invalid_target,
}
use light_rocm_runtime.Topology.Select.{Fits, select_unique_gpu_unique, select_unique_gpu_complete}

abbrev node_with : ℕ → ℕ → ℕ → Node
node_with simds minor stepping = record {
  simd_count = simds;
  simd_per_compute_unit = 2;
  wavefront_size = 32;
  maximum_waves_per_simd = 16;
  shader_engine_count = 2;
  maximum_scratch_waves_per_compute_unit = 32;
  xcc_count = 1;
  architecture = record { major = 11; minor = minor; stepping = stepping };
  memory_banks = [];
}

abbrev host : List Node
host = node_with 0 0 1 ∷ node_with 192 0 0 ∷ node_with 108 0 1 ∷ []

-- "amdgcn-amd-amdhsa--gfx1101:xnack-", from the dashes on.
abbrev target_isa : List ℕ
target_isa =
    b'-' ∷ b'-' ∷ b'g' ∷ b'f' ∷ b'x' ∷ b'1' ∷ b'1' ∷ b'0' ∷ b'1' ∷ b':' ∷ b'x' ∷ b'n' ∷ b'a' ∷ b'-'
    ∷ []

selects : select_unique_gpu host target_isa ≡ selected 2
unfolding select_unique_gpu is_gpu matches gfx_target_name canonical_gfx_target
selects = refl

-- Two GPUs of one kind are not told apart.
refuses_two :
    select_unique_gpu (node_with 108 0 1 ∷ host) target_isa ≡ rejected multiple_matching_gpus
unfolding select_unique_gpu is_gpu matches gfx_target_name canonical_gfx_target
refuses_two = refl

refuses_upper_case :
    select_unique_gpu host (b'g' ∷ b'f' ∷ b'x' ∷ b'1' ∷ b'1' ∷ b'0' ∷ b'A' ∷ [])
    ≡ rejected invalid_target
unfolding select_unique_gpu canonical_gfx_target
refuses_upper_case = refl

third-Fits : Fits (canonical_gfx_target target_isa) host 2
unfolding is_gpu matches gfx_target_name canonical_gfx_target
third-Fits = (node_with 108 0 1, refl, refl)

only_third : (k : ℕ) → Fits (canonical_gfx_target target_isa) host k → k ≡ 2
unfolding is_gpu matches gfx_target_name canonical_gfx_target
only_third k f = select_unique_gpu_unique host target_isa 2 k selects f

named : 0 < length (canonical_gfx_target target_isa)
unfolding canonical_gfx_target
named = omega arith

select_unique_gpu_complete_example : select_unique_gpu host target_isa ≡ selected 2
select_unique_gpu_complete_example =
    select_unique_gpu_complete host target_isa 2 named third-Fits only_third

-- ===== src/Aql/Packet.antt =====
-- The packets that src/aql_producer.cpp builds, against its own tests.
use light_rocm_runtime.Prelude.{◌/◌, ◌%◌, ◌^◌, ◌≤◌, ◌<◌, ◌≡◌, refl, ◌↔◌, ◌⊎◌, true, arith}
use light_rocm_runtime.Aql.{
  AqlKernelDispatchParameters, AqlDispatchOrdering, AqlBarrierAndParameters,
  build_aql_kernel_dispatch_packet, valid_aql_kernel_dispatch_packet, build_aql_barrier_and_packet,
  valid_aql_barrier_and_packet,
}

-- The launch is non-empty in every dimension, the grid covers a workgroup, and there is a kernel.
pub record IsLaunchable (p : AqlKernelDispatchParameters) : Type 0 where
  pub block_x : 0 < p.workgroup_size_x
  pub block_y : 0 < p.workgroup_size_y
  pub block_z : 0 < p.workgroup_size_z
  pub covers_x : p.workgroup_size_x ≤ p.grid_size_x
  pub covers_y : p.workgroup_size_y ≤ p.grid_size_y
  pub covers_z : p.workgroup_size_z ≤ p.grid_size_z
  pub kernel : 0 < p.kernel_object

-- A packet that is built from parameters passes the packet test exactly when they are launchable,
-- whatever the ordering.
pub valid-build_iff :
    (p : AqlKernelDispatchParameters) (o : AqlDispatchOrdering)
    → (valid_aql_kernel_dispatch_packet (build_aql_kernel_dispatch_packet p o) ≡ true)
      ↔ IsLaunchable p
unfolding valid_aql_kernel_dispatch_packet build_aql_kernel_dispatch_packet
valid-build_iff p o = (λ e. ground arith, λ h. ground arith)

-- The header of a built dispatch names a dispatch with system fences on both sides, and has the
-- barrier bit exactly when earlier work is pending.
header-build :
    (p : AqlKernelDispatchParameters) (o : AqlDispatchOrdering)
    → let header = (build_aql_kernel_dispatch_packet p o).header in
      (header % 2 ^ 8 ≡ 2)
      × (header / 2 ^ 9 % 4 ≡ 2)
      × (header / 2 ^ 11 % 4 ≡ 2)
      × ((header / 2 ^ 8 % 2 ≡ 1)
          ↔ ((0 < o.pending_dispatch_count) ⊎ (o.has_pending_dependencies ≡ true)))
unfolding build_aql_kernel_dispatch_packet
header-build p o =
    (ground arith, ground arith, ground arith, (λ e. ground arith, λ h. ground arith))

-- For launchable parameters the dimension count of the built packet is from 1 to 3, and the grid has
-- extent one in every dimension above it.
setup-build :
    (p : AqlKernelDispatchParameters) (o : AqlDispatchOrdering)
    → IsLaunchable p
    → let packet = build_aql_kernel_dispatch_packet p o in
      (1 ≤ packet.setup)
      × (packet.setup ≤ 3)
      × ((3 ≤ packet.setup) ⊎ (packet.grid_size_z ≡ 1))
      × ((2 ≤ packet.setup) ⊎ (packet.grid_size_y ≡ 1))
unfolding build_aql_kernel_dispatch_packet
setup-build p o h = (ground arith, ground arith, ground arith, ground arith)

-- A built barrier passes its test.
pub valid-build_barrier :
    (p : AqlBarrierAndParameters)
    → valid_aql_barrier_and_packet (build_aql_barrier_and_packet p) ≡ true
unfolding valid_aql_barrier_and_packet build_aql_barrier_and_packet
valid-build_barrier p = refl

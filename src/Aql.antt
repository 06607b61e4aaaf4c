-- ===== src/Aql.antt =====
-- src/aql_producer.hpp and src/aql_producer.cpp: the AQL packets, how they are built and what the
-- producer accepts. Every field is a number below 2 ^ 16, 2 ^ 32 or 2 ^ 64 as the header declares.
pub mod Packet
use light_rocm_runtime.Prelude.{
  ℕ, ◌+◌, ◌-◌, ◌*◌, ◌/◌, ◌^◌, Bool, true, false, not, ◌&&◌, ◌||◌, List, [], ◌∷◌, ltb, leb, ◌==◌,
  ◌!=◌, if◌then◌else◌, bit_and, bit_or,
}

abbrev pub packet_type_invalid : ℕ
packet_type_invalid = 1

abbrev packet_type_kernel_dispatch : ℕ
packet_type_kernel_dispatch = 2

abbrev packet_type_barrier_and : ℕ
packet_type_barrier_and = 3

abbrev fence_scope_system : ℕ
fence_scope_system = 2

abbrev barrier_bit : ℕ
barrier_bit = 2 ^ 8

abbrev fence_scopes : ℕ
fence_scopes = bit_or (fence_scope_system * 2 ^ 9) (fence_scope_system * 2 ^ 11)

abbrev pub kernel_dispatch_header : ℕ
kernel_dispatch_header = bit_or (packet_type_kernel_dispatch * 2 ^ 0) fence_scopes

abbrev pub barrier_and_header : ℕ
barrier_and_header = bit_or (bit_or (packet_type_barrier_and * 2 ^ 0) barrier_bit) fence_scopes

pub record AqlKernelDispatchPacket : Type 0 where
  pub header : ℕ
  pub setup : ℕ
  pub workgroup_size_x : ℕ
  pub workgroup_size_y : ℕ
  pub workgroup_size_z : ℕ
  pub reserved0 : ℕ
  pub grid_size_x : ℕ
  pub grid_size_y : ℕ
  pub grid_size_z : ℕ
  pub private_segment_size : ℕ
  pub group_segment_size : ℕ
  pub kernel_object : ℕ
  pub kernarg_address : ℕ
  pub reserved2 : ℕ
  pub completion_signal : ℕ

-- `std::array<uint64_t, 5>`.
pub record DependencySignals : Type 0 where
  pub signal0 : ℕ
  pub signal1 : ℕ
  pub signal2 : ℕ
  pub signal3 : ℕ
  pub signal4 : ℕ

pub record AqlBarrierAndPacket : Type 0 where
  pub header : ℕ
  pub reserved0 : ℕ
  pub reserved1 : ℕ
  pub dep_signal : DependencySignals
  pub reserved2 : ℕ
  pub completion_signal : ℕ

pub record AqlKernelDispatchParameters : Type 0 where
  pub grid_size_x : ℕ
  pub grid_size_y : ℕ
  pub grid_size_z : ℕ
  pub workgroup_size_x : ℕ
  pub workgroup_size_y : ℕ
  pub workgroup_size_z : ℕ
  pub private_segment_size : ℕ
  pub group_segment_size : ℕ
  pub kernel_object : ℕ
  pub kernarg_address : ℕ
  pub completion_signal : ℕ

pub record AqlDispatchOrdering : Type 0 where
  pub pending_dispatch_count : ℕ
  pub has_pending_dependencies : Bool

pub record AqlBarrierAndParameters : Type 0 where
  pub dependency_signals : DependencySignals
  pub completion_signal : ℕ

pub dispatch_dimensions : AqlKernelDispatchParameters → ℕ
dispatch_dimensions p =
    if ltb 1 p.grid_size_z || ltb 1 p.workgroup_size_z
    then 3
    else if ltb 1 p.grid_size_y || ltb 1 p.workgroup_size_y
    then 2
    else 1

unfoldable pub build_aql_kernel_dispatch_packet :
    AqlKernelDispatchParameters → AqlDispatchOrdering → AqlKernelDispatchPacket
unfolding dispatch_dimensions
build_aql_kernel_dispatch_packet p ordering = record {
  header = bit_or kernel_dispatch_header (
      if ordering.pending_dispatch_count != 0 || ordering.has_pending_dependencies
      then barrier_bit
      else 0);
  setup = dispatch_dimensions p * 2 ^ 0;
  workgroup_size_x = p.workgroup_size_x;
  workgroup_size_y = p.workgroup_size_y;
  workgroup_size_z = p.workgroup_size_z;
  reserved0 = 0;
  grid_size_x = p.grid_size_x;
  grid_size_y = p.grid_size_y;
  grid_size_z = p.grid_size_z;
  private_segment_size = p.private_segment_size;
  group_segment_size = p.group_segment_size;
  kernel_object = p.kernel_object;
  kernarg_address = p.kernarg_address;
  reserved2 = 0;
  completion_signal = p.completion_signal;
}

-- The second half of the test, once the header and the setup word are those of a dispatch.
valid_dispatch_shape : ℕ → AqlKernelDispatchPacket → Bool
valid_dispatch_shape dimensions packet = not (
    ltb dimensions 1
    || ltb 3 dimensions
    || packet.workgroup_size_x == 0
    || packet.workgroup_size_y == 0
    || packet.workgroup_size_z == 0
    || (ltb dimensions 2 && packet.workgroup_size_y != 1)
    || (ltb dimensions 3 && packet.workgroup_size_z != 1)
    || ltb packet.grid_size_x packet.workgroup_size_x
    || ltb packet.grid_size_y packet.workgroup_size_y
    || ltb packet.grid_size_z packet.workgroup_size_z
    || (ltb dimensions 2 && packet.grid_size_y != 1)
    || (ltb dimensions 3 && packet.grid_size_z != 1)
    || packet.kernel_object == 0
    || packet.reserved0 != 0
    || packet.reserved2 != 0)

unfoldable pub valid_aql_kernel_dispatch_packet : AqlKernelDispatchPacket → Bool
unfolding valid_dispatch_shape
valid_aql_kernel_dispatch_packet packet =
    if bit_and packet.header (2 ^ 16 - 1 - barrier_bit) != kernel_dispatch_header
      || bit_and packet.setup (2 ^ 16 - 1 - 3) != 0
    then false
    else valid_dispatch_shape (packet.setup / 2 ^ 0) packet

unfoldable pub build_aql_barrier_and_packet : AqlBarrierAndParameters → AqlBarrierAndPacket
build_aql_barrier_and_packet p = record {
  header = barrier_and_header;
  reserved0 = 0;
  reserved1 = 0;
  dep_signal = p.dependency_signals;
  reserved2 = 0;
  completion_signal = p.completion_signal;
}

unfoldable pub valid_aql_barrier_and_packet : AqlBarrierAndPacket → Bool
valid_aql_barrier_and_packet packet =
    packet.header == barrier_and_header
    && packet.reserved0 == 0
    && packet.reserved1 == 0
    && packet.reserved2 == 0

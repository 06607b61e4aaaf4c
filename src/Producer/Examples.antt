-- ===== src/Producer/Examples.antt =====
-- A ring of four slots on two counters, and the laws of the producer on it.
use light_rocm_runtime.Prelude.{
  ℕ, ◌+◌, ◌≤◌, ◌≡◌, refl, true, false, List, All, [], ◌∷◌, ◌++◌, none, some, arith, leb,
  if◌then◌else◌, ap, inl,
}
use light_rocm_runtime.Word.{u64_limit, is_power_of_two}
use light_rocm_runtime.Aql.{
  AqlKernelDispatchParameters, AqlDispatchOrdering, AqlBarrierAndParameters,
  build_aql_kernel_dispatch_packet, valid_aql_kernel_dispatch_packet, build_aql_barrier_and_packet,
  valid_aql_barrier_and_packet,
}
use light_rocm_runtime.Aql.Packet.{IsLaunchable, valid-build_iff}
use light_rocm_runtime.Producer.{
  Packet, dispatch, barrier, Event, AqlQueueProducerOps, AqlSubmitResult, reserved, refused,
  no_error, Machine, queue_full, publish_packet, publish_batch, valid_queue, slot_offset,
  client_accepts, submit_aql_kernel_dispatch, submit_aql_barriers_and_kernel_dispatch,
  submit_aql_barrier_and, submit_aql_barriers_and,
}
use light_rocm_runtime.Producer.Slots.{Slot, see, replay, LeavesAlone, place, filled, Fills}
use light_rocm_runtime.Producer.Log.{last_of}
use light_rocm_runtime.Producer.Filled.{
  Publishes, submit_aql_kernel_dispatch-Publishes, submit_aql_barriers_and-Publishes,
  submit_aql_barriers_and_kernel_dispatch-Publishes,
}
use light_rocm_runtime.Producer.Contract.{IsRing, IsSerialized}
use light_rocm_runtime.Producer.Ring.{
  submit_advances, submit_no_overwrite, submit_aql_kernel_dispatch_accepts,
}
use light_rocm_runtime.Producer.Order.{
  AlwaysWhole, submit_aql_kernel_dispatch-AlwaysWhole,
  submit_aql_barriers_and_kernel_dispatch-AlwaysWhole,
}

record Indices : Type 0 where
  read : ℕ
  write : ℕ

abbrev four_slots : AqlQueueProducerOps Indices
four_slots = record {
  has_context = true;
  has_ring_base = true;
  packet_count = 4;
  has_load_read_index = true;
  load_read_index = λ c. (c.read, c);
  has_load_write_index = true;
  load_write_index = λ c. (c.write, c);
  has_reserve_packet = true;
  reserve_packet = λ c n.
      if leb (c.write + n) u64_limit
      then reserved c.write (record c { write = c.write + n })
      else refused c;
  has_ring_doorbell = true;
  notify_doorbell = λ c id. c;
  validate_packet = none;
}

four_slots-IsRing : IsRing four_slots
four_slots-IsRing = record {
  read_index = λ c. c.read;
  write_index = λ c. c.write;
  read_loaded = λ c. omega arith;
  write_read_rises = λ c. omega arith;
  reserve_range = λ c n first c' e. ground arith;
  doorbell_read_rises = λ c id. omega arith;
}

four_slots-IsSerialized : IsSerialized four_slots four_slots-IsRing
unfolding four_slots-IsRing client_accepts
four_slots-IsSerialized = record {
  read_keeps_write = λ c. refl;
  write_keeps_write = λ c. refl;
  write_exact = λ c. refl;
  reserve_exact = λ c n first c' e. ground arith;
  doorbell_keeps_write = λ c id. refl;
  test_keeps_write = λ c packet. refl;
}

-- 1000 work items in groups of 100, in one dimension.
abbrev vector_launch : AqlKernelDispatchParameters
vector_launch = record {
  grid_size_x = 1000;
  grid_size_y = 1;
  grid_size_z = 1;
  workgroup_size_x = 100;
  workgroup_size_y = 1;
  workgroup_size_z = 1;
  private_segment_size = 0;
  group_segment_size = 0;
  kernel_object = 0x1000;
  kernarg_address = 0x2000;
  completion_signal = 0x3000;
}

abbrev no_ordering : AqlDispatchOrdering
no_ordering = record { pending_dispatch_count = 0; has_pending_dependencies = false }

abbrev one_dependency : AqlBarrierAndParameters
one_dependency = record {
  dependency_signals = record {
    signal0 = 0x40;
    signal1 = 0;
    signal2 = 0;
    signal3 = 0;
    signal4 = 0;
  };
  completion_signal = 0;
}

vector_launch-IsLaunchable : IsLaunchable vector_launch
vector_launch-IsLaunchable = omega arith

valid-build_iff_example :
    valid_aql_kernel_dispatch_packet (build_aql_kernel_dispatch_packet vector_launch no_ordering)
    ≡ true
valid-build_iff_example = (valid-build_iff vector_launch no_ordering).1 vector_launch-IsLaunchable

-- Two packets are in flight, in slots 2 and 3; two more fit, and no third.
abbrev busy : Machine Indices
busy = record { context = record { read = 2; write = 4 }; log = [] }

program : Unit {0}
unfolding is_power_of_two valid_queue slot_offset publish_packet publish_batch
    submit_aql_kernel_dispatch submit_aql_barriers_and_kernel_dispatch submit_aql_barrier_and
    build_aql_kernel_dispatch_packet valid_aql_kernel_dispatch_packet build_aql_barrier_and_packet
    valid_aql_barrier_and_packet
program = tt

accepted :
    (submit_aql_barriers_and_kernel_dispatch four_slots
      (some (one_dependency ∷ []))
      vector_launch
      no_ordering
      busy).1
    ≡ record { error = no_error; packet_id = 5 }
unfolding program
accepted = refl

too_many :
    (submit_aql_barriers_and_kernel_dispatch four_slots
      (some (one_dependency ∷ one_dependency ∷ []))
      vector_launch
      no_ordering
      busy).1.error
    ≡ queue_full
unfolding program
too_many = refl

abbrev blank_slot : Slot
blank_slot = record { header = 1; body = none }

abbrev barrier_then_dispatch : List Packet
barrier_then_dispatch =
    barrier (build_aql_barrier_and_packet one_dependency)
    ∷ dispatch (build_aql_kernel_dispatch_packet vector_launch no_ordering)
    ∷ []

abbrev submitted : Machine Indices × AqlSubmitResult
submitted =
    submit_aql_barriers_and_kernel_dispatch four_slots (some (one_dependency ∷ [])) vector_launch
      no_ordering busy

-- The barrier lies in slot 0, the dispatch in slot 1, and slot 3 is as it was.
leaves :
    (replay 0 submitted.0.log blank_slot
      ≡ filled (barrier (build_aql_barrier_and_packet one_dependency)))
    × (replay 64 submitted.0.log blank_slot
        ≡ filled (dispatch (build_aql_kernel_dispatch_packet vector_launch no_ordering)))
    × (replay 192 submitted.0.log blank_slot ≡ blank_slot)
unfolding program see
leaves = (refl, refl, refl)

submit_advances_example :
    Fills 4 4 barrier_then_dispatch submitted.1.packet_id [] submitted.0.log
    × (submitted.1.packet_id + 1 ≡ submitted.0.context.write)
    × (submitted.0.context.write ≡ 4 + 2)
    × (submitted.0.context.write ≤ submitted.0.context.read + 4)
unfolding four_slots-IsRing
submit_advances_example =
    submit_advances four_slots four_slots-IsRing four_slots-IsSerialized (omega arith)
      (one_dependency ∷ []) vector_launch no_ordering busy (ap (λ r. r.error) accepted)

-- Packet 3 is left alone.
submit_no_overwrite_example :
    (new : List Event) × (submitted.0.log ≡ [] ++ new) × All (LeavesAlone (place 4 3)) new
unfolding four_slots-IsRing
submit_no_overwrite_example =
    submit_no_overwrite four_slots four_slots-IsRing four_slots-IsSerialized (omega arith)
      (one_dependency ∷ []) vector_launch no_ordering busy 3 (ap (λ r. r.error) accepted) final_read
      (omega arith)
  where
    final_read : four_slots-IsRing.read_index submitted.0.context ≤ 3
    final_read = unfold program in omega arith

submit_aql_kernel_dispatch_accepts_example :
    (submit_aql_kernel_dispatch four_slots vector_launch no_ordering false busy).1
    ≡ record { error = no_error; packet_id = 4 }
unfolding program
submit_aql_kernel_dispatch_accepts_example =
    submit_aql_kernel_dispatch_accepts four_slots vector_launch no_ordering busy 4 _ refl refl
      vector_launch-IsLaunchable (omega arith) (omega arith) refl

submit_aql_kernel_dispatch-Publishes_example :
    Publishes four_slots
      (dispatch (build_aql_kernel_dispatch_packet vector_launch no_ordering) ∷ [])
      (λ first. first)
      []
      (submit_aql_kernel_dispatch four_slots vector_launch no_ordering false busy)
submit_aql_kernel_dispatch-Publishes_example =
    submit_aql_kernel_dispatch-Publishes four_slots (omega arith) vector_launch no_ordering false
      busy

submit_aql_barriers_and-Publishes_example :
    Publishes four_slots
      (barrier (build_aql_barrier_and_packet one_dependency) ∷ [])
      (last_of four_slots 1)
      []
      (submit_aql_barriers_and four_slots (some (one_dependency ∷ [])) busy)
submit_aql_barriers_and-Publishes_example =
    submit_aql_barriers_and-Publishes four_slots (omega arith) (one_dependency ∷ []) busy

submit_aql_barriers_and_kernel_dispatch-Publishes_example :
    Publishes four_slots barrier_then_dispatch (last_of four_slots 2) [] submitted
submit_aql_barriers_and_kernel_dispatch-Publishes_example =
    submit_aql_barriers_and_kernel_dispatch-Publishes four_slots (omega arith) (one_dependency ∷ [])
      vector_launch no_ordering busy

submit_aql_kernel_dispatch-AlwaysWhole_example :
    AlwaysWhole 0
      (submit_aql_kernel_dispatch four_slots vector_launch no_ordering false busy).0.log
      blank_slot
submit_aql_kernel_dispatch-AlwaysWhole_example =
    submit_aql_kernel_dispatch-AlwaysWhole 0 four_slots blank_slot busy (inl refl) vector_launch
      no_ordering false

submit_aql_barriers_and_kernel_dispatch-AlwaysWhole_example :
    AlwaysWhole 64
      (submit_aql_barriers_and_kernel_dispatch four_slots
        (some (one_dependency ∷ []))
        vector_launch
        no_ordering
        busy).0.log
      blank_slot
submit_aql_barriers_and_kernel_dispatch-AlwaysWhole_example =
    submit_aql_barriers_and_kernel_dispatch-AlwaysWhole 64 four_slots blank_slot busy (inl refl)
      (one_dependency ∷ []) vector_launch no_ordering

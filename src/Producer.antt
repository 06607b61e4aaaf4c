-- ===== src/Producer.antt =====
-- src/aql_producer.cpp: submission of AQL packets through the callbacks of `AqlQueueProducerOps`.
-- The callbacks are a parameter: each takes the state of its context and returns the new one, so
-- that the consumer may move between two calls. What the producer itself writes to the ring and to
-- the doorbell is a log of events, oldest first.
pub mod Slots
pub mod Batch
pub mod Log
pub mod Filled
pub mod Contract
pub mod Ring
pub mod Order
mod Examples
use light_rocm_runtime.Prelude.{
  ℕ, ◌+◌, ◌-◌, ◌*◌, ◌%◌, Bool, true, false, not, ◌&&◌, ◌||◌, Option, none, some, List, [], ◌∷◌,
  ◌++◌, map, length, ltb, leb, ◌==◌, ◌!=◌, if◌then◌else◌, bit_and,
}
use light_rocm_runtime.Word.{u64_limit, u64_max, is_power_of_two}
use light_rocm_runtime.Aql.{
  packet_type_invalid, AqlKernelDispatchPacket, AqlBarrierAndPacket, AqlKernelDispatchParameters,
  AqlDispatchOrdering, AqlBarrierAndParameters, build_aql_kernel_dispatch_packet,
  valid_aql_kernel_dispatch_packet, build_aql_barrier_and_packet, valid_aql_barrier_and_packet,
}

pub data Packet : Type 0 where
  dispatch : AqlKernelDispatchPacket → Packet
  barrier : AqlBarrierAndPacket → Packet

abbrev pub header_of : Packet → ℕ
header_of (dispatch p) = p.header
header_of (barrier p) = p.header

-- A write of the producer: the header word of a slot, the 62 bytes behind it, or the doorbell.
pub data Event : Type 0 where
  store_header : ℕ → ℕ → Event
  copy_body : ℕ → Packet → Event
  ring_doorbell : ℕ → Event

pub data Reservation (C : Type 0) : Type 0 where
  reserved : ℕ → C → Reservation C
  refused : C → Reservation C

-- A pointer that may be null is a flag beside its function; `valid_queue` reads the flags first.
pub record AqlQueueProducerOps (C : Type 0) : Type 0 where
  pub has_context : Bool
  pub has_ring_base : Bool
  pub packet_count : ℕ
  pub has_load_read_index : Bool
  pub load_read_index : C → ℕ × C
  pub has_load_write_index : Bool
  pub load_write_index : C → ℕ × C
  pub has_reserve_packet : Bool
  pub reserve_packet : C → ℕ → Reservation C
  pub has_ring_doorbell : Bool
  pub notify_doorbell : C → ℕ → C
  pub validate_packet : Option (C → AqlKernelDispatchPacket → Bool × C)

pub data AqlSubmitError : Type 0 where
  no_error invalid_packet invalid_queue queue_full reserve_failed : AqlSubmitError

pub record AqlSubmitResult : Type 0 where
  pub error : AqlSubmitError
  pub packet_id : ℕ

pub record Machine (C : Type 0) : Type 0 where
  pub context : C
  pub log : List Event

unfoldable pub publish_packet : ℕ → Packet → List Event
publish_packet slot packet =
    store_header slot packet_type_invalid
    ∷ copy_body slot packet
    ∷ store_header slot (header_of packet)
    ∷ []

abbrev packet_size : ℕ
packet_size = 64

all_barriers_valid : List AqlBarrierAndParameters → Bool
all_barriers_valid [] = true
all_barriers_valid (p ∷ ps) =
    valid_aql_barrier_and_packet (build_aql_barrier_and_packet p) && all_barriers_valid ps

abbrev barrier_packets : List AqlBarrierAndParameters → List Packet
barrier_packets [] = []
barrier_packets (p ∷ ps) = barrier (build_aql_barrier_and_packet p) ∷ barrier_packets ps

module _ {C : Type 0} (queue : AqlQueueProducerOps C) where
  unfoldable pub valid_queue : Bool
  valid_queue =
      queue.has_context
      && queue.has_ring_base
      && is_power_of_two queue.packet_count
      && queue.has_load_read_index
      && queue.has_load_write_index
      && queue.has_reserve_packet
      && queue.has_ring_doorbell

  -- The byte offset of a packet's slot in the ring.
  unfoldable pub slot_offset : ℕ → ℕ
  slot_offset packet_id = bit_and packet_id (queue.packet_count - 1) * packet_size % u64_limit

  refuse : AqlSubmitError → C → List Event → Machine C × AqlSubmitResult
  refuse e c log = (record { context = c; log = log }, record { error = e; packet_id = 0 })

  finish : C → List Event → ℕ → Machine C × AqlSubmitResult
  finish c log packet_id = (
    record {
      context = queue.notify_doorbell c packet_id;
      log = log ++ (ring_doorbell packet_id ∷ []);
    },
    record { error = no_error; packet_id = packet_id },
  )

  -- The second half of `submit_packet`, from the reservation on.
  reserve_one : Packet → C → List Event → Machine C × AqlSubmitResult
  unfolding refuse finish slot_offset publish_packet
  reserve_one packet c log = elim (queue.reserve_packet c 1) [
    | refused c' ↦ refuse reserve_failed c' log
    | reserved packet_id c' ↦
        finish c' (log ++ publish_packet (slot_offset packet_id) packet) packet_id
  ]

  pub submit_packet : Packet → Bool → C → List Event → Machine C × AqlSubmitResult
  unfolding reserve_one
  submit_packet packet capacity_prevalidated c log =
      if capacity_prevalidated
      then reserve_one packet c log
      else (let (read_index, c1) = queue.load_read_index c in
          let (write_index, c2) = queue.load_write_index c1 in
          if ltb write_index read_index || leb queue.packet_count (write_index - read_index)
          then refuse queue_full c2 log
          else reserve_one packet c2 log)

  -- The test of the client, which may change the context.
  unfoldable pub client_accepts : C → AqlKernelDispatchPacket → Bool × C
  client_accepts c packet = elim queue.validate_packet [
    | none ↦ (true, c)
    | some validate ↦ validate c packet
  ]

  pub submit_aql_kernel_dispatch :
      AqlKernelDispatchParameters
      → AqlDispatchOrdering
      → Bool
      → Machine C
      → Machine C × AqlSubmitResult
  unfolding submit_packet client_accepts
  submit_aql_kernel_dispatch parameters ordering capacity_prevalidated m =
      let packet = build_aql_kernel_dispatch_packet parameters ordering in
      if not valid_queue
      then refuse invalid_queue m.context m.log
      else if not (valid_aql_kernel_dispatch_packet packet)
      then refuse invalid_packet m.context m.log
      else (let (accepted, c) = client_accepts m.context packet in
          if not accepted
          then refuse invalid_packet c m.log
          else submit_packet (dispatch packet) capacity_prevalidated c m.log)

  -- The publication loop: packet `index` of the batch goes to the slot of `first + index`.
  unfoldable pub publish_batch : ℕ → ℕ → List Packet → List Event
  publish_batch first index [] = []
  publish_batch first index (packet ∷ rest) =
      publish_packet (slot_offset ((first + index) % u64_limit)) packet
      ++ publish_batch first (index + 1) rest

  publish_reserved : List Packet → List Event → Reservation C → Machine C × AqlSubmitResult
  unfolding refuse finish publish_batch
  publish_reserved packets log (refused c) = refuse reserve_failed c log
  publish_reserved packets log (reserved first c) =
      finish c (log ++ publish_batch first 0 packets) ((first + (length packets - 1)) % u64_limit)

  -- What both batch submissions do once the packets are validated: the capacity test, one
  -- reservation for all, the publication and one doorbell for the last packet.
  submit_batch : List Packet → C → List Event → Machine C × AqlSubmitResult
  unfolding publish_reserved
  submit_batch packets c log =
      let count = length packets in
      if ltb queue.packet_count count
      then refuse queue_full c log
      else (let (read_index, c1) = queue.load_read_index c in
          let (write_index, c2) = queue.load_write_index c1 in
          if ltb write_index read_index
            || ltb (queue.packet_count - count) (write_index - read_index)
          then refuse queue_full c2 log
          else publish_reserved packets log (queue.reserve_packet c2 count))

  -- `none` is the null pointer; the count is that of the list.
  pub submit_aql_barriers_and :
      Option (List AqlBarrierAndParameters) → Machine C → Machine C × AqlSubmitResult
  unfolding submit_batch all_barriers_valid
  submit_aql_barriers_and none m =
      refuse (if valid_queue then invalid_packet else invalid_queue) m.context m.log
  submit_aql_barriers_and (some parameters) m =
      if not valid_queue
      then refuse invalid_queue m.context m.log
      else if length parameters == 0 || not (all_barriers_valid parameters)
      then refuse invalid_packet m.context m.log
      else submit_batch (barrier_packets parameters) m.context m.log

  pub submit_aql_barrier_and : AqlBarrierAndParameters → Machine C → Machine C × AqlSubmitResult
  unfolding submit_aql_barriers_and
  submit_aql_barrier_and parameters = submit_aql_barriers_and (some (parameters ∷ []))

  pub submit_aql_barriers_and_kernel_dispatch :
      Option (List AqlBarrierAndParameters)
      → AqlKernelDispatchParameters
      → AqlDispatchOrdering
      → Machine C
      → Machine C × AqlSubmitResult
  unfolding submit_batch all_barriers_valid client_accepts
  submit_aql_barriers_and_kernel_dispatch none parameters ordering m =
      refuse (if valid_queue then invalid_packet else invalid_queue) m.context m.log
  submit_aql_barriers_and_kernel_dispatch (some barriers) parameters ordering m =
      let packet = build_aql_kernel_dispatch_packet parameters ordering in
      if not valid_queue
      then refuse invalid_queue m.context m.log
      else if length barriers == 0
          || length barriers == u64_max
          || not (all_barriers_valid barriers)
          || not (valid_aql_kernel_dispatch_packet packet)
      then refuse invalid_packet m.context m.log
      else (let (accepted, c) = client_accepts m.context packet in
          if not accepted
          then refuse invalid_packet c m.log
          else submit_batch (barrier_packets barriers ++ (dispatch packet ∷ [])) c m.log)

-- ===== src/Producer/Log.antt =====
-- The writes of a submission in src/aql_producer.cpp, from its beginning to its end, as the publications
-- that its parts make.
use light_rocm_runtime.Prelude.{
  ℕ, ◌+◌, ◌-◌, ◌%◌, ◌≤◌, length, ◌≡◌, refl, ◌≢◌, ◌⊎◌, inl, inr, Bool, true, List, [], ◌∷◌, ◌++◌,
  some, arith,
}
use light_rocm_runtime.Word.{u64_limit, is_power_of_two}
use light_rocm_runtime.Word.Laws.{is_power_of_two-positive}
use light_rocm_runtime.Aql.{
  AqlKernelDispatchParameters, AqlDispatchOrdering, AqlBarrierAndParameters,
  build_aql_kernel_dispatch_packet,
}
use light_rocm_runtime.Producer.{
  Packet, dispatch, Event, Reservation, reserved, refused, refuse, reserve_one, submit_packet,
  publish_reserved, ring_doorbell, AqlQueueProducerOps, no_error, AqlSubmitResult, Machine,
  publish_packet, slot_offset, publish_batch, submit_batch, barrier_packets, client_accepts,
  valid_queue, submit_aql_kernel_dispatch, submit_aql_barriers_and,
  submit_aql_barriers_and_kernel_dispatch,
}

module _ {C : Type 0} (queue : AqlQueueProducerOps C) where
  -- A result that is an error and an unchanged log, or success on a reservation of `count` ids from `first` on,
  -- which the ring has room for: the log has the events `written first` behind it and then the
  -- doorbell, for the id that is returned.
  abbrev pub Appends :
      ℕ → (ℕ → List Event) → (ℕ → ℕ) → List Event → Machine C × AqlSubmitResult → Type 0
  Appends count written last log r =
      ((r.1.error ≢ no_error) × (r.0.log ≡ log))
      ⊎ ((r.1.error ≡ no_error)
          × (count ≤ queue.packet_count)
          × (first : ℕ) × (c : C) × (c' : C) × (queue.reserve_packet c count ≡ reserved first c')
          × (r.1.packet_id ≡ last first)
          × (r.0.log ≡ (log ++ written first) ++ (ring_doorbell (last first) ∷ [])))

  -- A success needs a ring of a power of two slots.
  abbrev pub NeedsPower : Machine C × AqlSubmitResult → Type 0
  NeedsPower r = r.1.error ≡ no_error → is_power_of_two queue.packet_count ≡ true

  -- The last id of a batch.
  abbrev pub last_of : ℕ → ℕ → ℕ
  last_of count first = (first + (count - 1)) % u64_limit

  module _ (packets : List Packet) (log : List Event) where
    publish_reserved-Appends :
        (c : C) (r : Reservation C)
        → queue.reserve_packet c (length packets) ≡ r
        → length packets ≤ queue.packet_count
        → Appends
            (length packets)
            (λ first. publish_batch queue first 0 packets)
            (last_of (length packets))
            log
            (publish_reserved queue packets log r)
    unfolding publish_reserved refuse
    publish_reserved-Appends c (reserved first c') e room =
        inr (refl, room, first, c, c', e, refl, refl)
    publish_reserved-Appends c (refused c') e room = inl ((λ x. cc), refl)

    submit_batch-Appends :
        (c : C)
        → Appends
            (length packets)
            (λ first. publish_batch queue first 0 packets)
            (last_of (length packets))
            log
            (submit_batch queue packets c log)
    unfolding submit_batch refuse
    submit_batch-Appends c =
        let loaded = queue.load_write_index (queue.load_read_index c).1 in
        ground (
          arith,
          publish_reserved-Appends loaded.1 (queue.reserve_packet loaded.1 (length packets)) refl,
        )

  reserve_one-Appends :
      (packet : Packet) (c : C) (log : List Event)
      → 1 ≤ queue.packet_count
      → Appends 1
          (λ first. publish_packet (slot_offset queue first) packet)
          (λ first. first)
          log
          (reserve_one queue packet c log)
  unfolding reserve_one refuse
  reserve_one-Appends packet c log room = go (queue.reserve_packet c 1) refl
    where
      go :
          (r : Reservation C)
          → queue.reserve_packet c 1 ≡ r
          → Appends 1
              (λ first. publish_packet (slot_offset queue first) packet)
              (λ first. first)
              log
              (reserve_one queue packet c log)
      go (reserved first c') e = rw (e, reserve_one) (inr (refl, room, first, c, c', e, refl, refl))
      go (refused c') e = rw (e, reserve_one) (inl ((λ x. cc), refl))

  submit_packet-Appends :
      (packet : Packet) (prevalidated : Bool) (c : C) (log : List Event)
      → 1 ≤ queue.packet_count
      → Appends 1
          (λ first. publish_packet (slot_offset queue first) packet)
          (λ first. first)
          log
          (submit_packet queue packet prevalidated c log)
  unfolding submit_packet refuse
  submit_packet-Appends packet prevalidated c log room =
      let loaded = queue.load_write_index (queue.load_read_index c).1 in
      ground
        (arith, reserve_one-Appends packet c log room, reserve_one-Appends packet loaded.1 log room)

  pub submit_aql_kernel_dispatch-Appends :
      (p : AqlKernelDispatchParameters) (o : AqlDispatchOrdering) (prevalidated : Bool)
      (m : Machine C)
      → let packet = dispatch (build_aql_kernel_dispatch_packet p o) in
        let r = submit_aql_kernel_dispatch queue p o prevalidated m in
        Appends 1
          (λ first. publish_packet (slot_offset queue first) packet)
          (λ first. first)
          m.log
          r
        × NeedsPower r
  unfolding submit_aql_kernel_dispatch refuse valid_queue
  submit_aql_kernel_dispatch-Appends p o prevalidated m =
      let packet = build_aql_kernel_dispatch_packet p o in
      let c = (client_accepts queue m.context packet).1 in
      let sent : is_power_of_two queue.packet_count ≡ true
          → Appends 1 (λ first. publish_packet (slot_offset queue first) (dispatch packet))
              (λ first. first) m.log (submit_packet queue (dispatch packet) prevalidated c m.log) =
        λ power.
          submit_packet-Appends (dispatch packet) prevalidated c m.log
            (is_power_of_two-positive queue.packet_count power) in
      (ground (arith, sent), ground arith)

  pub submit_aql_barriers_and-Appends :
      (barriers : List AqlBarrierAndParameters) (m : Machine C)
      → let packets = barrier_packets barriers in
        let r = submit_aql_barriers_and queue (some barriers) m in
        Appends
          (length packets)
          (λ first. publish_batch queue first 0 packets)
          (last_of (length packets))
          m.log
          r
        × NeedsPower r
  unfolding submit_aql_barriers_and refuse valid_queue
  submit_aql_barriers_and-Appends barriers m = (
    ground (arith, submit_batch-Appends (barrier_packets barriers) m.log m.context),
    ground arith,
  )

  pub submit_aql_barriers_and_kernel_dispatch-Appends :
      (barriers : List AqlBarrierAndParameters) (p : AqlKernelDispatchParameters)
      (o : AqlDispatchOrdering) (m : Machine C)
      → let packets =
          barrier_packets barriers ++ (dispatch (build_aql_kernel_dispatch_packet p o) ∷ []) in
        let r = submit_aql_barriers_and_kernel_dispatch queue (some barriers) p o m in
        Appends
          (length packets)
          (λ first. publish_batch queue first 0 packets)
          (last_of (length packets))
          m.log
          r
        × NeedsPower r
  unfolding submit_aql_barriers_and_kernel_dispatch refuse valid_queue
  submit_aql_barriers_and_kernel_dispatch-Appends barriers p o m =
      let packet = build_aql_kernel_dispatch_packet p o in
      (
        ground (
          arith,
          submit_batch-Appends (barrier_packets barriers ++ (dispatch packet ∷ [])) m.log
              (client_accepts queue m.context packet).1,
        ),
        ground arith,
      )

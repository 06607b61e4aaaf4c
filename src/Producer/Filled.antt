-- ===== src/Producer/Filled.antt =====
-- What a submission of src/aql_producer.cpp leaves in the slots of the ring, whatever the callbacks return.
use light_rocm_runtime.Prelude.{
  ℕ, ◌*◌, ◌≤◌, length, ◌≡◌, ◌≢◌, sym, ◌⊎◌, inl, inr, Bool, List, [], ◌∷◌, ◌++◌, some, subst,
}
use light_rocm_runtime.Word.{u64_limit}
use light_rocm_runtime.Aql.{
  AqlKernelDispatchParameters, AqlDispatchOrdering, AqlBarrierAndParameters,
  build_aql_kernel_dispatch_packet,
}
use light_rocm_runtime.Producer.{
  Packet, dispatch, Event, reserved, AqlQueueProducerOps, no_error, AqlSubmitResult, Machine,
  publish_packet, slot_offset, publish_batch, ring_doorbell, barrier_packets,
  submit_aql_kernel_dispatch, submit_aql_barriers_and, submit_aql_barriers_and_kernel_dispatch,
}
use light_rocm_runtime.Producer.Slots.{Fills}
use light_rocm_runtime.Producer.Batch.{publish_packet-Fills, publish_batch-Fills}
use light_rocm_runtime.Producer.Log.{
  Appends, NeedsPower, last_of, submit_aql_kernel_dispatch-Appends, submit_aql_barriers_and-Appends,
  submit_aql_barriers_and_kernel_dispatch-Appends,
}

module _ {C : Type 0} (queue : AqlQueueProducerOps C) where
  -- An error and an unchanged log, or success: the packets fill the slots of the ids of one reservation, and
  -- the doorbell is rung once, last, with the id that is returned.
  abbrev pub Publishes : List Packet → (ℕ → ℕ) → List Event → Machine C × AqlSubmitResult → Type 0
  Publishes packets last log r =
      ((r.1.error ≢ no_error) × (r.0.log ≡ log))
      ⊎ ((r.1.error ≡ no_error)
          × (first : ℕ) × (c : C) × (c' : C) × (queue.reserve_packet c (length packets)
              ≡ reserved first c')
          × (r.1.packet_id ≡ last first)
          × Fills queue.packet_count first packets r.1.packet_id log r.0.log)

  module _ (fits : queue.packet_count * 64 ≤ u64_limit) where
    Appends-Publishes :
        (packets : List Packet) (last : ℕ → ℕ) (log : List Event) (r : Machine C × AqlSubmitResult)
        → Appends queue (length packets) (λ first. publish_batch queue first 0 packets) last log r
          × NeedsPower queue r
        → Publishes packets last log r
    Appends-Publishes packets last log r (inl refused_, _) = inl refused_
    Appends-Publishes packets last log r (inr (ok, room, first, c, c', e, id, written), power) =
        inr (
          ok,
          first,
          c,
          c',
          e,
          id,
          subst (λ after. Fills queue.packet_count first packets r.1.packet_id log after)
              (sym written)
              (subst
                (λ n. Fills queue.packet_count first packets n log (
                  (log ++ publish_batch queue first 0 packets)
                  ++ (ring_doorbell (last first) ∷ [])))
                (sym id)
                (publish_batch-Fills queue (power ok) fits first (last first) packets log room)),
        )

    -- For a ring that lies in the address space: a kernel dispatch that fails leaves the ring and the doorbell
    -- alone. One that succeeds leaves the built packet with its header in the slot of the one id
    -- that it has reserved, writes to no other slot, and rings the doorbell once, last, with that id,
    -- which it returns.
    pub submit_aql_kernel_dispatch-Publishes :
        (p : AqlKernelDispatchParameters) (o : AqlDispatchOrdering) (prevalidated : Bool)
        (m : Machine C)
        → Publishes
            (dispatch (build_aql_kernel_dispatch_packet p o) ∷ [])
            (λ first. first)
            m.log
            (submit_aql_kernel_dispatch queue p o prevalidated m)
    submit_aql_kernel_dispatch-Publishes p o prevalidated m =
        let packet = dispatch (build_aql_kernel_dispatch_packet p o) in
        let r = submit_aql_kernel_dispatch queue p o prevalidated m in
        let (appended, power) = submit_aql_kernel_dispatch-Appends queue p o prevalidated m in
        elim appended [
          | inl failed_ ↦ inl failed_
          | inr (ok, room, first, c, c', e, id, written) ↦ inr (
            ok,
            first,
            c,
            c',
            e,
            id,
            subst (λ after. Fills queue.packet_count first (packet ∷ []) r.1.packet_id m.log after)
                (sym written)
                (subst
                  (λ n. Fills queue.packet_count first (packet ∷ []) n m.log (
                    (m.log ++ publish_packet (slot_offset queue first) packet)
                    ++ (ring_doorbell first ∷ [])))
                  (sym id) (publish_packet-Fills queue (power ok) fits first packet m.log)),
          )
        ]

    -- For a ring that lies in the address space: a submission of barriers that fails leaves the ring and the
    -- doorbell alone. One that succeeds leaves the barriers, in their order and each with its header, in
    -- the slots of consecutive ids, from the first of one reservation of their number on, writes to no
    -- other slot, and rings the doorbell once, last, with the last id, which it returns.
    pub submit_aql_barriers_and-Publishes :
        (barriers : List AqlBarrierAndParameters) (m : Machine C)
        → Publishes
            (barrier_packets barriers)
            (last_of queue (length (barrier_packets barriers)))
            m.log
            (submit_aql_barriers_and queue (some barriers) m)
    submit_aql_barriers_and-Publishes barriers m =
        Appends-Publishes (barrier_packets barriers)
          (last_of queue (length (barrier_packets barriers))) m.log
          (submit_aql_barriers_and queue (some barriers) m)
          (submit_aql_barriers_and-Appends queue barriers m)

    -- For a ring that lies in the address space: a submission of barriers with a dispatch that fails leaves the
    -- ring and the doorbell alone. One that succeeds leaves the barriers in their order and the dispatch
    -- behind them, each with its header, in the slots of consecutive ids, from the first of one
    -- reservation of their number on, writes to no other slot, and rings the doorbell once, last, with
    -- the last id, which it returns.
    pub submit_aql_barriers_and_kernel_dispatch-Publishes :
        (barriers : List AqlBarrierAndParameters) (p : AqlKernelDispatchParameters)
        (o : AqlDispatchOrdering) (m : Machine C)
        → let packets =
            barrier_packets barriers ++ (dispatch (build_aql_kernel_dispatch_packet p o) ∷ []) in
          Publishes packets
            (last_of queue (length packets))
            m.log
            (submit_aql_barriers_and_kernel_dispatch queue (some barriers) p o m)
    submit_aql_barriers_and_kernel_dispatch-Publishes barriers p o m =
        let packets =
          barrier_packets barriers ++ (dispatch (build_aql_kernel_dispatch_packet p o) ∷ []) in
        Appends-Publishes packets (last_of queue (length packets)) m.log
          (submit_aql_barriers_and_kernel_dispatch queue (some barriers) p o m)
          (submit_aql_barriers_and_kernel_dispatch-Appends queue barriers p o m)

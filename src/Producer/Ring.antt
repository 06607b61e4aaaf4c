-- ===== src/Producer/Ring.antt =====
-- The submissions of src/aql_producer.cpp on a queue whose callbacks keep the contract.
use light_rocm_runtime.Prelude.{
  ℕ, ◌+◌, ◌-◌, ◌*◌, ◌%◌, ◌≤◌, ◌<◌, ◌≡◌, refl, sym, ◌∙◌, true, false, List, [], ◌∷◌, ◌++◌, none,
  some, arith, length, subst, All, All-append,
}
use mathlib.Core.List.{append_assoc}
use light_rocm_runtime.Word.{u64_limit, is_power_of_two}
use light_rocm_runtime.Aql.{
  AqlKernelDispatchParameters, AqlDispatchOrdering, AqlBarrierAndParameters,
  build_aql_kernel_dispatch_packet,
}
use light_rocm_runtime.Aql.Packet.{IsLaunchable, valid-build_iff}
use light_rocm_runtime.Producer.{
  Packet, dispatch, Event, ring_doorbell, AqlQueueProducerOps, no_error, AqlSubmitResult,
  Reservation, reserved, refused, refuse, publish_reserved, submit_batch, valid_queue, Machine,
  client_accepts, publish_batch, barrier_packets, submit_aql_kernel_dispatch,
  submit_aql_barriers_and_kernel_dispatch,
}
use light_rocm_runtime.Producer.Contract.{IsRing, IsSerialized}
use light_rocm_runtime.Producer.Slots.{LeavesAlone, place, place-AreApart, Fills}
use light_rocm_runtime.Producer.Batch.{publish_batch-Fills}

module _ {C : Type 0} (queue : AqlQueueProducerOps C) (ring : IsRing queue)
    (alone : IsSerialized queue ring) where
  open ring use {read_index, write_index}

  -- A batch at the write index of the context `c` is in the log, and fits before the slots that the
  -- consumer has not passed.
  record Fits (packets : List Packet) (c : C) (log : List Event) (r : Machine C × AqlSubmitResult)
      : Type 0 where
    written :
        r.0.log
        ≡ (log ++ publish_batch queue (write_index c) 0 packets)
          ++ (ring_doorbell r.1.packet_id ∷ [])
    last : r.1.packet_id ≡ (write_index c + (length packets - 1)) % u64_limit
    small : length packets ≤ queue.packet_count
    room : write_index c + length packets ≤ read_index r.0.context + queue.packet_count
    unwrapped : write_index c + length packets ≤ u64_limit
    advanced : write_index r.0.context ≡ write_index c + length packets

  publish_reserved-Fits :
      (packets : List Packet) (c c2 : C) (log : List Event) (r : Reservation C)
      → queue.reserve_packet c2 (length packets) ≡ r
      → write_index c2 ≡ write_index c
      → length packets ≤ queue.packet_count
      → write_index c + length packets ≤ read_index c2 + queue.packet_count
      → (publish_reserved queue packets log r).1.error ≡ no_error
      → Fits packets c log (publish_reserved queue packets log r)
  unfolding publish_reserved
  publish_reserved-Fits packets c c2 log (reserved first c3) e same small room ok =
      let law = ring.reserve_range c2 (length packets) first c3 e in
      let exact = alone.reserve_exact c2 (length packets) first c3 e in
      let id = (first + (length packets - 1)) % u64_limit in
      let at : first ≡ write_index c = exact.0 ∙ same in
      record {
        written = rw at;
        last = rw at;
        small = small;
        room = omega (arith, law.3, ring.doorbell_read_rises c3 id);
        unwrapped = omega (arith, law.2);
        advanced = omega (arith, exact.1, alone.doorbell_keeps_write c3 id);
      }
  publish_reserved-Fits packets c c2 log (refused c3) e same small room ok = cc

  submit_batch-Fits :
      (packets : List Packet) (c : C) (log : List Event)
      → (submit_batch queue packets c log).1.error ≡ no_error
      → Fits packets c log (submit_batch queue packets c log)
  unfolding submit_batch refuse
  submit_batch-Fits packets c log ok =
      let c1 = (queue.load_read_index c).1 in
      let c2 = (queue.load_write_index c1).1 in
      let same : write_index c2 ≡ write_index c =
        alone.write_keeps_write c1 ∙ alone.read_keeps_write c in
      ground (
        arith,
        ring.read_loaded c,
        alone.write_exact c1,
        alone.read_keeps_write c,
        ring.write_read_rises c1,
        publish_reserved-Fits packets c c2 log (queue.reserve_packet c2 (length packets)) refl same,
      )

  Fits-moved :
      (packets : List Packet) (c d : C) (log : List Event) (r : Machine C × AqlSubmitResult)
      → write_index c ≡ write_index d
      → Fits packets c log r
      → Fits packets d log r
  Fits-moved packets c d log r e fits = record {
    written =
        subst
          (λ (n : ℕ).
            r.0.log
            ≡ (log ++ publish_batch queue n 0 packets) ++ (ring_doorbell r.1.packet_id ∷ []))
          e fits.written;
    last = subst (λ (n : ℕ). r.1.packet_id ≡ (n + (length packets - 1)) % u64_limit) e fits.last;
    small = fits.small;
    room = omega (arith, fits.room);
    unwrapped = omega (arith, fits.unwrapped);
    advanced = omega (arith, fits.advanced);
  }

  accepted-Fits :
      (barriers : List AqlBarrierAndParameters) (p : AqlKernelDispatchParameters)
      (o : AqlDispatchOrdering) (m : Machine C)
      → let packets =
          barrier_packets barriers ++ (dispatch (build_aql_kernel_dispatch_packet p o) ∷ []) in
        let r = submit_aql_barriers_and_kernel_dispatch queue (some barriers) p o m in
        r.1.error ≡ no_error
        → Fits packets m.context m.log r × (is_power_of_two queue.packet_count ≡ true)
  unfolding submit_aql_barriers_and_kernel_dispatch refuse valid_queue
  accepted-Fits barriers p o m ok =
      let packet = build_aql_kernel_dispatch_packet p o in
      let packets = barrier_packets barriers ++ (dispatch packet ∷ []) in
      let c = (client_accepts queue m.context packet).1 in
      let sent : (submit_batch queue packets c m.log).1.error ≡ no_error
          → Fits packets m.context m.log (submit_batch queue packets c m.log) =
        λ e.
          Fits-moved packets c m.context m.log _ (alone.test_keeps_write m.context packet)
            (submit_batch-Fits packets c m.log e) in
      (ground (arith, sent), ground arith)

  module _ (fits_memory : queue.packet_count * 64 ≤ u64_limit) where
    -- On a queue whose callbacks keep their contract, without another producer, whose ring lies in the address
    -- space, barriers with a dispatch that are accepted leave, in their order and each with its header, the slots of the ids from the old
    -- write index on filled, and write to no other slot; the doorbell is rung once, last, with the last
    -- of these ids, which is returned; the write index moves just past it, and stays within one ring of
    -- the read index.
    pub submit_advances :
        (barriers : List AqlBarrierAndParameters) (p : AqlKernelDispatchParameters)
        (o : AqlDispatchOrdering) (m : Machine C)
        → let packets =
            barrier_packets barriers ++ (dispatch (build_aql_kernel_dispatch_packet p o) ∷ []) in
          let r = submit_aql_barriers_and_kernel_dispatch queue (some barriers) p o m in
          r.1.error ≡ no_error
          → Fills queue.packet_count (write_index m.context) packets r.1.packet_id m.log r.0.log
            × (r.1.packet_id + 1 ≡ write_index r.0.context)
            × (write_index r.0.context ≡ write_index m.context + length packets)
            × (write_index r.0.context ≤ read_index r.0.context + queue.packet_count)
    submit_advances barriers p o m ok =
        let packets =
          barrier_packets barriers ++ (dispatch (build_aql_kernel_dispatch_packet p o) ∷ []) in
        let r = submit_aql_barriers_and_kernel_dispatch queue (some barriers) p o m in
        let (fits, power) = accepted-Fits barriers p o m ok in
        (
          subst
              (λ after.
                Fills queue.packet_count (write_index m.context) packets r.1.packet_id m.log after)
              (sym fits.written)
              (publish_batch-Fills queue power fits_memory (write_index m.context) r.1.packet_id
                packets m.log fits.small),
          omega (
            arith,
            fits.last,
            fits.unwrapped,
            fits.advanced,
            some_packet (barrier_packets barriers)
                (dispatch (build_aql_kernel_dispatch_packet p o)),
          ),
          fits.advanced,
          omega (arith, fits.room, fits.advanced),
        )
      where
        some_packet : (xs : List Packet) (x : Packet) → 0 < length (xs ++ (x ∷ []))
        some_packet [] x = omega arith
        some_packet (y ∷ ys) x = omega (arith, some_packet ys x)

    -- On a queue whose callbacks keep their contract, without another producer, whose ring lies in the address
    -- space: while barriers with a dispatch are submitted and accepted, no write touches a byte of the slot of a packet that was
    -- submitted before (its id `j` is below the old write index) and that the consumer has not passed
    -- when the call returns.
    pub submit_no_overwrite :
        (barriers : List AqlBarrierAndParameters) (p : AqlKernelDispatchParameters)
        (o : AqlDispatchOrdering) (m : Machine C) (j : ℕ)
        → let r = submit_aql_barriers_and_kernel_dispatch queue (some barriers) p o m in
          r.1.error ≡ no_error
          → read_index r.0.context ≤ j
          → j < write_index m.context
          → (new : List Event) × (r.0.log ≡ m.log ++ new)
            × All (LeavesAlone (place queue.packet_count j)) new
    submit_no_overwrite barriers p o m j ok later earlier =
        let r = submit_aql_barriers_and_kernel_dispatch queue (some barriers) p o m in
        let (filled, _, advanced, room) = submit_advances barriers p o m ok in
        let bell = ring_doorbell r.1.packet_id ∷ [] in
        (
          filled.new ++ bell,
          filled.appended ∙ append_assoc m.log filled.new bell,
          All-append (LeavesAlone (place queue.packet_count j)) filled.new bell
              (filled.others (place queue.packet_count j) λ id low high.
                place-AreApart queue.packet_count j id (omega arith)
                  (omega (arith, advanced, room)))
              (tt, tt),
        )

-- On a usable queue, without a client test, whose loaded write index is from the loaded read index on and
-- less than a ring past it, a dispatch with launchable parameters is accepted under the id that the
-- reservation grants, whatever other producers do.
pub submit_aql_kernel_dispatch_accepts :
    {C : Type 0} (queue : AqlQueueProducerOps C) (p : AqlKernelDispatchParameters)
    (o : AqlDispatchOrdering) (m : Machine C) (id : ℕ) (c' : C)
    → let c1 = (queue.load_read_index m.context).1 in
      let c2 = (queue.load_write_index c1).1 in
      let read = (queue.load_read_index m.context).0 in
      let write = (queue.load_write_index c1).0 in
      valid_queue queue ≡ true
      → queue.validate_packet ≡ none
      → IsLaunchable p
      → read ≤ write
      → write < read + queue.packet_count
      → queue.reserve_packet c2 1 ≡ reserved id c'
      → (submit_aql_kernel_dispatch queue p o false m).1
        ≡ record { error = no_error; packet_id = id }
unfolding submit_aql_kernel_dispatch client_accepts
submit_aql_kernel_dispatch_accepts queue p o m id c' usable untested launchable below room e =
    ground (arith, (valid-build_iff p o).1 launchable)

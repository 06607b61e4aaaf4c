-- ===== src/Producer/Order.antt =====
-- What the packet processor can see of a ring while src/aql_producer.cpp writes it, at any moment.
use light_rocm_runtime.Prelude.{
  ℕ, ◌+◌, ◌%◌, ◌≡◌, refl, ◌⊎◌, inl, inr, Bool, List, [], ◌∷◌, ◌++◌, some, ◌==◌, Bool-cases,
}
use mathlib.Core.List.{append_assoc}
use light_rocm_runtime.Word.{u64_limit}
use light_rocm_runtime.Aql.{
  packet_type_invalid, AqlKernelDispatchParameters, AqlDispatchOrdering, AqlBarrierAndParameters,
}
use light_rocm_runtime.Producer.{
  Packet, header_of, Event, ring_doorbell, AqlQueueProducerOps, Machine, publish_packet,
  slot_offset, publish_batch, submit_aql_kernel_dispatch, submit_aql_barriers_and_kernel_dispatch,
}
use light_rocm_runtime.Producer.Slots.{Slot, see}
use light_rocm_runtime.Producer.Log.{
  submit_aql_kernel_dispatch-Appends, submit_aql_barriers_and_kernel_dispatch-Appends,
}

-- A slot is not torn: it is marked invalid, or its header is that of the body beside it.
abbrev pub IsWhole : Slot → Type 0
IsWhole s =
    (s.header ≡ packet_type_invalid) ⊎ ((p : Packet) × (s.body ≡ some p) × (s.header ≡ header_of p))

-- The slot at `offset` is whole before and after each of the writes.
abbrev pub AlwaysWhole : ℕ → List Event → Slot → Type 0
AlwaysWhole offset [] s = IsWhole s
AlwaysWhole offset (e ∷ es) s = IsWhole s × AlwaysWhole offset es (see offset e s)

module _ (offset : ℕ) where
  -- A publication in front of writes that keep every whole slot whole.
  publish_packet-AlwaysWhole :
      (at : ℕ) (p : Packet) (es : List Event) (s : Slot)
      → ((t : Slot) → IsWhole t → AlwaysWhole offset es t)
      → IsWhole s
      → AlwaysWhole offset (publish_packet at p ++ es) s
  unfolding publish_packet see
  publish_packet-AlwaysWhole at p es s later w = elim (Bool-cases (at == offset)) [
    | inl hit ↦ rw hit (w, (inl refl, (inl refl, later _ (inr (p, refl, refl)))))
    | inr miss ↦ rw miss (w, (w, (w, later _ w)))
  ]

  doorbell-AlwaysWhole :
      (id : ℕ) (s : Slot) → IsWhole s → AlwaysWhole offset (ring_doorbell id ∷ []) s
  unfolding see
  doorbell-AlwaysWhole id s w = (w, w)

  publish_batch-AlwaysWhole :
      {C : Type 0} (queue : AqlQueueProducerOps C) (first index : ℕ) (packets : List Packet)
      (es : List Event) (s : Slot)
      → ((t : Slot) → IsWhole t → AlwaysWhole offset es t)
      → IsWhole s
      → AlwaysWhole offset (publish_batch queue first index packets ++ es) s
  unfolding publish_batch
  publish_batch-AlwaysWhole queue first index [] es s later w = later s w
  publish_batch-AlwaysWhole queue first index (p ∷ ps) es s later w =
      rw (append_assoc (publish_packet (slot_offset queue ((first + index) % u64_limit)) p) _ es) (
        publish_packet-AlwaysWhole _ p _ s
          (λ t. publish_batch-AlwaysWhole queue first (index + 1) ps es t later) w)

  -- Appending writes that keep whole slots whole.
  append-AlwaysWhole :
      (log es : List Event) (s : Slot)
      → ((t : Slot) → IsWhole t → AlwaysWhole offset es t)
      → AlwaysWhole offset log s
      → AlwaysWhole offset (log ++ es) s
  append-AlwaysWhole [] es s later w = later s w
  append-AlwaysWhole (e ∷ log) es s later (w, rest) =
      (w, append-AlwaysWhole log es (see offset e s) later rest)

  written-AlwaysWhole :
      (log written : List Event) (id : ℕ) (s : Slot)
      → ((es : List Event) (t : Slot)
          → ((u : Slot) → IsWhole u → AlwaysWhole offset es u)
          → IsWhole t
          → AlwaysWhole offset (written ++ es) t)
      → AlwaysWhole offset log s
      → AlwaysWhole offset ((log ++ written) ++ (ring_doorbell id ∷ [])) s
  written-AlwaysWhole log written id s keeps w =
      rw (append_assoc log written (ring_doorbell id ∷ [])) (
        append-AlwaysWhole log (written ++ (ring_doorbell id ∷ [])) s
          (λ t. keeps (ring_doorbell id ∷ []) t (doorbell-AlwaysWhole id)) w)

  module _ {C : Type 0} (queue : AqlQueueProducerOps C) (s : Slot) (m : Machine C)
      (w : AlwaysWhole offset m.log s) where
    -- If the slot at `offset` is invalid or whole at every moment of the log so far, it is so at every
    -- moment of the log after the submission of a dispatch, whatever the callbacks return.
    pub submit_aql_kernel_dispatch-AlwaysWhole :
        (p : AqlKernelDispatchParameters) (o : AqlDispatchOrdering) (prevalidated : Bool)
        → AlwaysWhole offset (submit_aql_kernel_dispatch queue p o prevalidated m).0.log s
    submit_aql_kernel_dispatch-AlwaysWhole p o prevalidated =
        elim (submit_aql_kernel_dispatch-Appends queue p o prevalidated m).0 [
          | inl (_, e) ↦ rw e w
          | inr (_, _, first, _, _, _, _, e) ↦
              rw e (written-AlwaysWhole m.log _ _ s (λ es t. publish_packet-AlwaysWhole _ _ es t) w)
        ]

    -- If the slot at `offset` is invalid or whole at every moment of the log so far, it is so at every
    -- moment of the log after the submission of barriers with a dispatch, whatever the callbacks return.
    pub submit_aql_barriers_and_kernel_dispatch-AlwaysWhole :
        (barriers : List AqlBarrierAndParameters) (p : AqlKernelDispatchParameters)
        (o : AqlDispatchOrdering)
        → AlwaysWhole offset
            (submit_aql_barriers_and_kernel_dispatch queue (some barriers) p o m).0.log
            s
    submit_aql_barriers_and_kernel_dispatch-AlwaysWhole barriers p o =
        elim (submit_aql_barriers_and_kernel_dispatch-Appends queue barriers p o m).0 [
          | inl (_, e) ↦ rw e w
          | inr (_, _, first, _, _, _, _, e) ↦ rw e (
              written-AlwaysWhole m.log _ _ s
                (λ es t. publish_batch-AlwaysWhole queue first 0 _ es t) w)
        ]

-- ===== src/Producer/Batch.antt =====
-- The publications of src/aql_producer.cpp, one and in a loop, as writes to slots.
use light_rocm_runtime.Prelude.{
  ℕ, ◌+◌, ◌*◌, ◌%◌, ◌≤◌, ◌<◌, ◌≡◌, refl, sym, ap, subst, ◌∙◌, false, true, List, [], ◌∷◌, ◌++◌, All,
  All-append, length, arith,
}
use native.Mathlib.Nat.{mod-lt}
use light_rocm_runtime.Word.{u64_limit, is_power_of_two}
use light_rocm_runtime.Word.Laws.{mask_eq_mod, power_of_two-wrap, is_power_of_two-positive}
use light_rocm_runtime.Producer.{
  Packet, Event, ring_doorbell, AqlQueueProducerOps, publish_packet, slot_offset, publish_batch,
}
use light_rocm_runtime.Producer.Slots.{
  LeavesAlone, is_doorbell, AreApart, place, place-AreApart, HoldFrom, Fills, held-Fills,
  HoldFrom-behind, publish_packet-filled, publish_packet-LeavesAlone,
}

publish_packet-one_doorbell :
    (at : ℕ) (p : Packet) → All (λ e. is_doorbell e ≡ false) (publish_packet at p)
unfolding publish_packet
publish_packet-one_doorbell at p = (refl, (refl, (refl, tt)))

module _ {C : Type 0} (queue : AqlQueueProducerOps C)
    (power : is_power_of_two queue.packet_count ≡ true)
    (fits : queue.packet_count * 64 ≤ u64_limit) where
  -- In a ring that lies in the address space, the mask and the product give the slot of the id.
  slot_offset-place : (id : ℕ) → slot_offset queue id ≡ place queue.packet_count id
  unfolding slot_offset
  slot_offset-place id =
      let below = mod-lt id (is_power_of_two-positive queue.packet_count power) in
      let masked = mask_eq_mod queue.packet_count id power in omega (arith, masked, below)

  slot_offset-wrap : (id : ℕ) → slot_offset queue (id % u64_limit) ≡ place queue.packet_count id
  slot_offset-wrap id =
      slot_offset-place (id % u64_limit)
      ∙ ap (λ (n : ℕ). n * 64) (power_of_two-wrap queue.packet_count id power (omega arith))

  turn : (a b : ℕ) → AreApart a b → AreApart b a
  turn a b h = ground arith

  -- One publication.
  pub publish_packet-Fills :
      (id : ℕ) (p : Packet) (before : List Event)
      → Fills queue.packet_count id
          (p ∷ [])
          id
          before
          ((before ++ publish_packet (slot_offset queue id) p) ++ (ring_doorbell id ∷ []))
  unfolding publish_packet
  publish_packet-Fills id p before =
      let here = place queue.packet_count id in
      subst
        (λ (at : ℕ).
          Fills queue.packet_count id (p ∷ []) id before
            ((before ++ publish_packet at p) ++ (ring_doorbell id ∷ [])))
        (sym (slot_offset-place id))
        (held-Fills queue.packet_count id id (p ∷ []) before (publish_packet here p)
          (publish_packet-one_doorbell here p) ((λ s. publish_packet-filled here p [] s tt), tt)
          λ offset apart.
            publish_packet-LeavesAlone offset here p
              (turn offset here (apart id (omega arith) (omega arith))))

  publish_batch-one_doorbell :
      (first index : ℕ) (packets : List Packet)
      → All (λ e. is_doorbell e ≡ false) (publish_batch queue first index packets)
  unfolding publish_batch
  publish_batch-one_doorbell first index [] = tt
  publish_batch-one_doorbell first index (p ∷ ps) =
      All-append _ (publish_packet _ p) _ (publish_packet-one_doorbell _ p)
        (publish_batch-one_doorbell first (index + 1) ps)

  publish_batch-LeavesAlone :
      (offset first index : ℕ) (packets : List Packet)
      → ((id : ℕ)
          → first + index ≤ id
          → id < first + index + length packets
          → AreApart offset (place queue.packet_count id))
      → All (LeavesAlone offset) (publish_batch queue first index packets)
  unfolding publish_batch
  publish_batch-LeavesAlone offset first index [] apart = tt
  publish_batch-LeavesAlone offset first index (p ∷ ps) apart =
      All-append (LeavesAlone offset) (publish_packet _ p) _
        (publish_packet-LeavesAlone offset _ p (
          rw (slot_offset-wrap (first + index))
            (turn offset _ (apart (first + index) (omega arith) (omega arith)))))
        (publish_batch-LeavesAlone offset first (index + 1) ps
          (λ id low high. apart id (omega arith) (omega arith)))

  -- No more packets than slots: each stays in its own.
  publish_batch-HoldFrom :
      (first index : ℕ) (packets : List Packet)
      → length packets ≤ queue.packet_count
      → HoldFrom queue.packet_count
          (first + index)
          (publish_batch queue first index packets)
          packets
  unfolding publish_batch
  publish_batch-HoldFrom first index [] room = tt
  publish_batch-HoldFrom first index (p ∷ ps) room =
      let count = queue.packet_count in
      let here = place count (first + index) in
      let rest = publish_batch queue first (index + 1) ps in
      let alone : All (LeavesAlone here) rest =
        publish_batch-LeavesAlone here first (index + 1) ps
          (λ id low high. place-AreApart count (first + index) id (omega arith) (omega arith)) in
      let later : HoldFrom count (first + index + 1) rest ps =
        subst (λ (n : ℕ). HoldFrom count n rest ps) (omega arith)
          (publish_batch-HoldFrom first (index + 1) ps (omega arith)) in
      rw (slot_offset-wrap (first + index)) (
        (λ s. publish_packet-filled here p rest s alone),
        HoldFrom-behind count (first + index + 1) (publish_packet here p) rest ps later,
      )

  -- The loop over a batch.
  pub publish_batch-Fills :
      (first last : ℕ) (packets : List Packet) (before : List Event)
      → length packets ≤ queue.packet_count
      → Fills queue.packet_count first packets last before
          ((before ++ publish_batch queue first 0 packets) ++ (ring_doorbell last ∷ []))
  publish_batch-Fills first last packets before room =
      held-Fills queue.packet_count first last packets before (publish_batch queue first 0 packets)
        (publish_batch-one_doorbell first 0 packets)
        (subst
          (λ (n : ℕ). HoldFrom queue.packet_count n (publish_batch queue first 0 packets) packets)
          (omega arith) (publish_batch-HoldFrom first 0 packets room))
        λ offset apart.
          publish_batch-LeavesAlone offset first 0 packets
            (λ id low high. apart id (omega arith) (omega arith))

-- ===== src/Producer/Contract.antt =====
-- The callbacks of a queue in src/aql_producer.hpp: what they are to do, and, as an assumption of its own, that
-- no other producer uses the queue meanwhile.
use light_rocm_runtime.Prelude.{ℕ, ◌+◌, ◌≤◌, ◌≡◌}
use light_rocm_runtime.Word.{u64_limit}
use light_rocm_runtime.Aql.{AqlKernelDispatchPacket}
use light_rocm_runtime.Producer.{AqlQueueProducerOps, reserved, client_accepts}

-- A queue, also one with several producers: `read_index` and `write_index` are its true indices. The consumer
-- may raise the read index across any call. A reservation that succeeds owns a contiguous range of new
-- ids, which does not wrap.
pub record IsRing {C : Type 0} (queue : AqlQueueProducerOps C) : Type 0 where
  pub read_index : C → ℕ
  pub write_index : C → ℕ
  pub read_loaded : (c : C) → (queue.load_read_index c).0 ≤ read_index (queue.load_read_index c).1
  pub write_read_rises : (c : C) → read_index c ≤ read_index (queue.load_write_index c).1
  pub reserve_range :
      (c : C) (n first : ℕ) (c' : C)
      → queue.reserve_packet c n ≡ reserved first c'
      → (write_index c ≤ first)
        × (first + n ≤ write_index c')
        × (first + n ≤ u64_limit)
        × (read_index c ≤ read_index c')
  pub doorbell_read_rises :
      (c : C) (id : ℕ) → read_index c ≤ read_index (queue.notify_doorbell c id)

-- No other producer reserves while a submission runs: only its own reservation moves the write index, by the
-- number that it reserves, and the write index that it loads is the true one. The interface does not
-- promise this; a client sees to it, such as with a lock.
pub record IsSerialized {C : Type 0} (queue : AqlQueueProducerOps C) (ring : IsRing queue)
    : Type 0 where
  pub read_keeps_write : (c : C) → ring.write_index (queue.load_read_index c).1 ≡ ring.write_index c
  pub write_keeps_write :
      (c : C) → ring.write_index (queue.load_write_index c).1 ≡ ring.write_index c
  pub write_exact : (c : C) → (queue.load_write_index c).0 ≡ ring.write_index c
  pub reserve_exact :
      (c : C) (n first : ℕ) (c' : C)
      → queue.reserve_packet c n ≡ reserved first c'
      → (first ≡ ring.write_index c) × (ring.write_index c' ≡ first + n)
  pub doorbell_keeps_write :
      (c : C) (id : ℕ) → ring.write_index (queue.notify_doorbell c id) ≡ ring.write_index c
  pub test_keeps_write :
      (c : C) (packet : AqlKernelDispatchPacket)
      → ring.write_index (client_accepts queue c packet).1 ≡ ring.write_index c

-- ===== src/Kfd/Examples.antt =====
-- One GPU, acquired at the second attempt of the aperture query, for light-rocr/transport/kfd/vm.cpp.
use light_rocm_runtime.Prelude.{ℕ, zero, suc, ◌<◌, ◌≡◌, refl, true, false, some, [], ◌∷◌}
use light_rocm_runtime.Kfd.{
  answered, system_error, IoctlReturn, returned, interrupted, invoke_ioctl,
}
use light_rocm_runtime.Kfd.Vm.{
  ProcessAperture, vm, vm_failure, KfdState, VmNode, VmAnswers, QueryAnswers, acquire_vm,
  query_process_aperture, acquire_failed,
}
use light_rocm_runtime.Kfd.Vm.Query.{IsConsistent, query_process_aperture_sound}
use light_rocm_runtime.Kfd.Vm.Acquire.{IsKfdState}
use light_rocm_runtime.Kfd.Vm.Again.{
  session_opened, acquired_vm, Reachable-IsKfdState, acquire_vm-again,
}

abbrev aperture : ℕ → ProcessAperture
aperture gpu_id = record {
  gpu_id = gpu_id;
  lds_base = 0x1000;
  lds_limit = 0x1fff;
  scratch_base = 0x2000;
  scratch_limit = 0x2fff;
  gpuvm_base = 0x10000;
  gpuvm_limit = 0xfffff;
}

-- A device appears between the first two calls.
abbrev query : ℕ → QueryAnswers
query zero = record {
  count_before = answered 2;
  storage_allocated = true;
  stored_count = answered 2;
  stored_apertures = aperture 7 ∷ aperture 9 ∷ [];
  count_after = answered 3;
}
query (suc i) = record {
  count_before = answered 3;
  storage_allocated = true;
  stored_count = answered 3;
  stored_apertures = aperture 7 ∷ aperture 9 ∷ aperture 11 ∷ [];
  count_after = answered 3;
}

abbrev answers : VmAnswers
answers = record {
  open_render = answered tt;
  emplace_allocates = true;
  acquire_ioctl = answered tt;
  policy_ioctl = answered tt;
  query = query;
}

abbrev no_answers : VmAnswers
no_answers = record {
  open_render = system_error 2;
  emplace_allocates = false;
  acquire_ioctl = system_error 16;
  policy_ioctl = system_error 22;
  query = query;
}

abbrev session : KfdState
session = record { fd_is_open = true; device_vms = []; open_render_fds = 0 }

abbrev node : VmNode
node = record { simd_count = 96; gpu_id = 9; drm_render_minor = some 128 }

queries : query_process_aperture true 9 query ≡ vm (aperture 9)
unfolding query_process_aperture
queries = refl

acquires : (acquire_vm session node answers).1 ≡ vm (aperture 9)
unfolding acquire_vm
acquires = refl

refuses_busy :
    acquire_vm session node (record answers { acquire_ioctl = system_error 16 })
    ≡ (session, vm_failure acquire_failed 16)
unfolding acquire_vm
refuses_busy = refl

abbrev calls : ℕ → IoctlReturn ℕ
calls zero = interrupted
calls (suc zero) = interrupted
calls (suc (suc i)) = returned 5

retries : invoke_ioctl calls 3 0 ≡ some (answered 5)
unfolding invoke_ioctl
retries = refl

query_process_aperture_sound_example : (k : ℕ) × (k < 3) × IsConsistent 9 (query k) (aperture 9)
query_process_aperture_sound_example =
    query_process_aperture_sound true 9 query (aperture 9) queries

acquire_vm-again_example :
    acquire_vm (acquire_vm session node answers).0 node no_answers
    ≡ ((acquire_vm session node answers).0, vm (aperture 9))
acquire_vm-again_example = acquire_vm-again session node answers no_answers (aperture 9) acquires

Reachable-IsKfdState_example : IsKfdState (acquire_vm session node answers).0
Reachable-IsKfdState_example =
    Reachable-IsKfdState (acquire_vm session node answers).0
      (acquired_vm session node answers (session_opened true))

-- ===== src/Kfd/Vm/Acquire.antt =====
-- `KfdSession::acquire_vm` of light-rocr/transport/kfd/vm.cpp: what every acquisition keeps.
use light_rocm_runtime.Prelude.{
  ℕ, ◌+◌, ◌<◌, ◌≡◌, ◌≢◌, ◌∙◌, inl, inr, refl, sym, ap, subst, true, false, none, some, List, [],
  ◌∷◌, All, All-map, length, Bool-cases, Option, Option-cases, arith, ◌==◌, ◌!=◌, not, ◌||◌,
}
use light_rocm_runtime.Prelude.Sorting.{AllPairs}
use light_rocm_runtime.Kfd.{Answer, answered, system_error}
use light_rocm_runtime.Kfd.Vm.{
  VmResult, vm, vm_failure, DeviceVm, KfdState, VmNode, VmAnswers, find_device, erase_device,
  set_device, with_device, new_device, query_process_aperture, query_device, configure_device,
  acquire_device, open_device, found_device, acquire_locked, acquire_vm,
}
use light_rocm_runtime.Kfd.Vm.Query.{IsAperture, query_process_aperture_sound}

-- A device whose VM is acquired; a valid aperture is one for the device, behind a configured policy.
pub record IsSettled (d : DeviceVm) : Type 0 where
  pub some_gpu : 0 < d.gpu_id
  pub is_acquired : d.acquired ≡ true
  pub configured : d.aperture_valid ≡ true → d.memory_policy_configured ≡ true
  pub usable : d.aperture_valid ≡ true → IsAperture d.gpu_id d.aperture

abbrev OtherGpu : DeviceVm → DeviceVm → Type 0
OtherGpu d e = d.gpu_id ≢ e.gpu_id

-- One device for a GPU, each settled, and one open render node for each device.
pub record IsKfdState (s : KfdState) : Type 0 where
  pub distinct : AllPairs OtherGpu s.device_vms
  pub settled : All IsSettled s.device_vms
  pub counted : s.open_render_fds ≡ length s.device_vms

set_device-All :
    (P : DeviceVm → Type 0) (d : DeviceVm) (ds : List DeviceVm)
    → P d
    → All P ds
    → All P (set_device d ds)
unfolding set_device
set_device-All P d [] p h = tt
set_device-All P d (e ∷ es) p h = elim (Bool-cases (e.gpu_id == d.gpu_id)) [
  | inl same ↦ rw (same, set_device) (p, h.1)
  | inr other ↦ rw (other, set_device) (h.0, set_device-All P d es p h.1)
]

set_device-ids :
    (k : ℕ) (d : DeviceVm) (ds : List DeviceVm)
    → All (λ e. k ≢ e.gpu_id) ds
    → All (λ e. k ≢ e.gpu_id) (set_device d ds)
unfolding set_device
set_device-ids k d [] h = tt
set_device-ids k d (e ∷ es) h = elim (Bool-cases (e.gpu_id == d.gpu_id)) [
  | inl same ↦
      let equal : e.gpu_id ≡ d.gpu_id = ground arith in
      rw (same, set_device) ((λ x. h.0 (x ∙ sym equal)), h.1)
  | inr other ↦ rw (other, set_device) (h.0, set_device-ids k d es h.1)
]

set_device-distinct :
    (d : DeviceVm) (ds : List DeviceVm) → AllPairs OtherGpu ds → AllPairs OtherGpu (set_device d ds)
unfolding set_device
set_device-distinct d [] h = tt
set_device-distinct d (e ∷ es) h = elim (Bool-cases (e.gpu_id == d.gpu_id)) [
  | inl same ↦
      let equal : e.gpu_id ≡ d.gpu_id = ground arith in
      rw (same, set_device) (All-map (λ c n x. n (equal ∙ x)) es h.0, h.1)
  | inr other ↦
      rw (other, set_device) (set_device-ids e.gpu_id d es h.0, set_device-distinct d es h.1)
]

set_device-length : (d : DeviceVm) (ds : List DeviceVm) → length (set_device d ds) ≡ length ds
unfolding set_device
set_device-length d [] = refl
set_device-length d (e ∷ es) = ground (arith, set_device-length d es)

with_device-IsKfdState :
    (s : KfdState) (d : DeviceVm) → IsKfdState s → IsSettled d → IsKfdState (with_device s d)
with_device-IsKfdState s d h settled = record {
  distinct = set_device-distinct d s.device_vms h.distinct;
  settled = set_device-All IsSettled d s.device_vms settled h.settled;
  counted = h.counted ∙ sym (set_device-length d s.device_vms);
}

query_device-IsKfdState :
    (s : KfdState) (answers : VmAnswers) (d : DeviceVm)
    → IsKfdState s
    → 0 < d.gpu_id
    → d.acquired ≡ true
    → d.memory_policy_configured ≡ true
    → IsKfdState (query_device s answers d).0
unfolding query_device
query_device-IsKfdState s answers d h pos acquired policy =
    by_result (query_process_aperture s.fd_is_open d.gpu_id answers.query) refl
  where
    by_result :
        (r : VmResult)
        → query_process_aperture s.fd_is_open d.gpu_id answers.query ≡ r
        → IsKfdState (query_device s answers d).0
    by_result (vm_failure error x) e = rw (e, query_device) h
    by_result (vm a) e =
        let (k, lt, consistent) =
          query_process_aperture_sound s.fd_is_open d.gpu_id answers.query a e in
        rw (e, query_device)
          (with_device-IsKfdState s (record d { aperture = a; aperture_valid = true }) h
            (record {
              some_gpu = pos;
              is_acquired = acquired;
              configured = λ _. policy;
              usable = λ _. consistent.is_aperture;
            }))

unqueried-IsSettled :
    (d : DeviceVm) → 0 < d.gpu_id → d.acquired ≡ true → d.aperture_valid ≡ false → IsSettled d
unqueried-IsSettled d pos acquired unqueried = record {
  some_gpu = pos;
  is_acquired = acquired;
  configured = λ e. cc;
  usable = λ e. absurd cc;
}

configure_device-IsKfdState :
    (s : KfdState) (answers : VmAnswers) (d : DeviceVm)
    → IsKfdState s
    → 0 < d.gpu_id
    → d.acquired ≡ true
    → d.aperture_valid ≡ false
    → IsKfdState (configure_device s answers d).0
unfolding configure_device
configure_device-IsKfdState s answers d h pos acquired unqueried =
    elim (Bool-cases d.memory_policy_configured) [
      | inl e ↦
          let same : configure_device s answers d ≡ query_device s answers d = ground arith in
          rw same (query_device-IsKfdState s answers d h pos acquired e)
      | inr e ↦ elim (Bool-cases (not s.fd_is_open || d.gpu_id == 0)) [
        | inl f ↦ let same : (configure_device s answers d).0 ≡ s = ground arith in rw same h
        | inr f ↦ by_answer e f answers.policy_ioctl refl
      ]
    ]
  where
    by_answer :
        d.memory_policy_configured ≡ false
        → (not s.fd_is_open || d.gpu_id == 0) ≡ false
        → (a : Answer (Unit {0})) → answers.policy_ioctl ≡ a
        → IsKfdState (configure_device s answers d).0
    by_answer e f (system_error x) g =
        let same : (configure_device s answers d).0 ≡ s = ground arith in rw same h
    by_answer e f (answered u) g =
        let configured = record d { memory_policy_configured = true } in
        let same : configure_device s answers d
            ≡ query_device (with_device s configured) answers configured =
          ground arith in
        rw same (
          query_device-IsKfdState (with_device s configured) answers configured
            (with_device-IsKfdState s configured h
              (unqueried-IsSettled configured pos acquired unqueried))
            pos acquired refl)

-- What holds of the devices holds when one is missing.
erase_new : (d : DeviceVm) (ds : List DeviceVm) → erase_device d.gpu_id (d ∷ ds) ≡ ds
unfolding erase_device
erase_new d ds = ground arith

find_none :
    (gpu_id : ℕ) (ds : List DeviceVm)
    → find_device gpu_id ds ≡ none
    → All (λ e. gpu_id ≢ e.gpu_id) ds
unfolding find_device
find_none gpu_id [] e = tt
find_none gpu_id (d ∷ ds) e = (ground arith, find_none gpu_id ds (ground arith))

find_some :
    (P : DeviceVm → Type 0) (gpu_id : ℕ) (ds : List DeviceVm) (d : DeviceVm)
    → All P ds
    → find_device gpu_id ds ≡ some d
    → P d × (d.gpu_id ≡ gpu_id)
unfolding find_device
find_some P gpu_id [] d h e = cc
find_some P gpu_id (c ∷ cs) d h e = elim (Bool-cases (c.gpu_id == gpu_id)) [
  | inl same ↦
      let equal : some c ≡ some d = ground arith in
      (
        subst P (some-injective equal) h.0,
        sym (ap (λ x. x.gpu_id) (some-injective equal)) ∙ ground arith,
      )
  | inr other ↦ find_some P gpu_id cs d h.1 (ground arith)
]
  where
    some-injective : {x y : DeviceVm} → some x ≡ some y → x ≡ y
    some-injective e = cc

set_front :
    (d e : DeviceVm) (ds : List DeviceVm) → e.gpu_id ≡ d.gpu_id → set_device d (e ∷ ds) ≡ d ∷ ds
unfolding set_device
set_front d e ds same = ground arith

-- The state with the device in front that `open_device` adds.
abbrev opened : KfdState → ℕ → ℕ → KfdState
opened s gpu_id minor = record s {
  device_vms = new_device gpu_id minor ∷ s.device_vms;
  open_render_fds = s.open_render_fds + 1;
}

acquire_new-IsKfdState :
    (s : KfdState) (answers : VmAnswers) (gpu_id minor : ℕ)
    → IsKfdState s
    → 0 < gpu_id
    → find_device gpu_id s.device_vms ≡ none
    → IsKfdState (acquire_device (opened s gpu_id minor) answers (new_device gpu_id minor)).0
unfolding acquire_device
acquire_new-IsKfdState s answers gpu_id minor h pos absent = by_answer answers.acquire_ioctl refl
  where
    by_answer :
        (a : Answer (Unit {0}))
        → answers.acquire_ioctl ≡ a
        → IsKfdState (acquire_device (opened s gpu_id minor) answers (new_device gpu_id minor)).0
    by_answer (system_error x) g =
        rw (g, acquire_device, erase_new (new_device gpu_id minor) s.device_vms)
          (record {
            distinct = h.distinct;
            settled = h.settled;
            counted = omega (arith, h.counted);
          })
    by_answer (answered u) g =
        let acquired = record (new_device gpu_id minor) { acquired = true } in
        let front = set_front acquired (new_device gpu_id minor) s.device_vms refl in
        rw (g, acquire_device)
          (configure_device-IsKfdState (with_device (opened s gpu_id minor) acquired) answers
            acquired
            (subst
              (λ ds.
                IsKfdState (record s { device_vms = ds; open_render_fds = s.open_render_fds + 1 }))
              (sym front)
              (record {
                distinct = (find_none gpu_id s.device_vms absent, h.distinct);
                settled = (unqueried-IsSettled acquired pos refl refl, h.settled);
                counted = omega (arith, h.counted);
              }))
            pos refl refl)

open_device-IsKfdState :
    (s : KfdState) (answers : VmAnswers) (gpu_id minor : ℕ)
    → IsKfdState s
    → 0 < gpu_id
    → find_device gpu_id s.device_vms ≡ none
    → IsKfdState (open_device s answers gpu_id minor).0
unfolding open_device
open_device-IsKfdState s answers gpu_id minor h pos absent = by_answer answers.open_render refl
  where
    by_answer :
        (a : Answer (Unit {0}))
        → answers.open_render ≡ a
        → IsKfdState (open_device s answers gpu_id minor).0
    by_answer (system_error x) g = rw (g, open_device) h
    by_answer (answered u) g = elim (Bool-cases answers.emplace_allocates) [
      | inl e ↦ rw (g, e, open_device) (acquire_new-IsKfdState s answers gpu_id minor h pos absent)
      | inr e ↦
          rw (g, e, open_device)
            (record {
              distinct = h.distinct;
              settled = h.settled;
              counted = omega (arith, h.counted);
            })
    ]

found_device-IsKfdState :
    (s : KfdState) (answers : VmAnswers) (minor : ℕ) (d : DeviceVm)
    → IsKfdState s
    → IsSettled d
    → IsKfdState (found_device s answers minor d).0
unfolding found_device acquire_device
found_device-IsKfdState s answers minor d h settled =
    elim (Bool-cases (d.drm_render_minor != minor)) [
      | inl e ↦ rw (e, found_device) h
      | inr e ↦ elim (Bool-cases d.aperture_valid) [
        | inl f ↦ let same : (found_device s answers minor d).0 ≡ s = ground arith in rw same h
        | inr f ↦
            let acquired = settled.is_acquired in
            let same : found_device s answers minor d ≡ configure_device s answers d =
              ground arith in
            rw same
              (configure_device-IsKfdState s answers d h settled.some_gpu settled.is_acquired f)
      ]
    ]

-- An acquisition, whatever the node is and the system answers, keeps the session's state well-formed: one
-- device for a GPU, each acquired, its aperture, if valid, in order, for the device's GPU and behind a
-- configured memory policy, and as many open render nodes as devices.
pub acquire_vm-IsKfdState :
    (s : KfdState) (node : VmNode) (answers : VmAnswers)
    → IsKfdState s
    → IsKfdState (acquire_vm s node answers).0
unfolding acquire_vm acquire_locked
acquire_vm-IsKfdState s node answers h =
    elim (Bool-cases (node.simd_count == 0 || node.gpu_id == 0)) [
      | inl e ↦ rw (e, acquire_vm) h
      | inr e ↦ by_minor e node.drm_render_minor refl
    ]
  where
    by_minor :
        (node.simd_count == 0 || node.gpu_id == 0) ≡ false
        → (m : Option ℕ) → node.drm_render_minor ≡ m
        → IsKfdState (acquire_vm s node answers).0
    by_minor e none g = rw (e, g, acquire_vm) h
    by_minor e (some minor) g = elim (Option-cases (find_device node.gpu_id s.device_vms)) [
      | inl absent ↦
          rw (e, g, acquire_vm, absent, acquire_locked)
            (open_device-IsKfdState s answers node.gpu_id minor h (ground arith) absent)
      | inr (d, found) ↦
          rw (e, g, acquire_vm, found, acquire_locked)
            (found_device-IsKfdState s answers minor d h
              (find_some IsSettled node.gpu_id s.device_vms d h.settled found).0)
    ]

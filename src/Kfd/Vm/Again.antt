-- ===== src/Kfd/Vm/Again.antt =====
-- Sequences of acquisitions of light-rocr/transport/kfd/vm.cpp.
use light_rocm_runtime.Prelude.{
  ℕ, ◌+◌, ◌≡◌, ◌∙◌, inl, inr, refl, sym, ap, subst, true, false, none, some, List, [], ◌∷◌, Bool,
  Bool-cases, Option, Option-cases, arith, ◌==◌, ◌!=◌, not, ◌||◌,
}
use light_rocm_runtime.Kfd.{Answer, answered, system_error}
use light_rocm_runtime.Kfd.Vm.{
  ProcessAperture, VmResult, vm, vm_failure, DeviceVm, KfdState, VmNode, VmAnswers, find_device,
  set_device, with_device, new_device, query_process_aperture, query_device, configure_device,
  acquire_device, open_device, found_device, acquire_locked, acquire_vm,
}
use light_rocm_runtime.Kfd.Vm.Acquire.{IsKfdState, acquire_vm-IsKfdState}

-- A session after some acquisitions, of any nodes and with any outcomes of the system calls.
pub data Reachable : KfdState → Type 0 where
  session_opened :
      (fd_is_open : Bool)
      → Reachable (record { fd_is_open = fd_is_open; device_vms = []; open_render_fds = 0 })
  acquired_vm :
      (s : KfdState) (node : VmNode) (answers : VmAnswers)
      → Reachable s
      → Reachable (acquire_vm s node answers).0

-- Every state that a session reaches by acquisitions is well-formed: one device for a GPU, each acquired,
-- its aperture, if valid, in order, for the device's GPU and behind a configured memory policy, and as
-- many open render nodes as devices.
pub Reachable-IsKfdState : (s : KfdState) → Reachable s → IsKfdState s
Reachable-IsKfdState _ (session_opened fd_is_open) = record {
  distinct = tt;
  settled = tt;
  counted = refl;
}
Reachable-IsKfdState _ (acquired_vm s node answers r) =
    acquire_vm-IsKfdState s node answers (Reachable-IsKfdState s r)

-- The session has the aperture for the GPU at that render minor.
record Has (gpu_id minor : ℕ) (a : ProcessAperture) (s : KfdState) : Type 0 where
  device : DeviceVm
  found : find_device gpu_id s.device_vms ≡ some device
  same_minor : device.drm_render_minor ≡ minor
  is_valid : device.aperture_valid ≡ true
  same_aperture : device.aperture ≡ a

find_set :
    (d e : DeviceVm) (ds : List DeviceVm)
    → find_device d.gpu_id ds ≡ some e
    → find_device d.gpu_id (set_device d ds) ≡ some d
unfolding find_device set_device
find_set d e [] h = cc
find_set d e (c ∷ cs) h = ground (arith, find_set d e cs)

query_device-Has :
    (s : KfdState) (answers : VmAnswers) (d e : DeviceVm) (a : ProcessAperture)
    → find_device d.gpu_id s.device_vms ≡ some e
    → (query_device s answers d).1 ≡ vm a
    → Has d.gpu_id d.drm_render_minor a (query_device s answers d).0
unfolding query_device
query_device-Has s answers d e a here success =
    by_result (query_process_aperture s.fd_is_open d.gpu_id answers.query) refl
  where
    by_result :
        (r : VmResult)
        → query_process_aperture s.fd_is_open d.gpu_id answers.query ≡ r
        → Has d.gpu_id d.drm_render_minor a (query_device s answers d).0
    by_result (vm_failure error x) f = absurd (ground (arith, success, f))
    by_result (vm b) f =
        let same : b ≡ a = ground (arith, success, f) in
        let queried = record d { aperture = b; aperture_valid = true } in
        rw (f, query_device)
          (record {
            device = queried;
            found = find_set queried e s.device_vms here;
            same_minor = refl;
            is_valid = refl;
            same_aperture = same;
          })

configure_device-Has :
    (s : KfdState) (answers : VmAnswers) (d e : DeviceVm) (a : ProcessAperture)
    → find_device d.gpu_id s.device_vms ≡ some e
    → (configure_device s answers d).1 ≡ vm a
    → Has d.gpu_id d.drm_render_minor a (configure_device s answers d).0
unfolding configure_device
configure_device-Has s answers d e a here success = elim (Bool-cases d.memory_policy_configured) [
  | inl f ↦
      let same : configure_device s answers d ≡ query_device s answers d = ground arith in
      rw same (query_device-Has s answers d e a here (sym (ap (λ r. r.1) same) ∙ success))
  | inr f ↦ elim (Bool-cases (not s.fd_is_open || d.gpu_id == 0)) [
    | inl g ↦ absurd (ground arith)
    | inr g ↦ by_answer f g answers.policy_ioctl refl
  ]
]
  where
    by_answer :
        d.memory_policy_configured ≡ false
        → (not s.fd_is_open || d.gpu_id == 0) ≡ false
        → (x : Answer (Unit {0})) → answers.policy_ioctl ≡ x
        → Has d.gpu_id d.drm_render_minor a (configure_device s answers d).0
    by_answer f g (system_error x) k = absurd (ground arith)
    by_answer f g (answered u) k =
        let configured = record d { memory_policy_configured = true } in
        let same : configure_device s answers d
            ≡ query_device (with_device s configured) answers configured =
          ground arith in
        rw same (
          query_device-Has (with_device s configured) answers configured configured a
            (find_set configured e s.device_vms here) (sym (ap (λ r. r.1) same) ∙ success))

acquire_device-Has :
    (s : KfdState) (answers : VmAnswers) (d e : DeviceVm) (a : ProcessAperture)
    → find_device d.gpu_id s.device_vms ≡ some e
    → (acquire_device s answers d).1 ≡ vm a
    → Has d.gpu_id d.drm_render_minor a (acquire_device s answers d).0
unfolding acquire_device
acquire_device-Has s answers d e a here success = elim (Bool-cases d.acquired) [
  | inl f ↦
      let same : acquire_device s answers d ≡ configure_device s answers d = ground arith in
      rw same (configure_device-Has s answers d e a here (sym (ap (λ r. r.1) same) ∙ success))
  | inr f ↦ by_answer f answers.acquire_ioctl refl
]
  where
    by_answer :
        d.acquired ≡ false
        → (x : Answer (Unit {0})) → answers.acquire_ioctl ≡ x
        → Has d.gpu_id d.drm_render_minor a (acquire_device s answers d).0
    by_answer f (system_error x) k = absurd (ground arith)
    by_answer f (answered u) k =
        let acquired = record d { acquired = true } in
        let same : acquire_device s answers d
            ≡ configure_device (with_device s acquired) answers acquired =
          ground arith in
        rw same (
          configure_device-Has (with_device s acquired) answers acquired acquired a
            (find_set acquired e s.device_vms here) (sym (ap (λ r. r.1) same) ∙ success))

open_device-Has :
    (s : KfdState) (answers : VmAnswers) (gpu_id minor : ℕ) (a : ProcessAperture)
    → (open_device s answers gpu_id minor).1 ≡ vm a
    → Has gpu_id minor a (open_device s answers gpu_id minor).0
unfolding open_device
open_device-Has s answers gpu_id minor a success = by_answer answers.open_render refl
  where
    by_answer :
        (x : Answer (Unit {0}))
        → answers.open_render ≡ x
        → Has gpu_id minor a (open_device s answers gpu_id minor).0
    by_answer (system_error x) k = absurd (ground arith)
    by_answer (answered u) k = elim (Bool-cases answers.emplace_allocates) [
      | inl f ↦
          let opened = record s {
            device_vms = new_device gpu_id minor ∷ s.device_vms;
            open_render_fds = s.open_render_fds + 1;
          } in
          let same : open_device s answers gpu_id minor
              ≡ acquire_device opened answers (new_device gpu_id minor) =
            ground arith in
          rw same (
            acquire_device-Has opened answers (new_device gpu_id minor) (new_device gpu_id minor) a
              (unfold find_device in ground arith) (sym (ap (λ r. r.1) same) ∙ success))
      | inr f ↦ absurd (ground arith)
    ]

find_gpu :
    (gpu_id : ℕ) (ds : List DeviceVm) (d : DeviceVm)
    → find_device gpu_id ds ≡ some d
    → d.gpu_id ≡ gpu_id
unfolding find_device
find_gpu gpu_id [] d e = cc
find_gpu gpu_id (c ∷ cs) d e = ground (arith, find_gpu gpu_id cs d)

found_device-Has :
    (s : KfdState) (answers : VmAnswers) (minor : ℕ) (d : DeviceVm) (a : ProcessAperture)
    → find_device d.gpu_id s.device_vms ≡ some d
    → (found_device s answers minor d).1 ≡ vm a
    → Has d.gpu_id minor a (found_device s answers minor d).0
unfolding found_device
found_device-Has s answers minor d a here success =
    elim (Bool-cases (d.drm_render_minor != minor)) [
      | inl f ↦ absurd (ground arith)
      | inr f ↦ elim (Bool-cases d.aperture_valid) [
        | inl g ↦
            let same : found_device s answers minor d ≡ (s, vm d.aperture) = ground arith in
            rw same (record {
              device = d;
              found = here;
              same_minor = ground arith;
              is_valid = g;
              same_aperture = vm-injective (sym (ap (λ r. r.1) same) ∙ success);
            })
        | inr g ↦
            let same : found_device s answers minor d ≡ acquire_device s answers d = ground arith in
            let minors : d.drm_render_minor ≡ minor = ground arith in
            rw same (
              subst (λ (m : ℕ). Has d.gpu_id m a (acquire_device s answers d).0) minors
                (acquire_device-Has s answers d d a here (sym (ap (λ r. r.1) same) ∙ success)))
      ]
    ]
  where
    vm-injective : {x y : ProcessAperture} → vm x ≡ vm y → x ≡ y
    vm-injective e = cc

acquire_locked-Has :
    (s : KfdState) (answers : VmAnswers) (gpu_id minor : ℕ) (a : ProcessAperture)
    → (acquire_locked s answers gpu_id minor).1 ≡ vm a
    → Has gpu_id minor a (acquire_locked s answers gpu_id minor).0
unfolding acquire_locked
acquire_locked-Has s answers gpu_id minor a success =
    elim (Option-cases (find_device gpu_id s.device_vms)) [
      | inl absent ↦
          let same : acquire_locked s answers gpu_id minor ≡ open_device s answers gpu_id minor =
            rw (absent, acquire_locked) refl in
          rw same (open_device-Has s answers gpu_id minor a (sym (ap (λ r. r.1) same) ∙ success))
      | inr (d, found) ↦
          let same : acquire_locked s answers gpu_id minor ≡ found_device s answers minor d =
            rw (found, acquire_locked) refl in
          let id = find_gpu gpu_id s.device_vms d found in
          rw same (
            subst (λ (n : ℕ). Has n minor a (found_device s answers minor d).0) id
              (found_device-Has s answers minor d a
                (subst (λ (n : ℕ). find_device n s.device_vms ≡ some d) (sym id) found)
                (sym (ap (λ r. r.1) same) ∙ success)))
    ]

found_again :
    (s : KfdState) (answers : VmAnswers) (minor : ℕ) (d : DeviceVm)
    → d.drm_render_minor ≡ minor
    → d.aperture_valid ≡ true
    → found_device s answers minor d ≡ (s, vm d.aperture)
unfolding found_device
found_again s answers minor d same valid = ground arith

-- After an acquisition that gives an aperture, whatever the state was before, a further one for the same
-- node gives the same aperture and leaves the state, whatever the system would answer.
pub acquire_vm-again :
    (s : KfdState) (node : VmNode) (answers later : VmAnswers) (a : ProcessAperture)
    → (acquire_vm s node answers).1 ≡ vm a
    → acquire_vm (acquire_vm s node answers).0 node later ≡ ((acquire_vm s node answers).0, vm a)
unfolding acquire_vm acquire_locked
acquire_vm-again s node answers later a success =
    elim (Bool-cases (node.simd_count == 0 || node.gpu_id == 0)) [
      | inl e ↦ absurd (ground arith)
      | inr e ↦ by_minor e node.drm_render_minor refl
    ]
  where
    again :
        (minor : ℕ)
        → (node.simd_count == 0 || node.gpu_id == 0) ≡ false
        → node.drm_render_minor ≡ some minor
        → (t : KfdState) → Has node.gpu_id minor a t
        → acquire_vm t node later ≡ (t, vm a)
    again minor e g t has =
        rw (e, g, acquire_vm, has.found, acquire_locked)
          (found_again t later minor has.device has.same_minor has.is_valid
            ∙ ap (λ b. (t, vm b)) has.same_aperture)

    by_minor :
        (node.simd_count == 0 || node.gpu_id == 0) ≡ false
        → (m : Option ℕ) → node.drm_render_minor ≡ m
        → acquire_vm (acquire_vm s node answers).0 node later
          ≡ ((acquire_vm s node answers).0, vm a)
    by_minor e none g = absurd (ground arith)
    by_minor e (some minor) g =
        let same : acquire_vm s node answers ≡ acquire_locked s answers node.gpu_id minor =
          rw (e, g, acquire_vm) refl in
        again minor e g (acquire_vm s node answers).0 (
          rw same
            (acquire_locked-Has s answers node.gpu_id minor a (sym (ap (λ r. r.1) same) ∙ success)))

-- ===== src/Kfd/Vm.antt =====
-- light-rocr/transport/kfd/vm.cpp: the virtual memory of the devices of a KFD session. Of a device's state
-- in session_state.hpp the scratch pool and the trap handler are left out, which vm.cpp does not touch.
-- `open_render_fds` counts the render nodes that are open; the descriptors of the session itself are
-- not among them.

pub mod Query
pub mod Acquire
pub mod Again
use light_rocm_runtime.Prelude.{
  ℕ, zero, suc, ◌+◌, ◌-◌, ◌^◌, Bool, true, false, not, ◌&&◌, ◌||◌, Option, none, some, List, [],
  ◌∷◌, ltb, leb, ◌==◌, ◌!=◌, if◌then◌else◌,
}
use light_rocm_runtime.Kfd.{Answer, answered, system_error}

pub record ProcessAperture : Type 0 where
  pub gpu_id : ℕ
  pub lds_base : ℕ
  pub lds_limit : ℕ
  pub scratch_base : ℕ
  pub scratch_limit : ℕ
  pub gpuvm_base : ℕ
  pub gpuvm_limit : ℕ

pub data VmError : Type 0 where
  invalid_session invalid_node open_render_node allocate_state acquire_failed : VmError
  configure_memory_policy_failed query_aperture_count_failed invalid_aperture_count : VmError
  allocate_apertures query_apertures_failed topology_changed missing_aperture : VmError
  duplicate_aperture invalid_aperture : VmError

-- The error comes with the error number of the system call, or 0.
pub data VmResult : Type 0 where
  vm : ProcessAperture → VmResult
  vm_failure : VmError → ℕ → VmResult

abbrev empty_aperture : ProcessAperture
empty_aperture = record {
  gpu_id = 0;
  lds_base = 0;
  lds_limit = 0;
  scratch_base = 0;
  scratch_limit = 0;
  gpuvm_base = 0;
  gpuvm_limit = 0;
}

pub aperture_is_valid : ProcessAperture → Bool
aperture_is_valid a = not (
    a.gpu_id == 0
    || not (leb a.lds_base a.lds_limit)
    || not (leb a.scratch_base a.scratch_limit)
    || not (leb a.gpuvm_base a.gpuvm_limit))

-- The loop over the apertures, with the one found before.
select_aperture : ℕ → Option ProcessAperture → List ProcessAperture → VmResult
unfolding aperture_is_valid
select_aperture gpu_id none [] = vm_failure missing_aperture 0
select_aperture gpu_id (some selected) [] = vm selected
select_aperture gpu_id selected (aperture ∷ rest) =
    let next = if aperture.gpu_id != gpu_id then selected else some aperture in
    let later = select_aperture gpu_id next rest in
    if not (aperture_is_valid aperture)
    then vm_failure invalid_aperture 0
    else if aperture.gpu_id != gpu_id
    then later
    else elim selected [ none ↦ later | some s ↦ vm_failure duplicate_aperture 0 ]

-- What KFD answers in one attempt: the count before, the count and the apertures that the second call
-- stores in a buffer for the count before, and the count after; and whether the buffer is allocated.
pub record QueryAnswers : Type 0 where
  pub count_before : Answer ℕ
  pub storage_allocated : Bool
  pub stored_count : Answer ℕ
  pub stored_apertures : List ProcessAperture
  pub count_after : Answer ℕ

abbrev maximum_process_apertures : ℕ
maximum_process_apertures = 4096

-- `query_aperture_count`.
pub data CountResult : Type 0 where
  count_is : ℕ → CountResult
  count_failure : VmError → ℕ → CountResult

query_aperture_count : Answer ℕ → CountResult
query_aperture_count (system_error e) = count_failure query_aperture_count_failed e
query_aperture_count (answered n) =
    if n == 0 || ltb maximum_process_apertures n
    then count_failure invalid_aperture_count 0
    else count_is n

-- The end of an attempt; `none` is `continue`.
compare_counts : ℕ → QueryAnswers → ℕ → ℕ → Option VmResult
unfolding select_aperture query_aperture_count
compare_counts gpu_id answers count_before stored =
    let selected = select_aperture gpu_id none answers.stored_apertures in
    if ltb count_before stored
    then some (vm_failure invalid_aperture_count 0)
    else elim (query_aperture_count answers.count_after) [
      | count_failure error e ↦ some (vm_failure error e)
      | count_is count_after ↦
          if count_before != stored || stored != count_after then none else some selected
    ]

query_attempt : ℕ → QueryAnswers → Option VmResult
unfolding compare_counts
query_attempt gpu_id answers = elim (query_aperture_count answers.count_before) [
  | count_failure error e ↦ some (vm_failure error e)
  | count_is count_before ↦
      if not answers.storage_allocated
      then some (vm_failure allocate_apertures 0)
      else elim answers.stored_count [
        | system_error e ↦ some (vm_failure query_apertures_failed e)
        | answered stored ↦ compare_counts gpu_id answers count_before stored
      ]
]

-- The attempts from `i` on, with `left` of them left.
query_attempts : ℕ → (ℕ → QueryAnswers) → ℕ → ℕ → VmResult
unfolding query_attempt
query_attempts gpu_id answers zero i = vm_failure topology_changed 0
query_attempts gpu_id answers (suc left) i =
    let next = query_attempts gpu_id answers left (i + 1) in
    elim (query_attempt gpu_id (answers i)) [ none ↦ next | some r ↦ r ]

unfoldable pub query_process_aperture : Bool → ℕ → (ℕ → QueryAnswers) → VmResult
unfolding query_attempts
query_process_aperture fd_is_open gpu_id answers =
    if not fd_is_open || gpu_id == 0
    then vm_failure invalid_session 0
    else query_attempts gpu_id answers 3 0

-- A device of the session; its render node is open while it is there.
pub record DeviceVm : Type 0 where
  pub gpu_id : ℕ
  pub drm_render_minor : ℕ
  pub acquired : Bool
  pub memory_policy_configured : Bool
  pub aperture_valid : Bool
  pub aperture : ProcessAperture

-- `device_vms` is a map with the GPU's id as key.
pub record KfdState : Type 0 where
  pub fd_is_open : Bool
  pub device_vms : List DeviceVm
  pub open_render_fds : ℕ

unfoldable pub find_device : ℕ → List DeviceVm → Option DeviceVm
find_device gpu_id [] = none
find_device gpu_id (d ∷ ds) =
    let later = find_device gpu_id ds in if d.gpu_id == gpu_id then some d else later

pub erase_device : ℕ → List DeviceVm → List DeviceVm
erase_device gpu_id [] = []
erase_device gpu_id (d ∷ ds) =
    let later = erase_device gpu_id ds in if d.gpu_id == gpu_id then ds else d ∷ later

-- An assignment to the device of that id.
pub set_device : DeviceVm → List DeviceVm → List DeviceVm
set_device device [] = []
set_device device (d ∷ ds) =
    let later = set_device device ds in if d.gpu_id == device.gpu_id then device ∷ ds else d ∷ later

-- The part of a topology node that is read here; `none` for a negative render minor.
pub record VmNode : Type 0 where
  pub simd_count : ℕ
  pub gpu_id : ℕ
  pub drm_render_minor : Option ℕ

-- The outcomes of the system calls of one acquisition.
pub record VmAnswers : Type 0 where
  pub open_render : Answer (Unit {0})
  pub emplace_allocates : Bool
  pub acquire_ioctl : Answer (Unit {0})
  pub policy_ioctl : Answer (Unit {0})
  pub query : ℕ → QueryAnswers

-- `device.... = ...` on the device of the map.
abbrev with_device : KfdState → DeviceVm → KfdState
with_device s device = record s { device_vms = set_device device s.device_vms }

query_device : KfdState → VmAnswers → DeviceVm → KfdState × VmResult
unfolding query_process_aperture set_device
query_device s answers device =
    elim (query_process_aperture s.fd_is_open device.gpu_id answers.query) [
      | vm_failure error e ↦ (s, vm_failure error e)
      | vm aperture ↦ (
        with_device s (record device { aperture = aperture; aperture_valid = true }),
        vm aperture,
      )
    ]

-- `configure_memory_policy`, whose arguments are constants but for the id, and the steps behind it.
configure_device : KfdState → VmAnswers → DeviceVm → KfdState × VmResult
unfolding query_device
configure_device s answers device =
    let configured = record device { memory_policy_configured = true } in
    if device.memory_policy_configured
    then query_device s answers device
    else if not s.fd_is_open || device.gpu_id == 0
    then (s, vm_failure invalid_session 0)
    else elim answers.policy_ioctl [
      | system_error e ↦ (s, vm_failure configure_memory_policy_failed e)
      | answered u ↦ query_device (with_device s configured) answers configured
    ]

acquire_device : KfdState → VmAnswers → DeviceVm → KfdState × VmResult
unfolding configure_device erase_device
acquire_device s answers device =
    let acquired = record device { acquired = true } in
    if device.acquired then configure_device s answers device else elim answers.acquire_ioctl [
      | system_error e ↦ (
        record s {
          device_vms = erase_device device.gpu_id s.device_vms;
          open_render_fds = s.open_render_fds - 1;
        },
        vm_failure acquire_failed e,
      )
      | answered u ↦ configure_device (with_device s acquired) answers acquired
    ]

abbrev new_device : ℕ → ℕ → DeviceVm
new_device gpu_id minor = record {
  gpu_id = gpu_id;
  drm_render_minor = minor;
  acquired = false;
  memory_policy_configured = false;
  aperture_valid = false;
  aperture = empty_aperture;
}

-- A device that the map does not have: the render node is opened and the device is added.
open_device : KfdState → VmAnswers → ℕ → ℕ → KfdState × VmResult
unfolding acquire_device
open_device s answers gpu_id minor = elim answers.open_render [
  | system_error e ↦ (s, vm_failure open_render_node e)
  | answered u ↦
      if not answers.emplace_allocates
      then (record s { open_render_fds = s.open_render_fds + 1 - 1 }, vm_failure allocate_state 0)
      else acquire_device
          (record s {
            device_vms = new_device gpu_id minor ∷ s.device_vms;
            open_render_fds = s.open_render_fds + 1;
          })
          answers (new_device gpu_id minor)
]

found_device : KfdState → VmAnswers → ℕ → DeviceVm → KfdState × VmResult
unfolding acquire_device
found_device s answers minor device =
    if device.drm_render_minor != minor
    then (s, vm_failure invalid_node 0)
    else if device.aperture_valid
    then (s, vm device.aperture)
    else acquire_device s answers device

-- The part under the lock.
acquire_locked : KfdState → VmAnswers → ℕ → ℕ → KfdState × VmResult
unfolding open_device found_device find_device
acquire_locked s answers gpu_id minor = elim (find_device gpu_id s.device_vms) [
  | none ↦ open_device s answers gpu_id minor
  | some device ↦ found_device s answers minor device
]

-- `KfdSession::acquire_vm` on an open session.
unfoldable pub acquire_vm : KfdState → VmNode → VmAnswers → KfdState × VmResult
unfolding acquire_locked
acquire_vm s node answers =
    if node.simd_count == 0 || node.gpu_id == 0
    then (s, vm_failure invalid_node 0)
    else elim node.drm_render_minor [
      | none ↦ (s, vm_failure invalid_node 0)
      | some minor ↦ acquire_locked s answers node.gpu_id minor
    ]

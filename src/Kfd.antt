-- ===== src/Kfd.antt =====
-- light-rocr/transport/kfd: what the parts of the KFD transport share. A system call's outcome is an input
-- of the model; the text of a message is left out.

pub mod Vm
mod Examples
use light_rocm_runtime.Prelude.{ℕ, zero, suc, ◌+◌, Option, none, some}

-- The outcome of a system call that is not interrupted: its data, or its error number.
pub data Answer {ℓ} (A : Type ℓ) : Type ℓ where
  answered : A → Answer A
  system_error : ℕ → Answer A

-- One `ioctl`.
pub data IoctlReturn {ℓ} (A : Type ℓ) : Type ℓ where
  returned : A → IoctlReturn A
  interrupted : IoctlReturn A
  errno_set : ℕ → IoctlReturn A

module _ {A : Type 0} (call : ℕ → IoctlReturn A) where
  -- `invoke_ioctl` of vm.cpp, from call `i` on, with fuel.
  unfoldable pub invoke_ioctl : ℕ → ℕ → Option (Answer A)
  invoke_ioctl zero i = none
  invoke_ioctl (suc fuel) i =
      let again = invoke_ioctl fuel (i + 1) in
      elim (call i) [
        | returned a ↦ some (answered a)
        | interrupted ↦ again
        | errno_set e ↦ some (system_error e)
      ]

-- ===== src/Signal/Examples.antt =====
-- A signal that reaches 0 in the third loop, for light-rocr/runtime/signal.cpp.
use light_rocm_runtime.Prelude.{ℕ, zero, suc, ◌≤◌, ◌≡◌, refl, some, arith}
use light_rocm_runtime.Signal.{satisfied, timed_out, SignalWaitResult, signal_wait_until_equal}
use light_rocm_runtime.Signal.Wait.{IsEnd, GoesOn, signal_wait_until_equal_ends}

abbrev countdown : ℕ → ℕ
countdown zero = 2
countdown (suc zero) = 1
countdown (suc (suc i)) = 0

abbrev clock : ℕ → ℕ
clock i = i

ends_with_value :
    signal_wait_until_equal countdown clock 0 5 6
    ≡ some (record { state = satisfied; observed_value = 0 })
unfolding signal_wait_until_equal
ends_with_value = refl

ends_at_deadline :
    signal_wait_until_equal countdown clock 0 1 6
    ≡ some (record { state = timed_out; observed_value = 1 })
unfolding signal_wait_until_equal
ends_at_deadline = refl

signal_wait_until_equal_ends_example :
    (r : SignalWaitResult) × (k : ℕ) × (signal_wait_until_equal countdown clock 0 5 6 ≡ some r)
    × (k ≤ 5)
    × IsEnd countdown clock 0 5 k r
    × GoesOn countdown clock 0 5 0 k
signal_wait_until_equal_ends_example =
    signal_wait_until_equal_ends countdown clock 0 5 5 (omega arith)

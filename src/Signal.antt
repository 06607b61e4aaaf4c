-- ===== src/Signal.antt =====
-- light-rocr/runtime/signal.cpp and its header: the AMD user signal. An `int64_t` is its bit pattern. The
-- GPU writes the signal while the wait runs, so the values that the wait loads, and the times that
-- the clock shows, are functions of the number of loops before.

mod Examples
pub mod Wait
use light_rocm_runtime.Prelude.{
  ℕ, zero, suc, ◌+◌, Bool, Option, none, some, leb, ◌==◌, if◌then◌else◌,
}

pub record AmdSignal : Type 0 where
  pub kind : ℕ
  pub value : ℕ
  pub event_mailbox_ptr : ℕ
  pub event_id : ℕ
  pub start_ts : ℕ
  pub end_ts : ℕ
  pub queue_ptr : ℕ

-- `signal = {}`.
abbrev cleared_signal : AmdSignal
cleared_signal = record {
  kind = 0;
  value = 0;
  event_mailbox_ptr = 0;
  event_id = 0;
  start_ts = 0;
  end_ts = 0;
  queue_ptr = 0;
}

abbrev amd_signal_kind_user : ℕ
amd_signal_kind_user = 1

abbrev pub signal_load : AmdSignal → ℕ
signal_load signal = signal.value

pub signal_store : AmdSignal → ℕ → AmdSignal
signal_store signal value = record signal { value = value }

pub initialize_user_signal : AmdSignal → ℕ → AmdSignal
unfolding signal_store
initialize_user_signal signal initial_value =
    signal_store (record cleared_signal { kind = amd_signal_kind_user }) initial_value

pub reset_user_signal : AmdSignal → ℕ → AmdSignal
reset_user_signal signal initial_value = record signal {
  start_ts = 0;
  end_ts = 0;
  value = initial_value;
}

pub data SignalWaitState : Type 0 where
  satisfied timed_out : SignalWaitState

pub record SignalWaitResult : Type 0 where
  pub state : SignalWaitState
  pub observed_value : ℕ

module _ (observed clock : ℕ → ℕ) (expected_value deadline : ℕ) where
  -- The loop from loop `i` on, with fuel.
  wait_from : ℕ → ℕ → Option SignalWaitResult
  wait_from zero i = none
  wait_from (suc fuel) i =
      let later = wait_from fuel (i + 1) in
      if observed i == expected_value
      then some (record { state = satisfied; observed_value = observed i })
      else if leb deadline (clock i)
      then some (record { state = timed_out; observed_value = observed i })
      else later

  unfoldable pub signal_wait_until_equal : ℕ → Option SignalWaitResult
  unfolding wait_from
  signal_wait_until_equal fuel = wait_from fuel 0

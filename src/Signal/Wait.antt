-- ===== src/Signal/Wait.antt =====
-- The wait of light-rocr/runtime/signal.cpp: that it ends, and how.
use light_rocm_runtime.Prelude.{
  ℕ, zero, suc, ◌+◌, ◌≤◌, ◌<◌, ◌≡◌, ◌≢◌, ◌⊎◌, inl, inr, refl, some, arith, subst, Bool-cases, leb,
  ◌==◌,
}
use light_rocm_runtime.Signal.{
  satisfied, timed_out, SignalWaitResult, wait_from, signal_wait_until_equal,
}

module _ (observed clock : ℕ → ℕ) (expected_value deadline : ℕ) where
  -- Loop `k` ends the wait: with the expected value, or with another one at or behind the deadline.
  pub IsEnd : ℕ → SignalWaitResult → Type 0
  IsEnd k r =
      (r.observed_value ≡ observed k)
      × (((r.state ≡ satisfied) × (observed k ≡ expected_value))
          ⊎ ((r.state ≡ timed_out) × (observed k ≢ expected_value) × (deadline ≤ clock k)))

  -- No loop from `i` up to `k` ends it.
  pub GoesOn : ℕ → ℕ → Type 0
  GoesOn i k = (j : ℕ) → i ≤ j → j < k → (observed j ≢ expected_value) × (clock j < deadline)

  wait_from_ends :
      (fuel i : ℕ)
      → deadline ≤ clock (i + fuel)
      → (r : SignalWaitResult) × (k : ℕ) × (wait_from observed clock expected_value deadline
            (suc fuel)
            i
          ≡ some r)
        × (i ≤ k)
        × (k ≤ i + fuel)
        × IsEnd k r
        × GoesOn i k
  unfolding wait_from IsEnd GoesOn
  wait_from_ends zero i late = elim (Bool-cases (observed i == expected_value)) [
    | inl e ↦ (
      record { state = satisfied; observed_value = observed i },
      i,
      rw (e, wait_from) refl,
      omega arith,
      omega arith,
      (refl, inl (refl, ground arith)),
      λ j le lt. absurd (omega arith),
    )
    | inr e ↦ (
      record { state = timed_out; observed_value = observed i },
      i,
      ground (arith, over),
      omega arith,
      omega arith,
      (refl, inr (refl, ground arith, over)),
      λ j le lt. absurd (omega arith),
    )
  ]
    where
      here : i + 0 ≡ i
      here = omega arith

      over : deadline ≤ clock i
      over = subst (λ (n : ℕ). deadline ≤ clock n) here late
  wait_from_ends (suc fuel) i late = elim (Bool-cases (observed i == expected_value)) [
    | inl e ↦ (
      record { state = satisfied; observed_value = observed i },
      i,
      rw (e, wait_from) refl,
      omega arith,
      omega arith,
      (refl, inl (refl, ground arith)),
      λ j le lt. absurd (omega arith),
    )
    | inr e ↦ elim (Bool-cases (leb deadline (clock i))) [
      | inl f ↦ (
        record { state = timed_out; observed_value = observed i },
        i,
        rw (e, f, wait_from) refl,
        omega arith,
        omega arith,
        (refl, inr (refl, ground arith, ground arith)),
        λ j le lt. absurd (omega arith),
      )
      | inr f ↦
          let shift : i + suc fuel ≡ i + 1 + fuel = omega arith in
          let (r, k, ran, from, upto, end, before) =
            wait_from_ends fuel (i + 1) (subst (λ (n : ℕ). deadline ≤ clock n) shift late) in
          let first : (observed i ≢ expected_value) × (clock i < deadline) = ground arith in
          (
            r,
            k,
            rw (e, f, wait_from) ran,
            omega arith,
            omega arith,
            end,
            (λ j le lt. elim (==_cases i j) [
              | inl same ↦
                  subst (λ (n : ℕ). (observed n ≢ expected_value) × (clock n < deadline)) same first
              | inr other ↦ before j (omega arith) lt
            ]),
          )
    ]
  ]
    where
      ==_cases : (a b : ℕ) → (a ≡ b) ⊎ (a ≢ b)
      ==_cases a b = ground arith

-- Whatever the loads give, a wait whose clock has reached the deadline in some loop ends by that loop: with
-- the expected value in the first loop that loads it, if no clock reading before it is at or behind the
-- deadline, and otherwise with the value of the first loop at whose end the deadline is reached.
pub signal_wait_until_equal_ends :
    (observed clock : ℕ → ℕ) (expected_value deadline n : ℕ)
    → deadline ≤ clock n
    → (r : SignalWaitResult) × (k : ℕ) × (signal_wait_until_equal observed clock expected_value
          deadline
          (suc n)
        ≡ some r)
      × (k ≤ n)
      × IsEnd observed clock expected_value deadline k r
      × GoesOn observed clock expected_value deadline 0 k
unfolding signal_wait_until_equal
signal_wait_until_equal_ends observed clock expected_value deadline n late =
    let here : n ≡ 0 + n = omega arith in
    let (r, k, ran, from, upto, end, before) =
      wait_from_ends observed clock expected_value deadline n 0
        (subst (λ (m : ℕ). deadline ≤ clock m) here late) in
    (r, k, ran, omega arith, end, before)

-- ===== src/App/Shutdown.antt =====
-- src/main.rs, `shutdown`: how long the client waits for requests to cease. The counter of requests
-- and the clock are read once for each interval of five seconds.
use scalpel.Common.{
  ℕ, zero, suc, ◌+◌, ◌≤◌, ◌<◌, Bool, true, false, ◌||◌, ◌&&◌, not, Option, none, some, ◌==◌,
  if◌then◌else◌, ◌≡◌, refl, ◌⊎◌, inl, inr, arith, Bool-cases, sym, ◌∙◌, subst,
}
use scalpel.Common.Int.{ℤ, is_negative, is_zero, ge_int, as_i32}
use scalpel.Common.{◌≢◌}

-- `requests n` is the counter after `n` intervals, `elapsed n` the seconds since the start after
-- `n` intervals; the result is the number of intervals waited, `none` is fuel that ran out.
module _ (grace : ℤ) (requests elapsed : ℕ → ℕ) where
  -- Whether the wait ends after interval `n`, with `last` the counter before it.
  unfoldable pub is_over : ℕ → ℕ → Bool
  is_over n last =
      (requests n == last) || (not (is_zero grace) && ge_int (as_i32 (elapsed n)) grace)

  unfoldable pub shutdown_loop : ℕ → ℕ → ℕ → Option ℕ
  shutdown_loop zero n last = none
  shutdown_loop (suc fuel) n last =
      let rest = shutdown_loop fuel (n + 1) (requests (n + 1)) in
      if is_negative grace then some n else if is_over (n + 1) last then some (n + 1) else rest

  unfoldable pub wait_for_requests : ℕ → Option ℕ
  wait_for_requests fuel = shutdown_loop fuel 0 (requests 0)

  -- The wait lasted `m` intervals.
  pub record IsWait (m : ℕ) : Type 0 where
    pub busy : (i : ℕ) → i + 1 < m → is_over (i + 1) (requests i) ≡ false
    pub ended :
        ((is_negative grace ≡ true) × (m ≡ 0))
        ⊎ ((i : ℕ) × (m ≡ i + 1) × (is_over m (requests i) ≡ true))

  busy_more :
      (n : ℕ)
      → ((i : ℕ) → i + 1 < n + 1 → is_over (i + 1) (requests i) ≡ false)
      → is_over (n + 1) (requests n) ≡ false
      → (i : ℕ) → i + 1 < n + 1 + 1
      → is_over (i + 1) (requests i) ≡ false
  busy_more n before now i h = elim (Bool-cases (i == n)) [
    | inl same ↦ subst (λ j. is_over (j + 1) (requests j) ≡ false) (the_same i n same) now
    | inr other ↦ before i (ground arith)
  ]
    where
      the_same : (a b : ℕ) → (a == b) ≡ true → b ≡ a
      the_same a b h = ground arith

  shutdown_loop-eq-some :
      (fuel n : ℕ) {m : ℕ}
      → ((is_negative grace ≡ true) → n ≡ 0)
      → ((i : ℕ) → i + 1 < n + 1 → is_over (i + 1) (requests i) ≡ false)
      → shutdown_loop fuel n (requests n) ≡ some m
      → IsWait m
  unfolding shutdown_loop
  shutdown_loop-eq-some zero n {m} first before h = absurd (ground arith)
  shutdown_loop-eq-some (suc fuel) n {m} first before h = elim (Bool-cases (is_negative grace)) [
    | inl off ↦
        let m≡n : n ≡ m = ground arith in
        record {
          busy = λ i l. absurd (omega (arith, first off, m≡n));
          ended = inl (off, sym m≡n ∙ first off);
        }
    | inr on ↦ elim (Bool-cases (is_over (n + 1) (requests n))) [
      | inl over ↦
          let last : n + 1 ≡ m = ground arith in
          subst IsWait last (record { busy = λ i l. before i l; ended = inr (n, refl, over) })
      | inr busy ↦
          shutdown_loop-eq-some fuel (n + 1) {m = m} (λ neg. absurd (cc (neg, on)))
            (busy_more n before busy) (ground arith)
    ]
  ]

  -- However the counter and the clock go, a wait that ends has lasted no interval if the grace
  -- period is negative; otherwise it ended after the first interval in which no request came, or
  -- by whose end the grace period had run out (if it is not 0).
  pub wait_for_requests-IsWait : (fuel : ℕ) {m : ℕ} → wait_for_requests fuel ≡ some m → IsWait m
  unfolding wait_for_requests
  wait_for_requests-IsWait fuel {m} h =
      shutdown_loop-eq-some fuel 0 {m = m} (λ _. refl) (λ i l. absurd (omega arith)) h

  not_yet :
      (k n : ℕ)
      → n ≤ k
      → requests (k + 1) ≡ requests k
      → is_over (n + 1) (requests n) ≡ false
      → n < k
  unfolding is_over
  not_yet k n le quiet busy = elim (Bool-cases (n == k)) [
    | inl same ↦
        let e : k ≡ n = ground arith in
        absurd (ground (arith, subst (λ i. requests (i + 1) ≡ requests i) e quiet))
    | inr other ↦ ground arith
  ]

  quiet_ends :
      (k fuel n : ℕ)
      → is_negative grace ≡ false
      → n ≤ k
      → k < fuel + n
      → requests (k + 1) ≡ requests k
      → (m : ℕ) × (shutdown_loop fuel n (requests n) ≡ some m) × (m ≤ k + 1)
  unfolding shutdown_loop
  quiet_ends k zero n on le lt quiet = absurd (omega arith)
  quiet_ends k (suc fuel) n on le lt quiet = elim (Bool-cases (is_over (n + 1) (requests n))) [
    | inl over ↦ (n + 1, rw (on, over) refl, omega arith)
    | inr busy ↦
        let early : n < k = not_yet k n le quiet busy in
        let (m, run, bound) = quiet_ends k fuel (n + 1) on (omega arith) (omega arith) quiet in
        (m, rw (on, busy) run, bound)
  ]

  -- If the grace period is not negative and no request comes in some interval, the wait ends by
  -- the end of that interval.
  pub wait_for_requests_quiet :
      (k : ℕ)
      → is_negative grace ≡ false
      → requests (k + 1) ≡ requests k
      → (m : ℕ) × (wait_for_requests (k + 1) ≡ some m) × (m ≤ k + 1)
  unfolding wait_for_requests
  wait_for_requests_quiet k on quiet = quiet_ends k (k + 1) 0 on (omega arith) (omega arith) quiet

module _ (g : ℕ) (requests elapsed : ℕ → ℕ) where
  -- What ends the wait after an interval, and what keeps it going.
  Over : ℕ → Type 0
  Over n = (requests (n + 1) ≡ requests n) ⊎ (g ≤ elapsed (n + 1))

  Busy : ℕ → Type 0
  Busy n = (requests (n + 1) ≢ requests n) × (elapsed (n + 1) < g)

-- ===== src/Http/Handler/Retry.antt =====
-- src/http/handler.rs, `start_poll_upstream_retry`: it ends, and with which attempt.
use scalpel.Common.{
  ℕ, zero, suc, ◌+◌, ◌≤◌, ◌<◌, true, false, ◌||◌, Result, some, leb, ◌==◌, ◌≡◌, refl, ◌⊎◌, inl, inr,
  arith, Bool-cases,
}
use scalpel.Http.Handler.{is_ok, retry_loop, start_poll_upstream_retry}

module _ {ℓ} {A E : Type ℓ} (attempt : ℕ → Result A E) (retry : ℕ) where
  -- `n` attempts were made, and `res` is the outcome of the last one.
  pub record IsFirstSuccess (res : Result A E) (n : ℕ) : Type ℓ where
    pub last : ℕ
    pub made : n ≡ last + 1
    pub outcome : res ≡ attempt last
    pub before : (i : ℕ) → i < last → is_ok (attempt i) ≡ false
    pub bounded : (last ≡ 0) ⊎ (n ≤ retry)
    pub given_up : (is_ok res ≡ true) ⊎ (retry ≤ n)

  failed_more :
      (count : ℕ)
      → ((i : ℕ) → i < count → is_ok (attempt i) ≡ false)
      → is_ok (attempt count) ≡ false
      → (i : ℕ) → i < count + 1
      → is_ok (attempt i) ≡ false
  failed_more count before fails i h = elim (Bool-cases (i == count)) [
    | inl same ↦ ground arith
    | inr differ ↦ before i (ground arith)
  ]

  start_bounded : (count : ℕ) → (count ≡ 0) ⊎ (count < retry) → (count ≡ 0) ⊎ (count + 1 ≤ retry)
  start_bounded count (inl e) = inl e
  start_bounded count (inr e) = inr (omega arith)

  stopped :
      (count : ℕ)
      → (is_ok (attempt count) || leb retry (count + 1)) ≡ true
      → (is_ok (attempt count) ≡ true) ⊎ (retry ≤ count + 1)
  stopped count h = elim (Bool-cases (is_ok (attempt count))) [
    | inl good ↦ inl good
    | inr bad ↦ inr (ground arith)
  ]

  retry_loop-IsFirstSuccess :
      (fuel count : ℕ)
      → retry < fuel + count
      → (count ≡ 0) ⊎ (count < retry)
      → ((i : ℕ) → i < count → is_ok (attempt i) ≡ false)
      → (res : Result A E) × (n : ℕ) × (retry_loop attempt retry fuel count ≡ some (res, n))
        × IsFirstSuccess res n
  unfolding retry_loop
  retry_loop-IsFirstSuccess zero count enough (inl e) before = absurd (omega arith)
  retry_loop-IsFirstSuccess zero count enough (inr e) before = absurd (omega arith)
  retry_loop-IsFirstSuccess (suc fuel) count enough start before =
      elim (Bool-cases (is_ok (attempt count) || leb retry (count + 1))) [
        | inl stop ↦ (
          attempt count,
          count + 1,
          rw stop,
          record {
            last = count;
            made = refl;
            outcome = refl;
            before = before;
            bounded = start_bounded count start;
            given_up = stopped count stop;
          },
        )
        | inr go ↦
            let (res, n, run, first) =
              retry_loop-IsFirstSuccess fuel (count + 1) (omega arith) (inr (ground arith))
                (failed_more count before (ground arith)) in
            (res, n, rw go run, first)
      ]

  -- The loop ends within its fuel. It returns the outcome of the last attempt made; all earlier
  -- ones failed, at most `retry` attempts were made (one, if `retry` is 0), and a failure is
  -- returned only after `retry` of them.
  pub start_poll_upstream_retry-IsFirstSuccess :
      (res : Result A E) × (n : ℕ) × (start_poll_upstream_retry attempt retry ≡ some (res, n))
      × IsFirstSuccess res n
  unfolding start_poll_upstream_retry
  start_poll_upstream_retry-IsFirstSuccess =
      retry_loop-IsFirstSuccess (suc retry) 0 (omega arith) (inl refl) (λ i h. absurd (omega arith))

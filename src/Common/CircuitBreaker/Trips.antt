-- ===== src/Common/CircuitBreaker/Trips.antt =====
-- When a circuit breaker (src/common/circuit-breaker.ts) refuses a call, and when it trips.
use dupdap_backend.Base.{
  ℕ, ◌+◌, ◌≤◌, ◌<◌, ◌≡◌, refl, ◌⊎◌, inl, inr, ◌↔◌, Bool-cases, true, false, List, [], ◌∷◌, length,
  Result, ok, err, arith,
}
use dupdap_backend.Common.CircuitBreaker.{
  closed, open_, half_open, CircuitBreakerOptions, CircuitBreaker, new, circuit_open, thrown,
  ExecuteError, execute, counts_as_failure,
}

-- What a trial call leaves behind, by how it ended.
abbrev pub Decided :
    {E T : Type 0}
    → CircuitBreakerOptions E
    → ℕ
    → Result E T
    → CircuitBreaker × Result (ExecuteError E) T
    → Type 0
Decided options end (ok r) (b, answer) =
    (b.current ≡ closed) × (b.consecutive_failures ≡ 0) × (answer ≡ ok r)
Decided options end (err e) (b, answer) =
    (answer ≡ err (thrown e))
    × ((counts_as_failure options.is_failure e ≡ true) × (b.current ≡ open_) × (b.opened_at ≡ end)
        ⊎ (counts_as_failure options.is_failure e ≡ false) × (b.current ≡ half_open))

module _ {E : Type 0} (options : CircuitBreakerOptions E) where
  -- `execute` throws `CircuitOpenError` exactly when the circuit is open and its reset timeout has
  -- not passed, and then it changes nothing and `fn` is not awaited: `end`, `others` and `outcome`
  -- do not matter.
  execute_refuses_iff :
      {T : Type 0} (start end : ℕ) (others : CircuitBreaker → CircuitBreaker) (outcome : Result E T)
      (b : CircuitBreaker)
      → (execute options start end others outcome b ≡ (b, err circuit_open))
        ↔ (b.current ≡ open_) × (start < b.opened_at + options.reset_timeout_ms)
  unfolding execute
  execute_refuses_iff start end others (ok r) b = (λ h. ground arith, λ h. ground arith)
  execute_refuses_iff start end others (err e) b = (λ h. ground arith, λ h. ground arith)

  -- `execute` calls that follow one another, each failing at the time given.
  pub fail_all : E → List ℕ → CircuitBreaker → CircuitBreaker
  fail_all e [] b = b
  fail_all e (now ∷ times) b =
      fail_all e times (execute options {T = ℕ} now now (λ c. c) (err e) b).0

  fail_once :
      (e : E) (now : ℕ) (b : CircuitBreaker)
      → counts_as_failure options.is_failure e ≡ true
      → b.current ≡ closed
      → let b' = (execute options {T = ℕ} now now (λ c. c) (err e) b).0 in
        (b'.consecutive_failures ≡ b.consecutive_failures + 1)
        × (b.consecutive_failures + 1 < options.failure_threshold → b'.current ≡ closed)
        × (options.failure_threshold ≤ b.consecutive_failures + 1
            → (b'.current ≡ open_) × (b'.opened_at ≡ now))
  unfolding execute
  fail_once e now b counted c = (ground arith, λ h. ground arith, λ h. ground arith)

  fail_all_from :
      (e : E) (times : List ℕ) (b : CircuitBreaker)
      → counts_as_failure options.is_failure e ≡ true
      → b.current ≡ closed
      → b.consecutive_failures + length times + 1 ≡ options.failure_threshold
      → let b' = fail_all e times b in
        (b'.current ≡ closed) × (b'.consecutive_failures + 1 ≡ options.failure_threshold)
  unfolding fail_all
  fail_all_from e [] b counted c h = (c, omega arith)
  fail_all_from e (now ∷ times) b counted c h =
      let (more, stays, _) = fail_once e now b counted c in
      fail_all_from e times (execute options {T = ℕ} now now (λ c. c) (err e) b).0 counted
        (stays (omega arith)) (omega arith)

  -- When calls on a new breaker follow one another and each fails with an error that counts, the
  -- breaker trips at exactly its threshold: after one failure fewer it is closed, and the next
  -- failure opens it at its own time.
  fail_all-trips :
      (e : E) (times : List ℕ) (last : ℕ)
      → counts_as_failure options.is_failure e ≡ true
      → length times + 1 ≡ options.failure_threshold
      → let before = fail_all e times new in
        let after = fail_all e (last ∷ []) before in
        (before.current ≡ closed) × (after.current ≡ open_) × (after.opened_at ≡ last)
  unfolding fail_all new
  fail_all-trips e times last counted h =
      let (c, n) = fail_all_from e times new counted refl (omega arith) in
      let (_, _, trips) = fail_once e last (fail_all e times new) counted c in
      let (opened, stamped) = trips (omega arith) in (c, opened, stamped)

  -- Once the reset timeout has passed, an open circuit lets a call through, and if no other call
  -- overlaps, that call decides: a success closes it and clears the count, a failure that counts
  -- opens it again from the time of the failure, and another failure leaves it half-open.
  trial_decides :
      {T : Type 0} (start end : ℕ) (outcome : Result E T) (b : CircuitBreaker)
      → b.current ≡ open_
      → b.opened_at + options.reset_timeout_ms ≤ start
      → Decided options end outcome (execute options start end (λ c. c) outcome b)
  unfolding execute
  trial_decides start end (ok r) b o h = (ground arith, ground arith, ground arith)
  trial_decides start end (err e) b o h =
      elim (Bool-cases (counts_as_failure options.is_failure e)) [
        | inl counted ↦ (ground arith, inl (counted, ground arith, ground arith))
        | inr uncounted ↦ (ground arith, inr (uncounted, ground arith))
      ]

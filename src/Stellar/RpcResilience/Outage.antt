-- ===== src/Stellar/RpcResilience/Outage.antt =====
-- What `call` of src/stellar/soroban-rpc-resilience.ts answers, how it counts towards the circuit,
-- and how an outage opens it.
use dupdap_backend.Base.{
  ℕ, ◌+◌, ◌≤◌, ◌<◌, ◌≡◌, refl, Bool, true, List, [], ◌∷◌, Option, none, some, Result, ok, err,
  arith, length, if◌then◌else◌,
}
use dupdap_backend.Common.CircuitBreaker.{
  CircuitBreaker, closed, open_, new, is_open, record_failure, record_success,
}
use dupdap_backend.Stellar.RpcResilience.{
  rpc_breaker_options, CallError, unavailable, rpc, Answer, primary_outcome, fallback_outcome, call,
}
use dupdap_backend.Stellar.RpcResilience.Backoff.{settled, attempts_lem}

module _ {E T : Type 0} (is_retryable : E → Bool) where
  -- The result that decides: the primary endpoint's, unless that is a retryable error and there is
  -- a fallback.
  abbrev pub or_fallback : Result E T → Option (ℕ → Result E T) → Result E T
  or_fallback (ok r) fallback = ok r
  or_fallback (err e) none = err e
  or_fallback (err e) (some second) = if is_retryable e then settled is_retryable second else err e

  abbrev pub deciding : (ℕ → Result E T) → Option (ℕ → Result E T) → Result E T
  deciding primary fallback = or_fallback (settled is_retryable primary) fallback

  -- How a result counts: a success closes the circuit, a retryable error is one failure, any other
  -- error does not count.
  abbrev pub accounted : ℕ → CircuitBreaker → Result E T → CircuitBreaker × Result (CallError E) T
  accounted end b (ok r) = (record_success b, ok r)
  accounted end b (err e) =
      (if is_retryable e then record_failure (rpc_breaker_options E) end b else b, err (rpc e))

  fallback_outcome_lem :
      (end : ℕ) (b : CircuitBreaker) (r : Result E T)
      → fallback_outcome is_retryable end b (some r) ≡ some (accounted end b r)
  unfolding fallback_outcome
  fallback_outcome_lem end b (ok r) = refl
  fallback_outcome_lem end b (err e) = ground arith

  primary_outcome_lem :
      (end : ℕ) (b : CircuitBreaker) (fallback : Option (ℕ → Result E T)) (r : Result E T)
      → primary_outcome is_retryable end b fallback (some r)
        ≡ some (accounted end b (or_fallback r fallback))
  unfolding primary_outcome
  primary_outcome_lem end b none (ok r) = refl
  primary_outcome_lem end b (some second) (ok r) = refl
  primary_outcome_lem end b none (err e) = ground arith
  primary_outcome_lem end b (some second) (err e) = ground (
    arith,
    attempts_lem is_retryable second,
    fallback_outcome_lem end b (settled is_retryable second),
  )

  -- The breaker that a call leaves.
  abbrev left_by : CircuitBreaker → Answer E T → CircuitBreaker
  left_by b none = b
  left_by b (some (b', _)) = b'

  -- A call that finds the circuit open answers `unavailable` and leaves the breaker alone; any other
  -- call always comes to an end, answers with the deciding result, and counts it once.
  call_lem :
      (start end : ℕ) (others : CircuitBreaker → CircuitBreaker) (primary : ℕ → Result E T)
      (fallback : Option (ℕ → Result E T)) (b : CircuitBreaker)
      → let (b', open_now) = is_open (rpc_breaker_options E) start b in
        call is_retryable start end others primary fallback b ≡ (
          if open_now
          then some (b', err unavailable)
          else some (accounted end (others b') (deciding primary fallback)))
  unfolding call
  call_lem start end others primary fallback b =
      let (b', _) = is_open (rpc_breaker_options E) start b in
      ground (
        arith,
        attempts_lem is_retryable primary,
        primary_outcome_lem end (others b') fallback (settled is_retryable primary),
      )

  -- The breaker after calls that follow one another, at the times given, on endpoints that keep
  -- failing.
  pub outage : (ℕ → Result E T) → Option (ℕ → Result E T) → List ℕ → CircuitBreaker → CircuitBreaker
  outage primary fallback [] b = b
  outage primary fallback (now ∷ times) b =
      outage primary fallback times
        (left_by b (call is_retryable now now (λ c. c) primary fallback b))

  module _ (primary : ℕ → Result E T) (fallback : Option (ℕ → Result E T)) (e : E)
      (fails : deciding primary fallback ≡ err e) (retryable : is_retryable e ≡ true) where
    outage_step :
        (now : ℕ) (b : CircuitBreaker)
        → b.current ≡ closed
        → let b' = left_by b (call is_retryable now now (λ c. c) primary fallback b) in
          (b'.consecutive_failures ≡ b.consecutive_failures + 1)
          × (b.consecutive_failures + 1 < 5 → b'.current ≡ closed)
          × (5 ≤ b.consecutive_failures + 1 → (b'.current ≡ open_) × (b'.opened_at ≡ now))
    unfolding is_open record_failure
    outage_step now b c =
        let answer = call_lem now now (λ d. d) primary fallback b in
        (ground (arith, answer), λ h. ground (arith, answer), λ h. ground (arith, answer))

    outage_from :
        (times : List ℕ) (b : CircuitBreaker)
        → b.current ≡ closed
        → b.consecutive_failures + length times ≤ 4
        → let b' = outage primary fallback times b in
          (b'.current ≡ closed) × (b'.consecutive_failures ≡ b.consecutive_failures + length times)
    unfolding outage
    outage_from [] b c h = (c, omega arith)
    outage_from (now ∷ times) b c h =
        let (more, stays, _) = outage_step now b c in
        let (c', n) =
          outage_from times (left_by b (call is_retryable now now (λ d. d) primary fallback b))
            (stays (omega arith)) (omega arith) in
        (c', omega arith)

    -- When calls through a new breaker follow one another and each ends with the same retryable
    -- error, four leave the circuit closed and the fifth opens it; for 30 seconds after it a call
    -- is answered `unavailable` whatever the endpoints would do.
    pub outage_opens :
        (times : List ℕ) (last later end : ℕ) (others : CircuitBreaker → CircuitBreaker)
        (primary' : ℕ → Result E T) (fallback' : Option (ℕ → Result E T))
        → length times ≡ 4
        → later < last + 30000
        → let before = outage primary fallback times new in
          let b = outage primary fallback (last ∷ []) before in
          (before.current ≡ closed)
          × (b.current ≡ open_)
          × (call is_retryable later end others primary' fallback' b ≡ some (b, err unavailable))
    unfolding outage new is_open
    outage_opens times last later end others primary' fallback' four soon =
        let (c, n) = outage_from times new refl (omega arith) in
        let before = outage primary fallback times new in
        let (_, _, trips) = outage_step last before c in
        let (opened, stamped) = trips (omega arith) in
        let b = left_by before (call is_retryable last last (λ d. d) primary fallback before) in
        (c, opened, ground (arith, call_lem later end others primary' fallback' b))

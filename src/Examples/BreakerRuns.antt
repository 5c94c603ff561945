-- ===== src/Examples/BreakerRuns.antt =====
-- Runs of the theorems about src/common and src/stellar/soroban-rpc-resilience.ts.
use dupdap_backend.Base.{
  ℕ, ◌<◌, ◌≡◌, ◌≢◌, refl, Bool, true, [], ◌∷◌, none, some, Result, ok, err, arith, if◌then◌else◌,
  ◌==◌,
}
use dupdap_backend.Common.CircuitBreaker.{
  CircuitBreakerOptions, CircuitBreaker, closed, open_, new, record_failure,
}
use dupdap_backend.Common.CircuitBreaker.Invariant.{IsSound, failure, here, next, Reach-IsSound}
use dupdap_backend.Common.RetryPolicy.{PartialOptions, merge}
use dupdap_backend.Stellar.RpcResilience.{call, unavailable}
use dupdap_backend.Stellar.RpcResilience.Outage.{outage, outage_opens}

abbrev two : CircuitBreakerOptions ℕ
two = record { failure_threshold = 2; reset_timeout_ms = 100; is_failure = none }

abbrev opened : CircuitBreaker
opened = record { current = open_; consecutive_failures = 2; opened_at = 50; changes = [] }

Reach-IsSound_example : IsSound two (record_failure two 7 new)
Reach-IsSound_example = Reach-IsSound two {b = record_failure two 7 new} (next here (failure 7))

-- A cap of 3000 ms and a jitter of up to 50 ms.
abbrev capped : PartialOptions
capped = record {
  base_delay_ms = none;
  multiplier = none;
  max_attempts = none;
  jitter_ms = some 50;
  max_delay_ms = some 3000;
}

abbrev defaults : PartialOptions
defaults = record {
  base_delay_ms = none;
  multiplier = none;
  max_attempts = none;
  jitter_ms = none;
  max_delay_ms = none;
}

abbrev lowest : ℕ → ℕ → ℕ
lowest i n = 0

capped-max_delay_ms : (merge capped).max_delay_ms ≢ 0
unfolding merge
capped-max_delay_ms = omega arith

defaults-merge : ((merge defaults).jitter_ms ≡ 0) × (0 < (merge defaults).multiplier)
unfolding merge
defaults-merge = (refl, omega arith)

-- An endpoint that fails with error 7 each time, and one that answers at the second attempt.
abbrev down : ℕ → Result ℕ ℕ
down n = err 7

abbrev flaky : ℕ → Result ℕ ℕ
flaky n = if n == 2 then ok 1 else err 7

abbrev always : ℕ → Bool
always e = true

outage_opens_example :
    let before = outage always down none (1 ∷ 2 ∷ 3 ∷ 4 ∷ []) new in
    let b = outage always down none (5 ∷ []) before in
    (before.current ≡ closed)
    × (b.current ≡ open_)
    × (call always 900 901 (λ c. c) flaky none b ≡ some (b, err unavailable))
outage_opens_example =
    outage_opens always down none 7 refl refl (1 ∷ 2 ∷ 3 ∷ 4 ∷ []) 5 900 901 (λ c. c) flaky none
      refl (omega arith)

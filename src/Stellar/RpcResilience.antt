-- ===== src/Stellar/RpcResilience.antt =====
-- src/stellar/soroban-rpc-resilience.ts: retries with backoff on one endpoint, a fallback endpoint,
-- and a circuit breaker over both. What the RPC client answers is a parameter: `primary n` and
-- `fallback n` are the outcomes of the n-th attempt (from 1) on that endpoint. `isRetryable` is a
-- parameter too: the constructor takes it as an option. The callbacks of the options are taken not
-- to throw.
pub mod Backoff
pub mod Outage
use dupdap_backend.Base.{
  ℕ, zero, suc, ◌+◌, ◌-◌, ◌*◌, ◌^◌, Bool, true, false, not, ◌||◌, List, [], ◌∷◌, Option, none, some,
  leb, Result, ok, err, if◌then◌else◌,
}
use dupdap_backend.Common.CircuitBreaker.{
  CircuitBreakerOptions, CircuitBreaker, is_open, record_failure, record_success,
}

abbrev pub rpc_max_attempts : ℕ
rpc_max_attempts = 3

abbrev pub rpc_base_delay_ms : ℕ
rpc_base_delay_ms = 250

abbrev pub rpc_circuit_failure_threshold : ℕ
rpc_circuit_failure_threshold = 5

abbrev pub rpc_circuit_reset_ms : ℕ
rpc_circuit_reset_ms = 30000

-- The breaker that the constructor builds.
abbrev pub rpc_breaker_options : (E : Type 0) → CircuitBreakerOptions E
rpc_breaker_options E = record {
  failure_threshold = rpc_circuit_failure_threshold;
  reset_timeout_ms = rpc_circuit_reset_ms;
  is_failure = none;
}

-- `ServiceUnavailableException`, or the error of an endpoint.
pub data CallError (E : Type 0) : Type 0 where
  unavailable : CallError E
  rpc : E → CallError E

-- The breaker that a call leaves, and what it returns or throws; `none` where fuel ran out.
abbrev pub Answer : Type 0 → Type 0 → Type 0
Answer E T = Option (CircuitBreaker × Result (CallError E) T)

module _ {E T : Type 0} (is_retryable : E → Bool) where
  -- A sleep before the result of the later attempts.
  abbrev slept : ℕ → Option (Result E T × List ℕ) → Option (Result E T × List ℕ)
  slept ms none = none
  slept ms (some (result, sleeps)) = some (result, ms ∷ sleeps)

  -- `withBackoff` from a given attempt, with the sleeps that it makes; `none` where the fuel of the
  -- unbounded `for` runs out.
  pub with_backoff : ℕ → (ℕ → Result E T) → ℕ → Option (Result E T × List ℕ)
  with_backoff zero operation attempt = none
  with_backoff (suc fuel) operation attempt =
      let rest = with_backoff fuel operation (attempt + 1) in
      elim (operation attempt) [
        | ok result ↦ some (ok result, [])
        | err error ↦
            if leb rpc_max_attempts attempt || not (is_retryable error)
            then some (err error, [])
            else slept (rpc_base_delay_ms * 2 ^ (attempt - 1)) rest
      ]

  abbrev result_of : Option (Result E T × List ℕ) → Option (Result E T)
  result_of none = none
  result_of (some (result, _)) = some result

  -- All attempts on one endpoint.
  pub attempts : (ℕ → Result E T) → Option (Result E T)
  unfolding with_backoff
  attempts operation = result_of (with_backoff rpc_max_attempts operation 1)

  -- The inner `try`, on the fallback endpoint; `b` is the breaker when the awaits are over.
  fallback_outcome : ℕ → CircuitBreaker → Option (Result E T) → Answer E T
  fallback_outcome end b none = none
  fallback_outcome end b (some (ok result)) = some (record_success b, ok result)
  fallback_outcome end b (some (err error)) =
      if not (is_retryable error)
      then some (b, err (rpc error))
      else some (record_failure (rpc_breaker_options E) end b, err (rpc error))

  -- The outer `try`: `fallback` is the client, if one is configured.
  primary_outcome : ℕ → CircuitBreaker → Option (ℕ → Result E T) → Option (Result E T) → Answer E T
  primary_outcome end b fallback none = none
  primary_outcome end b fallback (some (ok result)) = some (record_success b, ok result)
  primary_outcome end b none (some (err error)) =
      if not (is_retryable error)
      then some (b, err (rpc error))
      else some (record_failure (rpc_breaker_options E) end b, err (rpc error))
  primary_outcome end b (some fallback) (some (err error)) =
      if not (is_retryable error)
      then some (b, err (rpc error))
      else fallback_outcome end b (attempts fallback)

  -- `call` at `start`; it settles at `end`, and `others` is what overlapping calls have done to the
  -- breaker in the meantime.
  pub call :
      (start end : ℕ)
      → (others : CircuitBreaker → CircuitBreaker) → (primary : ℕ → Result E T)
      → (fallback : Option (ℕ → Result E T)) → CircuitBreaker
      → Answer E T
  unfolding primary_outcome fallback_outcome
  call start end others primary fallback b =
      let (b', open_now) = is_open (rpc_breaker_options E) start b in
      if open_now
      then some (b', err unavailable)
      else primary_outcome end (others b') fallback (attempts primary)

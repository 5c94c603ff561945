-- ===== src/Common/CircuitBreaker.antt =====
-- src/common/circuit-breaker.ts. A method that mutates the breaker returns the new one. Clock values
-- are milliseconds since the epoch; `changes` is what `onStateChange` has been called with, oldest
-- first. A difference of clock values is compared by adding on the other side, so a clock that
-- steps back is compared as the source does.
pub mod Invariant
pub mod Trips
use dupdap_backend.Base.{
  ℕ, ◌+◌, Bool, true, false, not, ◌&&◌, ◌||◌, leb, List, [], ◌∷◌, ◌++◌, Option, none, some, Result,
  ok, err, if◌then◌else◌,
}

pub data CircuitState : Type 0 where
  closed open_ half_open : CircuitState

-- `failureThreshold`, `resetTimeoutMs` and `isFailure` of `CircuitBreakerOptions`.
pub record CircuitBreakerOptions (E : Type 0) : Type 0 where
  pub failure_threshold : ℕ
  pub reset_timeout_ms : ℕ
  pub is_failure : Option (E → Bool)

pub record CircuitBreaker : Type 0 where
  pub current : CircuitState
  pub consecutive_failures : ℕ
  pub opened_at : ℕ
  pub changes : List (CircuitState × CircuitState)

unfoldable pub new : CircuitBreaker
new = record { current = closed; consecutive_failures = 0; opened_at = 0; changes = [] }

abbrev pub is_open_state : CircuitState → Bool
is_open_state open_ = true
is_open_state _ = false

abbrev pub is_closed_state : CircuitState → Bool
is_closed_state closed = true
is_closed_state _ = false

abbrev pub is_half_open_state : CircuitState → Bool
is_half_open_state half_open = true
is_half_open_state _ = false

-- The private `transition`: `onStateChange(next, previous)`.
unfoldable pub transition : CircuitState → CircuitBreaker → CircuitBreaker
transition next b = record b { current = next; changes = b.changes ++ (next, b.current) ∷ [] }

module _ {E : Type 0} (options : CircuitBreakerOptions E) where
  -- The getter `state`, which moves an expired `open` to `half-open`.
  unfoldable pub state : ℕ → CircuitBreaker → CircuitBreaker
  unfolding transition
  state now b =
      if is_open_state b.current && leb (b.opened_at + options.reset_timeout_ms) now
      then transition half_open b
      else b

  unfoldable pub is_open : ℕ → CircuitBreaker → CircuitBreaker × Bool
  unfolding state
  is_open now b = let b' = state now b in (b', is_open_state b'.current)

  unfoldable pub record_failure : ℕ → CircuitBreaker → CircuitBreaker
  unfolding transition
  record_failure now b =
      let failures = b.consecutive_failures + 1 in
      let counted = record b { consecutive_failures = failures } in
      if is_half_open_state b.current || leb options.failure_threshold failures
      then (let stamped = record counted { opened_at = now } in
          if is_open_state b.current then stamped else transition open_ stamped)
      else counted

unfoldable pub record_success : CircuitBreaker → CircuitBreaker
unfolding transition
record_success b =
    let cleared = record b { consecutive_failures = 0 } in
    if is_closed_state b.current then cleared else transition closed cleared

-- What a call of `execute` can throw: `CircuitOpenError`, or what `fn` threw.
pub data ExecuteError (E : Type 0) : Type 0 where
  circuit_open : ExecuteError E
  thrown : E → ExecuteError E

-- `this.options.isFailure?.(error) ?? true`
abbrev pub counts_as_failure : {E : Type 0} → Option (E → Bool) → E → Bool
counts_as_failure none error = true
counts_as_failure (some is_failure) error = is_failure error

module _ {E : Type 0} (options : CircuitBreakerOptions E) where
  -- The rest of `execute` once `fn` has settled, at time `now`.
  unfoldable pub finish {ℓ} :
      {T : Type ℓ} → ℕ → Result E T → CircuitBreaker → CircuitBreaker × Result (ExecuteError E) T
  unfolding record_failure record_success
  finish now (ok result) b = (record_success b, ok result)
  finish now (err error) b = (
    if counts_as_failure options.is_failure error then record_failure options now b else b,
    err (thrown error),
  )

  -- `execute`: called at `start`; `fn` settles with `outcome` at `end`, and `others` is what calls
  -- that overlap with it have done to the breaker in the meantime.
  unfoldable pub execute {ℓ} :
      {T : Type ℓ}
      → (start end : ℕ) → (others : CircuitBreaker → CircuitBreaker) → Result E T
      → CircuitBreaker
      → CircuitBreaker × Result (ExecuteError E) T
  unfolding is_open finish
  execute start end others outcome b =
      let (b', open_now) = is_open options start b in
      if open_now then (b', err circuit_open) else finish end outcome (others b')

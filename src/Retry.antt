-- ===== src/Retry.antt =====
-- src/retry: the retries of a task (retry-queue.service.ts) and the policy of a merchant
-- (`resolvePaymentRetry` of retry-config.service.ts). A setting that is no number is not modelled.
pub mod Runs
use dupdap_backend.Base.{
  ℕ, zero, suc, ◌+◌, ◌-◌, ltb, leb, Bool, true, false, List, [], ◌∷◌, ◌++◌, Option, none, some,
  Result, ok, err, length, get_elem?, min, if◌then◌else◌,
}

pub record RetryConfig : Type 0 where
  pub max_attempts : ℕ
  pub delays_ms : List ℕ

-- `config.delaysMs[Math.min(attempt, config.delaysMs.length - 1)]`; `undefined`, of an empty list, is
-- not above 0, as 0 is not.
unfoldable pub delay_ms : RetryConfig → (attempt : ℕ) → ℕ
delay_ms config attempt =
    elim (get_elem? config.delays_ms (min attempt (length config.delays_ms - 1))) [
      | none ↦ 0
      | some delay ↦ delay
    ]

-- The end of a run: what it gives, how often the task was called, and the sleeps in their order.
pub record Ran (E A : Type 0) : Type 0 where
  pub result : Result E A
  pub calls : ℕ
  pub sleeps : List ℕ

module _ {E A : Type 0} (task : ℕ → Result E A) (config : RetryConfig) where
  -- The loop from an attempt on, with the number of attempts that may still follow it.
  unfoldable pub run_from : (remaining attempt : ℕ) (sleeps : List ℕ) → Ran E A
  run_from zero attempt sleeps = record {
    result = task attempt;
    calls = attempt + 1;
    sleeps = sleeps;
  }
  run_from (suc remaining) attempt sleeps =
      let delay = delay_ms config attempt in
      let next =
        run_from remaining (attempt + 1) (if ltb 0 delay then sleeps ++ delay ∷ [] else sleeps) in
      elim (task attempt) [
        | ok a ↦ record { result = ok a; calls = attempt + 1; sleeps = sleeps }
        | err e ↦ next
      ]

  unfoldable pub run : Ran E A
  unfolding run_from
  run = run_from config.max_attempts 0 []

-- `Array.from({ length: n }, () => value)`
unfoldable pub replicate : (n value : ℕ) → List ℕ
replicate zero value = []
replicate (suc n) value = value ∷ replicate n value

-- A field of the merchant that is missing or 0 is no override.
abbrev pub override_of : Option ℕ → Option ℕ
override_of none = none
override_of (some n) = if ltb 0 n then some n else none

unfoldable pub resolve_payment_retry :
    (defaults : RetryConfig) (max_attempts delay : Option ℕ) → RetryConfig
unfolding replicate
resolve_payment_retry defaults max_attempts delay =
    let attempts : ℕ = elim (override_of max_attempts) [
      | none ↦ defaults.max_attempts
      | some n ↦ n
    ] in
    let base_delay : ℕ = elim (override_of delay) [ none ↦ delay_ms defaults 0 | some n ↦ n ] in
    record { max_attempts = attempts; delays_ms = replicate attempts base_delay }

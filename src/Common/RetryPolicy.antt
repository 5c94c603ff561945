-- ===== src/Common/RetryPolicy.antt =====
-- src/common/retry/retry-policy.service.ts, with delays, multipliers and attempts as natural
-- numbers, so that `Math.floor` is the identity. `Math.floor(Math.random() * n)` is a parameter:
-- `draws i n` is what the draw for attempt `i` gives.
pub mod Schedule
use dupdap_backend.Base.{
  ℕ, zero, suc, ◌+◌, ◌-◌, ◌*◌, ◌^◌, min, max, Bool, List, [], ◌∷◌, Option, none, some, ltb, ◌==◌,
  if◌then◌else◌,
}

pub record RetryPolicyOptions : Type 0 where
  pub base_delay_ms : ℕ
  pub multiplier : ℕ
  pub max_attempts : ℕ
  pub jitter_ms : ℕ
  pub max_delay_ms : ℕ

-- `Partial<RetryPolicyOptions>`
pub record PartialOptions : Type 0 where
  pub base_delay_ms : Option ℕ
  pub multiplier : Option ℕ
  pub max_attempts : Option ℕ
  pub jitter_ms : Option ℕ
  pub max_delay_ms : Option ℕ

abbrev pub default_retry_policy : RetryPolicyOptions
default_retry_policy = record {
  base_delay_ms = 1000;
  multiplier = 2;
  max_attempts = 5;
  jitter_ms = 0;
  max_delay_ms = 60000;
}

abbrev given_or : Option ℕ → ℕ → ℕ
given_or none d = d
given_or (some n) d = n

-- `{ ...DEFAULT_RETRY_POLICY, ...options }`
unfoldable pub merge : PartialOptions → RetryPolicyOptions
merge o = record {
  base_delay_ms = given_or o.base_delay_ms default_retry_policy.base_delay_ms;
  multiplier = given_or o.multiplier default_retry_policy.multiplier;
  max_attempts = given_or o.max_attempts default_retry_policy.max_attempts;
  jitter_ms = given_or o.jitter_ms default_retry_policy.jitter_ms;
  max_delay_ms = given_or o.max_delay_ms default_retry_policy.max_delay_ms;
}

-- A whole policy passed on as options.
abbrev pub whole : RetryPolicyOptions → PartialOptions
whole p = record {
  base_delay_ms = some p.base_delay_ms;
  multiplier = some p.multiplier;
  max_attempts = some p.max_attempts;
  jitter_ms = some p.jitter_ms;
  max_delay_ms = some p.max_delay_ms;
}

module _ (draws : ℕ → ℕ → ℕ) where
  pub compute_delay : ℕ → PartialOptions → ℕ
  unfolding merge
  compute_delay attempt options =
      let policy = merge options in
      let safe_attempt = max 1 attempt in
      let exponential = policy.base_delay_ms * policy.multiplier ^ (safe_attempt - 1) in
      let capped =
        if policy.max_delay_ms == 0 then exponential else min exponential policy.max_delay_ms in
      let jitter = if policy.jitter_ms == 0 then 0 else draws attempt (policy.jitter_ms + 1) in
      capped + jitter

  -- The loop of `buildSchedule`, by the rounds that are left.
  schedule_from : ℕ → ℕ → RetryPolicyOptions → List ℕ
  schedule_from zero attempt policy = []
  schedule_from (suc rounds) attempt policy =
      compute_delay attempt (whole policy) ∷ schedule_from rounds (attempt + 1) policy

  pub build_schedule : PartialOptions → List ℕ
  unfolding schedule_from merge
  build_schedule options =
      let policy = merge options in schedule_from (policy.max_attempts - 1) 1 policy

pub should_retry : ℕ → PartialOptions → Bool
unfolding merge
should_retry attempts_made options = ltb attempts_made (merge options).max_attempts

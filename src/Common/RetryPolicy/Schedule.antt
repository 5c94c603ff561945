-- ===== src/Common/RetryPolicy/Schedule.antt =====
-- The backoff schedule of src/common/retry/retry-policy.service.ts: its length, its entries, their
-- bounds, and their order.
use dupdap_backend.Base.{
  ℕ, zero, suc, ◌+◌, ◌-◌, ◌*◌, ◌^◌, max, ◌≤◌, ◌<◌, ◌≡◌, refl, ◌≢◌, List, [], ◌∷◌, none, some, arith,
  length, get_elem?, if◌then◌else◌,
}
use native.Mathlib.Nat.{pow-le-pow_right, mul-le-mul_left}
use dupdap_backend.Common.RetryPolicy.{
  RetryPolicyOptions, PartialOptions, merge, whole, compute_delay, schedule_from, build_schedule,
  should_retry,
}

module _ (draws : ℕ → ℕ → ℕ) where
  -- With a cap, and jitter drawn from 0 to `jitterMs`, a delay is at most the cap plus the jitter.
  compute_delay-le :
      (attempt : ℕ) (options : PartialOptions)
      → ((i n : ℕ) → 0 < n → draws i n < n)
      → (merge options).max_delay_ms ≢ 0
      → compute_delay draws attempt options
        ≤ (merge options).max_delay_ms + (merge options).jitter_ms
  unfolding compute_delay
  compute_delay-le attempt options drawn capped =
      ground (arith, drawn attempt ((merge options).jitter_ms + 1))

  length-schedule_from :
      (rounds attempt : ℕ) (policy : RetryPolicyOptions)
      → length (schedule_from draws rounds attempt policy) ≡ rounds
  unfolding schedule_from
  length-schedule_from zero attempt policy = refl
  length-schedule_from (suc rounds) attempt policy =
      omega (arith, length-schedule_from rounds (attempt + 1) policy)

  get_elem?-schedule_from :
      (rounds attempt i : ℕ) (policy : RetryPolicyOptions)
      → i < rounds
      → get_elem? (schedule_from draws rounds attempt policy) i
        ≡ some (compute_delay draws (attempt + i) (whole policy))
  unfolding schedule_from
  get_elem?-schedule_from zero attempt i policy h = elim h [ ]
  get_elem?-schedule_from (suc rounds) attempt zero policy h =
      let e : attempt + 0 ≡ attempt = omega arith in rw e
  get_elem?-schedule_from (suc rounds) attempt (suc i) policy h =
      let e : attempt + suc i ≡ attempt + 1 + i = omega arith in
      rw e (get_elem?-schedule_from rounds (attempt + 1) i policy (omega arith))

  get_elem?-past : {A : Type 0} (xs : List A) (i : ℕ) → length xs ≤ i → get_elem? xs i ≡ none
  get_elem?-past [] i h = refl
  get_elem?-past (x ∷ xs) zero h = absurd (omega arith)
  get_elem?-past (x ∷ xs) (suc i) h = get_elem?-past xs i (omega arith)

  compute_delay-whole :
      (attempt : ℕ) (options : PartialOptions)
      → compute_delay draws attempt (whole (merge options)) ≡ compute_delay draws attempt options
  unfolding compute_delay
  compute_delay-whole attempt options = refl

  -- The schedule has an entry for the attempt after `n` retries exactly while `shouldRetry` allows
  -- another attempt after `n + 1`, and the entry is that attempt's delay.
  get_elem?-build_schedule :
      (options : PartialOptions) (n : ℕ)
      → get_elem? (build_schedule draws options) n ≡ (
          if should_retry (n + 1) options then some (compute_delay draws (n + 1) options) else none)
  unfolding build_schedule should_retry
  get_elem?-build_schedule options n =
      let rounds = (merge options).max_attempts - 1 in
      let entries = schedule_from draws rounds 1 (merge options) in
      let here : 1 + n ≡ n + 1 = omega arith in
      ground (
        arith,
        rw here at (get_elem?-schedule_from rounds 1 n (merge options)),
        get_elem?-past entries n,
        length-schedule_from rounds 1 (merge options),
        compute_delay-whole (n + 1) options,
      )

  -- Without jitter the delays never shrink from one attempt to a later one, as long as the
  -- multiplier is not 0.
  compute_delay_mono :
      (a b : ℕ) (options : PartialOptions)
      → (merge options).jitter_ms ≡ 0
      → 0 < (merge options).multiplier
      → a ≤ b
      → compute_delay draws a options ≤ compute_delay draws b options
  unfolding compute_delay
  compute_delay_mono a b options calm grows h =
      let policy = merge options in
      let powers : policy.multiplier ^ (max 1 a - 1) ≤ policy.multiplier ^ (max 1 b - 1) =
        pow-le-pow_right grows (omega arith) in
      let products : policy.base_delay_ms * policy.multiplier ^ (max 1 a - 1)
          ≤ policy.base_delay_ms * policy.multiplier ^ (max 1 b - 1) =
        mul-le-mul_left policy.base_delay_ms powers in
      ground arith

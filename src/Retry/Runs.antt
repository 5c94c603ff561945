-- ===== src/Retry/Runs.antt =====
-- How often a task is called and how long its retries wait (src/retry/retry-queue.service.ts,
-- src/retry/retry-config.service.ts).
use dupdap_backend.Base.{
  ℕ, zero, suc, ◌+◌, ◌-◌, ◌≤◌, ◌<◌, ◌≡◌, ◌∙◌, ap, refl, ltb, false, List, [], ◌∷◌, ◌++◌, some,
  Result, Result-cases, length, get_elem?, min, arith, if◌then◌else◌, is_ok, Bool-cases, inl, inr,
  lt→ltb, sym,
}
use native.Mathlib.Nat.{add-zero, min-le_right}
use mathlib.Core.List.{append-nil, append_assoc}
use dupdap_backend.Retry.{RetryConfig, delay_ms, run_from, run, replicate, resolve_payment_retry}

-- The sleeps before the attempts that follow `attempt`, `n` of them.
pub sleeps_between : RetryConfig → (attempt n : ℕ) → List ℕ
sleeps_between config attempt zero = []
sleeps_between config attempt (suc n) =
    let rest = sleeps_between config (attempt + 1) n in
    if ltb 0 (delay_ms config attempt) then delay_ms config attempt ∷ rest else rest

module _ {E A : Type 0} (task : ℕ → Result E A) (config : RetryConfig) where
  -- `k` attempts fail, and the next one ends the run: it succeeds, or it is the last that is allowed.
  run_from-ends :
      (k remaining attempt : ℕ) (sleeps : List ℕ)
      → k ≤ remaining
      → ((i : ℕ) → i < k → is_ok (task (attempt + i)) ≡ false)
      → (is_ok (task (attempt + k)) ≡ false → k ≡ remaining)
      → run_from task config remaining attempt sleeps ≡ (record {
        result = task (attempt + k);
        calls = attempt + k + 1;
        sleeps = sleeps ++ sleeps_between config attempt k;
      })
  unfolding run_from sleeps_between
  run_from-ends zero zero attempt sleeps le fails last = rw (add-zero attempt, append-nil) refl
  run_from-ends zero (suc remaining) attempt sleeps le fails last =
      elim (Result-cases (task attempt)) [
        | inl (a, done) ↦ rw (add-zero attempt, append-nil) (rw (done, run_from) refl)
        | inr (e, failed) ↦
            absurd
              (omega (arith, last (ap (λ t. is_ok (task t)) (add-zero attempt) ∙ ap is_ok failed)))
      ]
  run_from-ends (suc k) zero attempt sleeps le fails last = absurd (omega arith)
  run_from-ends (suc k) (suc remaining) attempt sleeps le fails last =
      let shift : (i : ℕ) → attempt + 1 + i ≡ attempt + suc i = λ i. omega arith in
      elim (Result-cases (task attempt)) [
        | inl (a, done) ↦ absurd (
            cc (fails 0 (omega arith), ap (λ t. is_ok (task t)) (add-zero attempt) ∙ ap is_ok done))
        | inr (e, failed) ↦
            let delay = delay_ms config attempt in
            let slept = if ltb 0 delay then sleeps ++ delay ∷ [] else sleeps in
            rw (failed, run_from)
              (run_from-ends k remaining (attempt + 1) slept (omega arith)
                  (λ i lt. ap (λ t. is_ok (task t)) (shift i) ∙ fails (suc i) (omega arith))
                  (λ h. omega (arith, last (ap (λ t. is_ok (task t)) (sym (shift k)) ∙ h)))
                ∙ rw (shift k) (elim (Bool-cases (ltb 0 delay)) [
                  | inl waits ↦ rw (waits, append_assoc) refl
                  | inr at_once ↦ rw at_once refl
                ]))
      ]

  -- Where the first `k` calls of the task fail and the next one ends the run (it succeeds, or `k` is the number of attempts that
  -- the configuration names), the run gives what that call gives, after `k + 1` calls, with the sleeps that
  -- the configuration names for each retry and no others.
  pub run_lem :
      (k : ℕ)
      → k ≤ config.max_attempts
      → ((i : ℕ) → i < k → is_ok (task i) ≡ false)
      → (is_ok (task k) ≡ false → k ≡ config.max_attempts)
      → run task config
        ≡ (record { result = task k; calls = k + 1; sleeps = sleeps_between config 0 k })
  unfolding run
  run_lem k le fails last =
      let zero_add : (i : ℕ) → 0 + i ≡ i = λ i. omega arith in
      run_from-ends k config.max_attempts 0 [] le
        (λ i lt. ap (λ t. is_ok (task t)) (zero_add i) ∙ fails i lt)
        (λ h. last (ap (λ t. is_ok (task t)) (sym (zero_add k)) ∙ h))
      ∙ rw (zero_add k) refl

-- The sleeps of a list with one delay.
get_elem?-replicate : (n i v : ℕ) → i < n → get_elem? (replicate n v) i ≡ some v
unfolding replicate
get_elem?-replicate zero i v h = absurd (omega arith)
get_elem?-replicate (suc n) zero v h = refl
get_elem?-replicate (suc n) (suc i) v h = get_elem?-replicate n i v (omega arith)

length-replicate : (n v : ℕ) → length (replicate n v) ≡ n
unfolding replicate
length-replicate zero v = refl
length-replicate (suc n) v = omega (arith, length-replicate n v)

delay_ms-replicate :
    (n i v : ℕ) → 0 < n → delay_ms (record { max_attempts = n; delays_ms = replicate n v }) i ≡ v
unfolding delay_ms
delay_ms-replicate n i v h =
    let at : get_elem? (replicate n v) (min i (length (replicate n v) - 1)) ≡ some v =
      get_elem?-replicate n (min i (length (replicate n v) - 1)) v
        (omega (arith, length-replicate n v, min-le_right i (length (replicate n v) - 1))) in
    rw (at, delay_ms) refl

sleeps_between-replicate :
    (n i k v : ℕ)
    → 0 < n
    → 0 < v
    → sleeps_between (record { max_attempts = n; delays_ms = replicate n v }) i k ≡ replicate k v
unfolding sleeps_between replicate
sleeps_between-replicate n i zero v h waits = refl
sleeps_between-replicate n i (suc k) v h waits =
    rw (delay_ms-replicate n i v h, sleeps_between-replicate n (i + 1) k v h waits)
      (rw (lt→ltb 0 v waits) refl)

-- A merchant with an own number of attempts and an own delay, both above 0: a payment task that always fails is called
-- once more than that number, and each retry waits for that delay, whatever the defaults are.
pub resolved_run :
    {E A : Type 0} (task : ℕ → Result E A) (defaults : RetryConfig) (attempts delay : ℕ)
    → 0 < attempts
    → 0 < delay
    → ((i : ℕ) → i ≤ attempts → is_ok (task i) ≡ false)
    → run task (resolve_payment_retry defaults (some attempts) (some delay))
      ≡ (record { result = task attempts; calls = attempts + 1; sleeps = replicate attempts delay })
unfolding resolve_payment_retry
resolved_run {E} {A} task defaults attempts delay some_attempts waits fails =
    let config : RetryConfig = record {
      max_attempts = attempts;
      delays_ms = replicate attempts delay;
    } in
    let same : resolve_payment_retry defaults (some attempts) (some delay) ≡ config =
      rw (lt→ltb 0 attempts some_attempts, lt→ltb 0 delay waits) refl in
    rw same (
      run_lem task config attempts (omega arith) (λ i h. fails i (omega arith)) (λ h. refl)
      ∙ rw (sleeps_between-replicate attempts 0 attempts delay some_attempts waits) refl)

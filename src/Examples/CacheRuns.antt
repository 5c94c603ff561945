-- ===== src/Examples/CacheRuns.antt =====
-- Runs of the theorems about the rate limiter of src/cache/cache.service.ts.
use dupdap_backend.Base.{
  map, ltb, ◌+◌, ◌-◌, none, ℕ, ◌≤◌, ◌≡◌, refl, true, false, List, [], ◌∷◌, some, count, length,
  arith,
}
use dupdap_backend.Cache.SlidingWindow.{
  SlidingWindowRateLimitOptions, SlidingWindowRateLimitResult, oldest, refusal, check,
}
use dupdap_backend.Cache.SlidingWindow.Bound.{
  lets_through, admitted, is_recent, Ascends, admitted_bounded,
}
use dupdap_backend.Cache.SlidingWindow.Retry.{retry_suffices}
use dupdap_backend.Cache.SlidingWindow.Refinement.{
  decisions, memory_decisions, memory_decisions-refine,
}
use dupdap_backend.Payments.TransactionLimits.{Limits}
use dupdap_backend.Payments.TransactionLimits.Breaches.{Creation}

-- Two calls in ten seconds.
abbrev few : SlidingWindowRateLimitOptions
few = record { limit = 2; window_seconds = 10 }

abbrev visits : List ℕ
visits = 100 ∷ 101 ∷ 102 ∷ 111 ∷ []

visits-Ascends : Ascends few 0 visits
visits-Ascends = (omega arith, (omega arith, (omega arith, (omega arith, tt))))

admitted_bounded_example : count (is_recent few 105) (admitted few [] [] visits) ≤ 2
admitted_bounded_example = admitted_bounded few visits 105 visits-Ascends

abbrev refused : SlidingWindowRateLimitResult
refused = record { allowed = false; limit = 2; remaining = 0; reset_at = 110; retry_after = some 8 }

third-check : (check few 102 (100 ∷ 101 ∷ [])).1 ≡ some refused
unfolding check refusal oldest
third-check = refl

third-length : length (check few 102 (100 ∷ 101 ∷ [])).0 ≤ 2
unfolding check refusal oldest
third-length = omega arith

retry_suffices_example : lets_through (check few 110 (check few 102 (100 ∷ 101 ∷ [])).0).1 ≡ true
retry_suffices_example =
    retry_suffices few 102 (100 ∷ 101 ∷ []) {r = refused} third-check refl third-length

abbrev two_a_minute : SlidingWindowRateLimitOptions
two_a_minute = record { limit = 2; window_seconds = 60 }

memory_decisions-refine_example :
    memory_decisions two_a_minute (10 ∷ 20 ∷ 30 ∷ 75 ∷ []) []
    ≡ map some (decisions two_a_minute (10 ∷ 20 ∷ 30 ∷ 75 ∷ []) [])
memory_decisions-refine_example =
    memory_decisions-refine two_a_minute (omega arith) 0 (10 ∷ 20 ∷ 30 ∷ 75 ∷ []) [] []
      (omega arith, (omega arith, (omega arith, (omega arith, tt)))) (λ t h. refl)

-- A limiter that counts its calls.
abbrev counting :
    (key : ℕ) → SlidingWindowRateLimitOptions → (now : ℕ) → ℕ → ℕ × SlidingWindowRateLimitResult
counting key options now calls = (
  calls + 1,
  record {
    allowed = ltb calls options.limit;
    limit = options.limit;
    remaining = options.limit - calls;
    reset_at = now + options.window_seconds;
    retry_after = none;
  },
)

abbrev morning : List Creation
morning =
    record { now = 10; day = 1; merchant = 4 }
    ∷ record { now = 11; day = 1; merchant = 4 }
    ∷ record { now = 12; day = 1; merchant = 4 }
    ∷ record { now = 13; day = 1; merchant = 4 }
    ∷ []

abbrev unused : Limits ℕ
unused = record { windows = 0; breach_count = λ merchant day. 0; alerts = [] }

-- ===== src/Cache/SlidingWindow.antt =====
-- `checkSlidingWindowRateLimitMemory` of src/cache/cache.service.ts, the rate limiter that the service
-- falls back on. Times are whole seconds; `now` is the clock. Of an entry only the score is kept: the
-- member is a random text that nothing reads. A difference of times is compared by adding on the
-- other side.
pub mod Bound
pub mod Retry
pub mod Refinement
use dupdap_backend.Base.{
  ℕ, ◌+◌, ◌-◌, Bool, true, false, ltb, leb, List, [], ◌∷◌, ◌++◌, Option, none, some, Dict, lookup,
  insert, filter, length, if◌then◌else◌,
}

pub record SlidingWindowRateLimitOptions : Type 0 where
  pub limit : ℕ
  pub window_seconds : ℕ

pub record SlidingWindowRateLimitResult : Type 0 where
  pub allowed : Bool
  pub limit : ℕ
  pub remaining : ℕ
  pub reset_at : ℕ
  pub retry_after : Option ℕ

-- `entry.score > windowStart`, where `windowStart = now - windowSeconds`.
abbrev pub in_window : (window_seconds now score : ℕ) → Bool
in_window window_seconds now score = ltb now (score + window_seconds)

-- The `reduce` that finds the oldest score.
unfoldable pub oldest : ℕ → List ℕ → ℕ
oldest least [] = least
oldest least (score ∷ scores) = oldest (if ltb score least then score else least) scores

-- The refusal; `none` is the TypeError of `withinWindow[0].score` on an empty list.
unfoldable pub refusal :
    SlidingWindowRateLimitOptions → (now : ℕ) → List ℕ → Option SlidingWindowRateLimitResult
unfolding oldest
refusal options now [] = none
refusal options now (first ∷ scores) =
    let reset_at = oldest first (first ∷ scores) + options.window_seconds in
    some (record {
      allowed = false;
      limit = options.limit;
      remaining = 0;
      reset_at = reset_at;
      retry_after = some (reset_at - now);
    })

-- The check on the scores of one key; a throw stores nothing.
unfoldable pub check :
    SlidingWindowRateLimitOptions
    → (now : ℕ) → List ℕ
    → List ℕ × Option SlidingWindowRateLimitResult
check options now existing =
    let within = filter (in_window options.window_seconds now) existing in
    if leb options.limit (length within)
    then elim (refusal options now within) [
      | none ↦ (existing, none)
      | some refused ↦ (within, some refused)
    ]
    else (let stored = within ++ now ∷ [] in
        (
          stored,
          some (record {
            allowed = true;
            limit = options.limit;
            remaining = options.limit - length stored;
            reset_at = now + options.window_seconds;
            retry_after = none;
          }),
        ))

-- `this.memoryWindows.get(key) ?? []`
abbrev window_of : ℕ → Dict (List ℕ) → List ℕ
window_of key windows = elim (lookup key windows) [ none ↦ [] | some scores ↦ scores ]

pub check_memory :
    (key : ℕ)
    → SlidingWindowRateLimitOptions
    → (now : ℕ) → Dict (List ℕ)
    → Dict (List ℕ) × Option SlidingWindowRateLimitResult
unfolding check
check_memory key options now windows =
    let (scores, result) = check options now (window_of key windows) in
    elim result [ none ↦ (windows, none) | some r ↦ (insert key scores windows, some r) ]

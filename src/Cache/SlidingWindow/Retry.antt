-- ===== src/Cache/SlidingWindow/Retry.antt =====
-- The answer of a refused call of the in-memory rate limiter (src/cache/cache.service.ts).
use dupdap_backend.Base.{
  ℕ, ◌+◌, ◌≤◌, ◌<◌, ◌≡◌, refl, ◌⊎◌, inl, true, false, ltb, List, [], ◌∷◌, some, arith, filter,
  length, count, count-le-length, length-filter, if◌then◌else◌,
}
use dupdap_backend.Cache.SlidingWindow.{
  SlidingWindowRateLimitOptions, SlidingWindowRateLimitResult, in_window, oldest, refusal, check,
}
use dupdap_backend.Cache.SlidingWindow.Bound.{lets_through}

-- When the oldest score leaves the window, at least one score of the list does.
oldest_leaves :
    (w least : ℕ) (xs : List ℕ)
    → let m = oldest least xs in
      (m ≤ least) × ((m ≡ least) ⊎ (count (in_window w (m + w)) xs < length xs))
unfolding oldest
oldest_leaves w least [] = (omega arith, inl refl)
oldest_leaves w least (x ∷ xs) =
    let p = oldest_leaves w (if ltb x least then x else least) xs in
    let m = oldest (if ltb x least then x else least) xs in
    ground (arith, p, count-le-length (in_window w (m + w)) xs)

fewer_later :
    (w first : ℕ) (scores : List ℕ)
    → let all_scores = first ∷ scores in
      let m = oldest first all_scores in count (in_window w (m + w)) all_scores < length all_scores
unfolding oldest
fewer_later w first scores =
    let m = oldest first (first ∷ scores) in
    ground
      (arith, oldest_leaves w first (first ∷ scores), count-le-length (in_window w (m + w)) scores)

module _ (options : SlidingWindowRateLimitOptions) where
  refusal-reset_at :
      (now : ℕ) (within : List ℕ) {r : SlidingWindowRateLimitResult}
      → refusal options now within ≡ some r
      → count (in_window options.window_seconds r.reset_at) within < length within
  unfolding refusal
  refusal-reset_at now [] h = cc
  refusal-reset_at now (first ∷ scores) h =
      ground (arith, fewer_later options.window_seconds first scores)

  check_refused :
      (now : ℕ) (stored : List ℕ) {r : SlidingWindowRateLimitResult}
      → (check options now stored).1 ≡ some r
      → r.allowed ≡ false
      → refusal options now (check options now stored).0 ≡ some r
  unfolding check
  check_refused now stored h no_entry = ground arith

  check_admits :
      (t : ℕ) (xs : List ℕ)
      → length (filter (in_window options.window_seconds t) xs) < options.limit
      → lets_through (check options t xs).1 ≡ true
  unfolding check
  check_admits t xs room = ground arith

  -- A refused caller that comes back at `resetAt` is let through, if nobody else has been in between
  -- and no more than `limit` calls were stored.
  pub retry_suffices :
      (now : ℕ) (stored : List ℕ) {r : SlidingWindowRateLimitResult}
      → (check options now stored).1 ≡ some r
      → r.allowed ≡ false
      → length (check options now stored).0 ≤ options.limit
      → lets_through (check options r.reset_at (check options now stored).0).1 ≡ true
  retry_suffices now stored {r} h no_entry few =
      let left = (check options now stored).0 in
      let fewer = refusal-reset_at now left {r = r} (check_refused now stored h no_entry) in
      check_admits r.reset_at left
        (omega (arith, length-filter (in_window options.window_seconds r.reset_at) left))

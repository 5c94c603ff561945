-- ===== src/Auth/RateLimit.antt =====
-- src/auth/rate-limit.service.ts, over `checkSlidingWindowRateLimit` of src/cache/cache.service.ts: the answer of
-- Redis is an argument, `none` where Redis throws; then the window in memory decides. `none` as a result is
-- the TypeError of that window.
use dupdap_backend.Base.{ℕ, List, Option, none, some, Dict}
use dupdap_backend.Merchants.Records.{MerchantRole, admin, merchant, superadmin}
use dupdap_backend.Cache.SlidingWindow.{
  SlidingWindowRateLimitOptions, SlidingWindowRateLimitResult, check_memory,
}

abbrev pub rate_limit : MerchantRole → ℕ
rate_limit superadmin = 10000
rate_limit admin = 5000
rate_limit merchant = 1000

abbrev pub window_seconds : ℕ
window_seconds = 3600

unfoldable pub check_sliding_window_rate_limit :
    (redis : Option SlidingWindowRateLimitResult) (key : ℕ)
    → SlidingWindowRateLimitOptions
    → (now : ℕ) → Dict (List ℕ)
    → Dict (List ℕ) × Option SlidingWindowRateLimitResult
check_sliding_window_rate_limit redis key options now windows = elim redis [
  | some result ↦ (windows, some result)
  | none ↦ check_memory key options now windows
]

unfoldable pub check_api_key_rate_limit :
    (redis : Option SlidingWindowRateLimitResult) (merchant_id : ℕ)
    → MerchantRole
    → (now : ℕ) → Dict (List ℕ)
    → Dict (List ℕ) × Option SlidingWindowRateLimitResult
unfolding check_sliding_window_rate_limit
check_api_key_rate_limit redis merchant_id role now windows =
    check_sliding_window_rate_limit redis merchant_id
      (record { limit = rate_limit role; window_seconds = window_seconds }) now windows

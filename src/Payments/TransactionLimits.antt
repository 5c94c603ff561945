-- ===== src/Payments/TransactionLimits.antt =====
-- src/payments/transaction-limits.service.ts. The rate limiter of the cache is an argument: it answers for a key
-- and the options, on windows of its own. The cache of breaches is a function of the merchant and
-- the day, whose entries outlive the day; the alerts that are raised are kept with what they name.
pub mod Breaches
use dupdap_backend.Base.{
  ℕ, ◌+◌, ◌*◌, Bool, true, ◌&&◌, leb, ◌==◌, List, [], ◌∷◌, ◌++◌, Option, Result, ok, err,
  if◌then◌else◌,
}
use dupdap_backend.Cache.SlidingWindow.{SlidingWindowRateLimitOptions, SlidingWindowRateLimitResult}

abbrev pub day_seconds : ℕ
day_seconds = 24 * 60 * 60

abbrev breach_alert_threshold : ℕ
breach_alert_threshold = 3

-- The alert of a merchant and a day, with the number of breaches.
pub record LimitAlert : Type 0 where
  pub merchant : ℕ
  pub day : ℕ
  pub breaches : ℕ

pub data LimitError : Type 0 where
  transaction_limit_exceeded : (reset_at : ℕ) (retry_after : Option ℕ) → LimitError

pub record Limits (W : Type 0) : Type 0 where
  pub windows : W
  pub breach_count : (merchant day : ℕ) → ℕ
  pub alerts : List LimitAlert

-- The part after the refusal: the breach is counted and, from the third on, an alert raised.
pub count_breach : {W : Type 0} → (merchant day : ℕ) → Limits W → Limits W
count_breach merchant day s =
    let breaches = s.breach_count merchant day + 1 in
    record s {
      breach_count = λ m d. if m == merchant && d == day then breaches else s.breach_count m d;
      alerts =
          if leb breach_alert_threshold breaches
          then s.alerts ++ record { merchant = merchant; day = day; breaches = breaches } ∷ []
          else s.alerts;
    }

module _ {W : Type 0}
    (check_window : (key : ℕ)
      → SlidingWindowRateLimitOptions
      → (now : ℕ) → W
      → W × SlidingWindowRateLimitResult)
    (limit : ℕ) where
  pub check_and_increment :
      (now day merchant : ℕ) → Limits W → Limits W × Result LimitError (Unit {0})
  check_and_increment now day merchant s =
      let (windows, result) =
        check_window merchant (record { limit = limit; window_seconds = day_seconds }) now
          s.windows in
      let checked = record s { windows = windows } in
      if result.allowed then (checked, ok tt) else (
        count_breach merchant day checked,
        err (transaction_limit_exceeded result.reset_at result.retry_after),
      )

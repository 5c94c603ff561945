-- ===== src/Payments/TransactionLimits/Breaches.antt =====
-- The alerts about repeated breaches (src/payments/transaction-limits.service.ts).
use dupdap_backend.Base.{
  ℕ, ◌+◌, ◌-◌, ◌≡◌, Bool, ◌&&◌, ◌==◌, List, [], ◌∷◌, is_ok, not, if◌then◌else◌, arith, count,
  count-append, Bool-cases, inl, inr,
}
use dupdap_backend.Cache.SlidingWindow.{SlidingWindowRateLimitOptions, SlidingWindowRateLimitResult}
use dupdap_backend.Payments.TransactionLimits.{
  Limits, day_seconds, LimitAlert, count_breach, check_and_increment,
}

-- A payment that a merchant creates.
pub record Creation : Type 0 where
  pub now : ℕ
  pub day : ℕ
  pub merchant : ℕ

abbrev pub is_for : (merchant day : ℕ) → LimitAlert → Bool
is_for merchant day alert = alert.merchant == merchant && alert.day == day

module _ {W : Type 0}
    (check_window : (key : ℕ)
      → SlidingWindowRateLimitOptions
      → (now : ℕ) → W
      → W × SlidingWindowRateLimitResult)
    (limit : ℕ) where
  pub run : List Creation → Limits W → Limits W
  run [] s = s
  run (c ∷ creations) s =
      run creations (check_and_increment check_window limit c.now c.day c.merchant s).0

  -- How many of a merchant's creations on a day are refused.
  pub refusals : (merchant day : ℕ) → List Creation → Limits W → ℕ
  refusals merchant day [] s = 0
  refusals merchant day (c ∷ creations) s =
      let (s', outcome) = check_and_increment check_window limit c.now c.day c.merchant s in
      (if (c.merchant == merchant && c.day == day) && not (is_ok outcome) then 1 else 0)
      + refusals merchant day creations s'

  -- One alert for each breach from the third on.
  abbrev pub IsAlerted : (merchant day : ℕ) → Limits W → Type 0
  IsAlerted merchant day s = count (is_for merchant day) s.alerts ≡ s.breach_count merchant day - 2

  count_breach-IsAlerted :
      (merchant day m d : ℕ) (s : Limits W)
      → IsAlerted merchant day s
      → IsAlerted merchant day (count_breach m d s)
  unfolding count_breach
  count_breach-IsAlerted merchant day m d s h =
      let alert : LimitAlert = record {
        merchant = m;
        day = d;
        breaches = s.breach_count m d + 1;
      } in
      ground (arith, count-append (is_for merchant day) s.alerts (alert ∷ []))

  -- What a creation does to the counts of a merchant and a day.
  check-Counts :
      (merchant day : ℕ) (c : Creation) (s : Limits W)
      → let ran = check_and_increment check_window limit c.now c.day c.merchant s in
        IsAlerted merchant day s
        → IsAlerted merchant day ran.0
          × (ran.0.breach_count merchant day
              ≡ s.breach_count merchant day
                + (if (c.merchant == merchant && c.day == day) && not (is_ok ran.1) then 1 else 0))
  unfolding check_and_increment count_breach
  check-Counts merchant day c s h =
      let options : SlidingWindowRateLimitOptions = record {
        limit = limit;
        window_seconds = day_seconds;
      } in
      let (windows, result) = check_window c.merchant options c.now s.windows in
      elim (Bool-cases result.allowed) [
        | inl allowed ↦ rw allowed (h, ground arith)
        | inr refused ↦ rw refused (
          count_breach-IsAlerted merchant day c.merchant c.day (record s { windows = windows }) h,
          ground arith,
        )
      ]

  -- Over any creations and whatever the limiter answers: the alerts about a merchant and a day are as
  -- many as its refusals on that day, but for the first two, if they were so before.
  run-IsAlerted :
      (merchant day : ℕ) (creations : List Creation) (s : Limits W)
      → IsAlerted merchant day s
      → count (is_for merchant day) (run creations s).alerts
        ≡ (s.breach_count merchant day + refusals merchant day creations s) - 2
  unfolding run refusals
  run-IsAlerted merchant day [] s h = omega (arith, h)
  run-IsAlerted merchant day (c ∷ creations) s h =
      let s' = (check_and_increment check_window limit c.now c.day c.merchant s).0 in
      let (alerted, counted) = check-Counts merchant day c s h in
      omega (arith, counted, run-IsAlerted merchant day creations s' alerted)

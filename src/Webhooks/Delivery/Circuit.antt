-- ===== src/Webhooks/Delivery/Circuit.antt =====
-- Consecutive failures of one webhook: src/webhooks/webhook-delivery.processor.ts and
-- src/webhooks/webhook-failure-alert.service.ts.
use Prim.Native.String.{String}
use dupdap_backend.Base.{
  ℕ, ◌+◌, sym, lt→ltb, subst, All, ◌≤◌, ◌<◌, ◌≡◌, Bool, false, List, [], ◌∷◌, Option, none, some,
  arith, lookup, length,
}
use dupdap_backend.Webhooks.Records.{
  Webhook, JobData, World, QueueConfig, HttpOutcome, failed, is_future,
}
use dupdap_backend.Webhooks.Delivery.{process}
use dupdap_backend.Webhooks.Delivery.Frames.{counted, reopened}
use dupdap_backend.Webhooks.Delivery.Outcomes.{process_fails, process_skips}

-- A delivery that fails.
pub record Failure : Type 0 where
  pub now : ℕ
  pub end : ℕ
  pub code : Option ℕ
  pub message : String
  pub readable : Bool
  pub job : JobData

module _ (config : QueueConfig) (hmac : String → String → String) where
  pub fail_once : Failure → World → World
  fail_once f w = process config hmac f.now f.end (failed f.code f.message) f.readable f.job w

  pub fail_each : List Failure → World → World
  unfolding fail_once
  fail_each [] w = w
  fail_each (f ∷ fs) w = fail_each fs (fail_once f w)

  module _ (id : ℕ) where
    -- The webhook has this many consecutive failures and its circuit has not been opened.
    abbrev pub Streak : ℕ → World → Type 0
    Streak n w =
        (row : Webhook) × (lookup id w.webhooks ≡ some row)
        × (row.failure_count ≡ n)
        × (row.circuit_open_until ≡ none)

    abbrev pub IsFor : Failure → Type 0
    IsFor f = f.job.webhook_id ≡ id

    fail_once-row :
        (f : Failure) (w : World) {row : Webhook}
        → IsFor f
        → lookup id w.webhooks ≡ some row
        → row.circuit_open_until ≡ none
        → lookup id (fail_once f w).webhooks ≡ some (reopened f.end (counted row))
    unfolding fail_once
    fail_once-row f w {row} same found closed_ =
        let here_ = subst (λ i. lookup i w.webhooks ≡ some row) (sym same) found in
        let idle : is_future row.circuit_open_until f.now ≡ false = rw closed_ in
        let (_, _, stored, _) =
          process_fails config hmac f.now f.end f.code f.message f.readable f.job w here_ idle in
        subst (λ i. lookup i (fail_once f w).webhooks ≡ some (reopened f.end (counted row))) same
          stored

    fail_once-Streak :
        (f : Failure) (n : ℕ) (w : World)
        → IsFor f
        → n < 4
        → Streak n w
        → Streak (n + 1) (fail_once f w)
    fail_once-Streak f n w same few (row, found, count, closed_) = (
      reopened f.end (counted row),
      fail_once-row f w same found closed_,
      ground arith,
      ground arith,
    )

    fail_each-Streak :
        (fs : List Failure) (n : ℕ) (w : World)
        → All IsFor fs
        → n + length fs ≤ 4
        → Streak n w
        → Streak (n + length fs) (fail_each fs w)
    unfolding fail_each
    fail_each-Streak [] n w same few (row, found, count, closed_) =
        (row, found, omega arith, closed_)
    fail_each-Streak (f ∷ fs) n w same few h =
        let (row, found, count, closed_) =
          fail_each-Streak fs (n + 1) (fail_once f w) same.1 (omega arith)
            (fail_once-Streak f n w same.0 (omega arith) h) in
        (row, found, omega arith, closed_)

    -- For a stored webhook with no failures so far and a circuit that was never opened: after four
    -- failed jobs of it in a row its count is four and the circuit is still unopened; after the
    -- fifth, and until 24 hours after it, every job for the webhook does nothing.
    pub fail_each-opens :
        (fs : List Failure) (last : Failure) (w : World) (now end : ℕ) (outcome : HttpOutcome)
        (readable : Bool) (job : JobData)
        → All IsFor fs
        → length fs ≡ 4
        → IsFor last
        → Streak 0 w
        → job.webhook_id ≡ id
        → now < last.end + 86400000
        → let before = fail_each fs w in
          let w' = fail_once last before in
          Streak 4 before × (process config hmac now end outcome readable job w' ≡ w')
    fail_each-opens fs last w now end outcome readable job same four here_ fresh is_its soon =
        let before = fail_each fs w in
        let (row, found, count, closed_) = fail_each-Streak fs 0 w same (omega arith) fresh in
        let row' = reopened last.end (counted row) in
        let stored = fail_once-row last before here_ found closed_ in
        let until : row'.circuit_open_until ≡ some (last.end + 86400000) = ground arith in
        (
          (row, found, omega arith, closed_),
          process_skips config hmac now end outcome readable job (fail_once last before)
              {row = row'}
              (subst (λ i. lookup i (fail_once last before).webhooks ≡ some row') (sym is_its)
                stored)
              (rw until (lt→ltb now (last.end + 86400000) soon)),
        )

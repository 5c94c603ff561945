-- ===== src/Webhooks/Delivery/Retries.antt =====
-- The attempt numbers of the jobs that src/webhooks/webhook-delivery.processor.ts queues.
use Prim.Native.String.{String}
use dupdap_backend.Base.{
  ℕ, ◌-◌, ◌≤◌, ◌<◌, ◌≡◌, Bool, true, false, [], ◌∷◌, ◌++◌, Option, none, some, arith, lookup,
  Option-cases, ◌⊎◌, inl, inr, All, All-append, lookup-All,
}
use dupdap_backend.Webhooks.Records.{
  Merchant, WebhookRetryConfig, JobData, World, QueueConfig, QueuedJob, failure, HttpOutcome,
  responded, failed,
}
use dupdap_backend.Webhooks.Delivery.{
  mark_webhook_success, log_delivery, max_attempts_of, merchant_retry, on_failure, settle,
  send_request, process, retry_delay_of,
}
use dupdap_backend.Webhooks.Delivery.Frames.{update_webhook-Keeps, mark_webhook_failure-Keeps}
use dupdap_backend.Webhooks.Delivery.Outcomes.{retry_of}

module _ (config : QueueConfig) where
  -- A job queues nothing, or one retry of itself while attempts are left.
  abbrev Queues : Option WebhookRetryConfig → JobData → World → World → Type 0
  Queues own job w w' =
      (w'.queue ≡ w.queue)
      ⊎ (job.attempt_number < max_attempts_of config own)
        × (w'.queue ≡ w.queue ++ retry_of config job own ∷ [])

  on_failure-Queues :
      (end : ℕ) (readable : Bool) (job : JobData) (code : Option ℕ) (message : String) (w : World)
      → Queues
          (merchant_retry readable job.merchant_id w)
          job
          w
          (on_failure config end readable job code message w)
  unfolding on_failure log_delivery
  on_failure-Queues end readable job code message w =
      let own = merchant_retry readable job.merchant_id w in
      let delay = retry_delay_of config (job.attempt_number - 1) own in
      let logged = log_delivery job failure code (some message) delay w in
      ground (arith, mark_webhook_failure-Keeps end job.webhook_id logged)

  settle-Queues :
      (end : ℕ) (readable : Bool) (job : JobData) (outcome : HttpOutcome) (w : World)
      → Queues
          (merchant_retry readable job.merchant_id w)
          job
          w
          (settle config end readable job outcome w)
  unfolding settle mark_webhook_success log_delivery
  settle-Queues end readable job (responded status) w =
      inl (update_webhook-Keeps job.webhook_id _ _).0
  settle-Queues end readable job (failed code message) w =
      on_failure-Queues end readable job code message w

  process-Queues :
      (hmac : String → String → String) (now end : ℕ) (outcome : HttpOutcome) (readable : Bool)
      (job : JobData) (w : World)
      → Queues
          (merchant_retry readable job.merchant_id w)
          job
          w
          (process config hmac now end outcome readable job w)
  unfolding process send_request merchant_retry
  process-Queues hmac now end outcome readable job w =
      ground (arith, settle-Queues end readable job outcome (send_request hmac job w))

  module _ (bound : ℕ) where
    -- A policy of the merchant's own allows at most `bound` attempts.
    abbrev pub Allows : Option WebhookRetryConfig → Type 0
    Allows none = Unit
    Allows (some own) = own.max_attempts ≤ bound

    abbrev pub IsModest : Merchant → Type 0
    IsModest m = Allows m.webhook_retry_config

    abbrev pub IsWithin : QueuedJob → Type 0
    IsWithin q = q.payload.attempt_number ≤ bound

    max_attempts-le :
        (own : Option WebhookRetryConfig)
        → config.webhook_max_retries ≤ bound
        → Allows own
        → max_attempts_of config own ≤ bound
    unfolding max_attempts_of
    max_attempts-le none global h = global
    max_attempts-le (some own) global h = h

    merchant_retry-Allows :
        (readable : Bool) (id : ℕ) (w : World)
        → All (λ e. IsModest e.1) w.merchants
        → Allows (merchant_retry readable id w)
    unfolding merchant_retry
    merchant_retry-Allows false id w modest = tt
    merchant_retry-Allows true id w modest = elim (Option-cases (lookup id w.merchants)) [
      | inl missing ↦ rw (missing, merchant_retry) tt
      | inr (m, found) ↦
          rw (found, merchant_retry) (lookup-All IsModest id m w.merchants modest found)
    ]

    -- If the global setting and every merchant's own policy allow at most `bound` attempts, no job in
    -- the queue ever carries a higher attempt number, however deliveries end.
    process-IsWithin :
        (hmac : String → String → String) (now end : ℕ) (outcome : HttpOutcome) (readable : Bool)
        (job : JobData) (w : World)
        → config.webhook_max_retries ≤ bound
        → All (λ e. IsModest e.1) w.merchants
        → All IsWithin w.queue
        → All IsWithin (process config hmac now end outcome readable job w).queue
    process-IsWithin hmac now end outcome readable job w global modest within =
        let own = merchant_retry readable job.merchant_id w in
        let allowed =
          max_attempts-le own global (merchant_retry-Allows readable job.merchant_id w modest) in
        elim (process-Queues hmac now end outcome readable job w) [
          | inl same ↦ rw same within
          | inr (left, added) ↦ rw added (All-append IsWithin w.queue _ within (omega arith, tt))
        ]

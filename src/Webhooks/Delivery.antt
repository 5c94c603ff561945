-- ===== src/Webhooks/Delivery.antt =====
-- src/webhooks/webhook-delivery.processor.ts and webhook-failure-alert.service.ts: one delivery job.
-- The tables, the queue and the outgoing messages are the fields of `World`. Clock readings are
-- milliseconds: `now` when the job starts, `end` when the HTTP call has settled. How that call
-- settles is a parameter, and so are the signature (HMAC) and whether the merchant can be read. The
-- other database calls, the queue and the alert services are taken not to throw. Attempt numbers
-- start at 1.
pub mod Frames
pub mod Outcomes
pub mod Retries
pub mod Circuit
use Prim.Native.String.{String}
use dupdap_backend.Base.{
  ℕ, ◌+◌, ◌-◌, min, Bool, true, false, not, ◌&&◌, ◌||◌, ltb, leb, List, [], ◌∷◌, ◌++◌, Option, none,
  some, Dict, lookup, insert, length, get_elem?, find, if◌then◌else◌,
}
use dupdap_backend.Webhooks.Records.{
  webhook_circuit_failure_threshold, webhook_circuit_open_ms, Webhook, WebhookRetryConfig, JobData,
  Request, DeliveryStatus, success, failure, DeliveryLog, QueuedJob, Urgency, warning, high,
  critical, Notice, failure_alert, circuit_alert, circuit_email, World, QueueConfig, HttpOutcome,
  responded, failed, get_or, is_future,
}

-- The thresholds of `notifyIfNeeded`, in its order.
abbrev alert_thresholds : List (ℕ × Urgency)
alert_thresholds = (3, warning) ∷ (7, high) ∷ (10, critical) ∷ []

pub alert_urgency : ℕ → Option (ℕ × Urgency)
alert_urgency failures = find (λ t. leb t.0 failures && ltb (failures - 1) t.0) alert_thresholds

send_notice : Notice → World → World
send_notice notice w = record w { notices = w.notices ++ notice ∷ [] }

pub notify_if_needed : ℕ → Webhook → World → World
unfolding send_notice alert_urgency
notify_if_needed id webhook w = elim (alert_urgency webhook.failure_count) [
  | none ↦ w
  | some threshold ↦ send_notice (failure_alert id threshold.1) w
]

merchant_email : ℕ → World → Option String
merchant_email id w = elim (lookup id w.merchants) [ none ↦ none | some m ↦ m.email ]

-- A merchant without an address gets no message.
when_reachable : Option String → (World → World) → World → World
when_reachable none act w = w
when_reachable (some _) act w = act w

pub log_delivery :
    JobData
    → DeliveryStatus
    → (response_code : Option ℕ) → (error : Option String) → (retry_delay_ms : Option ℕ) → World
    → World
log_delivery job status response_code error retry_delay_ms w =
    let entry : DeliveryLog = record {
      webhook_id = job.webhook_id;
      event = job.event;
      request_url = job.url;
      request_body = job.body;
      attempt_number = job.attempt_number;
      status = status;
      response_code = response_code;
      error = error;
      retry_delay_ms = get_or retry_delay_ms 0;
    } in
    record w { delivery_log = w.delivery_log ++ entry ∷ [] }

-- `webhookRepo.update({ id }, …)`: a row that is not there is not made.
pub update_webhook : ℕ → (Webhook → Webhook) → World → World
update_webhook id change w = elim (lookup id w.webhooks) [
  | none ↦ w
  | some webhook ↦ record w { webhooks = insert id (change webhook) w.webhooks }
]

pub mark_webhook_success : (end id : ℕ) → World → World
mark_webhook_success end id = update_webhook id (λ webhook. record webhook {
  failure_count = 0;
  last_delivered_at = some end;
  circuit_open_until = none;
})

pub open_circuit_if_needed : (end id : ℕ) → Webhook → World → World × Bool
unfolding update_webhook send_notice merchant_email when_reachable
open_circuit_if_needed end id webhook w =
    let already_open = is_future webhook.circuit_open_until end in
    if ltb webhook.failure_count webhook_circuit_failure_threshold || already_open
    then (w, false)
    else (let reopens_at = end + webhook_circuit_open_ms in
        let w1 = update_webhook id (λ row. record row { circuit_open_until = some reopens_at }) w in
        let w2 = send_notice (circuit_alert id webhook.failure_count reopens_at) w1 in
        (
          when_reachable (merchant_email webhook.merchant_id w2)
              (send_notice (circuit_email webhook.merchant_id reopens_at)) w2,
          true,
        ))

-- The parts of `markWebhookFailure` after the row has been read back: it is switched off at ten
-- failures, the merchant is told, and the circuit may open.
pub retire_if_failing : ℕ → Webhook → World → World × Webhook
unfolding update_webhook
retire_if_failing id webhook w =
    if leb 10 webhook.failure_count && webhook.is_active
    then (
      update_webhook id (λ row. record row { is_active = false }) w,
      record webhook { is_active = false },
    )
    else (w, webhook)

pub notify_merchant : ℕ → Webhook → World → World
unfolding notify_if_needed merchant_email when_reachable
notify_merchant id webhook w =
    when_reachable (merchant_email webhook.merchant_id w) (notify_if_needed id webhook) w

pub after_failure : (end id : ℕ) → Webhook → World → World × Bool
after_failure end id webhook w =
    let (w1, webhook') = retire_if_failing id webhook w in
    open_circuit_if_needed end id webhook' (notify_merchant id webhook' w1)

-- `markWebhookFailure`: the new world, and whether the circuit has been opened.
pub mark_webhook_failure : (end id : ℕ) → World → World × Bool
mark_webhook_failure end id w =
    let w1 = update_webhook id (λ row. record row { failure_count = row.failure_count + 1 }) w in
    elim (lookup id w1.webhooks) [
      | none ↦ (w1, false)
      | some webhook ↦ after_failure end id webhook w1
    ]

-- `current?.circuitOpenUntil` is set and lies in the future.
pub circuit_is_open : (now id : ℕ) → World → Bool
circuit_is_open now id w = elim (lookup id w.webhooks) [
  | none ↦ false
  | some webhook ↦ is_future webhook.circuit_open_until now
]

pub merchant_retry : Bool → ℕ → World → Option WebhookRetryConfig
merchant_retry readable id w =
    if readable
    then elim (lookup id w.merchants) [ none ↦ none | some m ↦ m.webhook_retry_config ]
    else none

module _ (hmac : String → String → String) where
  -- `createHmac("sha256", secret ?? "")`
  pub sign : String → Option String → String
  sign body secret = hmac (get_or secret "") body

  pub send_request : JobData → World → World
  unfolding sign
  send_request job w =
      let request : Request = record {
        url = job.url;
        body = job.body;
        signature = sign job.body job.secret;
        event = job.event;
        replay = job.replay;
      } in
      record w { requests = w.requests ++ request ∷ [] }

module _ (config : QueueConfig) where
  pub max_attempts_of : Option WebhookRetryConfig → ℕ
  max_attempts_of none = config.webhook_max_retries
  max_attempts_of (some own) = own.max_attempts

  -- `Math.min(retryIndex, length - 1)` of an empty list is -1, where there is no element.
  pub retry_delay_of : (retry_index : ℕ) → Option WebhookRetryConfig → Option ℕ
  retry_delay_of retry_index none =
      some (get_or (get_elem? config.webhook_retry_schedule retry_index) 0)
  retry_delay_of retry_index (some own) =
      get_elem? own.retry_delays (min retry_index (length own.retry_delays - 1))

  -- The `catch` of `process`.
  pub on_failure :
      (end : ℕ)
      → (merchant_readable : Bool) → JobData
      → Option ℕ
      → (message : String) → World
      → World
  on_failure end merchant_readable job response_code message w =
      let own = merchant_retry merchant_readable job.merchant_id w in
      let retry_delay = retry_delay_of (job.attempt_number - 1) own in
      let w1 = log_delivery job failure response_code (some message) retry_delay w in
      let (w2, circuit_opened) = mark_webhook_failure end job.webhook_id w1 in
      let retry : QueuedJob = record {
        payload = record job { attempt_number = job.attempt_number + 1 };
        delay = retry_delay;
      } in
      if circuit_opened
      then w2
      else if ltb job.attempt_number (max_attempts_of own)
      then record w2 { queue = w2.queue ++ retry ∷ [] }
      else w2

  -- The `try` and the `catch` of `process`, by how the HTTP call settles.
  pub settle : (end : ℕ) → (merchant_readable : Bool) → JobData → HttpOutcome → World → World
  settle end merchant_readable job (responded status) w =
      mark_webhook_success end job.webhook_id
        (log_delivery job success (some status) none (some 0) w)
  settle end merchant_readable job (failed response_code message) w =
      on_failure end merchant_readable job response_code message w

pub process :
    QueueConfig
    → (hmac : String → String → String) → (now end : ℕ) → HttpOutcome
    → (merchant_readable : Bool) → JobData
    → World
    → World
unfolding circuit_is_open
process config hmac now end outcome merchant_readable job w =
    if circuit_is_open now job.webhook_id w
    then w
    else settle config end merchant_readable job outcome (send_request hmac job w)

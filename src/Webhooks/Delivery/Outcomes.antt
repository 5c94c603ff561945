-- ===== src/Webhooks/Delivery/Outcomes.antt =====
-- What one delivery job of src/webhooks/webhook-delivery.processor.ts does, by how it ends.
use Prim.Native.String.{String}
use dupdap_backend.Base.{
  ℕ, ◌+◌, ◌-◌, ◌≡◌, Bool, true, false, [], ◌∷◌, ◌++◌, Option, none, some, arith, lookup, ltb,
  if◌then◌else◌,
}
use dupdap_backend.Webhooks.Records.{
  Webhook, WebhookRetryConfig, JobData, World, Request, QueueConfig, QueuedJob, DeliveryLog,
  DeliveryStatus, success, failure, HttpOutcome, responded, failed, is_future, get_or,
}
use dupdap_backend.Webhooks.Delivery.{
  mark_webhook_success, log_delivery, max_attempts_of, retry_delay_of, merchant_retry, on_failure,
  settle, send_request, circuit_is_open, process,
}
use dupdap_backend.Webhooks.Delivery.Frames.{
  opens, counted, reopened, update_webhook-Keeps, update_webhook-row, mark_webhook_failure-Keeps,
  mark_webhook_failure-row,
}

-- The log entry of a delivery.
abbrev pub entry_of :
    JobData
    → DeliveryStatus
    → (response_code : Option ℕ) → (error : Option String) → ℕ
    → DeliveryLog
entry_of job status response_code error retry_delay_ms = record {
  webhook_id = job.webhook_id;
  event = job.event;
  request_url = job.url;
  request_body = job.body;
  attempt_number = job.attempt_number;
  status = status;
  response_code = response_code;
  error = error;
  retry_delay_ms = retry_delay_ms;
}

circuit_is_open_row :
    (now id : ℕ) (w : World) {row : Webhook}
    → lookup id w.webhooks ≡ some row
    → circuit_is_open now id w ≡ is_future row.circuit_open_until now
unfolding circuit_is_open
circuit_is_open_row now id w found = rw (found, circuit_is_open)

-- The signed request of a delivery.
abbrev pub request_of : (hmac : String → String → String) → JobData → Request
request_of hmac job = record {
  url = job.url;
  body = job.body;
  signature = hmac (get_or job.secret "") job.body;
  event = job.event;
  replay = job.replay;
}

-- The retry that a failed delivery asks for.
abbrev pub retry_of : QueueConfig → JobData → Option WebhookRetryConfig → QueuedJob
retry_of config job own = record {
  payload = record job { attempt_number = job.attempt_number + 1 };
  delay = retry_delay_of config (job.attempt_number - 1) own;
}

module _ (config : QueueConfig) (hmac : String → String → String) where
  -- While the circuit of its stored webhook is open, a job does nothing at all: no request, no log
  -- entry, and no retry.
  pub process_skips :
      (now end : ℕ) (outcome : HttpOutcome) (readable : Bool) (job : JobData) (w : World)
      {row : Webhook}
      → lookup job.webhook_id w.webhooks ≡ some row
      → is_future row.circuit_open_until now ≡ true
      → process config hmac now end outcome readable job w ≡ w
  unfolding process
  process_skips now end outcome readable job w found open_ =
      ground (arith, circuit_is_open_row now job.webhook_id w found)

  process_runs :
      (now end : ℕ) (outcome : HttpOutcome) (readable : Bool) (job : JobData) (w : World)
      {row : Webhook}
      → lookup job.webhook_id w.webhooks ≡ some row
      → is_future row.circuit_open_until now ≡ false
      → process config hmac now end outcome readable job w
        ≡ settle config end readable job outcome (send_request hmac job w)
  unfolding process
  process_runs now end outcome readable job w found shut_ =
      ground (arith, circuit_is_open_row now job.webhook_id w found)

  -- For a stored webhook whose circuit is not open, a delivery that the endpoint accepts is sent
  -- once, signed, and logged; the webhook's failure count and circuit are cleared, and no job is
  -- queued.
  process_delivers :
      (now end status : ℕ) (readable : Bool) (job : JobData) (w : World) {row : Webhook}
      → lookup job.webhook_id w.webhooks ≡ some row
      → is_future row.circuit_open_until now ≡ false
      → let w' = process config hmac now end (responded status) readable job w in
        (w'.requests ≡ w.requests ++ request_of hmac job ∷ [])
        × (w'.delivery_log ≡ w.delivery_log ++ entry_of job success (some status) none 0 ∷ [])
        × (w'.queue ≡ w.queue)
        × (lookup job.webhook_id w'.webhooks
            ≡ some (record row {
              failure_count = 0;
              last_delivered_at = some end;
              circuit_open_until = none;
            }))
  unfolding settle send_request log_delivery mark_webhook_success
  process_delivers now end status readable job w {row} found shut_ =
      let logged = log_delivery job success (some status) none (some 0) (send_request hmac job w) in
      let clear = λ (r : Webhook). record r {
        failure_count = 0;
        last_delivered_at = some end;
        circuit_open_until = none;
      } in
      let (queue, log, requests, _) = update_webhook-Keeps job.webhook_id clear logged in
      rw (process_runs now end (responded status) readable job w found shut_)
        (requests, log, queue, update_webhook-row job.webhook_id clear logged found)

  -- For a stored webhook whose circuit is not open, a delivery that fails is sent once and logged,
  -- and counted in the webhook's row. If the count opens the circuit, nothing is retried;
  -- otherwise there is one retry, with the next attempt number, as long as attempts are left by
  -- the merchant's own policy or else the global one.
  pub process_fails :
      (now end : ℕ) (code : Option ℕ) (message : String) (readable : Bool) (job : JobData)
      (w : World) {row : Webhook}
      → lookup job.webhook_id w.webhooks ≡ some row
      → is_future row.circuit_open_until now ≡ false
      → let w' = process config hmac now end (failed code message) readable job w in
        let own = merchant_retry readable job.merchant_id w in
        let retry = retry_of config job own in
        (w'.requests ≡ w.requests ++ request_of hmac job ∷ [])
        × (w'.delivery_log
            ≡ w.delivery_log
              ++ entry_of job failure code (some message) (get_or retry.delay 0) ∷ [])
        × (lookup job.webhook_id w'.webhooks ≡ some (reopened end (counted row)))
        × (w'.queue ≡ (
            if opens end (counted row)
            then w.queue
            else if ltb job.attempt_number (max_attempts_of config own)
            then w.queue ++ retry ∷ []
            else w.queue))
  unfolding settle send_request log_delivery on_failure merchant_retry
  process_fails now end code message readable job w {row} found shut_ =
      let sent = send_request hmac job w in
      let own = merchant_retry readable job.merchant_id w in
      let delay = retry_delay_of config (job.attempt_number - 1) own in
      let logged = log_delivery job failure code (some message) delay sent in
      let keeps = mark_webhook_failure-Keeps end job.webhook_id logged in
      let (opened, stored) = mark_webhook_failure-row end job.webhook_id row logged found in
      rw (process_runs now end (failed code message) readable job w found shut_) (
        ground (arith, keeps),
        ground (arith, keeps),
        ground (arith, stored),
        ground (arith, keeps, opened),
      )

-- ===== src/Examples/WebhookRuns.antt =====
-- Runs of the theorems about src/webhooks/webhook-delivery.processor.ts.
use Prim.Native.String.{String}
use dupdap_backend.Base.{
  ℕ, ◌+◌, ◌≡◌, refl, true, false, List, [], ◌∷◌, none, some, lookup, ltb, arith, if◌then◌else◌,
}
use dupdap_backend.Webhooks.Records.{
  Webhook, Merchant, JobData, World, QueueConfig, failure, responded, failed, get_or,
}
use dupdap_backend.Webhooks.Delivery.{process, merchant_retry, max_attempts_of}
use dupdap_backend.Webhooks.Delivery.Outcomes.{request_of, entry_of, retry_of, process_fails}
use dupdap_backend.Webhooks.Delivery.Frames.{counted, opens, reopened}
use dupdap_backend.Webhooks.Delivery.Circuit.{
  Failure, fail_once, fail_each, Streak, fail_each-opens,
}

abbrev config : QueueConfig
config = record { webhook_retry_schedule = 1000 ∷ 5000 ∷ []; webhook_max_retries = 3 }

-- A stand-in for the HMAC.
abbrev hmac : String → String → String
hmac key body = key

abbrev hook : Webhook
hook = record {
  merchant_id = 4;
  url = "https://shop.example/hook";
  is_active = true;
  failure_count = 0;
  last_delivered_at = none;
  circuit_open_until = none;
}

abbrev job : JobData
job = record {
  webhook_id = 1;
  merchant_id = 4;
  url = "https://shop.example/hook";
  secret = some "secret";
  event = "payment.settled";
  body = "{}";
  attempt_number = 1;
  replay = false;
}

abbrev merchant : Merchant
merchant = record {
  email = none;
  webhook_retry_config = some (record { max_attempts = 2; retry_delays = 50 ∷ [] });
}

abbrev world_with : Webhook → World
world_with row = record {
  webhooks = (1, row) ∷ [];
  merchants = (4, merchant) ∷ [];
  requests = [];
  delivery_log = [];
  queue = [];
  notices = [];
}

abbrev shut_off : Webhook
shut_off = record hook { circuit_open_until = some 500 }

process_fails_example :
    let w = world_with hook in
    let w' = process config hmac 100 120 (failed (some 500) "down") true job w in
    let own = merchant_retry true 4 w in
    let retry = retry_of config job own in
    (w'.requests ≡ request_of hmac job ∷ [])
    × (w'.delivery_log ≡ entry_of job failure (some 500) (some "down") (get_or retry.delay 0) ∷ [])
    × (lookup 1 w'.webhooks ≡ some (reopened 120 (counted hook)))
    × (w'.queue ≡ (
        if opens 120 (counted hook)
        then []
        else if ltb 1 (max_attempts_of config own)
        then retry ∷ []
        else []))
process_fails_example =
    process_fails config hmac 100 120 (some 500) "down" true job (world_with hook) {row = hook} refl
      refl

abbrev fails_at : ℕ → Failure
fails_at t = record {
  now = t;
  end = t + 10;
  code = some 500;
  message = "down";
  readable = true;
  job = job;
}

abbrev four : List Failure
four = fails_at 100 ∷ fails_at 200 ∷ fails_at 300 ∷ fails_at 400 ∷ []

fail_each-opens_example :
    let before = fail_each config hmac four (world_with hook) in
    let w' = fail_once config hmac (fails_at 500) before in
    Streak config hmac 1 4 before × (process config hmac 900 950 (responded 200) true job w' ≡ w')
fail_each-opens_example =
    fail_each-opens config hmac 1 four (fails_at 500) (world_with hook) 900 950 (responded 200) true
      job (refl, (refl, (refl, (refl, tt)))) refl refl (hook, refl, refl, refl) refl (omega arith)

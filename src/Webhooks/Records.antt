-- ===== src/Webhooks/Records.antt =====
-- The rows, jobs and messages of src/webhooks/webhook-delivery.processor.ts and
-- src/webhooks/entities, and the outcome of an HTTP call.
use Prim.Native.String.{String}
use dupdap_backend.Base.{ℕ, Bool, false, ltb, List, Option, none, some, Dict}

abbrev pub webhook_circuit_failure_threshold : ℕ
webhook_circuit_failure_threshold = 5

abbrev pub webhook_circuit_open_ms : ℕ
webhook_circuit_open_ms = 86400000

-- The columns of `Webhook` that the processor reads or writes; its id is the key of its table.
pub record Webhook : Type 0 where
  pub merchant_id : ℕ
  pub url : String
  pub is_active : Bool
  pub failure_count : ℕ
  pub last_delivered_at : Option ℕ
  pub circuit_open_until : Option ℕ

pub record WebhookRetryConfig : Type 0 where
  pub max_attempts : ℕ
  pub retry_delays : List ℕ

pub record Merchant : Type 0 where
  pub email : Option String
  pub webhook_retry_config : Option WebhookRetryConfig

-- `WebhookDeliveryJobData`
pub record JobData : Type 0 where
  pub webhook_id : ℕ
  pub merchant_id : ℕ
  pub url : String
  pub secret : Option String
  pub event : String
  pub body : String
  pub attempt_number : ℕ
  pub replay : Bool

pub record Request : Type 0 where
  pub url : String
  pub body : String
  pub signature : String
  pub event : String
  pub replay : Bool

pub data DeliveryStatus : Type 0 where
  success failure : DeliveryStatus

pub record DeliveryLog : Type 0 where
  pub webhook_id : ℕ
  pub event : String
  pub request_url : String
  pub request_body : String
  pub attempt_number : ℕ
  pub status : DeliveryStatus
  pub response_code : Option ℕ
  pub error : Option String
  pub retry_delay_ms : ℕ

-- A job on the Bull queue. Its job id, by which Bull passes over a job that it already holds, is not
-- part of the model: a job that is added is in the list.
pub record QueuedJob : Type 0 where
  pub payload : JobData
  pub delay : Option ℕ

pub data Urgency : Type 0 where
  warning high critical : Urgency

-- A message to a merchant or to the administrators.
pub data Notice : Type 0 where
  failure_alert : (webhook_id : ℕ) → Urgency → Notice
  circuit_alert : (webhook_id failures reopens_at : ℕ) → Notice
  circuit_email : (merchant_id reopens_at : ℕ) → Notice

pub record World : Type 0 where
  pub webhooks : Dict Webhook
  pub merchants : Dict Merchant
  pub requests : List Request
  pub delivery_log : List DeliveryLog
  pub queue : List QueuedJob
  pub notices : List Notice

-- `webhookRetrySchedule` and `webhookMaxRetries` of `QueueConfigService`.
pub record QueueConfig : Type 0 where
  pub webhook_retry_schedule : List ℕ
  pub webhook_max_retries : ℕ

-- How `axios.post` settles: with a status it accepts, or with an error.
pub data HttpOutcome : Type 0 where
  responded : (status : ℕ) → HttpOutcome
  failed : (response_code : Option ℕ) → (message : String) → HttpOutcome

abbrev pub get_or : {A : Type 0} → Option A → A → A
get_or none d = d
get_or (some a) d = a

-- `circuitOpenUntil` is set and lies in the future.
abbrev pub is_future : Option ℕ → ℕ → Bool
is_future none now = false
is_future (some until) now = ltb now until

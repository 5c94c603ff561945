-- ===== src/Webhooks/Registry.antt =====
-- src/webhooks/webhooks.service.ts (but for the checks of a new registration and the retry configuration) and
-- the queueing of deliveries in src/webhooks/webhook-delivery.service.ts. The rate limiter of the cache is an
-- argument. A query lists its rows in the order of the table.
pub mod Safety
pub mod Replay
use Prim.Native.String.{String, compare}
use Prim.Native.Nat.{Ordering}
use dupdap_backend.Base.{
  ℕ, ◌+◌, Bool, true, false, not, ◌&&◌, ◌||◌, ltb, leb, ◌==◌, List, [], ◌∷◌, ◌++◌, Option, none,
  some, Result, ok, err, any, all, filter, find, length, map, take, if◌then◌else◌,
}
use dupdap_backend.Webhooks.Records.{JobData, QueuedJob, WebhookRetryConfig, get_or}
use dupdap_backend.Webhooks.Destinations.{Node, is_safe_url, same_text}

-- A row of the webhooks table.
pub record Webhook : Type 0 where
  pub id : ℕ
  pub merchant_id : ℕ
  pub url : String
  pub events : List String
  pub secret : Option String
  pub is_active : Bool
  pub failure_count : ℕ
  pub circuit_open_until : Option ℕ

abbrev pub job_of : Webhook → (event body : String) → (replay : Bool) → QueuedJob
job_of webhook event body replay = record {
  payload = record {
    webhook_id = webhook.id;
    merchant_id = webhook.merchant_id;
    url = webhook.url;
    secret = some (get_or webhook.secret "");
    event = event;
    body = body;
    attempt_number = 1;
    replay = replay;
  };
  delay = none;
}

module _ (node : Node) where
  unfoldable pub enqueue_delivery :
      Webhook → (event body : String) → (replay : Bool) → List QueuedJob → List QueuedJob
  enqueue_delivery webhook event body replay queue =
      if is_safe_url node webhook.url then queue ++ job_of webhook event body replay ∷ [] else queue

  -- The loops of `dispatch` and `sendTest`.
  unfoldable pub enqueue_each :
      List Webhook → (event body : String) → List QueuedJob → List QueuedJob
  enqueue_each [] event body queue = queue
  enqueue_each (webhook ∷ webhooks) event body queue =
      enqueue_each webhooks event body (enqueue_delivery webhook event body false queue)

-- `where: { merchantId, isActive: true }`
abbrev pub is_active_of : ℕ → Webhook → Bool
is_active_of merchant webhook = webhook.merchant_id == merchant && webhook.is_active

unfoldable pub subscribes : String → Webhook → Bool
subscribes event webhook =
    any (same_text event) webhook.events || any (same_text "*") webhook.events

pub record Registry : Type 0 where
  pub webhooks : List Webhook
  pub queue : List QueuedJob

unfoldable pub dispatch : Node → (merchant : ℕ) → (event body : String) → Registry → Registry
dispatch node merchant event body s =
    let matching = filter (subscribes event) (filter (is_active_of merchant) s.webhooks) in
    record s { queue = enqueue_each node matching event body s.queue }

-- It answers how many endpoints there are.
unfoldable pub send_test : Node → (merchant : ℕ) → (body : String) → Registry → Registry × ℕ
send_test node merchant body s =
    let hooks = filter (is_active_of merchant) s.webhooks in
    (record s { queue = enqueue_each node hooks "webhook.test" body s.queue }, length hooks)

pub data RegistryError : Type 0 where
  webhook_not_found replay_unavailable replay_rate_limited invalid_replay_window : RegistryError

abbrev pub has_id : ℕ → Webhook → Bool
has_id id webhook = webhook.id == id

-- `save` of a row that is in the table.
abbrev save : Webhook → List Webhook → List Webhook
save row = map (λ stored. if stored.id == row.id then row else stored)

unfoldable pub reset_circuit : (id : ℕ) → Registry → Registry × Result RegistryError Webhook
reset_circuit id s = elim (find (has_id id) s.webhooks) [
  | none ↦ (s, err webhook_not_found)
  | some webhook ↦
      let reset = record webhook { circuit_open_until = none; failure_count = 0 } in
      (record s { webhooks = save reset s.webhooks }, ok reset)
]

pub find_all : (merchant : ℕ) → Registry → List Webhook
find_all merchant s = filter (λ webhook. webhook.merchant_id == merchant) s.webhooks

unfoldable pub remove : (id merchant : ℕ) → Registry → Registry × Result RegistryError Webhook
remove id merchant s =
    elim (find (λ webhook. has_id id webhook && webhook.merchant_id == merchant) s.webhooks) [
      | none ↦ (s, err webhook_not_found)
      | some webhook ↦ (
        record s { webhooks = filter (λ other. not (has_id webhook.id other)) s.webhooks },
        ok webhook,
      )
    ]

-- A row of the delivery log. The log lists the newest first, as `replay` asks for it.
pub record LoggedDelivery : Type 0 where
  pub webhook_id : ℕ
  pub event : String
  pub request_body : String
  pub created_at : ℕ

-- A date that does not parse is `none`.
pub record ReplayWebhooksDto : Type 0 where
  pub from : Option ℕ
  pub to : Option ℕ
  pub event_type : Option String

abbrev replay_page : ℕ
replay_page = 500

-- The rows that the query of `replay` selects.
abbrev pub is_selected :
    List Webhook → (from to : ℕ) → (event_type : Option String) → LoggedDelivery → Bool
is_selected hooks from to event_type log =
    any (has_id log.webhook_id) hooks
    && leb from log.created_at
    && leb log.created_at to
    && elim event_type [ none ↦ true | some event ↦ same_text log.event event ]

-- `${log.webhookId}:${log.event}`, as the set of seen keys compares it.
abbrev pub same_key : ℕ × String → ℕ × String → Bool
same_key a b = a.0 == b.0 && same_text a.1 b.1

module _ (node : Node) where
  -- The body of the loop of `replay`: the seen keys, the queue, and whether it counts.
  unfoldable pub replay_one :
      (hooks : List Webhook)
      → LoggedDelivery
      → (seen : List (ℕ × String)) → List QueuedJob
      → List (ℕ × String) × List QueuedJob × ℕ
  replay_one hooks log seen queue =
      let key : ℕ × String = (log.webhook_id, log.event) in
      if any (same_key key) seen
      then (seen, queue, 0)
      else elim (find (has_id log.webhook_id) hooks) [
        | none ↦ (key ∷ seen, queue, 0)
        | some hook ↦
            (key ∷ seen, enqueue_delivery node hook log.event log.request_body true queue, 1)
      ]

  -- The loop, which answers how many it has taken.
  unfoldable pub replay_each :
      (hooks : List Webhook)
      → List LoggedDelivery
      → (seen : List (ℕ × String)) → List QueuedJob
      → List QueuedJob × ℕ
  replay_each hooks [] seen queue = (queue, 0)
  replay_each hooks (log ∷ logs) seen queue =
      let (seen', queue', taken) = replay_one hooks log seen queue in
      let (done, replayed) = replay_each hooks logs seen' queue' in (done, taken + replayed)

  -- `available` says whether there are a cache and a log, `allowed` what the limiter answers.
  unfoldable pub replay :
      (available allowed : Bool) (merchant : ℕ) (dto : ReplayWebhooksDto)
      (logs : List LoggedDelivery)
      → Registry
      → Registry × Result RegistryError ℕ
  replay available allowed merchant dto logs s =
      if not available
      then (s, err replay_unavailable)
      else if not allowed
      then (s, err replay_rate_limited)
      else elim dto.from [
        | none ↦ (s, err invalid_replay_window)
        | some from ↦ elim dto.to [
          | none ↦ (s, err invalid_replay_window)
          | some to ↦
              let hooks = filter (is_active_of merchant) s.webhooks in
              let selected =
                take replay_page (filter (is_selected hooks from to dto.event_type) logs) in
              let (queue, replayed) = replay_each hooks selected [] s.queue in
              if ltb to from
              then (s, err invalid_replay_window)
              else if length hooks == 0
              then (s, ok 0)
              else (record s { queue = queue }, ok replayed)
        ]
      ]

-- ===== src/Alerts.antt =====
-- src/alerts/admin-alert.service.ts with its table (src/alerts/admin-alert.entity.ts) and its messages.
-- Clock readings are arguments, and so is the id that the database makes for a new row. The table
-- lists its rows in the order in which a query without an order returns them. What a post answers
-- only changes the log, so a message is kept as it is sent; the posts are taken to settle.
pub mod Cooldown
pub mod Open
pub mod Rows
use Prim.Native.String.{String}
use dupdap_backend.Base.{
  ℕ, ◌+◌, ◌*◌, Bool, true, false, ◌&&◌, ltb, leb, ◌==◌, List, [], ◌∷◌, ◌++◌, Option, none, some,
  Result, ok, err, filter, find, map, if◌then◌else◌,
}
use mathlib.Core.Logic.{ite}

pub data AdminAlertType : Type 0 where
  stellar_monitor settlement_failure webhook_failure backup_failure : AdminAlertType
  db_pool_exhausted transaction_limit api_key_new_ip analytics_refresh : AdminAlertType

unfoldable pub AdminAlertType-discrete : Discrete AdminAlertType
AdminAlertType-discrete = hlevel

pub data AdminAlertStatus : Type 0 where
  open_ acknowledged resolved : AdminAlertStatus

-- `updatedAt`, which only orders the list, is left out.
pub record AdminAlert : Type 0 where
  pub id : ℕ
  pub alert_type : AdminAlertType
  pub dedupe_key : ℕ
  pub status : AdminAlertStatus
  pub message : String
  pub occurrence_count : ℕ
  pub threshold_value : ℕ
  pub metadata : Option String
  pub last_notified_at : Option ℕ
  pub acknowledged_at : Option ℕ
  pub acknowledged_by : Option ℕ
  pub resolved_at : Option ℕ
  pub resolved_by : Option ℕ
  pub created_at : ℕ

pub record RaiseAlertInput : Type 0 where
  pub alert_type : AdminAlertType
  pub dedupe_key : ℕ
  pub message : String
  pub metadata : Option String
  pub threshold_value : ℕ

-- The settings that the service reads; a number is `none` where the variable is not set.
pub record AlertConfig : Type 0 where
  pub stellar_failure_threshold : Option ℕ
  pub failure_threshold : Option ℕ
  pub cooldown_minutes : Option ℕ
  pub overdue_minutes : Option ℕ
  pub slack_webhook_url : Option String
  pub alert_email : Option String
  pub zepto_api_key : Option String
  pub zepto_from_email : Option String

-- A message on its way: the body of the post is made of the row's type and message (and metadata).
pub data Message : Type 0 where
  slack : (webhook_url : String) → AdminAlert → Message
  email : (recipient api_key from_email : String) → AdminAlert → Message

pub record Alerts : Type 0 where
  pub rows : List AdminAlert
  pub messages : List Message

pub data AlertError : Type 0 where
  not_found : (id : ℕ) → AlertError

abbrev pub get_number_env : Option ℕ → ℕ → ℕ
get_number_env none fallback = fallback
get_number_env (some value) fallback = value

abbrev pub is_open_status : AdminAlertStatus → Bool
is_open_status open_ = true
is_open_status _ = false

abbrev pub same_type : AdminAlertType → AdminAlertType → Bool
same_type a b = ite (AdminAlertType-discrete a b) true false

-- `where: { type, dedupeKey }`
abbrev pub matches : AdminAlertType → ℕ → AdminAlert → Bool
matches type key row = same_type row.alert_type type && row.dedupe_key == key

-- `save` of a row that is in the table: the row with its id is replaced.
unfoldable pub save : AdminAlert → List AdminAlert → List AdminAlert
save row = map (λ stored. if stored.id == row.id then row else stored)

abbrev minute_ms : ℕ
minute_ms = 60000

module _ (config : AlertConfig) where
  pub meets_threshold : AdminAlertType → ℕ → Bool
  meets_threshold stellar_monitor value =
      leb (get_number_env config.stellar_failure_threshold 1) value
  meets_threshold _ value = leb (get_number_env config.failure_threshold 1) value

  abbrev pub cooldown_ms : ℕ
  cooldown_ms = get_number_env config.cooldown_minutes 30 * minute_ms

  pub is_cooling_down : AdminAlert → ℕ → Bool
  is_cooling_down row now = elim row.last_notified_at [
    | none ↦ false
    | some notified ↦ ltb now (notified + cooldown_ms)
  ]

  -- `notifySlack`
  slack_messages : AdminAlert → List Message
  slack_messages row = elim config.slack_webhook_url [ none ↦ [] | some url ↦ slack url row ∷ [] ]

  -- `notifyEmail`
  email_messages : AdminAlert → List Message
  email_messages row = elim config.alert_email [
    | none ↦ []
    | some recipient ↦ elim config.zepto_api_key [
      | none ↦ []
      | some key ↦ elim config.zepto_from_email [
        | none ↦ []
        | some from_email ↦ email recipient key from_email row ∷ []
      ]
    ]
  ]

  pub messages_of : AdminAlert → List Message
  unfolding slack_messages email_messages
  messages_of row = slack_messages row ++ email_messages row

  pub notify : AdminAlert → Alerts → Alerts
  notify row s = record s { messages = s.messages ++ messages_of row }

  -- The row with the new occurrence counted.
  abbrev pub counted_again : RaiseAlertInput → AdminAlert → AdminAlert
  counted_again input row = record row {
    message = input.message;
    metadata = input.metadata;
    threshold_value = input.threshold_value;
    occurrence_count = row.occurrence_count + 1;
  }

  -- The row as it is opened again.
  abbrev pub reopened : ℕ → AdminAlert → AdminAlert
  reopened now row = record row {
    status = open_;
    acknowledged_at = none;
    acknowledged_by = none;
    last_notified_at = some now;
  }

  abbrev pub created : (fresh now : ℕ) → RaiseAlertInput → AdminAlert
  created fresh now input = record {
    id = fresh;
    alert_type = input.alert_type;
    dedupe_key = input.dedupe_key;
    status = open_;
    message = input.message;
    occurrence_count = 1;
    threshold_value = input.threshold_value;
    metadata = input.metadata;
    last_notified_at = some now;
    acknowledged_at = none;
    acknowledged_by = none;
    resolved_at = none;
    resolved_by = none;
    created_at = now;
  }

  pub raise : (fresh now : ℕ) → RaiseAlertInput → Alerts → Alerts × Option AdminAlert
  unfolding notify save
  raise fresh now input s =
      if meets_threshold input.alert_type input.threshold_value
      then elim (find (matches input.alert_type input.dedupe_key) s.rows) [
        | none ↦
            let row = created fresh now input in
            (notify row (record s { rows = s.rows ++ row ∷ [] }), some row)
        | some existing ↦
            let row = counted_again input existing in
            if is_cooling_down row now
            then (record s { rows = save row s.rows }, some row)
            else (let row' = reopened now row in
                (notify row' (record s { rows = save row' s.rows }), some row'))
      ]
      else (s, none)

  -- `getAlertAgeMs` and `isOverdue`: the age is compared by adding on the other side.
  pub is_overdue : AdminAlert → ℕ → Bool
  is_overdue row now =
      is_open_status row.status
      && ltb (row.created_at + get_number_env config.overdue_minutes 60 * minute_ms) now

  -- The loop of `escalateOverdueAlerts` over the open rows that were read.
  pub escalate_rows : ℕ → List AdminAlert → Alerts → Alerts × ℕ
  unfolding notify save
  escalate_rows now [] s = (s, 0)
  escalate_rows now (row ∷ rows) s =
      let row' = record row { last_notified_at = some now } in
      let s' = notify row' (record s { rows = save row' s.rows }) in
      let (done, escalated) = escalate_rows now rows (if is_overdue row now then s' else s) in
      (done, (if is_overdue row now then 1 else 0) + escalated)

  pub escalate_overdue_alerts : ℕ → Alerts → Alerts × ℕ
  escalate_overdue_alerts now s =
      escalate_rows now (filter (λ row. is_open_status row.status) s.rows) s

-- Both look the row up, change it and save it.
update_row : ℕ → (AdminAlert → AdminAlert) → Alerts → Alerts × Result AlertError AdminAlert
unfolding save
update_row id change s = elim (find (λ row. row.id == id) s.rows) [
  | none ↦ (s, err (not_found id))
  | some row ↦ (record s { rows = save (change row) s.rows }, ok (change row))
]

pub acknowledge :
    (now id : ℕ) → (admin_id : Option ℕ) → Alerts → Alerts × Result AlertError AdminAlert
unfolding update_row
acknowledge now id admin_id = update_row id (λ row. record row {
  status = acknowledged;
  acknowledged_at = some now;
  acknowledged_by = admin_id;
})

pub resolve : (now id : ℕ) → (admin_id : Option ℕ) → Alerts → Alerts × Result AlertError AdminAlert
unfolding update_row
resolve now id admin_id =
    update_row id
      (λ row. record row { status = resolved; resolved_at = some now; resolved_by = admin_id })

-- `counts[alert.type] = (counts[alert.type] ?? 0) + 1`, with the record as a function.
abbrev pub bump : AdminAlertType → (AdminAlertType → Option ℕ) → AdminAlertType → Option ℕ
bump type counts other =
    if same_type type other then some (get_number_env (counts other) 0 + 1) else counts other

pub count_types : List AdminAlert → (AdminAlertType → Option ℕ) → AdminAlertType → Option ℕ
count_types [] counts = counts
count_types (row ∷ rows) counts = count_types rows (bump row.alert_type counts)

pub count_open_alerts_by_type : Alerts → AdminAlertType → Option ℕ
unfolding count_types
count_open_alerts_by_type s =
    count_types (filter (λ row. is_open_status row.status) s.rows) (λ _. none)

-- ===== src/Alerts/Open.antt =====
-- The open alerts of src/alerts/admin-alert.service.ts: the escalation and the count by type.
use mathlib.Core.List.{append_assoc, append-nil}
use dupdap_backend.Base.{
  ℕ, ◌+◌, ◌≡◌, refl, sym, ◌∙◌, Bool, ◌&&◌, List, [], ◌∷◌, ◌++◌, Option, none, some, arith, filter,
  length, count, if◌then◌else◌, Bool-cases, inl, inr, ◌==◌,
}
use dupdap_backend.Alerts.{
  AdminAlertType, AdminAlert, AlertConfig, Message, Alerts, is_open_status, same_type, save, bump,
  messages_of, notify, is_overdue, escalate_rows, escalate_overdue_alerts, count_types,
  count_open_alerts_by_type, get_number_env,
}

module _ (config : AlertConfig) where
  -- The messages of one reminder for each of these rows.
  abbrev pub reminders : ℕ → List AdminAlert → List Message
  reminders now [] = []
  reminders now (row ∷ rows) =
      messages_of config (record row { last_notified_at = some now }) ++ reminders now rows

  abbrev pub overdue_rows : ℕ → List AdminAlert → List AdminAlert
  overdue_rows now rows = filter (λ row. is_overdue config row now) rows

  escalate_rows_lem :
      (now : ℕ) (rows : List AdminAlert) (s : Alerts)
      → let (s', escalated) = escalate_rows config now rows s in
        (escalated ≡ length (overdue_rows now rows))
        × (s'.messages ≡ s.messages ++ reminders now (overdue_rows now rows))
  unfolding escalate_rows notify
  escalate_rows_lem now [] s = (refl, sym (append-nil s.messages))
  escalate_rows_lem now (row ∷ rows) s =
      let row' = record row { last_notified_at = some now } in
      let s' = notify config row' (record s { rows = save row' s.rows }) in
      elim (Bool-cases (is_overdue config row now)) [
        | inl late ↦
            let (n, sent) = escalate_rows_lem now rows s' in
            rw late (omega (arith, n), sent ∙ append_assoc s.messages (messages_of config row') _)
        | inr early ↦
            let (n, sent) = escalate_rows_lem now rows s in rw early (omega (arith, n), sent)
      ]

  overdue_rows-open :
      (now : ℕ) (rows : List AdminAlert)
      → overdue_rows now (filter (λ row. is_open_status row.status) rows) ≡ overdue_rows now rows
  unfolding is_overdue
  overdue_rows-open now [] = refl
  overdue_rows-open now (row ∷ rows) = ground (arith, overdue_rows-open now rows)

  -- The escalation sends one reminder for each overdue alert of the table, in order, and nothing else,
  -- and returns their number.
  escalate_overdue_alerts_lem :
      (now : ℕ) (s : Alerts)
      → let (s', escalated) = escalate_overdue_alerts config now s in
        let late = overdue_rows now s.rows in
        (escalated ≡ length late) × (s'.messages ≡ s.messages ++ reminders now late)
  unfolding escalate_overdue_alerts
  escalate_overdue_alerts_lem now s =
      rw (sym (overdue_rows-open now s.rows))
        (escalate_rows_lem now (filter (λ row. is_open_status row.status) s.rows) s)

-- The open alerts of a type.
abbrev pub is_open_of : AdminAlertType → AdminAlert → Bool
is_open_of type row = is_open_status row.status && same_type row.alert_type type

-- How often a type occurs, on top of a count that is there already.
abbrev pub as_count : Option ℕ → ℕ → Option ℕ
as_count start n = if n == 0 then start else some (get_number_env start 0 + n)

count_types_lem :
    (rows : List AdminAlert) (counts : AdminAlertType → Option ℕ) (type : AdminAlertType)
    → count_types (filter (λ row. is_open_status row.status) rows) counts type
      ≡ as_count (counts type) (count (is_open_of type) rows)
unfolding count_types
count_types_lem [] counts type = refl
count_types_lem (row ∷ rows) counts type = elim (Bool-cases (is_open_status row.status)) [
  | inr closed ↦ rw closed (ground (arith, count_types_lem rows counts type))
  | inl opened ↦ rw opened (ground (arith, count_types_lem rows (bump row.alert_type counts) type))
]

-- The count by type has an entry for exactly the types that have open alerts, and the entry is their
-- number.
count_open_alerts_by_type_lem :
    (s : Alerts) (type : AdminAlertType)
    → let n = count (is_open_of type) s.rows in
      count_open_alerts_by_type s type ≡ (if n == 0 then none else some n)
unfolding count_open_alerts_by_type
count_open_alerts_by_type_lem s type = ground (arith, count_types_lem s.rows (λ _. none) type)

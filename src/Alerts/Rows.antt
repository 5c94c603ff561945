-- ===== src/Alerts/Rows.antt =====
-- The rows of src/alerts/admin-alert.service.ts and what their status says.
use dupdap_backend.Base.{
  ℕ, ◌≤◌, ◌≡◌, ◌≢◌, refl, List, [], ◌∷◌, Option, none, some, arith, find, find-All, All-filter, All,
  All-append, ◌==◌, Bool-cases, Option-cases, inl, inr,
}
use dupdap_backend.Alerts.{
  AdminAlertStatus, open_, acknowledged, resolved, AdminAlert, RaiseAlertInput, AlertConfig, Alerts,
  matches, save, notify, counted_again, reopened, created, raise, is_overdue, escalate_rows,
  escalate_overdue_alerts, update_row, acknowledge, resolve,
}

-- An open row waits for an acknowledgement; the other states have their time.
abbrev pub IsConsistent : AdminAlertStatus → AdminAlert → Type 0
IsConsistent open_ row = (row.acknowledged_at ≡ none) × (1 ≤ row.occurrence_count)
IsConsistent acknowledged row = (row.acknowledged_at ≢ none) × (1 ≤ row.occurrence_count)
IsConsistent resolved row = (row.resolved_at ≢ none) × (1 ≤ row.occurrence_count)

abbrev pub IsTrue : AdminAlert → Type 0
IsTrue row = IsConsistent row.status row

save-IsTrue :
    (row : AdminAlert) (rows : List AdminAlert)
    → IsTrue row
    → All IsTrue rows
    → All IsTrue (save row rows)
unfolding save
save-IsTrue row [] t h = tt
save-IsTrue row (x ∷ xs) t h = elim (Bool-cases (x.id == row.id)) [
  | inl same ↦ (rw same t, save-IsTrue row xs t h.1)
  | inr other ↦ (rw other h.0, save-IsTrue row xs t h.1)
]

update_row-IsTrue :
    (id : ℕ) (change : AdminAlert → AdminAlert) (s : Alerts)
    → ((row : AdminAlert) → IsTrue row → IsTrue (change row))
    → All IsTrue s.rows
    → All IsTrue (update_row id change s).0.rows
unfolding update_row
update_row-IsTrue id change s keeps h = elim (Option-cases (find (λ row. row.id == id) s.rows)) [
  | inl missing ↦ rw (missing, update_row) h
  | inr (row, found) ↦
      rw (found, update_row)
        (save-IsTrue (change row) s.rows (keeps row (find-All IsTrue _ s.rows h found)) h)
]

counted-IsConsistent :
    (config : AlertConfig) (x : AdminAlertStatus) (input : RaiseAlertInput) (row : AdminAlert)
    → IsConsistent x row
    → IsConsistent x (counted_again config input row)
counted-IsConsistent config open_ input row h = (h.0, omega arith)
counted-IsConsistent config acknowledged input row h = (h.0, omega arith)
counted-IsConsistent config resolved input row h = (h.0, omega arith)

told-IsConsistent :
    (x : AdminAlertStatus) (now : ℕ) (row : AdminAlert)
    → IsConsistent x row
    → IsConsistent x (record row { last_notified_at = some now })
told-IsConsistent open_ now row h = h
told-IsConsistent acknowledged now row h = h
told-IsConsistent resolved now row h = h

IsConsistent-counted :
    (x : AdminAlertStatus) (row : AdminAlert) → IsConsistent x row → 1 ≤ row.occurrence_count
IsConsistent-counted open_ row h = h.1
IsConsistent-counted acknowledged row h = h.1
IsConsistent-counted resolved row h = h.1

module _ (config : AlertConfig) where
  raise-IsTrue :
      (fresh now : ℕ) (input : RaiseAlertInput) (s : Alerts)
      → All IsTrue s.rows
      → All IsTrue (raise config fresh now input s).0.rows
  unfolding raise notify
  raise-IsTrue fresh now input s h =
      let p = matches input.alert_type input.dedupe_key in
      elim (Option-cases (find p s.rows)) [
        | inl missing ↦ rw missing (
            ground (
              arith,
              All-append IsTrue s.rows (created config fresh now input ∷ []) h
                  ((refl, omega arith), tt),
            ))
        | inr (row, found) ↦
            let again = counted_again config input row in
            let t =
              counted-IsConsistent config row.status input row (find-All IsTrue p s.rows h found) in
            rw found (
              ground (
                arith,
                save-IsTrue again s.rows t h,
                save-IsTrue (reopened config now again) s.rows (refl, omega arith) h,
              ))
      ]

  escalate_rows-IsTrue :
      (now : ℕ) (rows : List AdminAlert) (s : Alerts)
      → All IsTrue rows
      → All IsTrue s.rows
      → All IsTrue (escalate_rows config now rows s).0.rows
  unfolding escalate_rows notify
  escalate_rows-IsTrue now [] s t h = h
  escalate_rows-IsTrue now (row ∷ rows) s t h =
      let row' = record row { last_notified_at = some now } in
      let s' = notify config row' (record s { rows = save row' s.rows }) in
      elim (Bool-cases (is_overdue config row now)) [
        | inl late ↦ rw late (
            escalate_rows-IsTrue now rows s' t.1
              (save-IsTrue row' s.rows (told-IsConsistent row.status now row t.0) h))
        | inr early ↦ rw early (escalate_rows-IsTrue now rows s t.1 h)
      ]

  -- One call of the service.
  pub data Step (s : Alerts) : Alerts → Type 0 where
    raises : (fresh now : ℕ) (input : RaiseAlertInput) → Step s (raise config fresh now input s).0
    acknowledges : (now id : ℕ) (admin_id : Option ℕ) → Step s (acknowledge now id admin_id s).0
    resolves : (now id : ℕ) (admin_id : Option ℕ) → Step s (resolve now id admin_id s).0
    escalates : (now : ℕ) → Step s (escalate_overdue_alerts config now s).0

  pub data Reach : Alerts → Type 0 where
    here : Reach (record { rows = []; messages = [] })
    next : {s s' : Alerts} → Reach s → Step s s' → Reach s'

  Step-IsTrue : {s s' : Alerts} → Step s s' → All IsTrue s.rows → All IsTrue s'.rows
  unfolding acknowledge resolve escalate_overdue_alerts
  Step-IsTrue {s} (raises fresh now input) h = raise-IsTrue fresh now input s h
  Step-IsTrue {s} (acknowledges now id admin_id) h =
      update_row-IsTrue id _ s (λ row t. (λ e. cc, IsConsistent-counted row.status row t)) h
  Step-IsTrue {s} (resolves now id admin_id) h =
      update_row-IsTrue id _ s (λ row t. (λ e. cc, IsConsistent-counted row.status row t)) h
  Step-IsTrue {s} (escalates now) h = escalate_rows-IsTrue now _ s (All-filter IsTrue _ s.rows h) h

  -- Every row that calls of the service lead to is consistent: an open one is not acknowledged, an
  -- acknowledged or resolved one has the time of that, and each counts at least one occurrence.
  Reach-IsTrue : {s : Alerts} → Reach s → All IsTrue s.rows
  Reach-IsTrue here = tt
  Reach-IsTrue (next r st) = Step-IsTrue st (Reach-IsTrue r)

-- ===== src/Alerts/Cooldown.antt =====
-- Alerts that src/alerts/admin-alert.service.ts gets repeatedly.
use dupdap_backend.Base.{
  ℕ, ◌+◌, ◌<◌, ◌≡◌, refl, Bool, true, false, List, [], ◌∷◌, none, some, arith, find, find-passes,
  count, All, if◌then◌else◌, Bool-cases, inl, inr,
}
use dupdap_backend.Alerts.{
  AdminAlertType, AdminAlert, RaiseAlertInput, AlertConfig, Alerts, matches, save, meets_threshold,
  cooldown_ms, is_cooling_down, counted_again, raise,
}

-- A saved row is found where the row that it replaces was.
find-save :
    (p : AdminAlert → Bool) (row : AdminAlert) (rows : List AdminAlert) {old : AdminAlert}
    → find p rows ≡ some old
    → row.id ≡ old.id
    → p row ≡ true
    → find p (save row rows) ≡ some row
unfolding save
find-save p row [] found same passes = cc
find-save p row (x ∷ xs) {old} found same passes = ground (arith, find-save p row xs {old = old})

module _ (config : AlertConfig) where
  -- A call of `raise`: the id for a new row, the time, and the input.
  pub record Raising : Type 0 where
    pub fresh : ℕ
    pub now : ℕ
    pub input : RaiseAlertInput

  pub raise_each : List Raising → Alerts → Alerts
  raise_each [] s = s
  raise_each (c ∷ cs) s = raise_each cs (raise config c.fresh c.now c.input s).0

  abbrev pub is_counted : Raising → Bool
  is_counted c = meets_threshold config c.input.alert_type c.input.threshold_value

  raise_repeat :
      (c : Raising) (s : Alerts) {row : AdminAlert} {notified : ℕ}
      → find (matches c.input.alert_type c.input.dedupe_key) s.rows ≡ some row
      → row.last_notified_at ≡ some notified
      → c.now < notified + cooldown_ms config
      → is_counted c ≡ true
      → let row' = counted_again config c.input row in
        raise config c.fresh c.now c.input s ≡ (record s { rows = save row' s.rows }, some row')
  unfolding raise is_cooling_down
  raise_repeat c s found told soon counted = rw (counted, found, told) (ground arith)

  raise_ignored :
      (c : Raising) (s : Alerts)
      → is_counted c ≡ false
      → raise config c.fresh c.now c.input s ≡ (s, none)
  unfolding raise
  raise_ignored c s ignored = rw ignored refl

  module _ (type : AdminAlertType) (key notified : ℕ) where
    -- The same alert again, before the cooldown is over.
    abbrev pub IsRepeat : Raising → Type 0
    IsRepeat c =
        (c.input.alert_type ≡ type)
        × (c.input.dedupe_key ≡ key)
        × (c.now < notified + cooldown_ms config)

    -- The state holds the alert, notified at that time, with this many occurrences.
    abbrev pub Holds : AdminAlert → ℕ → Alerts → Type 0
    Holds first n s =
        (row : AdminAlert) × (find (matches type key) s.rows ≡ some row)
        × (row.last_notified_at ≡ some notified)
        × (row.status ≡ first.status)
        × (row.occurrence_count ≡ n)

    raise_once :
        (first : AdminAlert) (c : Raising) (n : ℕ) (s : Alerts)
        → IsRepeat c
        → Holds first n s
        → let s' = (raise config c.fresh c.now c.input s).0 in
          (s'.messages ≡ s.messages) × Holds first (n + (if is_counted c then 1 else 0)) s'
    raise_once first c n s (t, k, soon) (row, found, told, stays, many) =
        let here_ : find (matches c.input.alert_type c.input.dedupe_key) s.rows ≡ some row =
          rw (t, k) found in
        let row' = counted_again config c.input row in
        let stored =
          find-save (matches type key) row' s.rows {old = row} found refl
            (find-passes (matches type key) s.rows found) in
        elim (Bool-cases (is_counted c)) [
          | inl counted ↦
              rw
                (
                  raise_repeat c s {row = row} {notified = notified} here_ told soon counted,
                  counted,
                )
                (refl, (row', stored, told, stays, omega arith))
          | inr ignored ↦
              rw (raise_ignored c s ignored, ignored) (refl, (row, found, told, stays, omega arith))
        ]

    -- While the cooldown of an alert lasts, raising it again sends no message and leaves its status,
    -- and every occurrence that meets the threshold is counted.
    pub raise_each_quiet :
        (first : AdminAlert) (cs : List Raising) (n : ℕ) (s : Alerts)
        → All IsRepeat cs
        → Holds first n s
        → let s' = raise_each cs s in
          (s'.messages ≡ s.messages) × Holds first (n + count is_counted cs) s'
    unfolding raise_each
    raise_each_quiet first [] n s repeats h = (refl, ground (arith, h))
    raise_each_quiet first (c ∷ cs) n s repeats h =
        let (quiet, more) = raise_once first c n s repeats.0 h in
        let (rest, all_) =
          raise_each_quiet first cs (n + (if is_counted c then 1 else 0))
            (raise config c.fresh c.now c.input s).0 repeats.1 more in
        (rw (rest, quiet), ground (arith, all_))

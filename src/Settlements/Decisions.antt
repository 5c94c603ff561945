-- ===== src/Settlements/Decisions.antt =====
-- Which settlements can be decided, and what a rejection does to the payments
-- (src/settlements/settlements.service.ts).
use dupdap_backend.Base.{
  ℕ, ◌≡◌, refl, sym, ◌∙◌, ◌↔◌, inl, inr, true, List, [], ◌∷◌, some, ok, is_ok, lookup, insert,
  lookup-insert, any, ◌==◌, arith, Option-cases, Result-cases, if◌then◌else◌,
}
use dupdap_backend.Settlements.{
  Settlement, Settlements, SettlementConfig, Decision, rejected, AuditEntry, failed_payment, failed,
  require_decidable, save_settlement, write_audit_log, notify_settlement_decision, as_rejected,
  approve_settlement, fail_payments, reject_settlement, is_pending_approval,
}

-- A settlement that waits for a decision.
abbrev pub Waits : ℕ → Settlements → Type 0
Waits id s =
    (row : Settlement) × (lookup id s.settlements ≡ some row)
    × (is_pending_approval row.status ≡ true)
    × (row.requires_approval ≡ true)

require_decidable_iff :
    (id : ℕ) (s : Settlements) → (is_ok (require_decidable id s) ≡ true) ↔ Waits id s
unfolding require_decidable
require_decidable_iff id s = elim (Option-cases (lookup id s.settlements)) [
  | inl missing ↦ (λ h. cc (rw (missing, require_decidable) at h), λ w. cc)
  | inr (row, found) ↦
      (λ h. (row, found, ground arith, ground arith), λ (other, same, waits, needs). ground arith)
]

module _ (config : SettlementConfig) (id admin now : ℕ) (s : Settlements) where
  approve_settlement-is_ok :
      is_ok (approve_settlement config id admin now s).1 ≡ is_ok (require_decidable id s)
  unfolding approve_settlement
  approve_settlement-is_ok = elim (Result-cases (require_decidable id s)) [
    | inl (row, checked) ↦ rw (checked, approve_settlement) refl
    | inr (e, refused) ↦ rw (refused, approve_settlement) refl
  ]

  reject_settlement-is_ok :
      is_ok (reject_settlement config id admin now s).1 ≡ is_ok (require_decidable id s)
  unfolding reject_settlement
  reject_settlement-is_ok = elim (Result-cases (require_decidable id s)) [
    | inl (row, checked) ↦ rw (checked, reject_settlement) refl
    | inr (e, refused) ↦ rw (refused, reject_settlement) refl
  ]

  -- A settlement can be approved exactly when it is stored, pending approval and in need of one, and
  -- exactly then it can be rejected.
  decide_iff :
      ((is_ok (approve_settlement config id admin now s).1 ≡ true) ↔ Waits id s)
      × ((is_ok (reject_settlement config id admin now s).1 ≡ true) ↔ Waits id s)
  decide_iff = (
    rw approve_settlement-is_ok (require_decidable_iff id s),
    rw reject_settlement-is_ok (require_decidable_iff id s),
  )

fail_payments-lookup :
    (p : ℕ) (ids : List ℕ) (s : Settlements)
    → lookup p (fail_payments ids s).payments
      ≡ (if any (λ i. i == p) ids then some failed_payment else lookup p s.payments)
unfolding fail_payments
fail_payments-lookup p [] s = refl
fail_payments-lookup p (i ∷ ids) s =
    let s' = record s { payments = insert i failed_payment s.payments } in
    ground (arith, fail_payments-lookup p ids s', lookup-insert i p failed_payment s.payments)

module _ (config : SettlementConfig) where
  write_audit_log-payments :
      (entry : AuditEntry) (s : Settlements)
      → (write_audit_log config entry s).payments ≡ s.payments
  unfolding write_audit_log
  write_audit_log-payments entry s = ground arith

  notify-payments :
      (id : ℕ) (row : Settlement) (d : Decision) (admin : ℕ) (s : Settlements)
      → (notify_settlement_decision config id row d admin s).payments ≡ s.payments
  unfolding notify_settlement_decision
  notify-payments id row d admin s = ground arith

  -- A rejection that succeeds fails every payment of the settlement, and no other payment.
  reject_settlement-payments :
      (id admin now p : ℕ) (s : Settlements) {row : Settlement}
      → (reject_settlement config id admin now s).1 ≡ ok row
      → lookup p (reject_settlement config id admin now s).0.payments
        ≡ (if any (λ i. i == p) row.payments then some failed_payment else lookup p s.payments)
  unfolding reject_settlement save_settlement
  reject_settlement-payments id admin now p s {row} h =
      elim (Result-cases (require_decidable id s)) [
        | inr (e, refused) ↦ cc (rw (refused, reject_settlement) at h)
        | inl (found, checked) ↦
            let failed_row = as_rejected config admin now found in
            let saved = save_settlement id failed_row s in
            let entry : AuditEntry = record {
              actor = admin;
              action = rejected;
              settlement_id = id;
              status_after = failed;
            } in
            let logged = write_audit_log config entry saved in
            let swept = fail_payments found.payments logged in
            let same : failed_row ≡ row = cc (rw (checked, reject_settlement) at h) in
            let told = notify-payments id failed_row rejected admin swept in
            let kept = write_audit_log-payments entry saved in
            rw (checked, reject_settlement, sym same)
              (rw told (fail_payments-lookup p found.payments logged ∙ rw kept refl))
      ]

-- ===== src/Settlements/Dispatch.antt =====
-- The dispatch jobs of src/settlements/settlements.service.ts.
use dupdap_backend.Base.{
  ℕ, ◌+◌, ◌≤◌, ◌≡◌, refl, ◌∙◌, ◌⊎◌, inl, inr, Bool, true, List, [], ◌∷◌, ◌++◌, Option, none, some,
  ok, lookup, insert, lookup-insert, count, count-append, ◌==◌, arith, Option-cases, Result-cases,
}
use dupdap_backend.Settlements.{
  Settlement, SettlementStatus, processing, completed, failed, Settlements, SettlementConfig,
  Decision, approved, rejected, DispatchJob, AuditEntry, require_decidable, save_settlement,
  write_audit_log, notify_settlement_decision, as_approved, as_rejected, dispatch,
  approve_settlement, fail_payments, reject_settlement, is_pending_approval, failed_payment,
}

abbrev pub is_job_of : ℕ → DispatchJob → Bool
is_job_of id job = job.settlement_id == id

-- How many dispatches a settlement may have had, by its status.
abbrev pub allowance : SettlementStatus → ℕ
allowance processing = 1
allowance completed = 1
allowance _ = 0

abbrev pub allowed : Option Settlement → ℕ
allowed none = 0
allowed (some settlement) = allowance settlement.status

abbrev pub IsWithin : ℕ → Settlements → Type 0
IsWithin id s = count (is_job_of id) s.queue ≤ allowed (lookup id s.settlements)

-- The tables that the rest of a decision leaves alone.
abbrev Keeps : Settlements → Settlements → Type 0
Keeps s s' = (s'.queue ≡ s.queue) × (s'.settlements ≡ s.settlements)

fail_payments-Keeps : (ids : List ℕ) (s : Settlements) → Keeps s (fail_payments ids s)
unfolding fail_payments
fail_payments-Keeps [] s = (refl, refl)
fail_payments-Keeps (i ∷ ids) s =
    fail_payments-Keeps ids (record s { payments = insert i failed_payment s.payments })

require_decidable-lookup :
    (id : ℕ) (s : Settlements) {settlement : Settlement}
    → require_decidable id s ≡ ok settlement
    → (lookup id s.settlements ≡ some settlement)
      × (is_pending_approval settlement.status ≡ true)
      × (settlement.requires_approval ≡ true)
unfolding require_decidable
require_decidable-lookup id s {settlement} h = elim (Option-cases (lookup id s.settlements)) [
  | inl missing ↦ cc (rw (missing, require_decidable) at h)
  | inr (row, found) ↦ ground arith
]

module _ (config : SettlementConfig) where
  notify-Keeps :
      (id : ℕ) (settlement : Settlement) (decision : Decision) (admin : ℕ) (s : Settlements)
      → Keeps s (notify_settlement_decision config id settlement decision admin s)
  unfolding notify_settlement_decision
  notify-Keeps id settlement decision admin s = (ground arith, ground arith)

  write_audit_log-Keeps :
      (entry : AuditEntry) (s : Settlements) → Keeps s (write_audit_log config entry s)
  unfolding write_audit_log
  write_audit_log-Keeps entry s = (ground arith, ground arith)

  -- An approval changes nothing, or it moves a settlement that waits for it on and dispatches it.
  Approves : ℕ → (admin now : ℕ) → Settlements → Settlements → Type 0
  Approves id admin now s s' =
      (settlement : Settlement) × (require_decidable id s ≡ ok settlement)
      × (s'.queue
          ≡ s.queue ++ record { settlement_id = id; attempts = config.max_attempts + 1 } ∷ [])
      × (s'.settlements ≡ insert id (as_approved config admin now settlement) s.settlements)

  approve_settlement-cases :
      (id admin now : ℕ) (s : Settlements)
      → let s' = (approve_settlement config id admin now s).0 in
        (s' ≡ s) ⊎ Approves id admin now s s'
  unfolding approve_settlement save_settlement dispatch Approves
  approve_settlement-cases id admin now s = elim (Result-cases (require_decidable id s)) [
    | inr (e, refused) ↦ inl (rw (refused, approve_settlement) refl)
    | inl (settlement, checked) ↦
        let row = as_approved config admin now settlement in
        let entry : AuditEntry = record {
          actor = admin;
          action = approved;
          settlement_id = id;
          status_after = processing;
        } in
        let saved = save_settlement id row s in
        let logged = write_audit_log config entry saved in
        let (q1, r1) = write_audit_log-Keeps entry saved in
        let (q2, r2) = notify-Keeps id row approved admin (dispatch config id logged) in
        inr (
          settlement,
          checked,
          rw (checked, approve_settlement) (q2 ∙ rw q1),
          rw (checked, approve_settlement) (r2 ∙ r1),
        )
  ]

  -- A rejection changes nothing, or it fails a settlement that waits for it.
  Rejects : ℕ → (admin now : ℕ) → Settlements → Settlements → Type 0
  Rejects id admin now s s' =
      (settlement : Settlement) × (require_decidable id s ≡ ok settlement)
      × (s'.queue ≡ s.queue)
      × (s'.settlements ≡ insert id (as_rejected config admin now settlement) s.settlements)

  reject_settlement-cases :
      (id admin now : ℕ) (s : Settlements)
      → let s' = (reject_settlement config id admin now s).0 in (s' ≡ s) ⊎ Rejects id admin now s s'
  unfolding reject_settlement save_settlement Rejects
  reject_settlement-cases id admin now s = elim (Result-cases (require_decidable id s)) [
    | inr (e, refused) ↦ inl (rw (refused, reject_settlement) refl)
    | inl (settlement, checked) ↦
        let row = as_rejected config admin now settlement in
        let entry : AuditEntry = record {
          actor = admin;
          action = rejected;
          settlement_id = id;
          status_after = failed;
        } in
        let saved = save_settlement id row s in
        let logged = write_audit_log config entry saved in
        let (q1, r1) = write_audit_log-Keeps entry saved in
        let (q2, r2) = fail_payments-Keeps settlement.payments logged in
        let (q3, r3) =
          notify-Keeps id row rejected admin (fail_payments settlement.payments logged) in
        inr (
          settlement,
          checked,
          rw (checked, reject_settlement) (q3 ∙ q2 ∙ q1),
          rw (checked, reject_settlement) (r3 ∙ r2 ∙ r1),
        )
  ]

  -- One decision on any settlement, by anyone.
  pub data Step (s : Settlements) : Settlements → Type 0 where
    approves : (id admin now : ℕ) → Step s (approve_settlement config id admin now s).0
    rejects : (id admin now : ℕ) → Step s (reject_settlement config id admin now s).0

  pub data Reach (s : Settlements) : Settlements → Type 0 where
    here : Reach s s
    next : {t u : Settlements} → Reach s t → Step t u → Reach s u

  Step-IsWithin : (i : ℕ) {s t : Settlements} → Step s t → IsWithin i s → IsWithin i t
  unfolding Approves Rejects
  Step-IsWithin i {s} (approves id admin now) h = elim (approve_settlement-cases id admin now s) [
    | inl same ↦ rw same h
    | inr (settlement, checked, q, r) ↦
        let (found, waits, _) = require_decidable-lookup id s {settlement = settlement} checked in
        let row = as_approved config admin now settlement in
        let job : DispatchJob = record { settlement_id = id; attempts = config.max_attempts + 1 } in
        rw (q, r)
          (ground (
            arith,
            lookup-insert id i row s.settlements,
            count-append (is_job_of i) s.queue (job ∷ []),
          ))
  ]
  Step-IsWithin i {s} (rejects id admin now) h = elim (reject_settlement-cases id admin now s) [
    | inl same ↦ rw same h
    | inr (settlement, checked, q, r) ↦
        let (found, waits, _) = require_decidable-lookup id s {settlement = settlement} checked in
        let row = as_rejected config admin now settlement in
        rw (q, r) (ground (arith, lookup-insert id i row s.settlements))
  ]

  -- Whatever decisions follow one another, from a table in which the jobs of a settlement are
  -- within what its status allows (one once it is processing or completed, none before and none
  -- when it has failed): they stay so, so that a settlement is dispatched at most once, and not at
  -- all while it waits or after it has been rejected.
  pub Reach-IsWithin : (i : ℕ) {s t : Settlements} → Reach s t → IsWithin i s → IsWithin i t
  Reach-IsWithin i here h = h
  Reach-IsWithin i (next r st) h = Step-IsWithin i st (Reach-IsWithin i r h)

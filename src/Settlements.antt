-- ===== src/Settlements.antt =====
-- The approval workflow of src/settlements/settlements.service.ts. Each method runs as a whole. The clock,
-- the setting for the number of attempts, whether there is an audit log, and the preference that the
-- notification service finds are arguments. The paged listing is a query and is left out.
pub mod Fees
pub mod Dispatch
pub mod Decisions
use Prim.Native.String.{String}
use dupdap_backend.Base.{
  ℕ, ◌+◌, Bool, true, false, not, List, [], ◌∷◌, ◌++◌, Option, none, some, Result, ok, err, Dict,
  lookup, insert, if◌then◌else◌,
}

pub data SettlementStatus : Type 0 where
  pending pending_approval processing completed failed : SettlementStatus

-- The statuses of src/payments/entities/payment.entity.ts.
pub data StoredPaymentStatus : Type 0 where
  unconfirmed confirmed settling settled failed_payment expired refunded : StoredPaymentStatus
  partially_refunded cancelled : StoredPaymentStatus

pub record SettlementMerchant : Type 0 where
  pub id : ℕ
  pub email : Option String

pub record Settlement : Type 0 where
  pub merchant : Option SettlementMerchant
  pub payments : List ℕ
  pub total_amount_usd : String
  pub net_amount_usd : String
  pub status : SettlementStatus
  pub requires_approval : Bool
  pub approved_by : Option ℕ
  pub approved_at : Option ℕ
  pub failure_reason : Option String

pub data Decision : Type 0 where
  approved rejected : Decision

-- An entry of the audit log: the actor, the action, the settlement and its status after it.
pub record AuditEntry : Type 0 where
  pub actor : ℕ
  pub action : Decision
  pub settlement_id : ℕ
  pub status_after : SettlementStatus

pub record DispatchJob : Type 0 where
  pub settlement_id : ℕ
  pub attempts : ℕ

pub record DecisionEmail : Type 0 where
  pub recipient : String
  pub settlement_id : ℕ
  pub decision : Decision
  pub total_amount_usd : String
  pub net_amount_usd : String
  pub approved_by : ℕ
  pub reason : Option String
  pub merchant_id : ℕ

pub record Settlements : Type 0 where
  pub settlements : Dict Settlement
  pub payments : Dict StoredPaymentStatus
  pub audit_log : List AuditEntry
  pub queue : List DispatchJob
  pub emails : List DecisionEmail

pub data SettlementError : Type 0 where
  settlement_not_found not_pending_approval approval_not_required : SettlementError

-- What the service is given.
pub record SettlementConfig : Type 0 where
  pub max_attempts : ℕ
  pub has_audit_log : Bool
  -- Whether the merchant's preferences switch the email on or off, if they say so.
  pub email_preference : ℕ → Option Bool

abbrev pub is_pending_approval : SettlementStatus → Bool
is_pending_approval pending_approval = true
is_pending_approval _ = false

-- The checks that both decisions start with.
unfoldable pub require_decidable : ℕ → Settlements → Result SettlementError Settlement
require_decidable id s = elim (lookup id s.settlements) [
  | none ↦ err settlement_not_found
  | some settlement ↦
      if not (is_pending_approval settlement.status)
      then err not_pending_approval
      else if not settlement.requires_approval
      then err approval_not_required
      else ok settlement
]

-- `this.settlementsRepo.save`
pub save_settlement : ℕ → Settlement → Settlements → Settlements
save_settlement id settlement s = record s { settlements = insert id settlement s.settlements }

-- The loop over the payments of a rejected settlement, whose rows exist.
pub fail_payments : List ℕ → Settlements → Settlements
fail_payments [] s = s
fail_payments (payment ∷ rest) s =
    fail_payments rest (record s { payments = insert payment failed_payment s.payments })

abbrev rejection_reason : String
rejection_reason = "Rejected by administrator"

module _ (config : SettlementConfig) where
  pub write_audit_log : AuditEntry → Settlements → Settlements
  write_audit_log entry s =
      if config.has_audit_log then record s { audit_log = s.audit_log ++ entry ∷ [] } else s

  abbrev preferred : Option Bool → Bool
  preferred none = true
  preferred (some enabled) = enabled

  -- `notifySettlementDecision`
  pub notify_settlement_decision :
      ℕ → Settlement → Decision → (admin : ℕ) → Settlements → Settlements
  notify_settlement_decision id settlement decision admin s = elim settlement.merchant [
    | none ↦ s
    | some merchant ↦
        if not (preferred (config.email_preference merchant.id)) then s else elim merchant.email [
          | none ↦ s
          | some address ↦
              let mail : DecisionEmail = record {
                recipient = address;
                settlement_id = id;
                decision = decision;
                total_amount_usd = settlement.total_amount_usd;
                net_amount_usd = settlement.net_amount_usd;
                approved_by = admin;
                reason = elim decision [ approved ↦ none | rejected ↦ settlement.failure_reason ];
                merchant_id = merchant.id;
              } in
              record s { emails = s.emails ++ mail ∷ [] }
        ]
  ]

  abbrev pub as_approved : (admin now : ℕ) → Settlement → Settlement
  as_approved admin now settlement = record settlement {
    status = processing;
    approved_by = some admin;
    approved_at = some now;
  }

  abbrev pub as_rejected : (admin now : ℕ) → Settlement → Settlement
  as_rejected admin now settlement = record settlement {
    status = failed;
    approved_by = some admin;
    approved_at = some now;
    failure_reason = some rejection_reason;
  }

  -- The queue's `add`.
  pub dispatch : ℕ → Settlements → Settlements
  dispatch id s = record s {
    queue = s.queue ++ record { settlement_id = id; attempts = config.max_attempts + 1 } ∷ [];
  }

  pub approve_settlement :
      (id admin now : ℕ) → Settlements → Settlements × Result SettlementError Settlement
  approve_settlement id admin now s = elim (require_decidable id s) [
    | err e ↦ (s, err e)
    | ok settlement ↦
        let settlement' = as_approved admin now settlement in
        let entry : AuditEntry = record {
          actor = admin;
          action = approved;
          settlement_id = id;
          status_after = settlement'.status;
        } in
        let s1 = write_audit_log entry (save_settlement id settlement' s) in
        (notify_settlement_decision id settlement' approved admin (dispatch id s1), ok settlement')
  ]

  unfoldable pub reject_settlement :
      (id admin now : ℕ) → Settlements → Settlements × Result SettlementError Settlement
  reject_settlement id admin now s = elim (require_decidable id s) [
    | err e ↦ (s, err e)
    | ok settlement ↦
        let settlement' = as_rejected admin now settlement in
        let entry : AuditEntry = record {
          actor = admin;
          action = rejected;
          settlement_id = id;
          status_after = settlement'.status;
        } in
        let s1 = write_audit_log entry (save_settlement id settlement' s) in
        let s2 = fail_payments settlement.payments s1 in
        (notify_settlement_decision id settlement' rejected admin s2, ok settlement')
  ]

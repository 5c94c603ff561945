-- ===== src/Disputes.antt =====
-- src/payments/disputes.service.ts. Times are milliseconds. The id of a new row, the test for a blank text
-- and the SLA from the environment are arguments. Emails are compared in lower case, so they are kept
-- in lower case. The alerts and the settlements that are to go on are kept as they are asked for.
pub mod Single
use Prim.Native.String.{String}
use dupdap_backend.Base.{
  ℕ, ◌+◌, ◌*◌, Bool, true, false, not, ◌&&◌, ◌||◌, leb, ◌==◌, List, [], ◌∷◌, ◌++◌, Option, none,
  some, Result, ok, err, Dict, lookup, insert, filter, find, any, length, if◌then◌else◌,
}

pub data DisputeStatus : Type 0 where
  open_ under_review resolved escalated : DisputeStatus

pub data Raiser : Type 0 where
  by_merchant by_customer : ℕ → Raiser

pub record PaymentDispute : Type 0 where
  pub payment_id : ℕ
  pub merchant_id : ℕ
  pub raised_by : Raiser
  pub reason : String
  pub status : DisputeStatus
  pub sla_deadline : ℕ
  pub resolution : Option String
  pub reviewed_by : Option ℕ
  pub resolved_at : Option ℕ

-- The columns of a payment that the service reads.
pub record DisputedPayment : Type 0 where
  pub merchant_id : ℕ
  pub customer_email : Option ℕ

pub record Disputes : Type 0 where
  pub disputes : Dict PaymentDispute
  pub payments : Dict DisputedPayment
  pub alerts : List ℕ
  pub resumed : List ℕ

pub data DisputeError : Type 0 where
  reason_required payment_not_found already_open dispute_not_found : DisputeError

abbrev pub is_open : DisputeStatus → Bool
is_open open_ = true
is_open _ = false

abbrev pub is_active : DisputeStatus → Bool
is_active resolved = false
is_active _ = true

abbrev pub is_open_for : ℕ → ℕ × PaymentDispute → Bool
is_open_for payment e = e.1.payment_id == payment && is_open e.1.status

abbrev pub hour_ms : ℕ
hour_ms = 3600000

-- `payment.customerEmail?.toLowerCase() === customerEmail.toLowerCase()`
abbrev same_email : Option ℕ → ℕ → Bool
same_email none email = false
same_email (some stored) email = stored == email

-- Who raises a dispute, if the payment is theirs: the merchant, or else the customer.
pub raiser_of : DisputedPayment → (merchant email : Option ℕ) → Option Raiser
raiser_of payment (some merchant) email =
    if payment.merchant_id == merchant then some (by_merchant merchant) else none
raiser_of payment none none = none
raiser_of payment none (some email) =
    if same_email payment.customer_email email then some (by_customer email) else none

-- The row of a new dispute.
abbrev pub new_dispute :
    (payment_id : ℕ)
    → DisputedPayment
    → Raiser
    → (reason : String) → (sla_deadline : ℕ) → PaymentDispute
new_dispute payment_id payment raiser reason sla_deadline = record {
  payment_id = payment_id;
  merchant_id = payment.merchant_id;
  raised_by = raiser;
  reason = reason;
  status = open_;
  sla_deadline = sla_deadline;
  resolution = none;
  reviewed_by = none;
  resolved_at = none;
}

pub raise :
    (blank : String → Bool)
    → (sla_hours fresh now payment_id : ℕ) → (merchant email : Option ℕ) → (reason : String)
    → Disputes
    → Disputes × Result DisputeError PaymentDispute
raise blank sla_hours fresh now payment_id merchant email reason s =
    if blank reason then (s, err reason_required) else elim (lookup payment_id s.payments) [
      | none ↦ (s, err payment_not_found)
      | some payment ↦ elim (raiser_of payment merchant email) [
        | none ↦ (s, err payment_not_found)
        | some raiser ↦ elim (find (is_open_for payment_id) s.disputes) [
          | some _ ↦ (s, err already_open)
          | none ↦
              let row = new_dispute payment_id payment raiser reason (now + sla_hours * hour_ms) in
              (record s { disputes = insert fresh row s.disputes }, ok row)
        ]
      ]
    ]

-- `queue`, before its order by deadline.
pub queue : Disputes → Dict PaymentDispute
queue s = filter (λ e. is_active e.1.status) s.disputes

-- The row as a review leaves it.
abbrev pub reviewed :
    (now admin : ℕ) → DisputeStatus → Option String → PaymentDispute → PaymentDispute
reviewed now admin status resolution row = record row {
  status = status;
  reviewed_by = some admin;
  resolution = resolution;
  resolved_at = if is_active status then row.resolved_at else some now;
}

pub review :
    (now id admin : ℕ)
    → DisputeStatus
    → Option String
    → Disputes
    → Disputes × Result DisputeError PaymentDispute
review now id admin status resolution s = elim (lookup id s.disputes) [
  | none ↦ (s, err dispute_not_found)
  | some row ↦
      let row' = reviewed now admin status resolution row in
      (
        record s {
          disputes = insert id row' s.disputes;
          resumed = if is_active status then s.resumed else s.resumed ++ row.payment_id ∷ [];
        },
        ok row',
      )
]

-- The open disputes whose deadline has passed, as the job reads them.
pub overdue : (now : ℕ) → Disputes → Dict PaymentDispute
overdue now s = filter (λ e. is_open e.1.status && leb e.1.sla_deadline now) s.disputes

-- The loop: each row that was read is saved as escalated, and an alert is raised for it.
pub escalate_each : Dict PaymentDispute → Disputes → Disputes
escalate_each [] s = s
escalate_each ((id, row) ∷ rows) s = escalate_each rows (record s {
  disputes = insert id (record row { status = escalated }) s.disputes;
  alerts = s.alerts ++ id ∷ [];
})

pub escalate_overdue : (now : ℕ) → Disputes → Disputes × ℕ
escalate_overdue now s = let rows = overdue now s in (escalate_each rows s, length rows)

pub has_active_dispute : List ℕ → Disputes → Bool
has_active_dispute payment_ids s =
    any (λ e. any (λ id. id == e.1.payment_id) payment_ids && is_active e.1.status) s.disputes

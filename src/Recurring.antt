-- ===== src/Recurring.antt =====
-- src/recurring-payments/recurring-payments.service.ts: subscriptions, their notices and their charges.
-- Times are milliseconds. The id of a new row is an argument, and so is how the calls of the other
-- services end: the notice of a subscription, and the creation of its payment. A payment that is
-- created is kept with the subscription and the cycle that it is for.
pub mod Charges
use Prim.Native.String.{String}
use dupdap_backend.Base.{
  ℕ, ◌+◌, ◌*◌, Bool, true, false, not, ◌&&◌, leb, ◌==◌, List, [], ◌∷◌, ◌++◌, Option, none, some,
  Result, ok, err, Dict, lookup, insert, filter, if◌then◌else◌,
}

abbrev pub day_ms : ℕ
day_ms = 86400000

abbrev pub notify_lead_ms : ℕ
notify_lead_ms = 86400000

pub data RecurringPaymentStatus : Type 0 where
  active cancelled : RecurringPaymentStatus

pub record RecurringPayment : Type 0 where
  pub merchant_id : ℕ
  pub amount_usd : String
  pub description : Option String
  pub interval_days : ℕ
  pub status : RecurringPaymentStatus
  pub next_charge_at : ℕ
  pub notified_for_charge_at : Option ℕ

pub record CreateRecurringPayment : Type 0 where
  pub amount_usd : String
  pub description : Option String
  pub interval_days : ℕ
  pub start_at : Option ℕ

pub record Charge : Type 0 where
  pub subscription_id : ℕ
  pub cycle : ℕ
  pub merchant_id : ℕ
  pub amount_usd : String
  pub description : Option String

pub record UpcomingEmail : Type 0 where
  pub merchant_id : ℕ
  pub subscription_id : ℕ
  pub charge_at : ℕ

pub record Billing : Type 0 where
  pub subscriptions : Dict RecurringPayment
  pub charges : List Charge
  pub emails : List UpcomingEmail

pub data RecurringError : Type 0 where
  recurring_not_found : RecurringError

abbrev pub is_active : RecurringPaymentStatus → Bool
is_active active = true
is_active cancelled = false

pub create :
    (fresh now merchant : ℕ) → CreateRecurringPayment → Billing → Billing × RecurringPayment
create fresh now merchant dto b =
    let row : RecurringPayment = record {
      merchant_id = merchant;
      amount_usd = dto.amount_usd;
      description = dto.description;
      interval_days = dto.interval_days;
      status = active;
      next_charge_at = elim dto.start_at [ none ↦ now | some start ↦ start ];
      notified_for_charge_at = none;
    } in
    (record b { subscriptions = insert fresh row b.subscriptions }, row)

-- `cancel`: the row is looked up with its merchant.
pub cancel : (id merchant : ℕ) → Billing → Billing × Result RecurringError (Unit {0})
cancel id merchant b = elim (lookup id b.subscriptions) [
  | none ↦ (b, err recurring_not_found)
  | some row ↦
      if row.merchant_id == merchant
      then (
        record b { subscriptions = insert id (record row { status = cancelled }) b.subscriptions },
        ok tt,
      )
      else (b, err recurring_not_found)
]

-- `recurringRepo.update({ id }, …)`
pub update_subscription : ℕ → (RecurringPayment → RecurringPayment) → Billing → Billing
update_subscription id change b = elim (lookup id b.subscriptions) [
  | none ↦ b
  | some row ↦ record b { subscriptions = insert id (change row) b.subscriptions }
]

-- The merchant was notified about the coming charge: the times are equal.
abbrev pub is_notified : RecurringPayment → Bool
is_notified row = elim row.notified_for_charge_at [
  | none ↦ false
  | some t ↦ t == row.next_charge_at
]

pub upcoming : (now : ℕ) → Billing → Dict RecurringPayment
upcoming now b =
    filter
      (λ e.
        is_active e.1.status
        && leb e.1.next_charge_at (now + notify_lead_ms)
        && not (is_notified e.1))
      b.subscriptions

pub due : (now : ℕ) → Billing → Dict RecurringPayment
due now b =
    filter (λ e. is_active e.1.status && leb e.1.next_charge_at now && is_notified e.1)
      b.subscriptions

-- How the notice of a subscription ends.
pub data NoticeOutcome : Type 0 where
  no_merchant queued threw : NoticeOutcome

-- The loop of `notifyUpcomingCharges`, over the rows as they were read.
pub notify_each : (ℕ → NoticeOutcome) → Dict RecurringPayment → Billing → Billing
unfolding update_subscription
notify_each outcome [] b = b
notify_each outcome ((id, row) ∷ rows) b =
    let mail : UpcomingEmail = record {
      merchant_id = row.merchant_id;
      subscription_id = id;
      charge_at = row.next_charge_at;
    } in
    let mailed = record b { emails = b.emails ++ mail ∷ [] } in
    let marked =
      update_subscription id (λ r. record r { notified_for_charge_at = some row.next_charge_at })
        mailed in
    notify_each outcome rows (elim (outcome id) [ no_merchant ↦ b | queued ↦ marked | threw ↦ b ])

pub notify_upcoming_charges : (now : ℕ) → (ℕ → NoticeOutcome) → Billing → Billing
unfolding notify_each upcoming
notify_upcoming_charges now outcome b = notify_each outcome (upcoming now b) b

-- The claim of a cycle: an update with the time that was read as its condition. The flag is
-- `claim.affected`.
pub claim : ℕ → RecurringPayment → Billing → Billing × Bool
claim id read b = elim (lookup id b.subscriptions) [
  | none ↦ (b, false)
  | some row ↦
      if row.next_charge_at == read.next_charge_at
      then (
        record b {
          subscriptions =
              insert id
                (record row { next_charge_at = read.next_charge_at + read.interval_days * day_ms })
                b.subscriptions;
        },
        true,
      )
      else (b, false)
]

-- One round of the loop of `chargeDueSubscriptions`, for a row as it was read; `created` is whether the
-- payment can be created.
pub charge_one : (created : Bool) → ℕ → RecurringPayment → Billing → Billing
charge_one created id read b =
    let (claimed, affected) = claim id read b in
    let charge : Charge = record {
      subscription_id = id;
      cycle = read.next_charge_at;
      merchant_id = read.merchant_id;
      amount_usd = read.amount_usd;
      description = read.description;
    } in
    if not affected
    then b
    else if created
    then record claimed { charges = claimed.charges ++ charge ∷ [] }
    else update_subscription id (λ r. record r { next_charge_at = read.next_charge_at }) claimed

pub charge_each : (ℕ → Bool) → Dict RecurringPayment → Billing → Billing
unfolding charge_one
charge_each created [] b = b
charge_each created ((id, read) ∷ rows) b =
    charge_each created rows (charge_one (created id) id read b)

pub charge_due_subscriptions : (now : ℕ) → (ℕ → Bool) → Billing → Billing
unfolding charge_each due
charge_due_subscriptions now created b = charge_each created (due now b) b

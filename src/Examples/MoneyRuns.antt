-- ===== src/Examples/MoneyRuns.antt =====
-- Runs of the theorems about settlements, recurring payments and disputes.
use Prim.Native.String.{String}
use dupdap_backend.Base.{
  ◌≤◌, ◌≡◌, refl, Bool, true, false, List, [], ◌∷◌, none, some, ok, count, arith,
}
use dupdap_backend.Settlements.{
  pending_approval, settling, Settlement, Settlements, SettlementConfig, require_decidable,
  as_rejected, approve_settlement, reject_settlement,
}
use dupdap_backend.Settlements.Dispatch.{IsWithin, approves, here, next, Reach-IsWithin}
use dupdap_backend.Recurring.{active, RecurringPayment, Billing}
use dupdap_backend.Recurring.Charges.{is_charge, Round, rounds, rounds_charge_once}
use dupdap_backend.Disputes.{Disputes, raise}
use dupdap_backend.Disputes.Single
use dupdap_backend.Disputes.Single.{open_count, Reach-open_count}

abbrev config : SettlementConfig
config = record { max_attempts = 3; has_audit_log = true; email_preference = λ id. none }

abbrev waiting : Settlement
waiting = record {
  merchant = none;
  payments = 31 ∷ 32 ∷ [];
  total_amount_usd = "900.00";
  net_amount_usd = "880.00";
  status = pending_approval;
  requires_approval = true;
  approved_by = none;
  approved_at = none;
  failure_reason = none;
}

abbrev desk : Settlements
desk = record {
  settlements = (6, waiting) ∷ [];
  payments = (31, settling) ∷ (32, settling) ∷ (33, settling) ∷ [];
  audit_log = [];
  queue = [];
  emails = [];
}

Reach-IsWithin_example : IsWithin 6 (approve_settlement config 6 2 100 desk).0
Reach-IsWithin_example =
    Reach-IsWithin config 6 {s = desk} {t = (approve_settlement config 6 2 100 desk).0}
      (next here (approves 6 2 100)) (omega arith)

desk-reject_settlement :
    (reject_settlement config 6 2 100 desk).1 ≡ ok (as_rejected config 2 100 waiting)
unfolding reject_settlement require_decidable
desk-reject_settlement = refl

abbrev monthly : RecurringPayment
monthly = record {
  merchant_id = 4;
  amount_usd = "25.00";
  description = none;
  interval_days = 30;
  status = active;
  next_charge_at = 1000;
  notified_for_charge_at = some 1000;
}

abbrev books : Billing
books = record { subscriptions = (9, monthly) ∷ []; charges = []; emails = [] }

-- Two runs have read the same row.
abbrev both : List Round
both =
    record { id = 9; read = monthly; created = true }
    ∷ record { id = 9; read = monthly; created = true }
    ∷ []

rounds_charge_once_example : count (is_charge 9 1000) (rounds both books).charges ≤ 1
rounds_charge_once_example =
    rounds_charge_once 9 1000 both books (omega arith, (omega arith, tt)) refl

abbrev never_blank : String → Bool
never_blank text = false

abbrev shop : Disputes
shop = record {
  disputes = [];
  payments = (31, record { merchant_id = 4; customer_email = none }) ∷ [];
  alerts = [];
  resumed = [];
}

Reach-open_count_example :
    open_count 31 (raise never_blank 48 1 500 31 (some 4) none "not received" shop).0 ≤ 1
Reach-open_count_example =
    Reach-open_count 31 {s = shop}
      {t = (raise never_blank 48 1 500 31 (some 4) none "not received" shop).0}
      (Single.next Single.here
        (Single.raises never_blank 48 1 500 31 (some 4) none "not received" refl))
      (omega arith)

-- ===== src/Aml.antt =====
-- src/aml/aml.service.ts with its table (src/aml/entities/aml-flag.entity.ts). Amounts are in millionths of a
-- dollar; clock readings and the ids of new rows are arguments. The table is keyed by the id and
-- lists its rows in the order of a query. The pages of flags are queries and are left out, as are
-- the metrics.
pub mod Escalation
use dupdap_backend.Base.{
  ℕ, ◌+◌, ◌*◌, Bool, true, false, ◌&&◌, ltb, leb, ◌==◌, List, [], ◌∷◌, ◌++◌, Option, none, some,
  Result, ok, err, count, if◌then◌else◌,
}

abbrev high_value_threshold : ℕ
high_value_threshold = 10000 * 1000000

abbrev high_velocity_limit : ℕ
high_velocity_limit = 50

pub data AmlFlagReason : Type 0 where
  high_value high_velocity : AmlFlagReason

pub data AmlFlagStatus : Type 0 where
  pending cleared escalated : AmlFlagStatus

-- What a flag keeps of the payment: its amount, or the count of the day.
pub data FlagMetadata : Type 0 where
  amount_usd daily_count : ℕ → FlagMetadata

pub record AmlFlag : Type 0 where
  pub merchant_id : ℕ
  pub payment_id : ℕ
  pub reason : AmlFlagReason
  pub metadata : FlagMetadata
  pub status : AmlFlagStatus
  pub sla_deadline : ℕ
  pub reviewed_by : Option ℕ
  pub reviewed_at : Option ℕ
  pub review_note : Option ℕ

pub record Payment : Type 0 where
  pub id : ℕ
  pub merchant_id : ℕ
  pub amount_usd : ℕ
  pub created_at : ℕ

-- The emails to an administrator: about a new flag, or about one that is overdue.
pub data AmlEmail : Type 0 where
  flag_created flag_overdue : (recipient : ℕ) → AmlFlag → AmlEmail

pub record Aml : Type 0 where
  pub ids : List ℕ
  pub row : ℕ → Option AmlFlag
  pub emails : List AmlEmail

-- The settings; the hours are `none` where they are not set, not finite or not positive.
pub record AmlConfig : Type 0 where
  pub sla_hours : Option ℕ
  pub admin_alert_email : Option ℕ
  pub superadmin_email : Option ℕ

pub data AmlError : Type 0 where
  flag_not_found : ℕ → AmlError

abbrev hour_ms : ℕ
hour_ms = 60 * 60 * 1000

abbrev hours_or : Option ℕ → ℕ → ℕ
hours_or none fallback = fallback
hours_or (some hours) fallback = hours

-- A mail, where there is an address.
abbrev pub mailed : Option ℕ → (ℕ → AmlEmail) → List AmlEmail
mailed none mail = []
mailed (some address) mail = mail address ∷ []

-- `save`
abbrev pub save : ℕ → AmlFlag → Aml → Aml
save id flag s = record s { row = λ other. if other == id then some flag else s.row other }

abbrev pub is_pending : AmlFlag → Bool
is_pending flag = elim flag.status [ pending ↦ true | _ ↦ false ]

abbrev or_else : Option ℕ → Option ℕ → Option ℕ
or_else none b = b
or_else (some a) b = some a

-- The payments of the day, this one included.
abbrev pub payments_today : (start_of_day merchant : ℕ) → List Payment → ℕ
payments_today start_of_day merchant =
    count (λ payment. payment.merchant_id == merchant && leb start_of_day payment.created_at)

-- The rows that `escalateOverdue` reads.
unfoldable pub overdue : (now : ℕ) → Aml → List ℕ → List (ℕ × AmlFlag)
overdue now s [] = []
overdue now s (id ∷ ids) = elim (s.row id) [
  | none ↦ overdue now s ids
  | some flag ↦
      if is_pending flag && leb flag.sla_deadline now
      then (id, flag) ∷ overdue now s ids
      else overdue now s ids
]

module _ (config : AmlConfig) where
  unfoldable pub create_flag : (fresh now : ℕ) → Payment → AmlFlagReason → FlagMetadata → Aml → Aml
  create_flag fresh now payment reason metadata s =
      let flag : AmlFlag = record {
        merchant_id = payment.merchant_id;
        payment_id = payment.id;
        reason = reason;
        metadata = metadata;
        status = pending;
        sla_deadline = now + hours_or config.sla_hours 24 * hour_ms;
        reviewed_by = none;
        reviewed_at = none;
        review_note = none;
      } in
      record (save fresh flag s) {
        ids = s.ids ++ fresh ∷ [];
        emails = s.emails ++ mailed config.admin_alert_email (λ address. flag_created address flag);
      }

  unfoldable pub check_and_flag :
      (first second now start_of_day : ℕ) → Payment → (payments : List Payment) → Aml → Aml
  check_and_flag first second now start_of_day payment payments s =
      let valued =
        if leb high_value_threshold payment.amount_usd
        then create_flag first now payment high_value (amount_usd payment.amount_usd) s
        else s in
      let today = payments_today start_of_day payment.merchant_id payments in
      if ltb high_velocity_limit today
      then create_flag second now payment high_velocity (daily_count today) valued
      else valued

  -- The body of its loop.
  unfoldable pub escalate_one : ℕ → AmlFlag → Aml → Aml
  escalate_one id flag s =
      let flag' = record flag { status = escalated } in
      record (save id flag' s) {
        emails =
            s.emails
            ++ mailed (or_else config.superadmin_email config.admin_alert_email)
                (λ address. flag_overdue address flag');
      }

  unfoldable pub escalate_each : List (ℕ × AmlFlag) → Aml → Aml × ℕ
  escalate_each [] s = (s, 0)
  escalate_each ((id, flag) ∷ rest) s =
      let (done, escalations) = escalate_each rest (escalate_one id flag s) in
      (done, escalations + 1)

  unfoldable pub escalate_overdue : (now : ℕ) → Aml → Aml × ℕ
  escalate_overdue now s = escalate_each (overdue now s s.ids) s

unfoldable pub review :
    (now id reviewed_by : ℕ)
    → AmlFlagStatus
    → (note : Option ℕ) → Aml
    → Aml × Result AmlError AmlFlag
review now id reviewed_by status note s = elim (s.row id) [
  | none ↦ (s, err (flag_not_found id))
  | some flag ↦
      let reviewed = record flag {
        status = status;
        reviewed_by = some reviewed_by;
        reviewed_at = some now;
        review_note = note;
      } in
      (save id reviewed s, ok reviewed)
]

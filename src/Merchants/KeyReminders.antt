-- ===== src/Merchants/KeyReminders.antt =====
-- `sendExpiryReminders` of src/cron/api-key-expiry.service.ts. `queue` says for which merchants the mail can be queued; the others
-- throw, and the loop goes on. Times are milliseconds.
pub mod Rounds
pub mod Once
use dupdap_backend.Base.{
  ℕ, ◌+◌, ◌*◌, Bool, true, false, ◌&&◌, leb, List, [], ◌∷◌, ◌++◌, Option, none, some, Dict, lookup,
  insert, filter, if◌then◌else◌,
}
use dupdap_backend.Merchants.Records.{Merchant}
use dupdap_backend.Merchants.Service.{Office}

abbrev pub reminder_ms : ℕ
reminder_ms = 14 * 24 * 60 * 60 * 1000

-- The `where` of the query: `Between(now, windowEnd)` and `IsNull()`.
abbrev pub is_due : (now : ℕ) → Merchant → Bool
is_due now m = elim m.api_key_expiry_sent_at [
  | some t ↦ false
  | none ↦ elim m.api_key_expires_at [
    | none ↦ false
    | some t ↦ leb now t && leb t (now + reminder_ms)
  ]
]

abbrev pub expiry_of : Merchant → ℕ
expiry_of m = elim m.api_key_expires_at [ none ↦ 0 | some t ↦ t ]

-- `update(id, { apiKeyExpirySentAt })` of the row as it is now.
unfoldable pub mark_sent : (now id : ℕ) → Dict Merchant → Dict Merchant
mark_sent now id merchants = elim (lookup id merchants) [
  | none ↦ merchants
  | some m ↦ insert id (record m { api_key_expiry_sent_at = some now }) merchants
]

unfoldable pub remind_each :
    (queue : ℕ → Bool) (now : ℕ) (due : List (ℕ × Merchant)) → Office → Office
unfolding mark_sent
remind_each queue now [] office = office
remind_each queue now ((id, m) ∷ due) office = remind_each queue now due (
    if queue id
    then record office {
      merchants = mark_sent now id office.merchants;
      mails = (id, expiry_of m) ∷ office.mails;
    }
    else office)

unfoldable pub send_expiry_reminders : (queue : ℕ → Bool) (now : ℕ) → Office → Office
unfolding remind_each
send_expiry_reminders queue now office =
    remind_each queue now (filter (λ e. is_due now e.1) office.merchants) office

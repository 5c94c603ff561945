-- ===== src/Merchants/KeyReminders/Rounds.antt =====
-- A run of the reminders: the loop over the merchants that are due (src/cron/api-key-expiry.service.ts).
use dupdap_backend.Base.{
  ℕ, ◌==◌, ◌≡◌, ◌∙◌, ap, refl, Bool, true, false, List, [], ◌∷◌, none, some, Dict, lookup, filter,
  arith, if◌then◌else◌, Absent, IsKeyed, insert-IsKeyed, filter-IsKeyed, Absent-lookup,
  lookup-filter, Bool-cases, Option-cases, inl, inr, ==_iff, subst,
}
use dupdap_backend.Merchants.Records.{Merchant}
use dupdap_backend.Merchants.Service.{Office}
use dupdap_backend.Merchants.KeyReminders.{
  is_due, mark_sent, remind_each, send_expiry_reminders, expiry_of,
}
use dupdap_backend.Merchants.Pending.{sent_to, can_send, pending, due_or_sent, can_send-insert}

-- The loop over the merchants that are due.
pending-mark_sent :
    (id j now : ℕ) (merchants : Dict Merchant)
    → can_send (lookup id (mark_sent now j merchants))
      ≡ (if j == id then 0 else can_send (lookup id merchants))
unfolding mark_sent
pending-mark_sent id j now merchants = elim (Option-cases (lookup j merchants)) [
  | inl missing ↦
      rw (missing, mark_sent)
        (elim (Bool-cases (j == id)) [
          | inl e ↦
              rw e
                (ap can_send (subst (λ k. lookup k merchants ≡ none) ((==_iff j id).0 e) missing))
          | inr e ↦ rw e refl
        ])
  | inr (m, found) ↦
      rw (found, mark_sent)
        (can_send-insert id j (record m { api_key_expiry_sent_at = some now }) merchants)
]

pub mark_sent-IsKeyed :
    (now id : ℕ) (merchants : Dict Merchant)
    → IsKeyed merchants
    → IsKeyed (mark_sent now id merchants)
unfolding mark_sent
mark_sent-IsKeyed now id merchants h = grind (arith, insert-IsKeyed)

-- One merchant of the loop.
abbrev reminded : (queue : ℕ → Bool) (now j : ℕ) → Merchant → Office → Office
reminded queue now j m office =
    if queue j
    then record office {
      merchants = mark_sent now j office.merchants;
      mails = (j, expiry_of m) ∷ office.mails;
    }
    else office

reminded-other :
    (queue : ℕ → Bool) (now id j : ℕ) (m : Merchant) (office : Office)
    → (j == id) ≡ false
    → (pending id (reminded queue now j m office) ≡ pending id office)
      × (sent_to id (reminded queue now j m office) ≡ sent_to id office)
reminded-other queue now id j m office other = elim (Bool-cases (queue j)) [
  | inr fails ↦ rw fails (refl, refl)
  | inl queued ↦
      rw queued
        (pending-mark_sent id j now office.merchants ∙ rw other refl, rw other (omega arith))
]

reminded_self :
    (queue : ℕ → Bool) (now id j : ℕ) (m : Merchant) (office : Office)
    → (j == id) ≡ true
    → pending id office ≡ 1
    → due_or_sent id (reminded queue now j m office) ≡ due_or_sent id office
reminded_self queue now id j m office here one = elim (Bool-cases (queue j)) [
  | inr fails ↦ rw fails refl
  | inl queued ↦
      let gone : can_send (lookup id (mark_sent now j office.merchants)) ≡ 0 =
        pending-mark_sent id j now office.merchants ∙ rw here refl in
      rw queued (rw (here, gone, one) (omega arith))
]

remind_each-due :
    (queue : ℕ → Bool) (now id : ℕ) (due : List (ℕ × Merchant)) (office : Office)
    → IsKeyed due
    → ((m : Merchant) → lookup id due ≡ some m → pending id office ≡ 1)
    → due_or_sent id (remind_each queue now due office) ≡ due_or_sent id office
unfolding remind_each
remind_each-due queue now id [] office keyed waits = refl
remind_each-due queue now id ((j, m) ∷ due) office keyed waits =
    let office' = reminded queue now j m office in
    elim (Bool-cases (j == id)) [
      | inl here ↦
          let lacks : Absent id due = subst (λ k. Absent k due) ((==_iff j id).0 here) keyed.0 in
          let one : pending id office ≡ 1 = waits m (rw here refl) in
          remind_each-due queue now id due office' keyed.1
            (λ m' e. absurd (cc (e, Absent-lookup id due lacks)))
          ∙ reminded_self queue now id j m office here one
      | inr other ↦
          let kept_so = reminded-other queue now id j m office other in
          remind_each-due queue now id due office' keyed.1
            (λ m' e. kept_so.0 ∙ waits m' (rw other e))
          ∙ omega (arith, kept_so.0, kept_so.1)
    ]

pub remind_each-IsKeyed :
    (queue : ℕ → Bool) (now : ℕ) (due : List (ℕ × Merchant)) (office : Office)
    → IsKeyed office.merchants
    → IsKeyed (remind_each queue now due office).merchants
unfolding remind_each
remind_each-IsKeyed queue now [] office h = h
remind_each-IsKeyed queue now ((j, m) ∷ due) office h =
    remind_each-IsKeyed queue now due (reminded queue now j m office) (elim (Bool-cases (queue j)) [
      | inl queued ↦ rw queued (mark_sent-IsKeyed now j office.merchants h)
      | inr fails ↦ rw fails h
    ])

pub send_expiry_reminders-due :
    (queue : ℕ → Bool) (now id : ℕ) (office : Office)
    → IsKeyed office.merchants
    → due_or_sent id (send_expiry_reminders queue now office) ≡ due_or_sent id office
unfolding send_expiry_reminders
send_expiry_reminders-due queue now id office keyed =
    let p = λ (e : ℕ × Merchant). is_due now e.1 in
    remind_each-due queue now id (filter p office.merchants) office
      (filter-IsKeyed p office.merchants keyed)
      (λ m e.
        let (found, passes) = lookup-filter p id office.merchants keyed e in
        ap can_send found ∙ ground (arith, passes))

-- ===== src/Merchants/Calls/Limits.antt =====
-- The transaction limits of merchants (src/merchants/merchants.service.ts).
use dupdap_backend.Base.{
  ℕ, ◌≤◌, ◌≡◌, List, [], ◌∷◌, Option, some, Dict, lookup, All, All-insert, lookup-All, arith,
  filter, Bool-cases, Option-cases, Bool, inl, inr, if◌then◌else◌,
}
use dupdap_backend.Merchants.Records.{Merchant}
use dupdap_backend.Merchants.Service.{
  Office, save, generate_api_key, extend_api_key_expiry, set_api_key_ip_allowlist,
  update_transaction_limits, verify_merchant,
}
use dupdap_backend.Merchants.KeyReminders.{
  is_due, mark_sent, remind_each, send_expiry_reminders, expiry_of,
}
use dupdap_backend.Merchants.Calls.{
  Call, kept, perform, perform_each, generate, extend, remind, set_allowlist, set_limits, verify,
}

abbrev pub IsWithinLimits : Merchant → Type 0
IsWithinLimits m = m.single_transaction_limit_usd ≤ m.daily_limit_usd

-- The limit of one payment is at most that of a day, for every merchant.
abbrev pub AreWithinLimits : Office → Type 0
AreWithinLimits office = All (λ e. IsWithinLimits e.1) office.merchants

save-AreWithinLimits :
    (j : ℕ) (m : Merchant) (office : Office)
    → IsWithinLimits m
    → AreWithinLimits office
    → AreWithinLimits (save j m office)
save-AreWithinLimits j m office h all = All-insert IsWithinLimits j m office.merchants h all

found-IsWithinLimits :
    (j : ℕ) (m : Merchant) (office : Office)
    → AreWithinLimits office
    → lookup j office.merchants ≡ some m
    → IsWithinLimits m
found-IsWithinLimits j m office all found = lookup-All IsWithinLimits j m office.merchants all found

update_transaction_limits-AreWithinLimits :
    (id : ℕ) (single daily : Option ℕ) (admin_id : ℕ) (office : Office)
    → AreWithinLimits office
    → AreWithinLimits (kept office (update_transaction_limits id single daily admin_id office))
unfolding update_transaction_limits
update_transaction_limits-AreWithinLimits id single daily admin_id office all =
    grind (arith, save-AreWithinLimits)

mark_sent-All :
    (now id : ℕ) (merchants : Dict Merchant)
    → All (λ e. IsWithinLimits e.1) merchants
    → All (λ e. IsWithinLimits e.1) (mark_sent now id merchants)
unfolding mark_sent
mark_sent-All now id merchants all = elim (Option-cases (lookup id merchants)) [
  | inl missing ↦ rw (missing, mark_sent) all
  | inr (m, found) ↦
      rw (found, mark_sent)
        (All-insert IsWithinLimits id (record m { api_key_expiry_sent_at = some now }) merchants
          (lookup-All IsWithinLimits id m merchants all found) all)
]

remind_each-AreWithinLimits :
    (queue : ℕ → Bool) (now : ℕ) (due : List (ℕ × Merchant)) (office : Office)
    → AreWithinLimits office
    → AreWithinLimits (remind_each queue now due office)
unfolding remind_each
remind_each-AreWithinLimits queue now [] office all = all
remind_each-AreWithinLimits queue now ((id, m) ∷ due) office all =
    remind_each-AreWithinLimits queue now due
      (if queue id
        then record office {
          merchants = mark_sent now id office.merchants;
          mails = (id, expiry_of m) ∷ office.mails;
        }
        else office)
      (elim (Bool-cases (queue id)) [
        | inl queued ↦ rw queued (mark_sent-All now id office.merchants all)
        | inr fails ↦ rw fails all
      ])

perform-AreWithinLimits :
    (call : Call) (office : Office) → AreWithinLimits office → AreWithinLimits (perform call office)
unfolding perform generate_api_key extend_api_key_expiry set_api_key_ip_allowlist verify_merchant
    send_expiry_reminders
perform-AreWithinLimits (generate now j scopes expires_at raw_key lookup_hash) office all =
    grind (arith, save-AreWithinLimits, found-IsWithinLimits)
perform-AreWithinLimits (extend now j new_expires_at admin_id) office all =
    grind (arith, save-AreWithinLimits, found-IsWithinLimits)
perform-AreWithinLimits (remind queue now) office all =
    remind_each-AreWithinLimits queue now
      (filter (λ (e : ℕ × Merchant). is_due now e.1) office.merchants) office all
perform-AreWithinLimits (set_allowlist is_ip j cidrs) office all =
    grind (arith, save-AreWithinLimits, found-IsWithinLimits)
perform-AreWithinLimits (set_limits j single daily admin_id) office all =
    update_transaction_limits-AreWithinLimits j single daily admin_id office all
perform-AreWithinLimits (verify j) office all =
    grind (arith, save-AreWithinLimits, found-IsWithinLimits)

-- Whatever calls are made, no merchant comes to have a limit for one payment above its limit for a day, if
-- none had one at the start.
pub perform_each-AreWithinLimits :
    (calls : List Call) (office : Office)
    → AreWithinLimits office
    → AreWithinLimits (perform_each calls office)
unfolding perform_each
perform_each-AreWithinLimits [] office all = all
perform_each-AreWithinLimits (call ∷ calls) office all =
    perform_each-AreWithinLimits calls (perform call office)
      (perform-AreWithinLimits call office all)

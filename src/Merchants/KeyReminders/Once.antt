-- ===== src/Merchants/KeyReminders/Once.antt =====
-- How often a merchant is reminded of the end of its API key (src/cron/api-key-expiry.service.ts,
-- src/merchants/merchants.service.ts).
use dupdap_backend.Base.{
  ℕ, ◌+◌, ◌≤◌, List, [], ◌∷◌, filter, count, arith, if◌then◌else◌, IsKeyed, insert-IsKeyed,
}
use dupdap_backend.Merchants.Records.{Merchant}
use dupdap_backend.Merchants.Service.{
  Office, generate_api_key, extend_api_key_expiry, set_api_key_ip_allowlist,
  update_transaction_limits, verify_merchant,
}
use dupdap_backend.Merchants.KeyReminders.{is_due, send_expiry_reminders}
use dupdap_backend.Merchants.Calls.{
  Call, perform, perform_each, sets_expiry, generate, extend, remind, set_allowlist, set_limits,
  verify,
}
use dupdap_backend.Merchants.Pending.{
  sent_to, pending, due_or_sent, generate-bound, extend-bound, set_allowlist-bound,
  set_limits-bound, verify-bound,
}
use dupdap_backend.Merchants.KeyReminders.Rounds.{remind_each-IsKeyed, send_expiry_reminders-due}

perform-IsKeyed :
    (call : Call) (office : Office)
    → IsKeyed office.merchants
    → IsKeyed (perform call office).merchants
unfolding perform generate_api_key extend_api_key_expiry set_api_key_ip_allowlist
    update_transaction_limits verify_merchant send_expiry_reminders
perform-IsKeyed (generate now j scopes expires_at raw_key lookup_hash) office h =
    grind (arith, insert-IsKeyed)
perform-IsKeyed (extend now j new_expires_at admin_id) office h = grind (arith, insert-IsKeyed)
perform-IsKeyed (remind queue now) office h =
    remind_each-IsKeyed queue now (filter (λ (e : ℕ × Merchant). is_due now e.1) office.merchants)
      office h
perform-IsKeyed (set_allowlist is_ip j cidrs) office h = grind (arith, insert-IsKeyed)
perform-IsKeyed (set_limits j single daily admin_id) office h = grind (arith, insert-IsKeyed)
perform-IsKeyed (verify j) office h = grind (arith, insert-IsKeyed)

perform-bound :
    (id : ℕ) (call : Call) (office : Office)
    → IsKeyed office.merchants
    → due_or_sent id (perform call office)
      ≤ due_or_sent id office + (if sets_expiry id call then 1 else 0)
unfolding perform
perform-bound id (generate now j scopes expires_at raw_key lookup_hash) office h =
    generate-bound id office now j scopes expires_at raw_key lookup_hash
perform-bound id (extend now j new_expires_at admin_id) office h =
    extend-bound id office now j new_expires_at admin_id
perform-bound id (remind queue now) office h =
    omega (arith, send_expiry_reminders-due queue now id office h)
perform-bound id (set_allowlist is_ip j cidrs) office h =
    omega (arith, set_allowlist-bound id office is_ip j cidrs)
perform-bound id (set_limits j single daily admin_id) office h =
    omega (arith, set_limits-bound id office j single daily admin_id)
perform-bound id (verify j) office h = omega (arith, verify-bound id office j)

-- Whatever calls are made in whatever order, a merchant is sent at most one reminder for each call that sets the
-- expiry of its key, and one more if a reminder was open at the start.
pub perform_each-sent :
    (id : ℕ) (calls : List Call) (office : Office)
    → IsKeyed office.merchants
    → sent_to id (perform_each calls office)
      ≤ sent_to id office + pending id office + count (sets_expiry id) calls
unfolding perform_each
perform_each-sent id [] office h = omega arith
perform_each-sent id (call ∷ calls) office h = omega (
  arith,
  perform-bound id call office h,
  perform_each-sent id calls (perform call office) (perform-IsKeyed call office h),
)

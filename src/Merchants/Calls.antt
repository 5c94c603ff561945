-- ===== src/Merchants/Calls.antt =====
-- Sequences of the calls that change merchants (src/merchants/merchants.service.ts,
-- src/cron/api-key-expiry.service.ts).
pub mod Limits
use dupdap_backend.Base.{
  ℕ, ◌+◌, ◌≤◌, ◌==◌, ◌≡◌, ◌∙◌, sym, ap, refl, Bool, true, false, List, [], ◌∷◌, Option, none, some,
  Result, ok, err, Dict, lookup, insert, lookup-insert, filter, count, arith, if◌then◌else◌, Absent,
  IsKeyed, insert-IsKeyed, filter-IsKeyed, Absent-lookup, lookup-filter, Bool-cases, Option-cases,
  Result-cases, inl, inr, ==_iff, subst,
}
use dupdap_backend.Merchants.Records.{Merchant, ApiScope}
use dupdap_backend.Merchants.Service.{
  Office, find_one, save, generate_api_key, extend_api_key_expiry, set_api_key_ip_allowlist,
  update_transaction_limits, verify_merchant,
}
use dupdap_backend.Merchants.KeyReminders.{
  is_due, mark_sent, remind_each, send_expiry_reminders, expiry_of,
}

-- The calls that a merchant, an admin and the cron job make.
pub data Call : Type 0 where
  generate :
      (now id : ℕ) (scopes : Option (List ApiScope)) (expires_at : Option ℕ) (raw_key : List ℕ)
      (lookup_hash : ℕ)
      → Call
  extend : (now id new_expires_at admin_id : ℕ) → Call
  remind : (queue : ℕ → Bool) (now : ℕ) → Call
  set_allowlist : (is_ip : List ℕ → ℕ) (id : ℕ) (cidrs : List (List ℕ)) → Call
  set_limits : (id : ℕ) (single daily : Option ℕ) (admin_id : ℕ) → Call
  verify : (id : ℕ) → Call

-- A call that throws leaves everything as it was.
abbrev pub kept {ℓ} : {E : Type ℓ} → Office → Result E Office → Office
kept office (ok office') = office'
kept office (err e) = office

unfoldable pub perform : Call → Office → Office
perform (generate now id scopes expires_at raw_key lookup_hash) office =
    kept office (generate_api_key now id scopes expires_at raw_key lookup_hash office)
perform (extend now id new_expires_at admin_id) office =
    kept office (extend_api_key_expiry now id new_expires_at admin_id office)
perform (remind queue now) office = send_expiry_reminders queue now office
perform (set_allowlist is_ip id cidrs) office =
    kept office (set_api_key_ip_allowlist is_ip id cidrs office)
perform (set_limits id single daily admin_id) office =
    kept office (update_transaction_limits id single daily admin_id office)
perform (verify id) office = kept office (verify_merchant id office)

unfoldable pub perform_each : List Call → Office → Office
perform_each [] office = office
perform_each (call ∷ calls) office = perform_each calls (perform call office)

-- Whether the call asks for a new expiry of the key of this merchant.
abbrev pub sets_expiry : ℕ → Call → Bool
sets_expiry id (generate now j scopes expires_at raw_key lookup_hash) = j == id
sets_expiry id (extend now j new_expires_at admin_id) = j == id
sets_expiry id (remind queue now) = false
sets_expiry id (set_allowlist is_ip j cidrs) = false
sets_expiry id (set_limits j single daily admin_id) = false
sets_expiry id (verify j) = false

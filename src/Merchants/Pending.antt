-- ===== src/Merchants/Pending.antt =====
-- The reminders of a merchant that were sent or can still be sent, under the calls that change one row
-- (src/merchants/merchants.service.ts).
use dupdap_backend.Base.{
  ℕ, ◌+◌, ◌≤◌, ◌==◌, ◌≡◌, ◌∙◌, sym, ap, refl, List, Option, none, some, Dict, lookup, insert,
  lookup-insert, count, arith, if◌then◌else◌, Bool-cases, inl, inr, ==_iff, subst,
}
use dupdap_backend.Merchants.Records.{Merchant, ApiScope}
use dupdap_backend.Merchants.Service.{
  Office, save, generate_api_key, extend_api_key_expiry, set_api_key_ip_allowlist,
  update_transaction_limits, verify_merchant,
}
use dupdap_backend.Merchants.Calls.{kept}

-- How many reminders a merchant was sent, and whether it can be sent one more.
abbrev pub sent_to : ℕ → Office → ℕ
sent_to id office = count (λ mail. mail.0 == id) office.mails

abbrev pub can_send : Option Merchant → ℕ
can_send none = 0
can_send (some m) = elim m.api_key_expiry_sent_at [ none ↦ 1 | some t ↦ 0 ]

abbrev pub pending : ℕ → Office → ℕ
pending id office = can_send (lookup id office.merchants)

abbrev pub due_or_sent : ℕ → Office → ℕ
due_or_sent id office = sent_to id office + pending id office

-- A row that is written decides what can be sent to its merchant.
pub can_send-insert :
    (id j : ℕ) (m : Merchant) (merchants : Dict Merchant)
    → can_send (lookup id (insert j m merchants))
      ≡ (if j == id then can_send (some m) else can_send (lookup id merchants))
can_send-insert id j m merchants =
    ap can_send (lookup-insert j id m merchants)
    ∙ elim (Bool-cases (j == id)) [ inl e ↦ rw e refl | inr e ↦ rw e refl ]

pub can_send-le : (m : Option Merchant) → can_send m ≤ 1
can_send-le none = omega arith
can_send-le (some m) = ground arith

-- A write of a row whose flag is reset.
save-reset :
    (id j : ℕ) (m : Merchant) (office : Office)
    → pending id (save j m office) ≤ pending id office + (if j == id then 1 else 0)
save-reset id j m office =
    rw (can_send-insert id j m office.merchants) (elim (Bool-cases (j == id)) [
      | inl e ↦ rw e (omega (arith, can_send-le (some m)))
      | inr e ↦ rw e (omega arith)
    ])

-- A write of a row whose flag is left alone.
save-same :
    (id j : ℕ) (m m' : Merchant) (office : Office)
    → lookup j office.merchants ≡ some m
    → m'.api_key_expiry_sent_at ≡ m.api_key_expiry_sent_at
    → pending id (save j m' office) ≡ pending id office
save-same id j m m' office found same =
    rw (can_send-insert id j m' office.merchants) (elim (Bool-cases (j == id)) [
      | inl e ↦ rw e (
          sym (
            ap can_send (subst (λ k. lookup k office.merchants ≡ some m) ((==_iff j id).0 e) found)
            ∙ ap (λ (t : Option ℕ). elim t [ none ↦ 1 | some u ↦ 0 ]) (sym same)))
      | inr e ↦ rw e refl
    ])

-- The calls that change one row.
module _ (id : ℕ) (office : Office) where
  pub generate-bound :
      (now j : ℕ) (scopes : Option (List ApiScope)) (expires_at : Option ℕ) (raw_key : List ℕ)
      (lookup_hash : ℕ)
      → due_or_sent id
          (kept office (generate_api_key now j scopes expires_at raw_key lookup_hash office))
        ≤ due_or_sent id office + (if j == id then 1 else 0)
  unfolding generate_api_key
  generate-bound now j scopes expires_at raw_key lookup_hash = grind (arith, save-reset)

  pub extend-bound :
      (now j new_expires_at admin_id : ℕ)
      → due_or_sent id (kept office (extend_api_key_expiry now j new_expires_at admin_id office))
        ≤ due_or_sent id office + (if j == id then 1 else 0)
  unfolding extend_api_key_expiry
  extend-bound now j new_expires_at admin_id = grind (arith, save-reset)

  pub set_allowlist-bound :
      (is_ip : List ℕ → ℕ) (j : ℕ) (cidrs : List (List ℕ))
      → due_or_sent id (kept office (set_api_key_ip_allowlist is_ip j cidrs office))
        ≡ due_or_sent id office
  unfolding set_api_key_ip_allowlist
  set_allowlist-bound is_ip j cidrs = grind (arith, save-same)

  pub set_limits-bound :
      (j : ℕ) (single daily : Option ℕ) (admin_id : ℕ)
      → due_or_sent id (kept office (update_transaction_limits j single daily admin_id office))
        ≡ due_or_sent id office
  unfolding update_transaction_limits
  set_limits-bound j single daily admin_id = grind (arith, save-same)

  pub verify-bound :
      (j : ℕ) → due_or_sent id (kept office (verify_merchant j office)) ≡ due_or_sent id office
  unfolding verify_merchant
  verify-bound j = grind (arith, save-same)

-- ===== src/Admin/Calls/Steps.antt =====
-- Each operation on accounts of src/admin/admin.service.ts writes what the audit log says.
use dupdap_backend.Base.{
  ℕ, refl, subst, ◌==◌, Bool, true, false, not, ◌&&◌, ◌||◌, List, [], ◌∷◌, length, Option-cases,
  Result-cases, none, some, any, if◌then◌else◌, Bool-cases, inl, inr, is_empty,
}
use dupdap_backend.Merchants.Records.{MerchantRole, admin, MerchantStatus, active}
use dupdap_backend.Admin.Totp.{verify_totp_token, base32_encode}
use dupdap_backend.Admin.Tables.{
  status_updated, admin_created, admin_deleted, role_updated, sandbox_toggled, Tables,
  is_superadmin, is_admin,
}
use dupdap_backend.Admin.Accounts.{
  Outcome, update_merchant_status, bulk_one, bulk_each, create_admin, delete_admin,
  update_admin_role, setup_admin_totp, verify_admin_totp, update_admin_allowed_ips,
  toggle_sandbox_mode, join_ips,
}
use dupdap_backend.Admin.Calls.{kept, kept_first}
use dupdap_backend.Admin.Standing.{
  Standing, IsExplained, put-IsExplained, save-IsExplained, change-IsExplained, find_account-cases,
}

module _ (id : ℕ) (start : Standing) where
  pub update_status-IsExplained :
      (j : ℕ) (status : MerchantStatus) (actor : ℕ) (s : Tables)
      → IsExplained id start s
      → IsExplained id start (kept s (update_merchant_status j status actor s))
  unfolding update_merchant_status
  update_status-IsExplained j status actor s h = elim (find_account-cases j s) [
    | inl gone ↦ rw (kept, gone) h
    | inr (a, found, row) ↦
        rw (kept, found)
          (change-IsExplained id start actor j (status_updated a.status status) a
            (record a { status = status }) s row refl h)
  ]

  pub create-IsExplained :
      (j email : ℕ) (role : MerchantRole) (actor : ℕ) (s : Tables)
      → IsExplained id start s
      → IsExplained id start (kept s (create_admin j email role actor s))
  unfolding create_admin
  create-IsExplained j email role actor s h = elim (Bool-cases (is_superadmin role)) [
    | inr other ↦ rw (kept, other) h
    | inl allowed ↦
        elim (Bool-cases (any (λ e. e.1.email == email && not e.1.is_deleted) s.accounts)) [
          | inl taken ↦ rw (kept, allowed, taken) h
          | inr free ↦ elim (Bool-cases (any (λ e. e.1.email == email) s.accounts)) [
            | inl deleted ↦ rw (kept, allowed, free, deleted) h
            | inr new ↦
                rw (kept, allowed, free, new)
                  (put-IsExplained id start actor j (admin_created email)
                    (record {
                      email = email;
                      status = active;
                      role = admin;
                      is_deleted = false;
                      sandbox_mode = false;
                      totp_secret = none;
                      totp_enabled = false;
                      allowed_ips = none;
                    })
                    s refl h)
          ]
        ]
  ]

  pub delete_admin-IsExplained :
      (j : ℕ) (role : MerchantRole) (actor : ℕ) (s : Tables)
      → IsExplained id start s
      → IsExplained id start (kept s (delete_admin j role actor s))
  unfolding delete_admin
  delete_admin-IsExplained j role actor s h = elim (Bool-cases (is_superadmin role)) [
    | inr other ↦ rw (kept, other) h
    | inl allowed ↦ elim (find_account-cases j s) [
      | inl gone ↦ rw (kept, allowed, gone) h
      | inr (a, found, row) ↦ elim (Bool-cases (is_admin a.role)) [
        | inr denied ↦ rw (kept, allowed, found, denied) h
        | inl granted ↦
            rw (kept, allowed, found, granted)
              (change-IsExplained id start actor j (admin_deleted a.email) a
                (record a { is_deleted = true }) s row refl h)
      ]
    ]
  ]

  pub update_role-IsExplained :
      (j : ℕ) (new role : MerchantRole) (actor : ℕ) (s : Tables)
      → IsExplained id start s
      → IsExplained id start (kept s (update_admin_role j new role actor s))
  unfolding update_admin_role
  update_role-IsExplained j new role actor s h = elim (Bool-cases (is_superadmin role)) [
    | inr other ↦ rw (kept, other) h
    | inl allowed ↦ elim (Bool-cases (is_admin new || is_superadmin new)) [
      | inr invalid ↦ rw (kept, allowed, invalid) h
      | inl valid ↦ elim (find_account-cases j s) [
        | inl gone ↦ rw (kept, allowed, valid, gone) h
        | inr (a, found, row) ↦ elim (Bool-cases (is_admin a.role || is_superadmin a.role)) [
          | inr denied ↦ rw (kept, allowed, valid, found, denied) h
          | inl granted ↦
              rw (kept, allowed, valid, found, granted)
                (change-IsExplained id start actor j (role_updated a.role new) a
                  (record a { role = new }) s row refl h)
        ]
      ]
    ]
  ]

  pub setup_totp-IsExplained :
      (j : ℕ) (secret_bytes : List ℕ) (s : Tables)
      → IsExplained id start s
      → IsExplained id start (kept s (setup_admin_totp j secret_bytes s))
  unfolding setup_admin_totp
  setup_totp-IsExplained j secret_bytes s h = elim (find_account-cases j s) [
    | inl gone ↦ rw (kept, gone) h
    | inr (a, found, row) ↦
        rw (kept, found)
          (save-IsExplained id start j a
            (record a { totp_secret = some (base32_encode secret_bytes) }) s row refl h)
  ]

  pub verify_totp-IsExplained :
      (hmac : (key : List ℕ) (counter : ℕ) → List ℕ) (j : ℕ) (token : List ℕ) (now : ℕ) (s : Tables)
      → IsExplained id start s
      → IsExplained id start (kept_first s (verify_admin_totp hmac j token now s))
  unfolding verify_admin_totp
  verify_totp-IsExplained hmac j token now s h = elim (find_account-cases j s) [
    | inl gone ↦ rw (kept_first, gone) h
    | inr (a, found, row) ↦ elim (Option-cases a.totp_secret) [
      | inl unset ↦ rw (kept_first, found, unset) h
      | inr (secret, set) ↦ elim (Bool-cases (is_empty secret)) [
        | inl empty ↦ rw (kept_first, found, set, empty) h
        | inr filled ↦ elim (Bool-cases (verify_totp_token hmac secret token now)) [
          | inl passed ↦
              rw (kept_first, found, set, filled, passed)
                (save-IsExplained id start j a (record a { totp_enabled = true }) s row refl h)
          | inr failed ↦ rw (kept_first, found, set, filled, failed) h
        ]
      ]
    ]
  ]

  pub update_ips-IsExplained :
      (j : ℕ) (ips : List (List ℕ)) (s : Tables)
      → IsExplained id start s
      → IsExplained id start (kept s (update_admin_allowed_ips j ips s))
  unfolding update_admin_allowed_ips
  update_ips-IsExplained j ips s h = elim (find_account-cases j s) [
    | inl gone ↦ rw (kept, gone) h
    | inr (a, found, row) ↦
        rw (kept, found)
          (save-IsExplained id start j a
            (record a { allowed_ips = if length ips == 0 then none else some (join_ips ips) }) s row
            refl h)
  ]

  pub toggle_sandbox-IsExplained :
      (j : ℕ) (enabled : Bool) (actor : ℕ) (s : Tables)
      → IsExplained id start s
      → IsExplained id start (kept s (toggle_sandbox_mode j enabled actor s))
  unfolding toggle_sandbox_mode
  toggle_sandbox-IsExplained j enabled actor s h = elim (find_account-cases j s) [
    | inl gone ↦ rw (kept, gone) h
    | inr (a, found, row) ↦
        rw (kept, found)
          (change-IsExplained id start actor j (sandbox_toggled enabled) a
            (record a { sandbox_mode = enabled }) s row refl h)
  ]

  bulk_one-IsExplained :
      (status : MerchantStatus) (actor j : ℕ) (results : Outcome) (s : Tables)
      → IsExplained id start s
      → IsExplained id start (bulk_one status actor j results s).1
  unfolding bulk_one
  bulk_one-IsExplained status actor j results s h =
      elim (Result-cases (update_merchant_status j status actor s)) [
        | inl (s', done) ↦
            rw (bulk_one, done)
              (subst (λ r. IsExplained id start (kept s r)) done
                (update_status-IsExplained j status actor s h))
        | inr (e, threw) ↦ rw (bulk_one, threw) h
      ]

  pub bulk_each-IsExplained :
      (ids : List ℕ) (status : MerchantStatus) (actor : ℕ) (results : Outcome) (s : Tables)
      → IsExplained id start s
      → IsExplained id start (bulk_each ids status actor (results, s)).1
  unfolding bulk_each
  bulk_each-IsExplained [] status actor results s h = h
  bulk_each-IsExplained (j ∷ ids) status actor results s h =
      let next = bulk_one status actor j results s in
      bulk_each-IsExplained ids status actor next.0 next.1
        (bulk_one-IsExplained status actor j results s h)

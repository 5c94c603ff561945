-- ===== src/Admin/Calls/Audit.antt =====
-- The audit log of src/admin/admin.service.ts through any sequence of its calls.
use dupdap_backend.Base.{
  ℕ, refl, Bool, true, false, not, ◌&&◌, List, [], ◌∷◌, length, Option-cases, lookup, insert,
  filter, if◌then◌else◌, Bool-cases, inl, inr,
}
use dupdap_backend.Merchants.Records.{MerchantRole}
use dupdap_backend.Admin.Tables.{
  Entity, merchants, payments, other_entity, data_purged, record_restored, record_deleted, Tables,
  is_superadmin,
}
use dupdap_backend.Admin.Accounts.{bulk_update_merchant_status}
use dupdap_backend.Admin.Deletion.{
  reset_sandbox_data, restore_record, delete_any, delete_record, delete_row, belongs_to,
}
use dupdap_backend.Admin.Calls.{
  Call, update_status, bulk_update, create, delete, update_role, setup_totp, verify_totp,
  update_ips, toggle_sandbox, reset_sandbox, restore, delete_one, perform, perform_each, kept,
}
use dupdap_backend.Admin.Standing.{
  Standing, IsExplained, change-IsExplained, note-IsExplained, delete-IsExplained,
  find_account-cases,
}
use dupdap_backend.Admin.Calls.Steps.{
  update_status-IsExplained, create-IsExplained, delete_admin-IsExplained, update_role-IsExplained,
  setup_totp-IsExplained, verify_totp-IsExplained, update_ips-IsExplained,
  toggle_sandbox-IsExplained, bulk_each-IsExplained,
}

module _ (id : ℕ) (start : Standing) where
  reset_sandbox-IsExplained :
      (j actor : ℕ) (s : Tables)
      → IsExplained id start s
      → IsExplained id start (kept s (reset_sandbox_data j actor s))
  unfolding reset_sandbox_data
  reset_sandbox-IsExplained j actor s h = elim (find_account-cases j s) [
    | inl gone ↦ rw (kept, gone) h
    | inr (a, found, row) ↦
        rw (kept, found)
          (note-IsExplained id start actor j
            (data_purged (length (filter (belongs_to j) s.payments_table)))
            (filter (λ e. not (belongs_to j e)) s.payments_table) s (λ st. refl) h)
  ]

  restore-IsExplained :
      (entity : Entity) (j actor : ℕ) (s : Tables)
      → IsExplained id start s
      → IsExplained id start (kept s (restore_record entity j actor s))
  unfolding restore_record
  restore-IsExplained other_entity j actor s h = h
  restore-IsExplained merchants j actor s h = elim (Option-cases (lookup j s.accounts)) [
    | inl gone ↦ rw (kept, gone) h
    | inr (a, row) ↦ elim (Bool-cases a.is_deleted) [
      | inr present ↦ rw (kept, row, present) h
      | inl deleted ↦
          rw (kept, row, deleted)
            (change-IsExplained id start actor j (record_restored merchants) a
              (record a { is_deleted = false }) s row refl h)
    ]
  ]
  restore-IsExplained payments j actor s h = elim (Option-cases (lookup j s.payments_table)) [
    | inl gone ↦ rw (kept, gone) h
    | inr (p, row) ↦ elim (Bool-cases p.is_deleted) [
      | inr present ↦ rw (kept, row, present) h
      | inl deleted ↦
          rw (kept, row, deleted)
            (note-IsExplained id start actor j (record_restored payments)
              (insert j (record p { is_deleted = false }) s.payments_table) s (λ st. refl) h)
    ]
  ]

  delete_any-IsExplained :
      (entity : Entity) (j : ℕ) (hard : Bool) (actor : ℕ) (s : Tables)
      → IsExplained id start s
      → IsExplained id start (kept s (delete_any entity j hard actor s))
  unfolding delete_any
  delete_any-IsExplained other_entity j hard actor s h = h
  delete_any-IsExplained payments j hard actor s h =
      elim (Option-cases (lookup j s.payments_table)) [
        | inl gone ↦ rw (kept, gone) h
        | inr (p, row) ↦
            rw (kept, row)
              (note-IsExplained id start actor j (record_deleted payments hard)
                (if hard
                  then delete_row j s.payments_table
                  else insert j (record p { is_deleted = true }) s.payments_table)
                s (λ st. refl) h)
      ]
  delete_any-IsExplained merchants j false actor s h = elim (Option-cases (lookup j s.accounts)) [
    | inl gone ↦ rw (kept, gone) h
    | inr (a, row) ↦
        rw (kept, row)
          (change-IsExplained id start actor j (record_deleted merchants false) a
            (record a { is_deleted = true }) s row refl h)
  ]
  delete_any-IsExplained merchants j true actor s h = elim (Option-cases (lookup j s.accounts)) [
    | inl gone ↦ rw (kept, gone) h
    | inr (a, row) ↦ rw (kept, row) (delete-IsExplained id start actor j s h)
  ]

  delete_record-IsExplained :
      (entity : Entity) (j : ℕ) (hard : Bool) (role : MerchantRole) (actor : ℕ) (s : Tables)
      → IsExplained id start s
      → IsExplained id start (kept s (delete_record entity j hard role actor s))
  unfolding delete_record
  delete_record-IsExplained entity j hard role actor s h =
      elim (Bool-cases (hard && not (is_superadmin role))) [
        | inl refused ↦ rw (kept, refused) h
        | inr allowed ↦ rw (kept, allowed) (delete_any-IsExplained entity j hard actor s h)
      ]

  perform-IsExplained :
      (call : Call) (s : Tables) → IsExplained id start s → IsExplained id start (perform call s)
  unfolding perform
  perform-IsExplained (update_status j status actor) s h =
      update_status-IsExplained id start j status actor s h
  perform-IsExplained (bulk_update ids status actor) s h =
      unfold bulk_update_merchant_status in
      bulk_each-IsExplained id start ids status actor (record { success = []; failed = [] }) s h
  perform-IsExplained (create j email role actor) s h =
      create-IsExplained id start j email role actor s h
  perform-IsExplained (delete j role actor) s h = delete_admin-IsExplained id start j role actor s h
  perform-IsExplained (update_role j new role actor) s h =
      update_role-IsExplained id start j new role actor s h
  perform-IsExplained (setup_totp j secret_bytes) s h =
      setup_totp-IsExplained id start j secret_bytes s h
  perform-IsExplained (verify_totp hmac j token now) s h =
      verify_totp-IsExplained id start hmac j token now s h
  perform-IsExplained (update_ips j ips) s h = update_ips-IsExplained id start j ips s h
  perform-IsExplained (toggle_sandbox j enabled actor) s h =
      toggle_sandbox-IsExplained id start j enabled actor s h
  perform-IsExplained (reset_sandbox j actor) s h = reset_sandbox-IsExplained j actor s h
  perform-IsExplained (restore entity j actor) s h = restore-IsExplained entity j actor s h
  perform-IsExplained (delete_one entity j hard role actor) s h =
      delete_record-IsExplained entity j hard role actor s h

-- Whatever calls are made by whomever, the audit log accounts for the role of every account and for its
-- deletion: where the log explained them before the calls, replaying the whole log explains them after.
pub perform_each-IsExplained :
    (id : ℕ) (start : Standing) (calls : List Call) (s : Tables)
    → IsExplained id start s
    → IsExplained id start (perform_each calls s)
unfolding perform_each
perform_each-IsExplained id start [] s h = h
perform_each-IsExplained id start (call ∷ calls) s h =
    perform_each-IsExplained id start calls (perform call s) (perform-IsExplained id start call s h)

-- ===== src/Admin/Standing.antt =====
-- What an audit log says of the role and the deletion of an account (src/admin/admin.service.ts), and the writes that it goes
-- with.
use dupdap_backend.Base.{
  ℕ, ◌≡◌, ◌⊎◌, ◌∙◌, sym, ap, refl, subst, ◌==◌, ==_iff, Bool, true, false, List, [], ◌∷◌, Option,
  none, some, Option-cases, Dict, lookup, lookup-insert, if◌then◌else◌, Bool-cases, inl, inr, arith,
}
use dupdap_backend.Merchants.Records.{MerchantRole, admin}
use dupdap_backend.Admin.Tables.{
  Account, Payment, merchants, payments, other_entity, Action, status_updated, admin_created,
  admin_deleted, role_updated, sandbox_toggled, data_purged, record_restored, record_deleted,
  AuditLog, Tables, find_account, save_account, write_audit_log, put,
}
use dupdap_backend.Admin.Deletion.{delete_row}

-- The role of an account and whether it is deleted; `none` where there is no row.
abbrev pub Standing : Type 0
Standing = Option (MerchantRole × Bool)

abbrev pub seen : Option Account → Standing
seen none = none
seen (some a) = some (a.role, a.is_deleted)

abbrev pub standing : ℕ → Tables → Standing
standing id s = seen (lookup id s.accounts)

-- What an entry of the log says has happened to its target.
abbrev on_row : (MerchantRole × Bool → MerchantRole × Bool) → Standing → Standing
on_row f none = none
on_row f (some st) = some (f st)

abbrev pub effect : Action → Standing → Standing
effect (status_updated previous status) st = st
effect (admin_created email) st = some (admin, false)
effect (admin_deleted email) st = on_row (λ x. (x.0, true)) st
effect (role_updated previous role) st = on_row (λ x. (role, x.1)) st
effect (sandbox_toggled enabled) st = st
effect (data_purged deleted) st = st
effect (record_restored merchants) st = on_row (λ x. (x.0, false)) st
effect (record_restored payments) st = st
effect (record_restored other_entity) st = st
effect (record_deleted merchants true) st = none
effect (record_deleted merchants false) st = on_row (λ x. (x.0, true)) st
effect (record_deleted payments hard) st = st
effect (record_deleted other_entity hard) st = st

-- The standing that the log gives an account, from the one that it had before the log.
unfoldable pub replay : (id : ℕ) → Standing → List AuditLog → Standing
replay id start [] = start
replay id start (e ∷ audit) =
    let before = replay id start audit in if e.target == id then effect e.action before else before

-- The log explains the standing of an account.
abbrev pub IsExplained : (id : ℕ) → Standing → Tables → Type 0
IsExplained id start s = standing id s ≡ replay id start s.audit

module _ (id : ℕ) (start : Standing) where
  -- A write with an entry that says what was written.
  pub put-IsExplained :
      (actor j : ℕ) (action : Action) (a : Account) (s : Tables)
      → effect action (standing j s) ≡ seen (some a)
      → IsExplained id start s
      → IsExplained id start (put actor j action a s)
  unfolding replay
  put-IsExplained actor j action a s says h =
      rw (lookup-insert j id a s.accounts) (elim (Bool-cases (j == id)) [
        | inr other ↦ rw other h
        | inl here ↦
            let same : j ≡ id = (==_iff j id).0 here in
            rw here (
              sym (
                ap (effect action) (sym h)
                ∙ subst (λ i. effect action (standing i s) ≡ seen (some a)) same says))
      ])

  -- A write of an account whose standing is left alone.
  pub save-IsExplained :
      (j : ℕ) (a a' : Account) (s : Tables)
      → lookup j s.accounts ≡ some a
      → seen (some a') ≡ seen (some a)
      → IsExplained id start s
      → IsExplained id start (save_account j a' s)
  save-IsExplained j a a' s found same h =
      rw (lookup-insert j id a' s.accounts) (elim (Bool-cases (j == id)) [
        | inr other ↦ rw other h
        | inl here ↦ rw here (
            same
            ∙ ap seen (sym (subst (λ i. lookup i s.accounts ≡ some a) ((==_iff j id).0 here) found))
            ∙ h)
      ])

  -- A change of a row that was found, with an entry that says what has changed.
  pub change-IsExplained :
      (actor j : ℕ) (action : Action) (a a' : Account) (s : Tables)
      → lookup j s.accounts ≡ some a
      → effect action (seen (some a)) ≡ seen (some a')
      → IsExplained id start s
      → IsExplained id start (put actor j action a' s)
  change-IsExplained actor j action a a' s found says =
      put-IsExplained actor j action a' s (ap (λ o. effect action (seen o)) found ∙ says)

  -- An entry that says nothing of accounts.
  pub note-IsExplained :
      (actor j : ℕ) (action : Action) (rows : Dict Payment) (s : Tables)
      → ((st : Standing) → effect action st ≡ st)
      → IsExplained id start s
      → IsExplained id start (write_audit_log actor j action (record s { payments_table = rows }))
  unfolding replay
  note-IsExplained actor j action rows s silent h = elim (Bool-cases (j == id)) [
    | inl here ↦ rw here (h ∙ sym (silent (replay id start s.audit)))
    | inr other ↦ rw other h
  ]

  -- A row that is deleted for good.
  lookup-delete_row :
      (j : ℕ) (d : Dict Account)
      → lookup id (delete_row j d) ≡ (if j == id then none else lookup id d)
  unfolding delete_row
  lookup-delete_row j [] = ground arith
  lookup-delete_row j ((k, a) ∷ d) = ground (arith, lookup-delete_row j d)

  pub delete-IsExplained :
      (actor j : ℕ) (s : Tables)
      → IsExplained id start s
      → IsExplained id start (
          write_audit_log actor j
            (record_deleted merchants true)
            (record s { accounts = delete_row j s.accounts }))
  unfolding replay
  delete-IsExplained actor j s h =
      rw (lookup-delete_row j s.accounts)
        (elim (Bool-cases (j == id)) [ inl here ↦ rw here refl | inr other ↦ rw other h ])

pub find_account-cases :
    (j : ℕ) (s : Tables)
    → (find_account j s ≡ none)
      ⊎ ((a : Account) × (find_account j s ≡ some a) × (lookup j s.accounts ≡ some a))
find_account-cases j s = elim (Option-cases (lookup j s.accounts)) [
  | inl gone ↦ inl (rw (find_account, gone) refl)
  | inr (a, found) ↦ elim (Bool-cases a.is_deleted) [
    | inl deleted ↦ inl (rw (find_account, found, deleted) refl)
    | inr kept ↦ inr (a, rw (find_account, found, kept) refl, found)
  ]
]

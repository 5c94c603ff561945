-- ===== src/Admin/Tables.antt =====
-- The tables that src/admin/admin.service.ts changes, and how it writes them with the audit log. Of an account the columns that
-- it reads or writes are kept, without passwords and names.
use dupdap_backend.Base.{
  ℕ, Bool, true, false, List, ◌∷◌, Option, none, some, Dict, lookup, insert, if◌then◌else◌,
}
use dupdap_backend.Merchants.Records.{MerchantRole, admin, merchant, superadmin, MerchantStatus}

pub record Account : Type 0 where
  pub email : ℕ
  pub status : MerchantStatus
  pub role : MerchantRole
  -- `deletedAt` is set.
  pub is_deleted : Bool
  pub sandbox_mode : Bool
  pub totp_secret : Option (List ℕ)
  pub totp_enabled : Bool
  pub allowed_ips : Option (List ℕ)

pub record Payment : Type 0 where
  pub merchant_id : ℕ
  pub is_deleted : Bool

-- The text of `entity`.
pub data Entity : Type 0 where
  merchants payments other_entity : Entity

pub data Action : Type 0 where
  status_updated : (previous status : MerchantStatus) → Action
  admin_created : (email : ℕ) → Action
  admin_deleted : (email : ℕ) → Action
  role_updated : (previous role : MerchantRole) → Action
  sandbox_toggled : (enabled : Bool) → Action
  data_purged : (deleted : ℕ) → Action
  record_restored : Entity → Action
  record_deleted : Entity → (hard : Bool) → Action

pub record AuditLog : Type 0 where
  pub actor : ℕ
  pub target : ℕ
  pub action : Action

-- The audit log has the newest entry first.
pub record Tables : Type 0 where
  pub accounts : Dict Account
  pub payments_table : Dict Payment
  pub audit : List AuditLog

pub data AdminError : Type 0 where
  forbidden not_found already_registered email_of_deleted not_an_admin invalid_role : AdminError
  no_totp not_deleted invalid_entity : AdminError

-- `findOne({ where: { id } })`, which passes over deleted rows.
abbrev pub find_account : ℕ → Tables → Option Account
find_account id s = elim (lookup id s.accounts) [
  | none ↦ none
  | some a ↦ if a.is_deleted then none else some a
]

abbrev pub save_account : ℕ → Account → Tables → Tables
save_account id a s = record s { accounts = insert id a s.accounts }

abbrev pub write_audit_log : (actor target : ℕ) → Action → Tables → Tables
write_audit_log actor target action s = record s {
  audit = record { actor = actor; target = target; action = action } ∷ s.audit;
}

-- A write of a row and the entry for it.
abbrev pub put : (actor id : ℕ) → Action → Account → Tables → Tables
put actor id action a s = write_audit_log actor id action (save_account id a s)

abbrev pub is_superadmin : MerchantRole → Bool
is_superadmin superadmin = true
is_superadmin admin = false
is_superadmin merchant = false

abbrev pub is_admin : MerchantRole → Bool
is_admin admin = true
is_admin superadmin = false
is_admin merchant = false

-- ===== src/Admin/Deletion.antt =====
-- The operations of src/admin/admin.service.ts that delete and restore rows. A delete that a foreign key refuses is
-- not modelled.
use dupdap_backend.Base.{
  ℕ, ◌==◌, Bool, true, false, not, ◌&&◌, none, some, filter, length, Dict, lookup, insert, Result,
  ok, err, if◌then◌else◌,
}
use dupdap_backend.Merchants.Records.{MerchantRole}
use dupdap_backend.Admin.Tables.{
  Payment, Entity, merchants, payments, other_entity, Tables, AdminError, find_account, put,
  write_audit_log, is_superadmin, forbidden, not_found, not_deleted, invalid_entity, data_purged,
  record_restored, record_deleted,
}

-- A payment that `find({ where: { merchantId } })` gives.
abbrev pub belongs_to : ℕ → ℕ × Payment → Bool
belongs_to id e = e.1.merchant_id == id && not e.1.is_deleted

unfoldable pub reset_sandbox_data : (id actor : ℕ) → Tables → Result AdminError Tables
reset_sandbox_data id actor s = elim (find_account id s) [
  | none ↦ err not_found
  | some a ↦
      let deleted = length (filter (belongs_to id) s.payments_table) in
      ok (
        write_audit_log actor id (data_purged deleted)
          (record s { payments_table = filter (λ e. not (belongs_to id e)) s.payments_table }))
]

-- `delete(id)`
unfoldable pub delete_row {ℓ} : {V : Type ℓ} → ℕ → Dict V → Dict V
delete_row id d = filter (λ e. not (e.0 == id)) d

unfoldable pub restore_record : Entity → (id actor : ℕ) → Tables → Result AdminError Tables
restore_record merchants id actor s = elim (lookup id s.accounts) [
  | none ↦ err not_found
  | some a ↦
      if not a.is_deleted
      then err not_deleted
      else ok (put actor id (record_restored merchants) (record a { is_deleted = false }) s)
]
restore_record payments id actor s = elim (lookup id s.payments_table) [
  | none ↦ err not_found
  | some p ↦
      if not p.is_deleted
      then err not_deleted
      else ok (
          write_audit_log actor id (record_restored payments) (record s {
            payments_table = insert id (record p { is_deleted = false }) s.payments_table;
          }))
]
restore_record other_entity id actor s = err invalid_entity

-- The part behind the check of the actor.
unfoldable pub delete_any :
    Entity → (id : ℕ) (hard : Bool) (actor : ℕ) → Tables → Result AdminError Tables
unfolding delete_row
delete_any merchants id hard actor s = elim (lookup id s.accounts) [
  | none ↦ err not_found
  | some a ↦ ok (
      if hard
      then write_audit_log actor id (record_deleted merchants true)
          (record s { accounts = delete_row id s.accounts })
      else put actor id (record_deleted merchants false) (record a { is_deleted = true }) s)
]
delete_any payments id hard actor s = elim (lookup id s.payments_table) [
  | none ↦ err not_found
  | some p ↦ ok (
      write_audit_log actor id (record_deleted payments hard) (record s {
        payments_table =
            if hard
            then delete_row id s.payments_table
            else insert id (record p { is_deleted = true }) s.payments_table;
      }))
]
delete_any other_entity id hard actor s = err invalid_entity

unfoldable pub delete_record :
    Entity
    → (id : ℕ) (hard : Bool) (actor_role : MerchantRole) (actor : ℕ) → Tables
    → Result AdminError Tables
unfolding delete_any
delete_record entity id hard actor_role actor s =
    if hard && not (is_superadmin actor_role)
    then err forbidden
    else delete_any entity id hard actor s

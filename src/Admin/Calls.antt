-- ===== src/Admin/Calls.antt =====
-- Sequences of the calls of src/admin/admin.service.ts.
pub mod Steps
pub mod Audit
use dupdap_backend.Base.{ℕ, Bool, List, [], ◌∷◌, Result, ok, err}
use dupdap_backend.Merchants.Records.{MerchantRole, MerchantStatus}
use dupdap_backend.Admin.Tables.{Tables, AdminError, Entity}
use dupdap_backend.Admin.Accounts.{
  Outcome, update_merchant_status, bulk_update_merchant_status, create_admin, delete_admin,
  update_admin_role, setup_admin_totp, verify_admin_totp, update_admin_allowed_ips,
  toggle_sandbox_mode,
}
use dupdap_backend.Admin.Deletion.{reset_sandbox_data, restore_record, delete_record}

-- A call with the role of the one who makes it, where the service is given it.
pub data Call : Type 0 where
  update_status : (id : ℕ) (status : MerchantStatus) (actor : ℕ) → Call
  bulk_update : (ids : List ℕ) (status : MerchantStatus) (actor : ℕ) → Call
  create : (new_id email : ℕ) (actor_role : MerchantRole) (actor : ℕ) → Call
  delete : (id : ℕ) (actor_role : MerchantRole) (actor : ℕ) → Call
  update_role : (id : ℕ) (role actor_role : MerchantRole) (actor : ℕ) → Call
  setup_totp : (id : ℕ) (secret_bytes : List ℕ) → Call
  verify_totp :
      (hmac : (key : List ℕ) (counter : ℕ) → List ℕ) (id : ℕ) (token : List ℕ) (now : ℕ) → Call
  update_ips : (id : ℕ) (ips : List (List ℕ)) → Call
  toggle_sandbox : (id : ℕ) (enabled : Bool) (actor : ℕ) → Call
  reset_sandbox : (id actor : ℕ) → Call
  restore : (entity : Entity) (id actor : ℕ) → Call
  delete_one :
      (entity : Entity) (id : ℕ) (hard : Bool) (actor_role : MerchantRole) (actor : ℕ) → Call

-- A call that throws leaves everything as it was.
abbrev pub kept : Tables → Result AdminError Tables → Tables
kept s (ok s') = s'
kept s (err e) = s

abbrev pub kept_first : Tables → Result AdminError (Tables × Bool) → Tables
kept_first s (ok (s', success)) = s'
kept_first s (err e) = s

unfoldable pub perform : Call → Tables → Tables
perform (update_status id status actor) s = kept s (update_merchant_status id status actor s)
perform (bulk_update ids status actor) s = (bulk_update_merchant_status ids status actor s).1
perform (create new_id email actor_role actor) s =
    kept s (create_admin new_id email actor_role actor s)
perform (delete id actor_role actor) s = kept s (delete_admin id actor_role actor s)
perform (update_role id role actor_role actor) s =
    kept s (update_admin_role id role actor_role actor s)
perform (setup_totp id secret_bytes) s = kept s (setup_admin_totp id secret_bytes s)
perform (verify_totp hmac id token now) s = kept_first s (verify_admin_totp hmac id token now s)
perform (update_ips id ips) s = kept s (update_admin_allowed_ips id ips s)
perform (toggle_sandbox id enabled actor) s = kept s (toggle_sandbox_mode id enabled actor s)
perform (reset_sandbox id actor) s = kept s (reset_sandbox_data id actor s)
perform (restore entity id actor) s = kept s (restore_record entity id actor s)
perform (delete_one entity id hard actor_role actor) s =
    kept s (delete_record entity id hard actor_role actor s)

unfoldable pub perform_each : List Call → Tables → Tables
unfolding perform
perform_each [] s = s
perform_each (call ∷ calls) s = perform_each calls (perform call s)

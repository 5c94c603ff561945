-- ===== src/Admin/Accounts.antt =====
-- The operations of src/admin/admin.service.ts on accounts. Random values and new identifiers are arguments.
use dupdap_backend.Base.{
  ℕ, ◌==◌, Bool, true, false, not, ◌&&◌, ◌||◌, List, [], ◌∷◌, ◌++◌, none, some, any, length, Result,
  ok, err, if◌then◌else◌, is_empty,
}
use dupdap_backend.Merchants.Records.{MerchantRole, admin, MerchantStatus, active}
use dupdap_backend.Admin.Totp.{base32_encode, verify_totp_token}
use dupdap_backend.Admin.Tables.{
  Tables, AdminError, find_account, save_account, put, is_superadmin, is_admin, forbidden,
  not_found, already_registered, email_of_deleted, not_an_admin, invalid_role, no_totp,
  status_updated, admin_created, admin_deleted, role_updated, sandbox_toggled,
}

unfoldable pub update_merchant_status :
    (id : ℕ) → MerchantStatus → (actor : ℕ) → Tables → Result AdminError Tables
update_merchant_status id status actor s = elim (find_account id s) [
  | none ↦ err not_found
  | some a ↦ ok (put actor id (status_updated a.status status) (record a { status = status }) s)
]

pub record Outcome : Type 0 where
  pub success : List ℕ
  pub failed : List ℕ

-- A round of the loop.
unfoldable pub bulk_one : MerchantStatus → (actor id : ℕ) → Outcome → Tables → Outcome × Tables
bulk_one status actor id results s = elim (update_merchant_status id status actor s) [
  | err e ↦ (record results { failed = results.failed ++ id ∷ [] }, s)
  | ok s' ↦ (record results { success = results.success ++ id ∷ [] }, s')
]

unfoldable pub bulk_each :
    (ids : List ℕ) → MerchantStatus → (actor : ℕ) → Outcome × Tables → Outcome × Tables
unfolding bulk_one
bulk_each [] status actor (results, s) = (results, s)
bulk_each (id ∷ ids) status actor (results, s) =
    bulk_each ids status actor (bulk_one status actor id results s)

unfoldable pub bulk_update_merchant_status :
    (ids : List ℕ) → MerchantStatus → (actor : ℕ) → Tables → Outcome × Tables
unfolding bulk_each
bulk_update_merchant_status ids status actor s =
    bulk_each ids status actor (record { success = []; failed = [] }, s)

-- The new identifier is an argument. The column `email` is unique among all rows, deleted ones too.
unfoldable pub create_admin :
    (new_id email : ℕ) (actor_role : MerchantRole) (actor : ℕ) → Tables → Result AdminError Tables
create_admin new_id email actor_role actor s =
    if not (is_superadmin actor_role)
    then err forbidden
    else (if any (λ e. e.1.email == email && not e.1.is_deleted) s.accounts
        then err already_registered
        else (if any (λ e. e.1.email == email) s.accounts
            then err email_of_deleted
            else ok (
                put actor new_id (admin_created email)
                  (record {
                    email = email;
                    status = active;
                    role = admin;
                    is_deleted = false;
                    sandbox_mode = false;
                    totp_secret = none;
                    totp_enabled = false;
                    allowed_ips = none;
                  })
                  s)))

unfoldable pub delete_admin :
    (id : ℕ) (actor_role : MerchantRole) (actor : ℕ) → Tables → Result AdminError Tables
delete_admin id actor_role actor s =
    if not (is_superadmin actor_role) then err forbidden else elim (find_account id s) [
      | none ↦ err not_found
      | some a ↦
          if not (is_admin a.role)
          then err not_an_admin
          else ok (put actor id (admin_deleted a.email) (record a { is_deleted = true }) s)
    ]

unfoldable pub update_admin_role :
    (id : ℕ) (role actor_role : MerchantRole) (actor : ℕ) → Tables → Result AdminError Tables
update_admin_role id role actor_role actor s =
    if not (is_superadmin actor_role)
    then err forbidden
    else (if not (is_admin role || is_superadmin role)
        then err invalid_role
        else elim (find_account id s) [
          | none ↦ err not_found
          | some a ↦
              if not (is_admin a.role || is_superadmin a.role)
              then err not_an_admin
              else ok (put actor id (role_updated a.role role) (record a { role = role }) s)
        ])

-- `randomBytes(20)` is an argument.
unfoldable pub setup_admin_totp :
    (id : ℕ) (secret_bytes : List ℕ) → Tables → Result AdminError Tables
setup_admin_totp id secret_bytes s = elim (find_account id s) [
  | none ↦ err not_found
  | some a ↦ ok (save_account id (record a { totp_secret = some (base32_encode secret_bytes) }) s)
]

unfoldable pub verify_admin_totp :
    (hmac : (key : List ℕ) (counter : ℕ) → List ℕ) (id : ℕ) (token : List ℕ) (now : ℕ)
    → Tables
    → Result AdminError (Tables × Bool)
verify_admin_totp hmac id token now s = elim (find_account id s) [
  | none ↦ err not_found
  | some a ↦ elim a.totp_secret [
    | none ↦ err no_totp
    | some secret ↦
        if is_empty secret
        then err no_totp
        else (if verify_totp_token hmac secret token now
            then ok (save_account id (record a { totp_enabled = true }) s, true)
            else ok (s, false))
  ]
]

-- `ips.join(',')`
unfoldable pub join_ips : List (List ℕ) → List ℕ
join_ips [] = []
join_ips (ip ∷ []) = ip
join_ips (ip ∷ next ∷ ips) = ip ++ 44 ∷ join_ips (next ∷ ips)

unfoldable pub update_admin_allowed_ips :
    (id : ℕ) (ips : List (List ℕ)) → Tables → Result AdminError Tables
unfolding join_ips
update_admin_allowed_ips id ips s = elim (find_account id s) [
  | none ↦ err not_found
  | some a ↦ ok (
      save_account id
        (record a { allowed_ips = if length ips == 0 then none else some (join_ips ips) }) s)
]

unfoldable pub toggle_sandbox_mode :
    (id : ℕ) (enabled : Bool) (actor : ℕ) → Tables → Result AdminError Tables
toggle_sandbox_mode id enabled actor s = elim (find_account id s) [
  | none ↦ err not_found
  | some a ↦ ok (put actor id (sandbox_toggled enabled) (record a { sandbox_mode = enabled }) s)
]

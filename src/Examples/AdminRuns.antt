-- ===== src/Examples/AdminRuns.antt =====
-- Runs of the calls of administrators on concrete data.
use dupdap_backend.Base.{◌≡◌, refl, true, false, List, [], ◌∷◌, none, some, ok}
use dupdap_backend.Merchants.Records.{MerchantRole, admin, superadmin, active}
use dupdap_backend.Admin.Tables.{Account, Tables, merchants}
use dupdap_backend.Admin.Standing.{standing, replay, IsExplained}
use dupdap_backend.Admin.Accounts.{update_admin_role}
use dupdap_backend.Admin.Deletion.{delete_record}
use dupdap_backend.Admin.Calls.{Call, update_role, delete_one, perform_each}
use dupdap_backend.Admin.Calls.Audit.{perform_each-IsExplained}
use dupdap_backend.Payments.Csv.{parse_csv}
use dupdap_backend.Payments.Csv.RoundTrip.{kept}
use dupdap_backend.Admin.Export.{AuditRow, to_csv, columns}
use dupdap_backend.Admin.Export.Reading.{shown_row, parse_csv-to_csv}

abbrev account : MerchantRole → Account
account role = record {
  email = 7;
  status = active;
  role = role;
  is_deleted = false;
  sandbox_mode = false;
  totp_secret = none;
  totp_enabled = false;
  allowed_ips = none;
}

abbrev tables : Tables
tables = record {
  accounts = (1, account superadmin) ∷ (2, account admin) ∷ [];
  payments_table = [];
  audit = [];
}

-- The admin is made a superadmin, and an admin deletes the first account.
abbrev admin_calls : List Call
admin_calls =
    update_role 2 superadmin superadmin 1
    ∷ delete_one merchants 1 false admin 2
    ∷ delete_one merchants 1 true admin 2
    ∷ update_role 2 admin admin 2
    ∷ []

promoted : standing 2 (perform_each admin_calls tables) ≡ some (superadmin, false)
unfolding perform_each update_admin_role delete_record
promoted = refl

soft_deleted : standing 1 (perform_each admin_calls tables) ≡ some (superadmin, true)
unfolding perform_each update_admin_role delete_record
soft_deleted = refl

perform_each-IsExplained_example :
    IsExplained 1 (some (superadmin, false)) (perform_each admin_calls tables)
perform_each-IsExplained_example =
    perform_each-IsExplained 1 (some (superadmin, false)) admin_calls tables (unfold replay in refl)

-- The actor is `=A1,"`, and the entry has no address.
abbrev exported : AuditRow
exported = record {
  id = some (49 ∷ []);
  actor = some (61 ∷ 65 ∷ 49 ∷ 44 ∷ 34 ∷ []);
  action = some (88 ∷ []);
  resource = some (109 ∷ []);
  before = none;
  after = some (123 ∷ 34 ∷ 125 ∷ []);
  ip = none;
  created_at = some (50 ∷ 13 ∷ 10 ∷ []);
}

parse_csv-to_csv_example :
    parse_csv (to_csv (exported ∷ [])) ≡ ok (columns ∷ kept (shown_row exported ∷ []))
parse_csv-to_csv_example = parse_csv-to_csv exported []

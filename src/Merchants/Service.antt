-- ===== src/Merchants/Service.antt =====
-- src/merchants/merchants.service.ts: the operations that change a merchant. Random keys, their hashes and the clock are
-- arguments; the fields of a profile that nothing else reads are left out.
use dupdap_backend.Base.{
  ℕ, ◌+◌, ◌*◌, not, ltb, leb, List, [], ◌∷◌, ◌++◌, Option, none, some, all, any, take, Dict, lookup,
  insert, Result, ok, err, if◌then◌else◌, same_text,
}
use dupdap_backend.Merchants.Records.{Merchant, ApiScope, api_key_scopes, active}
use dupdap_backend.Security.IpAllowlist.{is_valid_ip_or_cidr}

-- 365 days.
abbrev pub max_expiry_ms : ℕ
max_expiry_ms = 365 * 24 * 60 * 60 * 1000

pub data MerchantError : Type 0 where
  not_found expiry_not_in_future expiry_too_late invalid_entries limits_crossed : MerchantError

pub data AuditEntry : Type 0 where
  ip_allowlist_updated : (actor merchant : ℕ) (before after : Option (List (List ℕ))) → AuditEntry
  key_expiry_extended : (actor merchant : ℕ) (previous : Option ℕ) (new : ℕ) → AuditEntry
  limits_updated : (actor merchant previous_single previous_daily single daily : ℕ) → AuditEntry

-- The table of the merchants, the audit log, and the mails that were queued (to whom, for which
-- expiry).
pub record Office : Type 0 where
  pub merchants : Dict Merchant
  pub audit : List AuditEntry
  pub mails : List (ℕ × ℕ)

abbrev pub find_one : ℕ → Office → Result MerchantError Merchant
find_one id office = elim (lookup id office.merchants) [ none ↦ err not_found | some m ↦ ok m ]

abbrev pub save : ℕ → Merchant → Office → Office
save id m office = record office { merchants = insert id m office.merchants }

-- The two checks of an expiry.
abbrev pub check_expiry : (now expires_at : ℕ) → Result MerchantError (Unit {0})
check_expiry now expires_at =
    if leb expires_at now
    then err expiry_not_in_future
    else (if ltb (now + max_expiry_ms) expires_at then err expiry_too_late else ok tt)

-- `rawKey.substring(0, 12) + '...'`
abbrev pub masked_key : List ℕ → List ℕ
masked_key raw_key = take 12 raw_key ++ 46 ∷ 46 ∷ 46 ∷ []

-- `scopes?.length ? scopes : API_KEY_SCOPES`
abbrev pub granted_scopes : Option (List ApiScope) → List ApiScope
granted_scopes none = api_key_scopes
granted_scopes (some []) = api_key_scopes
granted_scopes (some (scope ∷ scopes)) = scope ∷ scopes

-- The key is checked first, then the merchant is read.
unfoldable pub generate_api_key :
    (now id : ℕ) (scopes : Option (List ApiScope)) (expires_at : Option ℕ) (raw_key : List ℕ)
    (lookup_hash : ℕ)
    → Office
    → Result MerchantError Office
generate_api_key now id scopes expires_at raw_key lookup_hash office =
    let checked : Result MerchantError (Unit {0}) = elim expires_at [
      | none ↦ ok tt
      | some t ↦ check_expiry now t
    ] in
    elim checked [
      | err e ↦ err e
      | ok u ↦ elim (find_one id office) [
        | err e ↦ err e
        | ok m ↦ ok (
            save id
              (record m {
                api_key = some (masked_key raw_key);
                api_key_lookup_hash = some lookup_hash;
                scopes = some (granted_scopes scopes);
                api_key_expires_at = expires_at;
                api_key_expiry_sent_at = none;
              })
              office)
      ]
    ]

unfoldable pub extend_api_key_expiry :
    (now id new_expires_at admin_id : ℕ) → Office → Result MerchantError Office
extend_api_key_expiry now id new_expires_at admin_id office =
    elim (check_expiry now new_expires_at) [
      | err e ↦ err e
      | ok u ↦ elim (find_one id office) [
        | err e ↦ err e
        | ok m ↦
            let saved =
              save id
                (record m {
                  api_key_expires_at = some new_expires_at;
                  api_key_expiry_sent_at = none;
                })
                office in
            ok (record saved {
              audit =
                  key_expiry_extended admin_id id m.api_key_expires_at new_expires_at
                  ∷ office.audit;
            })
      ]
    ]

-- `[...new Set(cidrs)]`
unfoldable pub unique_texts : (seen cidrs : List (List ℕ)) → List (List ℕ)
unique_texts seen [] = []
unique_texts seen (cidr ∷ cidrs) =
    if any (same_text cidr) seen
    then unique_texts seen cidrs
    else cidr ∷ unique_texts (cidr ∷ seen) cidrs

abbrev pub allowlist_of : List (List ℕ) → Option (List (List ℕ))
allowlist_of [] = none
allowlist_of (cidr ∷ cidrs) = some (unique_texts [] (cidr ∷ cidrs))

-- `isIP` of Node is a parameter.
unfoldable pub set_api_key_ip_allowlist :
    (is_ip : List ℕ → ℕ) (id : ℕ) (cidrs : List (List ℕ)) → Office → Result MerchantError Office
unfolding unique_texts
set_api_key_ip_allowlist is_ip id cidrs office =
    if not (all (is_valid_ip_or_cidr is_ip) cidrs)
    then err invalid_entries
    else elim (find_one id office) [
      | err e ↦ err e
      | ok m ↦
          let after = allowlist_of cidrs in
          let saved = save id (record m { api_key_ip_allowlist = after }) office in
          ok (record saved {
            audit = ip_allowlist_updated id id m.api_key_ip_allowlist after ∷ office.audit;
          })
    ]

-- `value ?? old`, for a limit that is not given.
abbrev pub or_else : Option ℕ → ℕ → ℕ
or_else none old = old
or_else (some value) old = value

unfoldable pub update_transaction_limits :
    (id : ℕ) (single daily : Option ℕ) (admin_id : ℕ) → Office → Result MerchantError Office
update_transaction_limits id single daily admin_id office = elim (find_one id office) [
  | err e ↦ err e
  | ok m ↦
      let new_single = or_else single m.single_transaction_limit_usd in
      let new_daily = or_else daily m.daily_limit_usd in
      if ltb new_daily new_single
      then err limits_crossed
      else (let saved =
            save id
              (record m { single_transaction_limit_usd = new_single; daily_limit_usd = new_daily })
              office in
          ok (record saved {
            audit =
                limits_updated admin_id id m.single_transaction_limit_usd m.daily_limit_usd
                  new_single new_daily
                ∷ office.audit;
          }))
]

unfoldable pub verify_merchant : (id : ℕ) → Office → Result MerchantError Office
verify_merchant id office = elim (find_one id office) [
  | err e ↦ err e
  | ok m ↦ ok (save id (record m { status = active }) office)
]

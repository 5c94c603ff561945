-- ===== src/Merchants/Records.antt =====
-- The part of src/merchants/entities/merchant.entity.ts that the modelled services read or write, and
-- the scopes of src/auth/scopes.ts. Times are milliseconds.
use dupdap_backend.Base.{ℕ, List, [], ◌∷◌, Option}

pub data MerchantStatus : Type 0 where
  active suspended pending : MerchantStatus

pub data MerchantRole : Type 0 where
  admin merchant superadmin : MerchantRole

pub data ApiScope : Type 0 where
  payments_read payments_write settlements_read webhooks_manage merchant_manage : ApiScope
  analytics_read notifications_read profile_read profile_write groups_manage : ApiScope

abbrev pub api_key_scopes : List ApiScope
api_key_scopes =
    payments_read ∷ payments_write ∷ settlements_read ∷ webhooks_manage ∷ analytics_read
    ∷ notifications_read ∷ profile_read ∷ profile_write ∷ groups_manage ∷ []

-- A number for each scope, by which scopes are compared.
abbrev pub tag : ApiScope → ℕ
tag payments_read = 0
tag payments_write = 1
tag settlements_read = 2
tag webhooks_manage = 3
tag merchant_manage = 4
tag analytics_read = 5
tag notifications_read = 6
tag profile_read = 7
tag profile_write = 8
tag groups_manage = 9

pub record Merchant : Type 0 where
  pub email : ℕ
  pub status : MerchantStatus
  pub role : MerchantRole
  -- The masked key, and the hash by which it is found.
  pub api_key : Option (List ℕ)
  pub api_key_lookup_hash : Option ℕ
  pub scopes : Option (List ApiScope)
  pub api_key_ip_allowlist : Option (List (List ℕ))
  pub api_key_expires_at : Option ℕ
  pub api_key_expiry_sent_at : Option ℕ
  pub single_transaction_limit_usd : ℕ
  pub daily_limit_usd : ℕ

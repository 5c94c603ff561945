-- ===== src/Auth/Guard.antt =====
-- src/auth/guards/jwt.guard.ts. The search of a merchant by a key (`findMerchantByApiKey` of AuthService), the answer of Redis and the
-- session check of Passport (`super.canActivate`) are arguments. Clocks are arguments: `now` in milliseconds.
pub mod Admission
use dupdap_backend.Base.{
  ℕ, ◌+◌, ◌/◌, Bool, true, false, not, ◌&&◌, ◌||◌, leb, ◌==◌, List, [], ◌∷◌, ◌++◌, Option, none,
  some, any, all, filter, length, Dict, Result, ok, err, if◌then◌else◌, is_empty, trim,
}
use dupdap_backend.Merchants.Records.{
  Merchant, MerchantRole, admin, merchant, superadmin, ApiScope, tag,
}
use dupdap_backend.Security.IpAllowlist.{ip_in_cidr}
use dupdap_backend.Cache.SlidingWindow.{SlidingWindowRateLimitResult}
use dupdap_backend.Auth.RateLimit.{check_api_key_rate_limit}

-- `getClientIp` gives `client_ip`. The header is `none` where it is not a text, and the scopes are `none`
-- where no decorator names any.
pub record Request : Type 0 where
  pub api_key : Option (List ℕ)
  pub client_ip : List ℕ
  pub required_scopes : Option (List ApiScope)

pub record User : Type 0 where
  pub merchant_id : ℕ
  pub email : ℕ
  pub role : MerchantRole
  pub scopes : List ApiScope

pub data AuthError : Type 0 where
  invalid_api_key api_key_expired ip_not_allowed insufficient_scopes type_error : AuthError

-- The end of a request that did not throw: passed with a user or by its session, or answered with 429.
pub data Passage : Type 0 where
  as_api_key : User → Passage
  as_session : Bool → Passage
  too_many_requests : SlidingWindowRateLimitResult → Passage

pub record BypassEntry : Type 0 where
  pub actor : ℕ
  pub ip : List ℕ

-- The windows of the rate limiter, and the entries API_KEY_IP_ALLOWLIST_BYPASSED of the audit log.
pub record Gate : Type 0 where
  pub windows : Dict (List ℕ)
  pub audit : List BypassEntry

abbrev pub can_bypass : MerchantRole → Bool
can_bypass admin = true
can_bypass superadmin = true
can_bypass merchant = false

-- `list ?? []`
abbrev pub or_empty {ℓ} : {A : Type ℓ} → Option (List A) → List A
or_empty none = []
or_empty (some list) = list

-- `scopes.includes(scope)`
abbrev pub includes : List ApiScope → ApiScope → Bool
includes scopes scope = any (λ s. tag s == tag scope) scopes

unfoldable pub ip_is_allowed : Merchant → (client_ip : List ℕ) → Bool
ip_is_allowed m client_ip =
    let allowlist = or_empty m.api_key_ip_allowlist in
    length allowlist == 0 || any (ip_in_cidr client_ip) allowlist

unfoldable pub enforce_api_key_ip_allowlist :
    (id : ℕ)
    → Merchant
    → (client_ip : List ℕ) → List BypassEntry
    → Result AuthError (List BypassEntry)
unfolding ip_is_allowed
enforce_api_key_ip_allowlist id m client_ip audit =
    if ip_is_allowed m client_ip
    then ok audit
    else (if not (can_bypass m.role)
        then err ip_not_allowed
        else ok (record { actor = id; ip = client_ip } ∷ audit))

unfoldable pub enforce_api_key_scopes :
    (required_scopes : Option (List ApiScope)) (scopes : List ApiScope)
    → Result AuthError (Unit {0})
enforce_api_key_scopes required_scopes scopes =
    let missing = filter (λ scope. not (includes scopes scope)) (or_empty required_scopes) in
    if length missing == 0 then ok tt else err insufficient_scopes

-- `expiresAt != null && expiresAt <= now`
abbrev pub is_expired : (now : ℕ) → Merchant → Bool
is_expired now m = elim m.api_key_expires_at [ none ↦ false | some t ↦ leb t now ]

-- The request of a merchant whose key was found, once the address has passed.
unfoldable pub admit :
    (redis : Option SlidingWindowRateLimitResult) (now id : ℕ)
    → Merchant
    → (required_scopes : Option (List ApiScope)) → Gate
    → Gate × Result AuthError Passage
unfolding enforce_api_key_scopes
admit redis now id m required_scopes gate =
    let scopes = or_empty m.scopes in
    let (windows, limited) = check_api_key_rate_limit redis id m.role (now / 1000) gate.windows in
    let gate' = record gate { windows = windows } in
    elim limited [
      | none ↦ (gate', err type_error)
      | some result ↦
          if not result.allowed
          then (gate', ok (too_many_requests result))
          else elim (enforce_api_key_scopes required_scopes scopes) [
            | err e ↦ (gate', err e)
            | ok u ↦ (
              gate',
              ok (
                  as_api_key
                    (record { merchant_id = id; email = m.email; role = m.role; scopes = scopes })),
            )
          ]
    ]

-- The request with a key that was trimmed.
unfoldable pub authenticate_key :
    (find_merchant : List ℕ → Option (ℕ × Merchant)) (redis : Option SlidingWindowRateLimitResult)
    (now : ℕ)
    → Request
    → (key : List ℕ) → Gate
    → Gate × Result AuthError Passage
unfolding enforce_api_key_ip_allowlist admit
authenticate_key find_merchant redis now req key gate = elim (find_merchant key) [
  | none ↦ (gate, err invalid_api_key)
  | some (id, m) ↦
      if is_expired now m
      then (gate, err api_key_expired)
      else elim (enforce_api_key_ip_allowlist id m req.client_ip gate.audit) [
        | err e ↦ (gate, err e)
        | ok audit ↦ admit redis now id m req.required_scopes (record gate { audit = audit })
      ]
]

unfoldable pub can_activate :
    (find_merchant : List ℕ → Option (ℕ × Merchant)) (redis : Option SlidingWindowRateLimitResult)
    (session : Bool) (now : ℕ)
    → Request
    → Gate
    → Gate × Result AuthError Passage
unfolding authenticate_key
can_activate find_merchant redis session now req gate = elim req.api_key [
  | none ↦ (gate, ok (as_session session))
  | some raw_key ↦
      if is_empty (trim raw_key)
      then (gate, ok (as_session session))
      else authenticate_key find_merchant redis now req (trim raw_key) gate
]

-- ===== src/Auth/Guard/Admission.antt =====
-- Which requests with an API key pass (src/auth/guards/jwt.guard.ts).
use dupdap_backend.Base.{
  ℕ, ◌/◌, ◌≡◌, ◌↔◌, ◌⊎◌, refl, Bool, true, false, not, ◌||◌, ◌==◌, List, [], ◌∷◌, Option, none,
  some, filter, length, All, ok, err, arith, if◌then◌else◌, is_empty, trim, Bool-cases,
  Option-cases, inl, inr, subst,
}
use dupdap_backend.Merchants.Records.{Merchant, ApiScope}
use dupdap_backend.Cache.SlidingWindow.{SlidingWindowRateLimitResult}
use dupdap_backend.Auth.RateLimit.{check_api_key_rate_limit}
use dupdap_backend.Auth.Guard.{
  Request, User, Gate, BypassEntry, can_activate, authenticate_key, admit, enforce_api_key_scopes,
  enforce_api_key_ip_allowlist, ip_is_allowed, is_expired, can_bypass, or_empty, includes,
  as_api_key, insufficient_scopes, ip_not_allowed,
}

-- No scope is missing if and only if each is included.
missing_iff :
    (scopes required : List ApiScope)
    → ((length (filter (λ scope. not (includes scopes scope)) required) == 0) ≡ true)
      ↔ All (λ scope. includes scopes scope ≡ true) required
missing_iff scopes [] = (λ h. tt, λ h. refl)
missing_iff scopes (scope ∷ required) =
    let rest = missing_iff scopes required in
    elim (Bool-cases (includes scopes scope)) [
      | inl has ↦ rw has (λ h. (refl, rest.0 h), λ h. rest.1 h.1)
      | inr lacks ↦ rw lacks (λ h. absurd (ground arith), λ h. cc)
    ]

-- The two ends of the check.
enforce_api_key_scopes-cases :
    (required : Option (List ApiScope)) (scopes : List ApiScope)
    → ((enforce_api_key_scopes required scopes ≡ ok tt)
        × All (λ scope. includes scopes scope ≡ true) (or_empty required))
      ⊎ ((enforce_api_key_scopes required scopes ≡ err insufficient_scopes)
          × ¬ All (λ scope. includes scopes scope ≡ true) (or_empty required))
unfolding enforce_api_key_scopes
enforce_api_key_scopes-cases required scopes =
    let missing = filter (λ scope. not (includes scopes scope)) (or_empty required) in
    let has_all = missing_iff scopes (or_empty required) in
    elim (Bool-cases (length missing == 0)) [
      | inl has ↦ inl (rw has refl, has_all.0 has)
      | inr lacks ↦ inr (rw lacks refl, λ h. cc (has_all.1 h))
    ]

abbrev user_of : ℕ → Merchant → User
user_of id m = record {
  merchant_id = id;
  email = m.email;
  role = m.role;
  scopes = or_empty m.scopes;
}

-- Whether the rate limiter lets the call through.
abbrev pub is_within_limit : Option SlidingWindowRateLimitResult → Bool
is_within_limit none = false
is_within_limit (some r) = r.allowed

module _ (redis : Option SlidingWindowRateLimitResult) (now : ℕ) (req : Request) (gate : Gate) where
  abbrev is_limited_ok : ℕ → Merchant → Bool
  is_limited_ok id m =
      is_within_limit (check_api_key_rate_limit redis id m.role (now / 1000) gate.windows).1

  abbrev HasScopes : Merchant → Type 0
  HasScopes m =
      All (λ scope. includes (or_empty m.scopes) scope ≡ true) (or_empty req.required_scopes)

  -- What a merchant that was found must meet: the key has not expired, the address is on the allowlist or the role
  -- is one that may pass it by, the rate limiter lets the call through, and the key has every scope that the
  -- handler asks for.
  abbrev pub Meets : ℕ → Merchant → Type 0
  Meets id m =
      (is_expired now m ≡ false)
      × ((ip_is_allowed m req.client_ip || can_bypass m.role) ≡ true)
      × (is_limited_ok id m ≡ true)
      × HasScopes m

  admit_iff :
      (id : ℕ) (m : Merchant) (audit : List BypassEntry) (u : User)
      → ((admit redis now id m req.required_scopes (record gate { audit = audit })).1
          ≡ ok (as_api_key u))
        ↔ ((is_limited_ok id m ≡ true) × HasScopes m × (u ≡ user_of id m))
  unfolding admit
  admit_iff id m audit u =
      elim (Option-cases (check_api_key_rate_limit redis id m.role (now / 1000) gate.windows).1) [
        | inl failed ↦ rw (failed, admit) (λ h. cc, λ h. cc)
        | inr (r, limited) ↦ elim (Bool-cases r.allowed) [
          | inr refused ↦ rw (limited, admit) (rw refused (λ h. cc, λ h. cc))
          | inl allowed ↦
              elim (enforce_api_key_scopes-cases req.required_scopes (or_empty m.scopes)) [
                | inr (refused, lacks) ↦
                    rw (limited, admit) (rw allowed (rw refused (λ h. cc, λ h. absurd (lacks h.1))))
                | inl (passed, has) ↦
                    rw (limited, admit)
                      (rw allowed (rw passed (λ h. (refl, has, cc), λ h. rw h.2 refl)))
              ]
        ]
      ]

  -- The two ends of the check of the address.
  enforce_ip-cases :
      (id : ℕ) (m : Merchant) (audit : List BypassEntry)
      → (((ip_is_allowed m req.client_ip || can_bypass m.role) ≡ true)
          × (enforce_api_key_ip_allowlist id m req.client_ip audit
              ≡ ok (
                  if ip_is_allowed m req.client_ip
                  then audit
                  else record { actor = id; ip = req.client_ip } ∷ audit)))
        ⊎ (((ip_is_allowed m req.client_ip || can_bypass m.role) ≡ false)
            × (enforce_api_key_ip_allowlist id m req.client_ip audit ≡ err ip_not_allowed))
  unfolding enforce_api_key_ip_allowlist
  enforce_ip-cases id m audit = elim (Bool-cases (ip_is_allowed m req.client_ip)) [
    | inl on_list ↦ inl (rw on_list refl, rw on_list refl)
    | inr off ↦ elim (Bool-cases (can_bypass m.role)) [
      | inl may ↦ inl (rw (off, may) refl, rw (off, may) refl)
      | inr may_not ↦ inr (rw (off, may_not) refl, rw (off, may_not) refl)
    ]
  ]

  module _ (find_merchant : List ℕ → Option (ℕ × Merchant)) where
    found_iff :
        (key : List ℕ) (id : ℕ) (m : Merchant) (u : User)
        → find_merchant key ≡ some (id, m)
        → ((authenticate_key find_merchant redis now req key gate).1 ≡ ok (as_api_key u))
          ↔ (Meets id m × (u ≡ user_of id m))
    unfolding authenticate_key
    found_iff key id m u found = elim (Bool-cases (is_expired now m)) [
      | inl expired ↦ rw (found, authenticate_key) (rw expired (λ h. cc, λ h. absurd (cc h.0.0)))
      | inr lives ↦ elim (enforce_ip-cases id m gate.audit) [
        | inr (refused, fails) ↦
            rw (found, authenticate_key) (rw lives (rw fails (λ h. cc, λ h. absurd (cc h.0.1))))
        | inl (passed, goes_on) ↦
            let end =
              admit_iff id m
                (if ip_is_allowed m req.client_ip
                  then gate.audit
                  else record { actor = id; ip = req.client_ip } ∷ gate.audit)
                u in
            rw (found, authenticate_key)
              (rw lives (
                rw goes_on (
                  λ h. let (limited, has, same) = end.0 h in ((refl, passed, limited, has), same),
                  λ h. end.1 (h.0.2, h.0.3, h.1),
                )))
      ]
    ]

    -- The key is that of a merchant that meets the conditions, and `u` is that merchant.
    abbrev pub IsHolder : List ℕ → User → Type 0
    IsHolder key u =
        (id : ℕ) × (m : Merchant) × (find_merchant key ≡ some (id, m))
        × Meets id m
        × (u ≡ user_of id m)

    authenticate_key_iff :
        (key : List ℕ) (u : User)
        → ((authenticate_key find_merchant redis now req key gate).1 ≡ ok (as_api_key u))
          ↔ IsHolder key u
    authenticate_key_iff key u = (
      λ h. elim (Option-cases (find_merchant key)) [
        | inl unknown ↦ absurd (unfold authenticate_key in (ground (arith, unknown)))
        | inr ((id, m), found) ↦
            let (meets, same) = (found_iff key id m u found).0 h in (id, m, found, meets, same)
      ],
      λ (id, m, found, meets, same). (found_iff key id m u found).1 (meets, same),
    )

    -- A request passes with an API key as the user `u` if and only if it has a header that is not blank, the key
    -- belongs to a merchant that meets all four conditions (no expiry that has been reached; the address on the
    -- allowlist, or a role that may pass it by; the rate limit; the scopes of the handler), and `u` is that
    -- merchant with the scopes of the key.
    pub can_activate_iff :
        (session : Bool) (u : User)
        → ((can_activate find_merchant redis session now req gate).1 ≡ ok (as_api_key u)) ↔ (
            (raw : List ℕ) × (req.api_key ≡ some raw)
            × (is_empty (trim raw) ≡ false)
            × IsHolder (trim raw) u)
    unfolding can_activate
    can_activate_iff session u = (
      λ h. elim (Option-cases req.api_key) [
        | inl missing ↦ absurd (ground (arith, missing))
        | inr (raw, given) ↦ elim (Bool-cases (is_empty (trim raw))) [
          | inl blank ↦ absurd (ground (arith, given, blank))
          | inr filled ↦ (
            raw,
            given,
            filled,
            (authenticate_key_iff (trim raw) u).0 (ground (arith, given, filled)),
          )
        ]
      ],
      λ (raw, given, filled, rest).
          rw (given, can_activate) (rw filled ((authenticate_key_iff (trim raw) u).1 rest)),
    )

    admit-audit :
        (id : ℕ) (m : Merchant) (audit : List BypassEntry)
        → (admit redis now id m req.required_scopes (record gate { audit = audit })).0.audit ≡ audit
    unfolding admit
    admit-audit id m audit = ground arith

    authenticate_key-audit :
        (key : List ℕ) (id : ℕ) (m : Merchant) (u : User)
        → find_merchant key ≡ some (id, m)
        → (authenticate_key find_merchant redis now req key gate).1 ≡ ok (as_api_key u)
        → (authenticate_key find_merchant redis now req key gate).0.audit ≡ (
            if ip_is_allowed m req.client_ip
            then gate.audit
            else record { actor = id; ip = req.client_ip } ∷ gate.audit)
    unfolding authenticate_key
    authenticate_key-audit key id m u found passed =
        let (meets, same) = (found_iff key id m u found).0 passed in
        elim (enforce_ip-cases id m gate.audit) [
          | inr (refused, fails) ↦ absurd (cc (meets.1, refused))
          | inl (on_list, goes_on) ↦
              rw (found, authenticate_key) (rw meets.0 (rw goes_on (admit-audit id m _)))
        ]

    -- A request that passes from an address off the allowlist leaves exactly one new entry in the audit log, with the
    -- merchant and the address; one that passes from an address on it leaves none.
    pub can_activate-audit :
        (session : Bool) (raw : List ℕ) (id : ℕ) (m : Merchant) (u : User)
        → req.api_key ≡ some raw
        → find_merchant (trim raw) ≡ some (id, m)
        → (can_activate find_merchant redis session now req gate).1 ≡ ok (as_api_key u)
        → (can_activate find_merchant redis session now req gate).0.audit ≡ (
            if ip_is_allowed m req.client_ip
            then gate.audit
            else record { actor = id; ip = req.client_ip } ∷ gate.audit)
    can_activate-audit session raw id m u given found passed =
        elim (Bool-cases (is_empty (trim raw))) [
          | inl blank ↦ absurd (unfold can_activate in (ground (arith, given, blank, passed)))
          | inr filled ↦
              let ran : can_activate find_merchant redis session now req gate
                  ≡ authenticate_key find_merchant redis now req (trim raw) gate =
                unfold can_activate in (rw given (rw filled refl)) in
              rw ran (
                authenticate_key-audit (trim raw) id m u found
                  (subst (λ r. r.1 ≡ ok (as_api_key u)) ran passed))
        ]

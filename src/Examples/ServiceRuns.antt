-- ===== src/Examples/ServiceRuns.antt =====
-- Runs of the theorems about repeated requests, settings and notification preferences.
use dupdap_backend.Base.{
  split_on, ◌↔◌, ◌/◌, ◌-◌, ◌^◌, ℕ, ◌≡◌, ◌==◌, refl, true, List, [], ◌∷◌, none, some, Result, ok,
  err, map, arith, if◌then◌else◌, ◌+◌,
}
use dupdap_backend.Payments.Idempotency.{Request, Response, conflict, Server, intercept}
use dupdap_backend.Payments.Idempotency.Retries.{serve, intercept-serve}
use dupdap_backend.RuntimeConfig.{Settings, null_value, value_of, get, set}
use dupdap_backend.RuntimeConfig.Lookup.{get-set}
use dupdap_backend.Notifications.{Prefs, UpdateDto, sms, payment_confirmed}
use dupdap_backend.Aml.{AmlConfig, AmlFlag, Aml, high_value, amount_usd, escalate_overdue}
use dupdap_backend.Aml
use dupdap_backend.Security.IpAllowlist.{to_int, ipv4_in_cidr, reduce_octets}
use dupdap_backend.Security.Ipv6.{is_octet_text, number_of}
use dupdap_backend.Security.IpAllowlist.Networks.{ipv4_in_cidr_iff}

abbrev pay : Request
pay = record { is_post = true; request_id = some 9; id_length = 36; hash = 500 }

abbrev created : Response
created = record { status = 201; body = 77 }

-- It counts the payments that it creates.
abbrev create_payment : ℕ → ℕ × Result ℕ Response
create_payment payments = (payments + 1, ok created)

abbrev api : Server ℕ
api = record { cache = []; state = 4 }

abbrev retries : List (ℕ × Request)
retries = (101, pay) ∷ (399, record pay { hash = 501 }) ∷ []

intercept-serve_example :
    let s' = (intercept create_payment 100 pay api).0 in
    ((intercept create_payment 100 pay api).1 ≡ ok created)
    × (s'.state ≡ 5)
    × (serve create_payment retries s'
        ≡ (s', map (λ r. if 500 == r.1.hash then ok created else err conflict) retries))
intercept-serve_example =
    intercept-serve create_payment 100 9 pay created retries api refl refl refl
      ((refl, omega arith), ((refl, omega arith), tt))

abbrev settings : Settings
settings = record { configs = []; cached = (3, 10) ∷ []; audit_log = [] }

get-set_example :
    (get true (λ key. none) (some 8) 3 (set true 3 25 1 none settings).0).1
    ≡ (if true then null_value else value_of 25)
get-set_example = get-set true (λ key. none) (some 8) 3 25 1 none settings

abbrev prefs : Prefs
prefs = record {
  enabled_row = λ merchant channel event_type. none;
  phone_number = λ merchant. some 5;
}

abbrev texts_on : UpdateDto
texts_on = record {
  preferences = record { channel = sms; event_type = payment_confirmed; enabled = true } ∷ [];
  phone_number = none;
}

abbrev flag : AmlFlag
flag = record {
  merchant_id = 4;
  payment_id = 31;
  reason = high_value;
  metadata = amount_usd 12000000000;
  status = Aml.pending;
  sla_deadline = 900;
  reviewed_by = none;
  reviewed_at = none;
  review_note = none;
}

abbrev aml : Aml
aml = record { ids = 1 ∷ []; row = λ id. if id == 1 then some flag else none; emails = [] }

abbrev aml_config : AmlConfig
aml_config = record { sla_hours = none; admin_alert_email = some 2; superadmin_email = none }

-- "10.0.0.1" and "10.0.0.0"
abbrev client : List ℕ
client = 49 ∷ 48 ∷ 46 ∷ 48 ∷ 46 ∷ 48 ∷ 46 ∷ 49 ∷ []

abbrev office : List ℕ
office = 49 ∷ 48 ∷ 46 ∷ 48 ∷ 46 ∷ 48 ∷ 46 ∷ 48 ∷ []

abbrev client_int : ℕ
client_int = 167772161

abbrev office_int : ℕ
office_int = 167772160

client-to_int : to_int client ≡ some client_int
unfolding to_int split_on is_octet_text number_of reduce_octets
client-to_int = refl

office-to_int : to_int office ≡ some office_int
unfolding to_int split_on is_octet_text number_of reduce_octets
office-to_int = refl

ipv4_in_cidr_iff_example : (ipv4_in_cidr client office 8 ≡ true) ↔ (
    if 8 == 0
    then client_int ≡ office_int
    else client_int / 2 ^ (32 - 8) ≡ office_int / 2 ^ (32 - 8))
ipv4_in_cidr_iff_example =
    ipv4_in_cidr_iff client office 8 client-to_int office-to_int (omega arith)

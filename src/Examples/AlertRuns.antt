-- ===== src/Examples/AlertRuns.antt =====
-- Runs of the theorems about src/alerts.
use dupdap_backend.Base.{◌+◌, ◌≡◌, refl, [], ◌∷◌, none, some, count, arith}
use dupdap_backend.Alerts.{
  AdminAlertType-discrete, webhook_failure, AdminAlert, RaiseAlertInput, AlertConfig, Alerts,
  created,
}
use dupdap_backend.Alerts.Cooldown.{Raising, raise_each, is_counted, Holds, raise_each_quiet}

abbrev config : AlertConfig
config = record {
  stellar_failure_threshold = none;
  failure_threshold = none;
  cooldown_minutes = none;
  overdue_minutes = some 1;
  slack_webhook_url = some "https://hooks.example/alerts";
  alert_email = none;
  zepto_api_key = none;
  zepto_from_email = none;
}

abbrev input : RaiseAlertInput
input = record {
  alert_type = webhook_failure;
  dedupe_key = 8;
  message = "endpoint down";
  metadata = none;
  threshold_value = 5;
}

abbrev told : AdminAlert
told = created config 1 1000 input

abbrev one_alert : Alerts
one_alert = record { rows = told ∷ []; messages = [] }

abbrev again : Raising config
again = record { fresh = 2; now = 2000; input = input }

one_alert-Holds : Holds config webhook_failure 8 1000 told 1 one_alert
unfolding AdminAlertType-discrete
one_alert-Holds = (told, refl, refl, refl, refl)

raise_each_quiet_example :
    let s' = raise_each config (again ∷ again ∷ []) one_alert in
    (s'.messages ≡ [])
    × Holds config webhook_failure 8 1000 told
        (1 + count (is_counted config) (again ∷ again ∷ []))
        s'
raise_each_quiet_example =
    raise_each_quiet config webhook_failure 8 1000 told (again ∷ again ∷ []) 1 one_alert
      ((refl, refl, omega arith), ((refl, refl, omega arith), tt)) one_alert-Holds

abbrev nothing : Alerts
nothing = record { rows = []; messages = [] }

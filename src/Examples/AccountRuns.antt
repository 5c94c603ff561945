-- ===== src/Examples/AccountRuns.antt =====
-- Runs of the reminders, the retries, the cron jobs, the treasury queue and the slippage on concrete data.
use dupdap_backend.Base.{
  ℕ, ◌+◌, ◌≤◌, ◌==◌, ◌≡◌, refl, Bool, true, false, List, [], ◌∷◌, Option, none, some, Result, ok,
  err, if◌then◌else◌, length, count, arith,
}
use dupdap_backend.Merchants.Records.{Merchant, active, merchant}
use dupdap_backend.Merchants.Service.{Office}
use dupdap_backend.Merchants.Calls.{Call, remind, extend, sets_expiry, perform_each}
use dupdap_backend.Merchants.Pending.{sent_to, pending}
use dupdap_backend.Merchants.KeyReminders.Once.{perform_each-sent}
use dupdap_backend.Retry.{RetryConfig, run}
use dupdap_backend.Retry.Runs.{sleeps_between, run_lem}
use dupdap_backend.Cron.{CronJobs, CronJobLog, begin_run}
use dupdap_backend.Cron.Exclusion
use dupdap_backend.Cron.Exclusion.{Reach, IsExclusive, Reach-IsExclusive}
use dupdap_backend.Cron.Lost.{IsIdle, Reach-IsIdle}
use dupdap_backend.Stellar.TxQueue.{Horizon, IsHorizon, HorizonError, submit_each}
use dupdap_backend.Stellar.TxQueue.AtMostOnce.{total, submit_each-bounds}
use dupdap_backend.Wallet.Slippage.{Slippage}

abbrev holder : Merchant
holder = record {
  email = 4;
  status = active;
  role = merchant;
  api_key = none;
  api_key_lookup_hash = none;
  scopes = none;
  api_key_ip_allowlist = none;
  api_key_expires_at = some 5000;
  api_key_expiry_sent_at = none;
  single_transaction_limit_usd = 10;
  daily_limit_usd = 100;
}

abbrev office : Office
office = record { merchants = (1, holder) ∷ []; audit = []; mails = [] }

abbrev calls : List Call
calls =
    remind (λ id. true) 1000
    ∷ remind (λ id. true) 2000
    ∷ extend 3000 1 9000 2
    ∷ remind (λ id. true) 4000
    ∷ []

perform_each-sent_example :
    sent_to 1 (perform_each calls office)
    ≤ sent_to 1 office + pending 1 office + count (sets_expiry 1) calls
perform_each-sent_example = perform_each-sent 1 calls office (tt, tt)

abbrev retry_config : RetryConfig
retry_config = record { max_attempts = 3; delays_ms = 100 ∷ 0 ∷ [] }

abbrev task : ℕ → Result ℕ ℕ
task i = if i == 2 then ok 7 else err i

run_lem_example :
    run task retry_config
    ≡ (record { result = task 2; calls = 2 + 1; sleeps = sleeps_between retry_config 0 2 })
run_lem_example = run_lem task retry_config 2 (omega arith) (λ i h. ground arith) (λ h. cc)

abbrev jobs : CronJobs
jobs = record { running_jobs = []; logs = []; races = []; working = [] }

abbrev accepts : CronJobLog → Bool
accepts row = true

Reach-IsExclusive_example : IsExclusive (begin_run accepts 50 1 8 jobs).0
Reach-IsExclusive_example =
    Reach-IsExclusive accepts {s = jobs} (tt, λ job. (omega arith, omega arith))
      (Exclusion.next Exclusion.here (Exclusion.begin 50 1 8 jobs tt))

abbrev needs_duration : CronJobLog → Bool
needs_duration row = elim row.duration_ms [ none ↦ false | some t ↦ true ]

refuses_missing : (row : CronJobLog) → row.duration_ms ≡ none → needs_duration row ≡ false
refuses_missing row h = ground (arith, h)

Reach-IsIdle_example : IsIdle (begin_run needs_duration 50 1 8 jobs).0
Reach-IsIdle_example =
    Reach-IsIdle needs_duration refuses_missing {s = jobs} (refl, refl)
      (Exclusion.next Exclusion.here (Exclusion.begin 50 1 8 jobs tt))

abbrev bad_seq : HorizonError
bad_seq = record {
  is_answer = true;
  error_is_bad_seq = true;
  transaction_is_bad_seq = false;
  operation_is_bad_seq = false;
}

-- A network with one account: a transaction is the sequence number that it carries.
abbrev horizon : Horizon
horizon = record {
  Ledger = ℕ × List ℕ;
  Tx = ℕ;
  load_account = λ l. some l.0;
  submit_transaction =
      λ l tx. if tx == l.0 + 1 then ((l.0 + 1, tx ∷ l.1), ok tx) else (l, err bad_seq);
  others = λ l. (l.0 + 1, l.1);
  may_apply = λ l. l.1;
}

horizon-IsHorizon : IsHorizon horizon
horizon-IsHorizon = record {
  submit-adds = λ l tx. ground arith;
  submit-bad_seq = λ l tx e h b. ground arith;
  others-adds = λ l. omega arith;
}

abbrev builds : List (ℕ → Option ℕ)
builds = (λ sequence. some (sequence + 1)) ∷ (λ sequence. some (sequence + 2)) ∷ []

submit_each-bounds_example :
    (length (submit_each horizon builds (5, [])).1 ≡ length builds)
    × (total horizon horizon-IsHorizon (submit_each horizon builds (5, [])).0
        ≤ total horizon horizon-IsHorizon (5, []) + length builds)
submit_each-bounds_example = submit_each-bounds horizon horizon-IsHorizon builds (5, [])

abbrev slippage : Slippage
slippage = record { max_slippage_bps = none; events = [] }

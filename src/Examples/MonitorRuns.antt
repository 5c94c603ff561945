-- ===== src/Examples/MonitorRuns.antt =====
-- Runs of the theorems about the scan of pending payments.
use dupdap_backend.Base.{
  ℕ, ◌≡◌, refl, true, false, [], ◌∷◌, Option, none, some, ok, ◌==◌, if◌then◌else◌,
}
use dupdap_backend.Settlements.{unconfirmed, settled}
use dupdap_backend.Stellar.EscrowMonitor.{SorobanEvent, release, named, throws}
use dupdap_backend.Stellar.Monitor.Escrow.{Follows}
use dupdap_backend.Stellar.Monitor.Cases.{before_poll}
use dupdap_backend.Stellar.Monitor.{Horizon, EscrowFeed, scan_pending_payments}
use dupdap_backend.Stellar.Payments.{World, Monitor, Payment, Transaction, idle, usdc}
use dupdap_backend.Stellar.Monitor.Paid.{Decided, scan_pending_payments-Paid}
use dupdap_backend.Stellar.Monitor.Notices.{notices, scan_pending_payments-notices}

abbrev world : World
world = record {
  settles = λ call. true;
  verify = λ hash memo. record { verified = true; amount = 250; asset = usdc; from = some 3 };
  email_enabled = λ merchant. true;
  sms_enabled = λ merchant. true;
}

abbrev awaited : Payment
awaited = record {
  merchant_id = 4;
  reference = 71;
  escrow_payment_id = none;
  merchant = some (record { id = 4; has_email = true; has_sms_phone_number = true });
  status = unconfirmed;
  stellar_memo = some 8;
  expires_at = 900;
  tx_hash = none;
  confirmed_at = none;
  customer_wallet_address = none;
  amount_usdc = none;
  amount_xlm = none;
}

abbrev transfer : Transaction
transfer = record { paging_token = 60; ledger = some 12; memo = some 8; hash = 77 }

abbrev horizon : Horizon
horizon = record {
  circuit_open = false;
  deposit_address = some 5;
  transactions = λ cursor. some (transfer ∷ []);
  current_ledger = some 14;
}

abbrev table : ℕ → Option Payment
table n =
    if n == 1
    then some awaited
    else if n == 2
    then some (record awaited { reference = 72; status = settled })
    else none

abbrev books : Monitor
books = record {
  ids = 1 ∷ 2 ∷ [];
  row = table;
  cursor = none;
  last_processed_ledger = none;
  lag_ledgers = 0;
  last_run_status = idle;
  calls = [];
  alerts = [];
  escrow = record {
    processed_event_ids = [];
    start_ledger = 0;
    state_loaded = false;
    stored_cursor = none;
    stored_ids = none;
    payments = [];
    alerts = [];
  };
}

-- A release event names payment 1; no balance query returns.
abbrev release_event : SorobanEvent
release_event = record {
  id = 31;
  topic = some (named release) ∷ [];
  payment_id = some 71;
  payment_id_camel = none;
}

abbrev feed : EscrowFeed
feed = record {
  contract_id = some 2;
  cache = record { has_cache = false; reads = false; writes = false };
  outside = record { balance = λ id. throws; raises = λ alert. true; saves = λ payment. true };
  get_events = λ start. ok (record { events = release_event ∷ []; latest_ledger = 15 });
}

scan_pending_payments-Paid_example :
    (mid : Payment) × Decided world awaited horizon 1000 books (some mid)
    × Follows feed
        (before_poll world horizon 1000 books)
        1
        mid
        ((scan_pending_payments world horizon feed 1000 books).row 1)
scan_pending_payments-Paid_example =
    scan_pending_payments-Paid world awaited horizon feed 1000 1 books refl

scan_pending_payments-notices_example :
    notices (scan_pending_payments world horizon feed 1000 books) ≡ 0
scan_pending_payments-notices_example = scan_pending_payments-notices world horizon feed 1000 books

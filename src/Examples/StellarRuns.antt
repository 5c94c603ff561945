-- ===== src/Examples/StellarRuns.antt =====
-- Runs of the theorems about the event indexer and the monitors.
use dupdap_backend.Base.{
  ℕ, zero, suc, ◌≡◌, ◌≤◌, ◌<◌, refl, sym, Bool, true, false, List, [], ◌∷◌, Option, none, some,
  Result, ok, length, ltb, arith, subst, All,
}
use dupdap_backend.Stellar.EventIndexer.{
  Progress, Indexer, handle_event, handle_events, dispatch, enqueue_dead_letter, poll_pages,
  poll_events, end_poll, last_token, last_ledger,
}
use dupdap_backend.Stellar.Events.{
  other_topic, settlement_completed, payment_confirmed, EventValue, SorobanRpcEvent,
  SorobanContractEventDto, SorobanEventsResponse, invalid_payment_confirmed,
  settlement_completed_dto, parse_event, to_settlement_completed_dto, to_payment_confirmed_dto,
  page_limit,
}
use dupdap_backend.Stellar.EventIndexer.Accounting.{Accounts, handle_events-Accounts}
use dupdap_backend.Stellar.EventIndexer.Paging.{poll_pages-terminates}
use dupdap_backend.Stellar.EventIndexer.Cursor.{IsBehind}
use dupdap_backend.Stellar.EventIndexer.Source.{IsSourced, poll_events-cursor}
use dupdap_backend.Settlements.{unconfirmed}
use dupdap_backend.Stellar.EscrowMonitor.{
  Payment, SorobanEvent, Monitor, CacheHealth, named, other_text, deposit, window_size,
  poll_escrow_events, Outside, holds, throws,
}
use dupdap_backend.Stellar.EscrowMonitor
use dupdap_backend.Stellar.EscrowMonitor.Deposits.{IsCovered, poll_escrow_events-IsCovered}
use dupdap_backend.Stellar.EscrowMonitor.Window.{handle_events-redelivered}

abbrev no_value : EventValue
no_value = record {
  payment_reference = none;
  reference = none;
  tx_hash = none;
  amount = none;
  asset = none;
  from = none;
  settlement_id = none;
  partner_reference = none;
}

abbrev settlement_value : EventValue
settlement_value = record no_value {
  settlement_id = some (record { as_text = 55 ∷ []; as_number = some 7; is_text = true });
}

abbrev settled_event : SorobanRpcEvent
settled_event = record {
  id = 1;
  paging_token = 5;
  ledger = some 12;
  ledger_closed_at = 900;
  contract_id = 3;
  topic = settlement_completed ∷ [];
  value = settlement_value;
}

-- It names no payment.
abbrev broken_event : SorobanRpcEvent
broken_event = record settled_event { id = 2; topic = payment_confirmed ∷ []; value = no_value }

abbrev unknown_event : SorobanRpcEvent
unknown_event = record settled_event { id = 3; topic = other_topic 4 ∷ [] }

abbrev all_settle : SorobanContractEventDto → Bool
all_settle dto = true

abbrev fresh : Progress
fresh = record { emitted = []; dead_letters = []; cursor_ledger = 10; event_count = 0 }

handle_events-Accounts_example :
    Accounts all_settle
      (settled_event ∷ broken_event ∷ unknown_event ∷ [])
      fresh
      (handle_events all_settle (settled_event ∷ broken_event ∷ unknown_event ∷ []) fresh)
handle_events-Accounts_example =
    handle_events-Accounts all_settle (settled_event ∷ broken_event ∷ unknown_event ∷ []) fresh

abbrev idle : Indexer
idle = record {
  polling = false;
  skipped_polls = 2;
  stored_cursor = some 10;
  emitted = [];
  dead_letters = [];
  stalled_alerts = [];
}

abbrev one_page : (start_ledger page_cursor : Option ℕ) → Result ℕ SorobanEventsResponse
one_page start_ledger page_cursor =
    ok (record { events = settled_event ∷ broken_event ∷ []; latest_ledger = 20 })

abbrev after : Indexer
after = record idle {
  skipped_polls = 0;
  stored_cursor = some 12;
  emitted = settlement_completed_dto settled_event (55 ∷ []) none ∷ [];
  dead_letters = record { event = broken_event; error = invalid_payment_confirmed } ∷ [];
}

one_page-poll_events : poll_events all_settle one_page 1 idle ≡ some (after, ok 1)
unfolding poll_events end_poll poll_pages handle_events handle_event parse_event
    to_settlement_completed_dto to_payment_confirmed_dto dispatch enqueue_dead_letter
one_page-poll_events = refl

poll_events-cursor_example :
    (last_ledger idle ≤ last_ledger after)
    × All (IsBehind all_settle (last_ledger after)) after.emitted
    × IsSourced all_settle one_page (last_ledger idle) (last_ledger after) after.emitted
poll_events-cursor_example = poll_events-cursor all_settle one_page 1 idle tt one_page-poll_events

-- A full page, and nothing behind it.
abbrev copies : ℕ → List SorobanRpcEvent
copies zero = []
copies (suc n) = settled_event ∷ copies n

abbrev two_pages : (start_ledger page_cursor : Option ℕ) → Result ℕ SorobanEventsResponse
two_pages start_ledger none = ok (record { events = copies 200; latest_ledger = 20 })
two_pages start_ledger (some token) = ok (record { events = []; latest_ledger = 20 })

abbrev behind : Option ℕ → ℕ
behind none = 1
behind (some token) = 0

two_pages-advances :
    (start_ledger page_cursor : Option ℕ) (response : SorobanEventsResponse)
    → two_pages start_ledger page_cursor ≡ ok response
    → ltb (length response.events) page_limit ≡ false
    → behind (last_token response.events) < behind page_cursor
two_pages-advances start_ledger none response got full =
    let page : SorobanEventsResponse = record { events = copies 200; latest_ledger = 20 } in
    let same : page ≡ response = cc in
    subst (λ r. behind (last_token r.events) < 1) same (omega arith)
two_pages-advances start_ledger (some token) response got full =
    let page : SorobanEventsResponse = record { events = []; latest_ledger = 20 } in
    let same : page ≡ response = cc in
    let long : ltb (length page.events) page_limit ≡ false =
      subst (λ r. ltb (length r.events) page_limit ≡ false) (sym same) full in
    cc

poll_pages-terminates_example :
    (outcome : Progress × Result ℕ (Unit {0})) × (poll_pages all_settle two_pages 2
        (some 11)
        none
        fresh
      ≡ some outcome)
poll_pages-terminates_example =
    poll_pages-terminates all_settle two_pages behind two_pages-advances 2 (some 11) none fresh
      (omega arith)

abbrev deposited : SorobanEvent
deposited = record {
  id = 41;
  topic = some other_text ∷ some (named deposit) ∷ [];
  payment_id = some 8;
  payment_id_camel = none;
}

abbrev open_payment : Payment
open_payment = record {
  id = 1;
  reference = 8;
  escrow_payment_id = none;
  status = unconfirmed;
  amount_usdc = some 500;
}

abbrev watch : Monitor
watch = record {
  processed_event_ids = 40 ∷ [];
  start_ledger = 10;
  state_loaded = false;
  stored_cursor = some 11;
  stored_ids = some (39 ∷ []);
  payments = open_payment ∷ [];
  alerts = [];
}

abbrev redis : CacheHealth
redis = record { has_cache = true; reads = true; writes = true }

-- The contract holds less than ten stroops for each millionth.
abbrev short_balance : Outside
short_balance = record {
  balance = λ id. holds 4999;
  raises = λ alert. true;
  saves = λ payment. true;
}

abbrev deposit_feed : ℕ → Result ℕ EscrowMonitor.SorobanEventsResponse
deposit_feed start = ok (record { events = deposited ∷ []; latest_ledger = 30 })

poll_escrow_events-IsCovered_example :
    All
      (IsCovered short_balance)
      (poll_escrow_events (some 2) redis short_balance deposit_feed watch).0.payments
poll_escrow_events-IsCovered_example =
    poll_escrow_events-IsCovered short_balance (some 2) redis deposit_feed watch (tt, tt)

-- A balance query that throws leaves the page after the identifier was added.
abbrev throwing : Outside
throwing = record short_balance { balance = λ id. throws }

deposit_throws :
    EscrowMonitor.handle_events throwing (deposited ∷ []) watch
    ≡ (record watch { processed_event_ids = 40 ∷ 41 ∷ [] }, false)
unfolding EscrowMonitor.handle_events EscrowMonitor.handle_event EscrowMonitor.process_escrow_event
    EscrowMonitor.extract_topic EscrowMonitor.remember
deposit_throws = refl

handle_events-redelivered_example :
    let s' = (EscrowMonitor.handle_events short_balance (deposited ∷ []) watch).0 in
    EscrowMonitor.handle_events short_balance (deposited ∷ []) s' ≡ (s', true)
unfolding EscrowMonitor.handle_events EscrowMonitor.handle_event EscrowMonitor.process_escrow_event
    EscrowMonitor.extract_topic
handle_events-redelivered_example =
    handle_events-redelivered short_balance (deposited ∷ []) watch (omega arith) refl

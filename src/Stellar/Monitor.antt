-- ===== src/Stellar/Monitor.antt =====
-- src/stellar/stellar-monitor.service.ts: the scan that confirms payments that have arrived and expires the
-- ones that have not. What Horizon, the contract, the webhooks, the settlements and the mail queue answer
-- is an argument, `World`, which says of each call whether it settles; the calls are kept in their order.
-- A scan runs as a whole. The table is keyed by the id and lists its rows in the order of a
-- query. The alerts that the scan raises outside the Soroban monitor are taken to be raised without a
-- throw. Texts of mails are left out, and so is `updateLag`'s log.
pub mod Effects
pub mod Cases
pub mod Escrow
pub mod Moves
pub mod Paid
pub mod Notices
use dupdap_backend.Base.{
  ℕ, ◌-◌, Bool, true, false, not, ◌&&◌, ltb, ◌==◌, List, [], ◌∷◌, ◌++◌, Option, none, some, Result,
  ok, err, any, find, filter, if◌then◌else◌,
}
use dupdap_backend.Settlements.{StoredPaymentStatus, unconfirmed, confirmed, expired}
use dupdap_backend.Stellar.EscrowMonitor.{
  same_status, CacheHealth, Outside, SorobanEventsResponse, poll_escrow_events,
}
use dupdap_backend.Stellar.EscrowMonitor
use dupdap_backend.Stellar.Payments.{
  Call, Monitor, Payment, Transaction, Verification, World, confirm_failed, contract_confirm,
  contract_expire, enqueue_sms, expire_failed, failed, fetch_failed, initiate_settlement,
  queue_email, succeeded, usdc, webhook_confirmed, webhook_expired, xlm,
}

abbrev pub is_pending : Payment → Bool
is_pending payment = same_status payment.status unconfirmed

-- `save`
abbrev pub save : ℕ → Payment → Monitor → Monitor
save id payment s = record s { row = λ other. if other == id then some payment else s.row other }

-- `where: { status: PENDING, stellarMemo: memo }`
unfoldable pub awaits : (memo : ℕ) → Monitor → ℕ → Bool
awaits memo s id = elim (s.row id) [
  | none ↦ false
  | some payment ↦
      is_pending payment
      && elim payment.stellar_memo [ none ↦ false | some stored ↦ stored == memo ]
]

-- The refetch under the lock: by id and status, without relations.
unfoldable pub find_locked : ℕ → Monitor → Option Payment
find_locked id s = elim (s.row id) [
  | none ↦ none
  | some payment ↦ if is_pending payment then some (record payment { merchant = none }) else none
]

unfoldable pub as_confirmed : (now hash : ℕ) → Verification → Payment → Payment
as_confirmed now hash result locked = record locked {
  status = confirmed;
  tx_hash = some hash;
  confirmed_at = some now;
  customer_wallet_address = result.from;
  amount_usdc = elim result.asset [ usdc ↦ some result.amount | xlm ↦ locked.amount_usdc ];
  amount_xlm = elim result.asset [ usdc ↦ locked.amount_xlm | xlm ↦ some result.amount ];
}

-- The rows that `expireOldPayments` reads, with their ids.
unfoldable pub old_payments : (now : ℕ) → Monitor → List ℕ → List (ℕ × Payment)
old_payments now s [] = []
old_payments now s (id ∷ ids) = elim (s.row id) [
  | none ↦ old_payments now s ids
  | some payment ↦
      if is_pending payment && ltb payment.expires_at now
      then (id, payment) ∷ old_payments now s ids
      else old_payments now s ids
]

-- The cursor and the ledger move on with each transaction.
unfoldable pub note : Transaction → Monitor → Monitor
note tx s = record s {
  cursor = some tx.paging_token;
  last_processed_ledger = elim tx.ledger [
    | none ↦ s.last_processed_ledger
    | some ledger ↦ some ledger
  ];
}

module _ (world : World) where
  -- Calls one after the other until one throws.
  unfoldable pub perform : List Call → Monitor → Monitor × Bool
  perform [] s = (s, true)
  perform (call ∷ rest) s =
      let s' = record s { calls = s.calls ++ call ∷ [] } in
      let done = perform rest s' in if world.settles call then done else (s', false)

  -- `queuePaymentConfirmedEmail` and `queuePaymentConfirmedSms`
  unfoldable pub email_calls : ℕ → Payment → List Call
  email_calls id payment = elim payment.merchant [
    | none ↦ []
    | some merchant ↦
        if merchant.has_email && world.email_enabled merchant.id then queue_email id ∷ [] else []
  ]

  unfoldable pub sms_calls : ℕ → Payment → List Call
  sms_calls id payment = elim payment.merchant [
    | none ↦ []
    | some merchant ↦
        if merchant.has_sms_phone_number && world.sms_enabled merchant.id
        then enqueue_sms id ∷ []
        else []
  ]

  -- The transaction: a throw takes the row back, but not the calls that have gone out. The Boolean
  -- says whether it settled.
  unfoldable pub confirm_payment : (now id hash : ℕ) → Verification → Monitor → Monitor × Bool
  confirm_payment now id hash result s = elim (find_locked id s) [
    | none ↦ (s, true)
    | some locked ↦
        let (asked, was_confirmed) = perform (contract_confirm id ∷ []) s in
        let row = as_confirmed now hash result locked in
        let effects =
          email_calls id row
          ++ sms_calls id row
          ++ webhook_confirmed id ∷ initiate_settlement id ∷ [] in
        let (done, settled) = perform effects (save id row asked) in
        if not was_confirmed
        then (asked, false)
        else if settled
        then (done, true)
        else (record done { row = s.row }, false)
  ]

  -- The part of the loop's body for a transaction with a memo.
  unfoldable pub handle_memo : (now memo : ℕ) → Transaction → Monitor → Monitor
  handle_memo now memo tx seen = elim (find (awaits memo seen) seen.ids) [
    | none ↦ seen
    | some id ↦
        let result = world.verify tx.hash memo in
        let (s', settled) = confirm_payment now id tx.hash result seen in
        if not result.verified
        then seen
        else if settled
        then s'
        else record s' { alerts = s'.alerts ++ confirm_failed id ∷ [] }
  ]

  -- The body of the loop over the transactions.
  unfoldable pub handle_transaction : (now : ℕ) → Transaction → Monitor → Monitor
  handle_transaction now tx s = elim tx.memo [
    | none ↦ note tx s
    | some memo ↦ handle_memo now memo tx (note tx s)
  ]

  unfoldable pub handle_transactions : (now : ℕ) → List Transaction → Monitor → Monitor
  handle_transactions now [] s = s
  handle_transactions now (tx ∷ txs) s = handle_transactions now txs (handle_transaction now tx s)

  -- The body of its loop. The row that was read is written, without a look at the table.
  unfoldable pub expire_one : ℕ → Payment → Monitor → Monitor
  expire_one id payment s =
      let (asked, was_expired) = perform (contract_expire id ∷ []) s in
      let (done, sent) =
        perform (webhook_expired id ∷ []) (save id (record payment { status = expired }) asked) in
      if not was_expired
      then record asked { alerts = asked.alerts ++ expire_failed id ∷ [] }
      else if sent
      then done
      else record done { alerts = done.alerts ++ expire_failed id ∷ [] }

  unfoldable pub expire_each : List (ℕ × Payment) → Monitor → Monitor
  expire_each [] s = s
  expire_each ((id, payment) ∷ rest) s = expire_each rest (expire_one id payment s)

  unfoldable pub expire_old_payments : (now : ℕ) → Monitor → Monitor
  expire_old_payments now s = expire_each (old_payments now s s.ids) s

-- `updateLag`; no current ledger leaves the lag as it is.
unfoldable pub update_lag : (current_ledger : Option ℕ) → Monitor → Monitor
update_lag none s = s
update_lag (some current) s = record s {
  lag_ledgers = elim s.last_processed_ledger [
    | none ↦ current - current
    | some last ↦ current - last
  ];
}

-- What Horizon answers to one scan.
pub record Horizon : Type 0 where
  pub circuit_open : Bool
  pub deposit_address : Option ℕ
  pub transactions : (cursor : Option ℕ) → Option (List Transaction)
  pub current_ledger : Option ℕ

-- What the Soroban monitor meets in one scan.
pub record EscrowFeed : Type 0 where
  pub contract_id : Option ℕ
  pub cache : CacheHealth
  pub outside : Outside
  pub get_events : (start_ledger : ℕ) → Result (Unit {0}) SorobanEventsResponse

-- A row as the Soroban monitor reads it, and all rows in their order.
abbrev pub escrow_row : ℕ → Payment → EscrowMonitor.Payment
escrow_row id payment = record {
  id = id;
  reference = payment.reference;
  escrow_payment_id = payment.escrow_payment_id;
  status = payment.status;
  amount_usdc = payment.amount_usdc;
}

unfoldable pub escrow_rows : (ℕ → Option Payment) → List ℕ → List EscrowMonitor.Payment
escrow_rows row [] = []
escrow_rows row (id ∷ ids) =
    let rest = escrow_rows row ids in
    elim (row id) [ none ↦ rest | some payment ↦ escrow_row id payment ∷ rest ]

abbrev pub has_escrow_id : ℕ → EscrowMonitor.Payment → Bool
has_escrow_id id payment = payment.id == id

-- The table with the statuses that the Soroban monitor has saved.
unfoldable pub written_row :
    List EscrowMonitor.Payment → (row : ℕ → Option Payment) → ℕ → Option Payment
written_row saved row id = elim (row id) [
  | none ↦ none
  | some payment ↦ elim (find (has_escrow_id id) saved) [
    | none ↦ some payment
    | some stored ↦ some (record payment { status = stored.status })
  ]
]

-- `sorobanMonitor.pollEscrowEvents()` on the table; the Boolean says whether it returned.
unfoldable pub poll_escrow : EscrowFeed → Monitor → Monitor × Bool
poll_escrow feed s =
    let polled =
      poll_escrow_events feed.contract_id feed.cache feed.outside feed.get_events
        (record s.escrow { payments = escrow_rows s.row s.ids }) in
    (record s { escrow = polled.0; row = written_row polled.0.payments s.row }, polled.1)

-- The end of `scanPendingPayments`, from the poll of the Soroban monitor on.
unfoldable pub end_scan : Horizon → EscrowFeed → Monitor → Monitor
end_scan horizon feed s =
    let polled = poll_escrow feed s in
    if polled.1
    then record (update_lag horizon.current_ledger polled.0) { last_run_status = succeeded }
    else record polled.0 { last_run_status = failed }

unfoldable pub scan_pending_payments : World → Horizon → EscrowFeed → (now : ℕ) → Monitor → Monitor
scan_pending_payments world horizon feed now s =
    if horizon.circuit_open then s else elim horizon.deposit_address [
      | none ↦ record s { last_run_status = succeeded }
      | some address ↦ elim (horizon.transactions s.cursor) [
        | none ↦ record s { alerts = s.alerts ++ fetch_failed ∷ []; last_run_status = failed }
        | some txs ↦
            end_scan horizon feed
              (expire_old_payments world now (handle_transactions world now txs s))
      ]
    ]

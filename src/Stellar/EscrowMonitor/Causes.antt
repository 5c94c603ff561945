-- ===== src/Stellar/EscrowMonitor/Causes.antt =====
-- Which events change the status of a payment (src/stellar/soroban-monitor.service.ts).
use dupdap_backend.Base.{
  ℕ, ◌≡◌, refl, Bool, true, false, not, ◌&&◌, ◌||◌, List, [], ◌∷◌, Option, none, some, Result, ok,
  err, arith, Result-cases, Option-cases, Bool-cases, List-cases, inl, inr, ltb, All, find,
  find-passes, find-All, ◌==◌,
}
use dupdap_backend.Settlements.{StoredPaymentStatus}
use dupdap_backend.Stellar.EscrowMonitor.{
  Payment, SorobanEvent, SorobanEventsResponse, Monitor, CacheHealth, EscrowEventTopic, Outside,
  throws, unavailable, holds, deposit, release, refund, expired_event, dispute,
  matches_escrow_payment_id, expected_stroops, StoredPaymentStatus-discrete, verify_deposit_balance,
  apply_topic, process_matched, process_escrow_event, handle_event, handle_events, save,
  same_status, extract_topic, payment_id_of, map_topic_to_status, is_deposit, poll_escrow_events,
  load_state, save_cursor, save_ids, has_id, remember, end_page,
}

All-save :
    (P : Payment → Type 0) (row : Payment) (rows : List Payment)
    → P row
    → All P rows
    → All P (save row rows)
All-save P row [] new h = tt
All-save P row (stored ∷ rows) new h = elim (Bool-cases (stored.id == row.id)) [
  | inl same ↦ rw same (new, All-save P row rows new h.1)
  | inr other ↦ rw other (h.0, All-save P row rows new h.1)
]

topic-same :
    (topic : EscrowEventTopic)
    → same_status (map_topic_to_status topic) (map_topic_to_status topic) ≡ true
unfolding map_topic_to_status StoredPaymentStatus-discrete
topic-same deposit = refl
topic-same release = refl
topic-same refund = refl
topic-same expired_event = refl
topic-same dispute = refl

module _ (outside : Outside) where
  -- Whether the balance lets a deposit pass: enough is there, or the answer is that it is not known.
  abbrev pub is_enough : ℕ → Payment → Bool
  is_enough id payment = elim (outside.balance id) [
    | throws ↦ false
    | unavailable ↦ true
    | holds on_chain ↦ not (ltb on_chain (expected_stroops payment))
  ]

  abbrev pub passes : EscrowEventTopic → ℕ → Payment → Bool
  passes topic id payment = not (is_deposit topic) || is_enough id payment

  -- An event names the payment, its topic stands for the status that the payment has, and the
  -- balance was enough if it is a deposit.
  unfoldable pub is_cause : SorobanEvent → Payment → Bool
  is_cause event payment = elim (extract_topic event.topic) [
    | none ↦ false
    | some topic ↦ elim (payment_id_of event) [
      | none ↦ false
      | some id ↦
          matches_escrow_payment_id id payment
          && (same_status payment.status (map_topic_to_status topic) && passes topic id payment)
    ]
  ]

  -- What holds of the payments and survives the changes that an event is the cause of.
  abbrev pub Survives : (Payment → Type 0) → SorobanEvent → Type 0
  Survives P event =
      (payment : Payment) (status : StoredPaymentStatus)
      → P payment
      → is_cause event (record payment { status = status }) ≡ true
      → P (record payment { status = status })

  verify-payments :
      (payment : Payment) (id : ℕ) (s : Monitor)
      → (verify_deposit_balance outside payment id s).0.payments ≡ s.payments
  unfolding verify_deposit_balance
  verify-payments payment id s = ground arith

  -- A deposit that is not short passes.
  verify-is_enough :
      (payment : Payment) (id : ℕ) (s : Monitor)
      → (verify_deposit_balance outside payment id s).1 ≡ some false
      → is_enough id payment ≡ true
  unfolding verify_deposit_balance
  verify-is_enough payment id s h = ground arith

  module _ (P : Payment → Type 0) where
    apply_topic-All :
        (topic : EscrowEventTopic) (matched : Payment) (s : Monitor)
        → P (record matched { status = map_topic_to_status topic })
        → All P s.payments
        → All P (apply_topic outside topic matched s).0.payments
    unfolding apply_topic
    apply_topic-All topic matched s new h =
        elim (Bool-cases (same_status matched.status (map_topic_to_status topic))) [
          | inl same ↦ rw same h
          | inr other ↦ elim (Bool-cases (outside.saves matched.id)) [
            | inr threw ↦ rw (other, threw) h
            | inl saved ↦
                rw (other, saved)
                  (All-save P (record matched { status = map_topic_to_status topic }) s.payments new
                    h)
          ]
        ]

    process_matched-All :
        (topic : EscrowEventTopic) (id : ℕ) (matched : Payment) (s : Monitor)
        → (passes topic id matched ≡ true
            → P (record matched { status = map_topic_to_status topic }))
        → All P s.payments
        → All P (process_matched outside topic id matched s).0.payments
    unfolding process_matched
    process_matched-All topic id matched s new h =
        let ran = verify_deposit_balance outside matched id s in
        let before : All P ran.0.payments = rw (verify-payments matched id s) h in
        elim (Bool-cases (is_deposit topic)) [
          | inr other ↦
              rw (process_matched, other) (apply_topic-All topic matched s (new (rw other refl)) h)
          | inl deposits ↦ elim (Option-cases ran.1) [
            | inl threw ↦ rw (process_matched, deposits, threw) before
            | inr (true, short) ↦ rw (process_matched, deposits, short) before
            | inr (false, enough) ↦
                rw (process_matched, deposits, enough)
                  (apply_topic-All topic matched ran.0
                    (new (rw (deposits, verify-is_enough matched id s enough) refl)) before)
          ]
        ]

    process-All :
        (event : SorobanEvent) (s : Monitor)
        → Survives P event
        → All P s.payments
        → All P (process_escrow_event outside event s).0.payments
    unfolding process_escrow_event is_cause
    process-All event s survives h = elim (Option-cases (extract_topic event.topic)) [
      | inl unknown ↦ rw (unknown, process_escrow_event) h
      | inr (topic, known) ↦ elim (Option-cases (payment_id_of event)) [
        | inl unnamed ↦ rw (known, process_escrow_event) (rw (unnamed, payment_id_of) h)
        | inr (id, is_named) ↦
            elim (Option-cases (find (matches_escrow_payment_id id) s.payments)) [
              | inl missing ↦
                  rw (known, process_escrow_event) (rw (is_named, payment_id_of) (rw missing h))
              | inr (matched, found) ↦
                  let fits = find-passes (matches_escrow_payment_id id) s.payments found in
                  let held = find-All P (matches_escrow_payment_id id) s.payments h found in
                  rw (known, process_escrow_event)
                    (rw (is_named, payment_id_of)
                      (rw found (
                        process_matched-All topic id matched s
                          (λ passed. survives matched (map_topic_to_status topic) held (
                            rw (is_cause, known)
                              (rw (is_named, payment_id_of)
                                (rw (fits, topic-same topic, passed) refl))))
                          h)))
            ]
      ]
    ]

    handle_event-All :
        (event : SorobanEvent) (s : Monitor)
        → Survives P event
        → All P s.payments
        → All P (handle_event outside event s).0.payments
    unfolding handle_event
    handle_event-All event s survives h =
        elim (Bool-cases (has_id event.id s.processed_event_ids)) [
          | inl known ↦ rw known h
          | inr new ↦ rw new (
              process-All event
                (record s { processed_event_ids = remember event.id s.processed_event_ids })
                survives h)
        ]

    handle_events-All :
        (events : List SorobanEvent) (s : Monitor)
        → All (Survives P) events
        → All P s.payments
        → All P (handle_events outside events s).0.payments
    unfolding handle_events
    handle_events-All [] s survive h = h
    handle_events-All (event ∷ events) s survive h =
        let first = handle_event outside event s in
        let after = handle_event-All event s survive.0 h in
        elim (Bool-cases first.1) [
          | inl returned ↦
              rw (handle_events, returned) (handle_events-All events first.0 survive.1 after)
          | inr threw ↦ rw (handle_events, threw) after
        ]

save_ids-payments : (cache : CacheHealth) (s : Monitor) → (save_ids cache s).payments ≡ s.payments
unfolding save_ids
save_ids-payments cache s = ground arith

end_page-payments :
    (cache : CacheHealth) (r : Monitor × Bool) → (end_page cache r).0.payments ≡ r.0.payments
end_page-payments cache (s, true) = save_ids-payments cache s
end_page-payments cache (s, false) = refl

save_cursor-payments :
    (cache : CacheHealth) (ledger : ℕ) (s : Monitor)
    → (save_cursor cache ledger s).payments ≡ s.payments
unfolding save_cursor
save_cursor-payments cache ledger s = ground arith

load_state-payments :
    (cache : CacheHealth) (s : Monitor) → (load_state cache s).payments ≡ s.payments
unfolding load_state
load_state-payments cache s = ground arith

module _ {E : Type 0} (contract : Option ℕ) (cache : CacheHealth) (outside : Outside)
    (get_events : (start_ledger : ℕ) → Result E SorobanEventsResponse) where
  -- The events that a poll gets from a state.
  unfoldable pub page : Monitor → List SorobanEvent
  page s = elim (get_events (load_state cache s).start_ledger) [
    | err e ↦ []
    | ok response ↦ response.events
  ]

  -- What survives the changes that the events of the page are the causes of survives a poll.
  pub poll-All :
      (P : Payment → Type 0) (s : Monitor)
      → All (Survives outside P) (page s)
      → All P s.payments
      → All P (poll_escrow_events contract cache outside get_events s).0.payments
  unfolding poll_escrow_events page
  poll-All P s survive h = elim (Option-cases contract) [
    | inl unset ↦ rw (poll_escrow_events, unset) h
    | inr (address, set) ↦
        let loaded = load_state cache s in
        let before : All P loaded.payments = rw (load_state-payments cache s) h in
        elim (Result-cases (get_events loaded.start_ledger)) [
          | inr (e, failed) ↦ rw (poll_escrow_events, set) (rw failed before)
          | inl (response, got) ↦ elim (List-cases response.events) [
            | inl empty ↦ rw (poll_escrow_events, set) (rw got (rw empty before))
            | inr (first, rest, listed) ↦
                let moved =
                  save_cursor cache response.latest_ledger
                    (record loaded { start_ledger = response.latest_ledger }) in
                let still : All P moved.payments =
                  rw
                    (save_cursor-payments cache response.latest_ledger
                      (record loaded { start_ledger = response.latest_ledger }))
                    before in
                let all : All (Survives outside P) (first ∷ rest) =
                  rw listed at (rw (page, got) at survive) in
                elim (List-cases moved.payments) [
                  | inl no_payments ↦
                      rw (poll_escrow_events, set) (rw got (rw listed (rw no_payments still)))
                  | inr (payment, payments, held) ↦
                      rw (poll_escrow_events, set)
                        (rw got (
                          rw listed (
                            rw held (
                              rw
                                (end_page-payments cache
                                  (handle_events outside (first ∷ rest) moved))
                                (handle_events-All outside P (first ∷ rest) moved all still)))))
                ]
          ]
        ]
  ]

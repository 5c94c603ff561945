-- ===== src/Stellar/EscrowMonitor/Window.antt =====
-- The window of processed events (src/stellar/soroban-monitor.service.ts).
use dupdap_backend.Base.{
  ℕ, ◌+◌, ◌≡◌, ◌≤◌, refl, subst, sym, true, List, [], ◌∷◌, ◌++◌, if◌then◌else◌, arith, Option-cases,
  Bool-cases, inl, inr, All, find, length, length-append,
}
use dupdap_backend.Stellar.EscrowMonitor.{
  SorobanEvent, Monitor, process_escrow_event, process_matched, Outside, handle_event,
  handle_events, has_id, remember, window_size, verify_deposit_balance, apply_topic, extract_topic,
  payment_id_of, matches_escrow_payment_id, Payment, EscrowEventTopic,
}

remember-length :
    (id : ℕ) (ids : List ℕ) → length ids ≤ window_size → length (remember id ids) ≤ window_size
unfolding remember
remember-length id ids h = ground (arith, length-append ids (id ∷ []))

any-append :
    (id other : ℕ) (ids : List ℕ) → has_id id ids ≡ true → has_id id (ids ++ other ∷ []) ≡ true
any-append id other [] h = cc
any-append id other (x ∷ ids) h = ground (arith, any-append id other ids)

any-last : (id : ℕ) (ids : List ℕ) → has_id id (ids ++ id ∷ []) ≡ true
any-last id [] = ground arith
any-last id (x ∷ ids) = ground (arith, any-last id ids)

-- With room in the window nothing is forgotten.
remember-keeps :
    (id other : ℕ) (ids : List ℕ)
    → length ids + 1 ≤ window_size
    → has_id id ids ≡ true
    → has_id id (remember other ids) ≡ true
unfolding remember
remember-keeps id other ids room h =
    ground (arith, length-append ids (other ∷ []), any-append id other ids h)

remember-has :
    (id : ℕ) (ids : List ℕ) → length ids + 1 ≤ window_size → has_id id (remember id ids) ≡ true
unfolding remember
remember-has id ids room = ground (arith, length-append ids (id ∷ []), any-last id ids)

remember-length-le : (id : ℕ) (ids : List ℕ) → length (remember id ids) ≤ length ids + 1
unfolding remember
remember-length-le id ids = ground (arith, length-append ids (id ∷ []))

module _ (outside : Outside) where
  verify-ids :
      (payment : Payment) (id : ℕ) (s : Monitor)
      → (verify_deposit_balance outside payment id s).0.processed_event_ids ≡ s.processed_event_ids
  unfolding verify_deposit_balance
  verify-ids payment id s = ground arith

  apply_topic-ids :
      (topic : EscrowEventTopic) (payment : Payment) (s : Monitor)
      → (apply_topic outside topic payment s).0.processed_event_ids ≡ s.processed_event_ids
  unfolding apply_topic
  apply_topic-ids topic payment s = ground arith

  process_matched-ids :
      (topic : EscrowEventTopic) (id : ℕ) (matched : Payment) (s : Monitor)
      → (process_matched outside topic id matched s).0.processed_event_ids ≡ s.processed_event_ids
  unfolding process_matched
  process_matched-ids topic id matched s =
      let ran = verify_deposit_balance outside matched id s in
      ground (
        arith,
        verify-ids matched id s,
        apply_topic-ids topic matched s,
        apply_topic-ids topic matched ran.0,
      )

  process-ids :
      (event : SorobanEvent) (s : Monitor)
      → (process_escrow_event outside event s).0.processed_event_ids ≡ s.processed_event_ids
  unfolding process_escrow_event
  process-ids event s = elim (Option-cases (extract_topic event.topic)) [
    | inl unknown ↦ rw (unknown, process_escrow_event) refl
    | inr (topic, known) ↦ elim (Option-cases (payment_id_of event)) [
      | inl unnamed ↦ rw (known, process_escrow_event) (rw (unnamed, payment_id_of) refl)
      | inr (id, is_named) ↦ elim (Option-cases (find (matches_escrow_payment_id id) s.payments)) [
        | inl missing ↦
            rw (known, process_escrow_event) (rw (is_named, payment_id_of) (rw missing refl))
        | inr (matched, found) ↦
            rw (known, process_escrow_event)
              (rw (is_named, payment_id_of) (rw found (process_matched-ids topic id matched s)))
      ]
    ]
  ]

  -- The set after an event, also where it throws.
  handle_event-ids :
      (event : SorobanEvent) (s : Monitor)
      → (handle_event outside event s).0.processed_event_ids ≡ (
          if has_id event.id s.processed_event_ids
          then s.processed_event_ids
          else remember event.id s.processed_event_ids)
  unfolding handle_event
  handle_event-ids event s = elim (Bool-cases (has_id event.id s.processed_event_ids)) [
    | inl known ↦ rw known refl
    | inr new ↦ rw new (process-ids event _)
  ]

  -- Handling events keeps a window within 10000 identifiers within it.
  handle_events-bounded :
      (events : List SorobanEvent) (s : Monitor)
      → length s.processed_event_ids ≤ window_size
      → length (handle_events outside events s).0.processed_event_ids ≤ window_size
  unfolding handle_events
  handle_events-bounded [] s h = h
  handle_events-bounded (event ∷ events) s h =
      let first = handle_event outside event s in
      let after : length first.0.processed_event_ids ≤ window_size =
        rw (handle_event-ids event s)
          (ground (arith, remember-length event.id s.processed_event_ids h)) in
      elim (Bool-cases first.1) [
        | inl returned ↦ rw (handle_events, returned) (handle_events-bounded events first.0 after)
        | inr threw ↦ rw (handle_events, threw) after
      ]

  -- The room that is left after an event, and what stays known.
  handle_event-room :
      (event : SorobanEvent) (s : Monitor)
      → length (handle_event outside event s).0.processed_event_ids
        ≤ length s.processed_event_ids + 1
  handle_event-room event s =
      rw (handle_event-ids event s)
        (ground (arith, remember-length-le event.id s.processed_event_ids))

  handle_event-keeps :
      (id : ℕ) (event : SorobanEvent) (s : Monitor)
      → length s.processed_event_ids + 1 ≤ window_size
      → has_id id s.processed_event_ids ≡ true
      → has_id id (handle_event outside event s).0.processed_event_ids ≡ true
  handle_event-keeps id event s room h =
      rw (handle_event-ids event s)
        (ground (arith, h, remember-keeps id event.id s.processed_event_ids room h))

  handle_event-has :
      (event : SorobanEvent) (s : Monitor)
      → length s.processed_event_ids + 1 ≤ window_size
      → has_id event.id (handle_event outside event s).0.processed_event_ids ≡ true
  handle_event-has event s room =
      rw (handle_event-ids event s)
        (ground (arith, remember-has event.id s.processed_event_ids room))

  -- The rest of a page after an event that returned.
  handle_events-next :
      (event : SorobanEvent) (events : List SorobanEvent) (s : Monitor)
      → (handle_events outside (event ∷ events) s).1 ≡ true
      → ((handle_event outside event s).1 ≡ true)
        × (handle_events outside (event ∷ events) s
            ≡ handle_events outside events (handle_event outside event s).0)
  unfolding handle_events
  handle_events-next event events s h = elim (Bool-cases (handle_event outside event s).1) [
    | inl returned ↦ (returned, rw (handle_events, returned) refl)
    | inr threw ↦ absurd (cc (rw (handle_events, threw) at h))
  ]

  handle_events-keeps :
      (id : ℕ) (events : List SorobanEvent) (s : Monitor)
      → length s.processed_event_ids + length events ≤ window_size
      → has_id id s.processed_event_ids ≡ true
      → has_id id (handle_events outside events s).0.processed_event_ids ≡ true
  unfolding handle_events
  handle_events-keeps id [] s room h = h
  handle_events-keeps id (event ∷ events) s room h =
      let first = handle_event outside event s in
      let after = handle_event-keeps id event s (omega (arith, room)) h in
      elim (Bool-cases first.1) [
        | inr threw ↦ rw (handle_events, threw) after
        | inl returned ↦
            rw (handle_events, returned)
              (handle_events-keeps id events first.0
                (omega (arith, room, handle_event-room event s)) after)
      ]

  -- The events are known.
  abbrev Known : List SorobanEvent → Monitor → Type 0
  Known events s = All (λ event. has_id event.id s.processed_event_ids ≡ true) events

  handle_events-Known :
      (events : List SorobanEvent) (s : Monitor)
      → length s.processed_event_ids + length events ≤ window_size
      → (handle_events outside events s).1 ≡ true
      → Known events (handle_events outside events s).0
  handle_events-Known [] s room returned = tt
  handle_events-Known (event ∷ events) s room returned =
      let s' = (handle_event outside event s).0 in
      let next = handle_events-next event events s returned in
      let room' : length s'.processed_event_ids + length events ≤ window_size =
        omega (arith, room, handle_event-room event s) in
      subst (λ r. Known (event ∷ events) r.0) (sym next.1)
        (
          handle_events-keeps event.id events s' room'
              (handle_event-has event s (omega (arith, room))),
          handle_events-Known events s' room' (rw next.1 at returned),
        )

  Known-handle_events :
      (events : List SorobanEvent) (s : Monitor)
      → Known events s
      → handle_events outside events s ≡ (s, true)
  unfolding handle_events handle_event
  Known-handle_events [] s h = refl
  Known-handle_events (event ∷ events) s h =
      rw (handle_events, handle_event, h.0) (Known-handle_events events s h.1)

  -- A page that was handled to its end, and for which the window had room, is delivered once more right
  -- after: that changes nothing (no payment, no alert, no identifier) and throws nothing.
  pub handle_events-redelivered :
      (events : List SorobanEvent) (s : Monitor)
      → length s.processed_event_ids + length events ≤ window_size
      → (handle_events outside events s).1 ≡ true
      → handle_events outside events (handle_events outside events s).0
        ≡ ((handle_events outside events s).0, true)
  handle_events-redelivered events s room returned =
      Known-handle_events events (handle_events outside events s).0
        (handle_events-Known events s room returned)

-- ===== src/Stellar/EventIndexer/Cursor.antt =====
-- The ledger cursor of a poll (src/stellar/soroban-event-indexer.service.ts).
use dupdap_backend.Base.{
  ℕ, zero, suc, ◌≡◌, ◌≤◌, Bool, List, [], ◌∷◌, Option, none, some, Result, ok, err, length,
  if◌then◌else◌, arith, Result-cases, Option-cases, Bool-cases, inl, inr, subst, ltb, List-cases,
  max, All, All-append,
}
use dupdap_backend.Stellar.EventIndexer.{
  Progress, handle_event, handle_events, poll_pages, last_token, ledger_or, Indexer, poll_events,
  end_poll, last_ledger, start_of, initial_progress, dispatch, enqueue_dead_letter,
}
use dupdap_backend.Stellar.Events.{
  SorobanRpcEvent, SorobanContractEventDto, payment_confirmed_dto, settlement_completed_dto,
  SorobanEventsResponse, page_limit, parse_event, to_payment_confirmed_dto,
  to_settlement_completed_dto,
}

-- The ledger of the event that a message is made of.
abbrev pub ledger_of : SorobanContractEventDto → Option ℕ
ledger_of (payment_confirmed_dto raw payment_reference tx_hash amount asset from) = raw.ledger
ledger_of (settlement_completed_dto raw settlement_id partner_reference) = raw.ledger

-- A message is made of the event that is parsed.
pub parse_event-ledger :
    (event : SorobanRpcEvent) {dto : SorobanContractEventDto}
    → parse_event event ≡ ok (some dto)
    → ledger_of dto ≡ event.ledger
unfolding parse_event to_payment_confirmed_dto to_settlement_completed_dto
parse_event-ledger event {dto} h = ground arith

module _ (settles : SorobanContractEventDto → Bool) where
  -- A message that its listeners took is of a ledger that the cursor has reached.
  abbrev pub IsBehind : ℕ → SorobanContractEventDto → Type 0
  IsBehind cursor dto = if settles dto then ledger_or (ledger_of dto) 0 ≤ cursor else Unit

  IsBehind-mono :
      (c d : ℕ) (dto : SorobanContractEventDto) → c ≤ d → IsBehind c dto → IsBehind d dto
  IsBehind-mono c d dto le h = elim (Bool-cases (settles dto)) [
    | inl sent ↦ rw (sent, IsBehind) (omega (arith, le, rw (sent, IsBehind) at h))
    | inr thrown ↦ rw (thrown, IsBehind) tt
  ]

  All-mono :
      (c d : ℕ) (dtos : List SorobanContractEventDto)
      → c ≤ d
      → All (IsBehind c) dtos
      → All (IsBehind d) dtos
  All-mono c d [] le h = tt
  All-mono c d (dto ∷ dtos) le h = (IsBehind-mono c d dto le h.0, All-mono c d dtos le h.1)

  -- The cursor is at least `least` and has reached the messages so far.
  abbrev pub Covers : ℕ → Progress → Type 0
  Covers least p = (least ≤ p.cursor_ledger) × All (IsBehind p.cursor_ledger) p.emitted

  handle_event-Covers :
      (least : ℕ) (event : SorobanRpcEvent) (p : Progress)
      → Covers least p
      → Covers least (handle_event settles event p)
  unfolding handle_event dispatch enqueue_dead_letter
  handle_event-Covers least event p (l, h) = elim (Result-cases (parse_event event)) [
    | inr (e, failed) ↦ rw (failed, handle_event) (l, h)
    | inl (none, skipped) ↦ rw (skipped, handle_event) (l, h)
    | inl (some dto, parsed) ↦ elim (Bool-cases (settles dto)) [
      | inl sent ↦
          let c = max p.cursor_ledger (ledger_or event.ledger p.cursor_ledger) in
          let new : IsBehind c dto =
            rw (sent, IsBehind, parse_event-ledger event parsed) (ground arith) in
          rw (parsed, handle_event)
            (rw sent (
              omega arith,
              All-append (IsBehind c) p.emitted (dto ∷ [])
                  (All-mono p.cursor_ledger c p.emitted (omega arith) h) (new, tt),
            ))
      | inr thrown ↦
          let c = p.cursor_ledger in
          let new : IsBehind c dto = rw (thrown, IsBehind) tt in
          rw (parsed, handle_event)
            (rw thrown (l, All-append (IsBehind c) p.emitted (dto ∷ []) h (new, tt)))
    ]
  ]

  handle_events-Covers :
      (least : ℕ) (events : List SorobanRpcEvent) (p : Progress)
      → Covers least p
      → Covers least (handle_events settles events p)
  unfolding handle_events
  handle_events-Covers least [] p h = h
  handle_events-Covers least (event ∷ events) p h =
      handle_events-Covers least events (handle_event settles event p)
        (handle_event-Covers least event p h)

  module _ {E : Type 0}
      (get_events : (start_ledger page_cursor : Option ℕ) → Result E SorobanEventsResponse) where
    -- Of whatever the pages end with, if they end.
    Ends : ℕ → Option (Progress × Result E (Unit {0})) → Type 0
    Ends least none = Unit
    Ends least (some (p, outcome)) = Covers least p

    poll_pages-Ends :
        (fuel least : ℕ) (start_ledger page_cursor : Option ℕ) (p : Progress)
        → Covers least p
        → Ends least (poll_pages settles get_events fuel start_ledger page_cursor p)
    unfolding poll_pages Ends
    poll_pages-Ends zero least start_ledger page_cursor p h = tt
    poll_pages-Ends (suc fuel) least start_ledger page_cursor p h =
        elim (Result-cases (get_events start_ledger page_cursor)) [
          | inr (e, failed) ↦ rw (failed, poll_pages) h
          | inl (response, got) ↦ elim (List-cases response.events) [
            | inl empty ↦
                let c = max p.cursor_ledger response.latest_ledger in
                rw (got, poll_pages)
                  (rw empty
                    (omega (arith, h.0), All-mono p.cursor_ledger c p.emitted (omega arith) h.1))
            | inr (event, events, page) ↦
                let p' = handle_events settles (event ∷ events) p in
                let covers = handle_events-Covers least (event ∷ events) p h in
                elim (Bool-cases (ltb (length (event ∷ events)) page_limit)) [
                  | inl short ↦ rw (got, poll_pages) (rw page (rw short covers))
                  | inr full ↦
                      rw (got, poll_pages)
                        (rw page (
                          rw full (
                            poll_pages-Ends fuel least none (last_token (event ∷ events)) p'
                              covers)))
                ]
          ]
        ]

    end_poll-Covers :
        (s : Indexer) (p : Progress) (u : Unit {0})
        → Covers (last_ledger s) p
        → let s' = (end_poll {E = E} s (p, ok u)).0 in
          (last_ledger s ≤ last_ledger s') × All (IsBehind (last_ledger s')) s'.emitted
    unfolding end_poll
    end_poll-Covers s p u (l, h) = elim (Bool-cases (ltb (last_ledger s) p.cursor_ledger)) [
      | inl moves ↦ rw moves (l, h)
      | inr stays ↦
          rw stays
            (omega arith, All-mono p.cursor_ledger (last_ledger s) p.emitted (ground arith) h)
    ]

    -- The lower bound of the stored ledger after a poll that ends without an error.
    pub poll_events-IsBehind :
        (fuel : ℕ) (s : Indexer) {s' : Indexer} {n : ℕ}
        → All (IsBehind (last_ledger s)) s.emitted
        → poll_events settles get_events fuel s ≡ some (s', ok n)
        → (last_ledger s ≤ last_ledger s') × All (IsBehind (last_ledger s')) s'.emitted
    unfolding poll_events end_poll Ends
    poll_events-IsBehind fuel s {s'} {n} h ran =
        let ends =
          poll_pages-Ends fuel (last_ledger s) (start_of (last_ledger s)) none (initial_progress s)
            (omega arith, h) in
        elim (Option-cases (
          poll_pages settles get_events fuel (start_of (last_ledger s)) none
            (initial_progress s))) [
              | inl stuck ↦ cc (rw (stuck, poll_events) at ran)
              | inr ((p, err e), threw) ↦ cc (rw (threw, poll_events) at ran)
              | inr ((p, ok u), done) ↦
                  let same : (end_poll {E = E} s (p, ok u)).0 ≡ s' =
                    cc (rw (done, poll_events) at ran) in
                  let covers : Covers (last_ledger s) p = rw done at ends in
                  subst
                    (λ t.
                      (last_ledger s ≤ last_ledger t) × All (IsBehind (last_ledger t)) t.emitted)
                    same (end_poll-Covers s p u covers)
            ]

-- ===== src/Stellar/EventIndexer/Source.antt =====
-- Where the ledger cursor of a poll comes from (src/stellar/soroban-event-indexer.service.ts).
use dupdap_backend.Base.{
  ℕ, zero, suc, ◌≡◌, ◌≤◌, ◌⊎◌, Bool, true, ◌&&◌, ◌==◌, List, [], ◌∷◌, ◌++◌, Option, none, some,
  Result, ok, err, length, arith, Result-cases, Option-cases, Bool-cases, inl, inr, subst, ltb,
  List-cases, max, any, All, refl,
}
use dupdap_backend.Stellar.EventIndexer.{
  Progress, handle_event, handle_events, poll_pages, last_token, ledger_or, Indexer, poll_events,
  end_poll, last_ledger, start_of, initial_progress, dispatch, enqueue_dead_letter,
}
use dupdap_backend.Stellar.EventIndexer.Cursor.{
  ledger_of, parse_event-ledger, IsBehind, poll_events-IsBehind,
}
use dupdap_backend.Stellar.Events.{
  SorobanRpcEvent, SorobanContractEventDto, SorobanEventsResponse, page_limit, parse_event,
}

any-append :
    {A : Type 0} (p : A → Bool) (xs ys : List A) → any p xs ≡ true → any p (xs ++ ys) ≡ true
any-append p [] ys h = cc h
any-append p (x ∷ xs) ys h = elim (Bool-cases (p x)) [
  | inl passes ↦ rw passes refl
  | inr fails ↦ rw fails (any-append p xs ys (rw fails at h))
]

any-last :
    {A : Type 0} (p : A → Bool) (xs : List A) (y : A) → p y ≡ true → any p (xs ++ y ∷ []) ≡ true
any-last p [] y h = rw h refl
any-last p (x ∷ xs) y h = elim (Bool-cases (p x)) [
  | inl passes ↦ rw passes refl
  | inr fails ↦ rw fails (any-last p xs y h)
]

max-cases : (a b : ℕ) → (max a b ≡ a) ⊎ (max a b ≡ b)
max-cases a b = ground arith

module _ (settles : SorobanContractEventDto → Bool) {E : Type 0}
    (get_events : (start_ledger page_cursor : Option ℕ) → Result E SorobanEventsResponse) where
  -- A message of that ledger whose listeners took it.
  abbrev pub is_taken_at : ℕ → SorobanContractEventDto → Bool
  is_taken_at ledger dto = settles dto && ledger_or (ledger_of dto) 0 == ledger

  -- The endpoint answers some request with an empty page and that newest ledger.
  abbrev pub IsReported : ℕ → Type 0
  IsReported ledger =
      (start_ledger : Option ℕ) × (page_cursor : Option ℕ) × (response : SorobanEventsResponse)
      × (get_events start_ledger page_cursor ≡ ok response)
      × (response.events ≡ [])
      × (response.latest_ledger ≡ ledger)

  -- The cursor stands where it did, at the ledger of a message that was taken, or at a ledger that
  -- an empty page reports.
  abbrev pub IsSourced : (last cursor : ℕ) → List SorobanContractEventDto → Type 0
  IsSourced last cursor emitted =
      (cursor ≡ last) ⊎ ((any (is_taken_at cursor) emitted ≡ true) ⊎ IsReported cursor)

  IsSourced-append :
      (last cursor : ℕ) (emitted new : List SorobanContractEventDto)
      → IsSourced last cursor emitted
      → IsSourced last cursor (emitted ++ new)
  IsSourced-append last cursor emitted new (inl same) = inl same
  IsSourced-append last cursor emitted new (inr (inl taken)) =
      inr (inl (any-append (is_taken_at cursor) emitted new taken))
  IsSourced-append last cursor emitted new (inr (inr reported)) = inr (inr reported)

  -- The cursor after a message that was taken.
  IsSourced-taken :
      (last cursor : ℕ) (emitted : List SorobanContractEventDto) (ledger : Option ℕ)
      (dto : SorobanContractEventDto)
      → settles dto ≡ true
      → ledger_of dto ≡ ledger
      → IsSourced last cursor emitted
      → IsSourced last (max cursor (ledger_or ledger cursor)) (emitted ++ dto ∷ [])
  IsSourced-taken last cursor emitted none dto sent of h =
      let same : cursor ≡ max cursor cursor = omega arith in
      subst (λ c. IsSourced last c (emitted ++ dto ∷ [])) same
        (IsSourced-append last cursor emitted (dto ∷ []) h)
  IsSourced-taken last cursor emitted (some l) dto sent of h = elim (max-cases cursor l) [
    | inl stays ↦ rw stays (IsSourced-append last cursor emitted (dto ∷ []) h)
    | inr moves ↦
        let here : is_taken_at l dto ≡ true = rw (sent, of) (ground arith) in
        rw moves (inr (inl (any-last (is_taken_at l) emitted dto here)))
  ]

  abbrev Sourced : ℕ → Progress → Type 0
  Sourced last p = IsSourced last p.cursor_ledger p.emitted

  handle_event-Sourced :
      (last : ℕ) (event : SorobanRpcEvent) (p : Progress)
      → Sourced last p
      → Sourced last (handle_event settles event p)
  unfolding handle_event dispatch enqueue_dead_letter
  handle_event-Sourced last event p h = elim (Result-cases (parse_event event)) [
    | inr (e, failed) ↦ rw (failed, handle_event) h
    | inl (none, skipped) ↦ rw (skipped, handle_event) h
    | inl (some dto, parsed) ↦ elim (Bool-cases (settles dto)) [
      | inl sent ↦
          rw (parsed, handle_event)
            (rw sent (
              IsSourced-taken last p.cursor_ledger p.emitted event.ledger dto sent
                (parse_event-ledger event parsed) h))
      | inr thrown ↦
          rw (parsed, handle_event)
            (rw thrown (IsSourced-append last p.cursor_ledger p.emitted (dto ∷ []) h))
    ]
  ]

  handle_events-Sourced :
      (last : ℕ) (events : List SorobanRpcEvent) (p : Progress)
      → Sourced last p
      → Sourced last (handle_events settles events p)
  unfolding handle_events
  handle_events-Sourced last [] p h = h
  handle_events-Sourced last (event ∷ events) p h =
      handle_events-Sourced last events (handle_event settles event p)
        (handle_event-Sourced last event p h)

  -- Of whatever the pages end with, if they end.
  Ends : ℕ → Option (Progress × Result E (Unit {0})) → Type 0
  Ends last none = Unit
  Ends last (some (p, outcome)) = Sourced last p

  -- The cursor after an empty page.
  IsSourced-reported :
      (last cursor : ℕ) (emitted : List SorobanContractEventDto)
      (start_ledger page_cursor : Option ℕ) (response : SorobanEventsResponse)
      → get_events start_ledger page_cursor ≡ ok response
      → response.events ≡ []
      → IsSourced last cursor emitted
      → IsSourced last (max cursor response.latest_ledger) emitted
  IsSourced-reported last cursor emitted start_ledger page_cursor response got empty h =
      elim (max-cases cursor response.latest_ledger) [
        | inl stays ↦ rw stays h
        | inr moves ↦ rw moves (inr (inr (start_ledger, page_cursor, response, got, empty, refl)))
      ]

  poll_pages-Ends :
      (fuel last : ℕ) (start_ledger page_cursor : Option ℕ) (p : Progress)
      → Sourced last p
      → Ends last (poll_pages settles get_events fuel start_ledger page_cursor p)
  unfolding poll_pages Ends
  poll_pages-Ends zero last start_ledger page_cursor p h = tt
  poll_pages-Ends (suc fuel) last start_ledger page_cursor p h =
      elim (Result-cases (get_events start_ledger page_cursor)) [
        | inr (e, failed) ↦ rw (failed, poll_pages) h
        | inl (response, got) ↦ elim (List-cases response.events) [
          | inl empty ↦
              rw (got, poll_pages)
                (rw empty (
                  IsSourced-reported last p.cursor_ledger p.emitted start_ledger page_cursor
                    response got empty h))
          | inr (event, events, page) ↦
              let p' = handle_events settles (event ∷ events) p in
              let sourced = handle_events-Sourced last (event ∷ events) p h in
              elim (Bool-cases (ltb (length (event ∷ events)) page_limit)) [
                | inl short ↦ rw (got, poll_pages) (rw page (rw short sourced))
                | inr full ↦
                    rw (got, poll_pages)
                      (rw page (
                        rw full (
                          poll_pages-Ends fuel last none (last_token (event ∷ events)) p' sourced)))
              ]
        ]
      ]

  end_poll-Sourced :
      (s : Indexer) (p : Progress) (u : Unit {0})
      → Sourced (last_ledger s) p
      → let s' = (end_poll {E = E} s (p, ok u)).0 in
        IsSourced (last_ledger s) (last_ledger s') s'.emitted
  unfolding end_poll
  end_poll-Sourced s p u h = elim (Bool-cases (ltb (last_ledger s) p.cursor_ledger)) [
    | inl moves ↦ rw moves h
    | inr stays ↦ rw stays (inl refl)
  ]

  poll_events-IsSourced :
      (fuel : ℕ) (s : Indexer) {s' : Indexer} {n : ℕ}
      → poll_events settles get_events fuel s ≡ some (s', ok n)
      → IsSourced (last_ledger s) (last_ledger s') s'.emitted
  unfolding poll_events end_poll Ends
  poll_events-IsSourced fuel s {s'} {n} ran =
      let ends =
        poll_pages-Ends fuel (last_ledger s) (start_of (last_ledger s)) none (initial_progress s)
          (inl refl) in
      elim (Option-cases
        (poll_pages settles get_events fuel (start_of (last_ledger s)) none (initial_progress s))) [
          | inl stuck ↦ cc (rw (stuck, poll_events) at ran)
          | inr ((p, err e), threw) ↦ cc (rw (threw, poll_events) at ran)
          | inr ((p, ok u), done) ↦
              let same : (end_poll {E = E} s (p, ok u)).0 ≡ s' =
                cc (rw (done, poll_events) at ran) in
              let sourced : Sourced (last_ledger s) p = rw done at ends in
              subst (λ t. IsSourced (last_ledger s) (last_ledger t) t.emitted) same
                (end_poll-Sourced s p u sourced)
        ]

  -- A poll that ends without an error does not move the stored ledger back, and the stored ledger is
  -- then at least that of every event that listeners have taken, when it was before. It does not
  -- overshoot either: it is the ledger stored before, that of a message listeners took, or the newest
  -- ledger that the endpoint reports with an empty page.
  pub poll_events-cursor :
      (fuel : ℕ) (s : Indexer) {s' : Indexer} {n : ℕ}
      → All (IsBehind settles (last_ledger s)) s.emitted
      → poll_events settles get_events fuel s ≡ some (s', ok n)
      → (last_ledger s ≤ last_ledger s')
        × All (IsBehind settles (last_ledger s')) s'.emitted
        × IsSourced (last_ledger s) (last_ledger s') s'.emitted
  poll_events-cursor fuel s h ran =
      let behind = poll_events-IsBehind settles get_events fuel s h ran in
      (behind.0, behind.1, poll_events-IsSourced fuel s ran)

-- ===== src/Stellar/EventIndexer/Paging.antt =====
-- The pages of a poll (src/stellar/soroban-event-indexer.service.ts).
use dupdap_backend.Base.{
  ℕ, zero, suc, ◌≡◌, ◌<◌, refl, Bool, false, List, ◌∷◌, Option, none, some, Result, ok, err, length,
  arith, Result-cases, Bool-cases, inl, inr, List-cases, max, ltb,
}
use dupdap_backend.Stellar.EventIndexer.{Progress, handle_events, poll_pages, last_token}
use dupdap_backend.Stellar.Events.{
  SorobanRpcEvent, SorobanContractEventDto, SorobanEventsResponse, page_limit,
}

module _ {E : Type 0} (settles : SorobanContractEventDto → Bool)
    (get_events : (start_ledger page_cursor : Option ℕ) → Result E SorobanEventsResponse) where
  -- A full page is followed by the next.
  poll_pages-full :
      (fuel : ℕ) (start_ledger page_cursor : Option ℕ) (p : Progress)
      {response : SorobanEventsResponse} {event : SorobanRpcEvent} {events : List SorobanRpcEvent}
      {outcome : Progress × Result E (Unit {0})}
      → get_events start_ledger page_cursor ≡ ok response
      → response.events ≡ event ∷ events
      → ltb (length (event ∷ events)) page_limit ≡ false
      → poll_pages settles get_events fuel none
          (last_token (event ∷ events))
          (handle_events settles (event ∷ events) p)
        ≡ some outcome
      → poll_pages settles get_events (suc fuel) start_ledger page_cursor p ≡ some outcome
  unfolding poll_pages
  poll_pages-full fuel start_ledger page_cursor p got page full ends =
      rw (got, poll_pages) (rw page (rw full ends))

module _ {E : Type 0} (settles : SorobanContractEventDto → Bool)
    (get_events : (start_ledger page_cursor : Option ℕ) → Result E SorobanEventsResponse)
    (remaining : Option ℕ → ℕ)
    (advances : (start_ledger page_cursor : Option ℕ) (response : SorobanEventsResponse)
      → get_events start_ledger page_cursor ≡ ok response
      → ltb (length response.events) page_limit ≡ false
      → remaining (last_token response.events) < remaining page_cursor) where
  -- When every full page leaves fewer events behind its last token than there were behind the
  -- token it was asked for with, the loop ends: it needs no more rounds than there were events.
  pub poll_pages-terminates :
      (fuel : ℕ) (start_ledger page_cursor : Option ℕ) (p : Progress)
      → remaining page_cursor < fuel
      → (outcome : Progress × Result E (Unit {0})) × (poll_pages settles get_events fuel
            start_ledger page_cursor p
          ≡ some outcome)
  unfolding poll_pages
  poll_pages-terminates zero start_ledger page_cursor p h = ground arith
  poll_pages-terminates (suc fuel) start_ledger page_cursor p h =
      elim (Result-cases (get_events start_ledger page_cursor)) [
        | inr (e, failed) ↦ ((p, err e), rw (failed, poll_pages) refl)
        | inl (response, got) ↦ elim (List-cases response.events) [
          | inl empty ↦ (
            (record p { cursor_ledger = max p.cursor_ledger response.latest_ledger }, ok tt),
            rw (got, poll_pages) (rw empty refl),
          )
          | inr (event, events, full_page) ↦
              elim (Bool-cases (ltb (length (event ∷ events)) page_limit)) [
                | inl short ↦ (
                  (handle_events settles (event ∷ events) p, ok tt),
                  rw (got, poll_pages) (rw full_page (rw short refl)),
                )
                | inr full ↦
                    let fewer =
                      advances start_ledger page_cursor response got (rw full_page full) in
                    let (outcome, ends) =
                      poll_pages-terminates fuel none (last_token (event ∷ events))
                        (handle_events settles (event ∷ events) p)
                        (omega (arith, h, rw full_page at fewer)) in
                    (
                      outcome,
                      poll_pages-full settles get_events fuel start_ledger page_cursor p got
                          full_page full ends,
                    )
              ]
        ]
      ]

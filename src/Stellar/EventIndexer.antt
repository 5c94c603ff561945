-- ===== src/Stellar/EventIndexer.antt =====
-- The poll of src/stellar/soroban-event-indexer.service.ts. `getEvents` is a request to the RPC endpoint and an
-- argument: it answers for a start ledger and a page cursor, or throws. What the listeners of an
-- event do is an argument too: whether they settle.
pub mod Accounting
pub mod Cursor
pub mod Paging
pub mod Source
use dupdap_backend.Base.{
  ℕ, zero, suc, ◌+◌, max, Bool, true, false, not, ◌&&◌, ltb, leb, List, [], ◌∷◌, ◌++◌, Option, none,
  some, Result, ok, err, length, if◌then◌else◌,
}
use dupdap_backend.Stellar.Events.{
  DeadLetter, EventError, SorobanContractEventDto, SorobanEventsResponse, SorobanRpcEvent,
  listener_failed, max_skipped_polls, page_limit, parse_event,
}

-- What a poll has done so far: the messages given to the listeners, the dead letter queue, and the
-- variables `cursorLedger` and `eventCount`.
pub record Progress : Type 0 where
  pub emitted : List SorobanContractEventDto
  pub dead_letters : List DeadLetter
  pub cursor_ledger : ℕ
  pub event_count : ℕ

unfoldable pub enqueue_dead_letter : SorobanRpcEvent → EventError → Progress → Progress
enqueue_dead_letter event error p = record p {
  dead_letters = p.dead_letters ++ record { event = event; error = error } ∷ [];
}

-- `event.ledger ?? cursorLedger`
abbrev pub ledger_or : Option ℕ → ℕ → ℕ
ledger_or none cursor = cursor
ledger_or (some ledger) cursor = ledger

-- `events[events.length - 1]?.pagingToken`
abbrev pub last_token : List SorobanRpcEvent → Option ℕ
last_token [] = none
last_token (event ∷ []) = some event.paging_token
last_token (event ∷ next ∷ events) = last_token (next ∷ events)

module _ (settles : SorobanContractEventDto → Bool) where
  -- The message goes out whether or not a listener throws.
  unfoldable pub dispatch :
      SorobanContractEventDto → Progress → Progress × Result EventError (Unit {0})
  dispatch dto p = (
    record p { emitted = p.emitted ++ dto ∷ [] },
    if settles dto then ok tt else err listener_failed,
  )

  -- The body of the `for` over a page.
  unfoldable pub handle_event : SorobanRpcEvent → Progress → Progress
  unfolding dispatch enqueue_dead_letter
  handle_event event p = elim (parse_event event) [
    | err e ↦ enqueue_dead_letter event e p
    | ok none ↦ p
    | ok (some dto) ↦
        let (p', sent) = dispatch dto p in
        elim sent [
          | err e ↦ enqueue_dead_letter event e p'
          | ok u ↦ record p' {
            event_count = p'.event_count + 1;
            cursor_ledger = max p'.cursor_ledger (ledger_or event.ledger p'.cursor_ledger);
          }
        ]
  ]

  unfoldable pub handle_events : List SorobanRpcEvent → Progress → Progress
  handle_events [] p = p
  handle_events (event ∷ events) p = handle_events events (handle_event event p)

  module _ {E : Type 0}
      (get_events : (start_ledger page_cursor : Option ℕ) → Result E SorobanEventsResponse) where
    -- The `while (true)`: `none` when the fuel runs out. A throw of `getEvents` keeps what was done.
    unfoldable pub poll_pages :
        (fuel : ℕ)
        → (start_ledger page_cursor : Option ℕ) → Progress
        → Option (Progress × Result E (Unit {0}))
    poll_pages zero start_ledger page_cursor p = none
    poll_pages (suc fuel) start_ledger page_cursor p = elim (get_events start_ledger page_cursor) [
      | err e ↦ some (p, err e)
      | ok response ↦ elim response.events [
        | [] ↦ some (record p { cursor_ledger = max p.cursor_ledger response.latest_ledger }, ok tt)
        | event ∷ events ↦
            let page = event ∷ events in
            let p' = handle_events page p in
            let rest = poll_pages fuel none (last_token page) p' in
            if ltb (length page) page_limit then some (p', ok tt) else rest
      ]
    ]

-- The service with its cursor in the cache and what has left it.
pub record Indexer : Type 0 where
  pub polling : Bool
  pub skipped_polls : ℕ
  pub stored_cursor : Option ℕ
  pub emitted : List SorobanContractEventDto
  pub dead_letters : List DeadLetter
  -- The critical alerts, by the number of skipped cycles that they name.
  pub stalled_alerts : List ℕ

-- The guards of `pollEvents`; the Boolean says whether the poll goes on.
pub begin_poll : (contract_id : Option ℕ) → Indexer → Indexer × Bool
begin_poll contract_id s =
    if s.polling
    then (let skipped = s.skipped_polls + 1 in
        (
          record s {
            skipped_polls = skipped;
            stalled_alerts =
                if ltb max_skipped_polls skipped
                then s.stalled_alerts ++ skipped ∷ []
                else s.stalled_alerts;
          },
          false,
        ))
    else elim contract_id [ none ↦ (s, false) | some id ↦ (record s { polling = true }, true) ]

-- `(await this.cache.get(CURSOR_KEY)) ?? 0`
abbrev pub last_ledger : Indexer → ℕ
last_ledger s = ledger_or s.stored_cursor 0

-- `lastLedger > 0 ? lastLedger + 1 : undefined`
abbrev pub start_of : ℕ → Option ℕ
start_of last = if ltb 0 last then some (last + 1) else none

abbrev pub initial_progress : Indexer → Progress
initial_progress s = record {
  emitted = s.emitted;
  dead_letters = s.dead_letters;
  cursor_ledger = last_ledger s;
  event_count = 0;
}

-- The rest of the cycle once the pages are done: the cursor is stored unless a page threw, and
-- `finally` clears the flag.
unfoldable pub end_poll :
    {E : Type 0} → Indexer → Progress × Result E (Unit {0}) → Indexer × Result E ℕ
end_poll s (p, outcome) =
    let done = record s { polling = false; emitted = p.emitted; dead_letters = p.dead_letters } in
    elim outcome [
      | err e ↦ (done, err e)
      | ok u ↦ (
        record done {
          stored_cursor =
              if ltb (last_ledger s) p.cursor_ledger then some p.cursor_ledger else s.stored_cursor;
          skipped_polls = 0;
        },
        ok p.event_count,
      )
    ]

-- The cycle that `begin_poll` lets go on, with nothing else running in between.
unfoldable pub poll_events :
    {E : Type 0} (settles : SorobanContractEventDto → Bool)
    (get_events : (start_ledger page_cursor : Option ℕ) → Result E SorobanEventsResponse) (fuel : ℕ)
    → Indexer
    → Option (Indexer × Result E ℕ)
unfolding end_poll
poll_events settles get_events fuel s =
    elim (poll_pages settles get_events fuel (start_of (last_ledger s)) none (initial_progress s)) [
      | none ↦ none
      | some outcome ↦ some (end_poll s outcome)
    ]

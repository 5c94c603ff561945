-- ===== src/Stellar/EventIndexer/Accounting.antt =====
-- What becomes of each event of a page (src/stellar/soroban-event-indexer.service.ts).
use mathlib.Core.List.{append_assoc, append-nil}
use dupdap_backend.Base.{
  ◌+◌, ◌≡◌, refl, sym, ◌∙◌, Bool, true, false, List, [], ◌∷◌, ◌++◌, none, some, ok, err, length,
  count, if◌then◌else◌, arith, Result-cases, Bool-cases, inl, inr, length-append,
}
use dupdap_backend.Stellar.EventIndexer.{
  Progress, handle_event, handle_events, dispatch, enqueue_dead_letter,
}
use dupdap_backend.Stellar.Events.{
  SorobanRpcEvent, SorobanContractEventDto, DeadLetter, listener_failed, parse_event,
}

-- An event that the source has no use for.
abbrev pub is_skipped : SorobanRpcEvent → Bool
is_skipped event = elim (parse_event event) [
  | err e ↦ false
  | ok none ↦ true
  | ok (some dto) ↦ false
]

-- The message that an event makes.
abbrev message_of : SorobanRpcEvent → List SorobanContractEventDto
message_of event = elim (parse_event event) [ err e ↦ [] | ok none ↦ [] | ok (some dto) ↦ dto ∷ [] ]

-- The messages of a page, in its order.
abbrev pub messages_of : List SorobanRpcEvent → List SorobanContractEventDto
messages_of [] = []
messages_of (event ∷ events) = message_of event ++ messages_of events

module _ (settles : SorobanContractEventDto → Bool) where
  -- The dead letter of an event, if there is one.
  abbrev dead_letter_of : SorobanRpcEvent → List DeadLetter
  dead_letter_of event = elim (parse_event event) [
    | err e ↦ record { event = event; error = e } ∷ []
    | ok none ↦ []
    | ok (some dto) ↦
        if settles dto then [] else record { event = event; error = listener_failed } ∷ []
  ]

  -- The dead letters of a page, in its order.
  abbrev pub dead_letters_of : List SorobanRpcEvent → List DeadLetter
  dead_letters_of [] = []
  dead_letters_of (event ∷ events) = dead_letter_of event ++ dead_letters_of events

  -- What handling a page does to a progress, said without the loop.
  pub Accounts : List SorobanRpcEvent → Progress → Progress → Type 0
  Accounts events p p' =
      (p'.emitted ≡ p.emitted ++ messages_of events)
      × (p'.dead_letters ≡ p.dead_letters ++ dead_letters_of events)
      × (p'.event_count + length p'.dead_letters + count is_skipped events
          ≡ p.event_count + length p.dead_letters + length events)

  Handles : SorobanRpcEvent → Progress → Progress → Type 0
  Handles event p p' =
      (p'.emitted ≡ p.emitted ++ message_of event)
      × (p'.dead_letters ≡ p.dead_letters ++ dead_letter_of event)
      × (p'.event_count + length (dead_letter_of event) + (if is_skipped event then 1 else 0)
          ≡ p.event_count + 1)

  handle_event-Handles :
      (event : SorobanRpcEvent) (p : Progress) → Handles event p (handle_event settles event p)
  unfolding handle_event dispatch enqueue_dead_letter Handles
  handle_event-Handles event p = elim (Result-cases (parse_event event)) [
    | inr (e, failed) ↦
        rw (failed, handle_event)
          (rw (failed, message_of, dead_letter_of, is_skipped)
            (sym (append-nil p.emitted), refl, omega arith))
    | inl (none, skipped) ↦
        rw (skipped, handle_event)
          (rw (skipped, message_of, dead_letter_of, is_skipped)
            (sym (append-nil p.emitted), sym (append-nil p.dead_letters), omega arith))
    | inl (some dto, parsed) ↦ elim (Bool-cases (settles dto)) [
      | inl sent ↦
          rw (parsed, handle_event)
            (rw (parsed, message_of, dead_letter_of, is_skipped)
              (rw sent (refl, sym (append-nil p.dead_letters), omega arith)))
      | inr thrown ↦
          rw (parsed, handle_event)
            (rw (parsed, message_of, dead_letter_of, is_skipped)
              (rw thrown (refl, refl, omega arith)))
    ]
  ]

  -- Handling a page: the listeners get the message of each event that makes one, in its order; the
  -- dead letter queue gets the events that are malformed or that a listener throws on, in their
  -- order; and every event is counted as dispatched, is a dead letter, or has no topic that is
  -- known, and is one of these once.
  pub handle_events-Accounts :
      (events : List SorobanRpcEvent) (p : Progress)
      → Accounts events p (handle_events settles events p)
  unfolding handle_events Accounts Handles parse_event handle_event
  handle_events-Accounts [] p =
      (sym (append-nil p.emitted), sym (append-nil p.dead_letters), omega arith)
  handle_events-Accounts (event ∷ events) p =
      let (a, b, c) = handle_event-Handles event p in
      let (d, e, f) = handle_events-Accounts events (handle_event settles event p) in
      (
        d ∙ rw a (append_assoc p.emitted (message_of event) (messages_of events)),
        e ∙ rw b (append_assoc p.dead_letters (dead_letter_of event) (dead_letters_of events)),
        omega (arith, c, rw b at f, length-append p.dead_letters (dead_letter_of event)),
      )

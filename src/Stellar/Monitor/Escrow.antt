-- ===== src/Stellar/Monitor/Escrow.antt =====
-- What the poll of the Soroban monitor does to the rows of a scan (src/stellar/stellar-monitor.service.ts).
use dupdap_backend.Base.{
  ℕ, ◌≡◌, ◌⊎◌, ◌∙◌, refl, ap, subst, Bool, true, List, [], ◌∷◌, Option, some, arith, Option-cases,
  Bool-cases, inl, inr, any, All, find, find-passes, find-All, ◌==◌, ==_iff, if◌then◌else◌,
}
use dupdap_backend.Settlements.{StoredPaymentStatus}
use dupdap_backend.Stellar.EscrowMonitor
use dupdap_backend.Stellar.EscrowMonitor.{SorobanEvent, poll_escrow_events}
use dupdap_backend.Stellar.EscrowMonitor.Causes.{is_cause, Survives, page, poll-All}
use dupdap_backend.Stellar.Payments.{Monitor, Payment}
use dupdap_backend.Stellar.Monitor.{
  Horizon, EscrowFeed, escrow_row, escrow_rows, has_escrow_id, written_row, poll_escrow, end_scan,
  update_lag,
}

-- The events that the poll of a scan gets.
abbrev pub events_of : EscrowFeed → Monitor → List SorobanEvent
events_of feed s =
    page feed.contract_id feed.cache feed.outside feed.get_events
      (record s.escrow { payments = escrow_rows s.row s.ids })

-- One of the events is the cause of the payment's status.
abbrev pub is_caused : EscrowFeed → Monitor → EscrowMonitor.Payment → Bool
is_caused feed s payment = any (λ event. is_cause feed.outside event payment) (events_of feed s)

-- A row is as it was, or it has another status, of which one of the events is the cause.
abbrev pub Follows : EscrowFeed → Monitor → (id : ℕ) → Payment → Option Payment → Type 0
Follows feed s id payment row =
    (row ≡ some payment)
    ⊎ ((status : StoredPaymentStatus) × (row ≡ some (record payment { status = status }))
        × (is_caused feed s (escrow_row id (record payment { status = status })) ≡ true))

abbrev with_status : StoredPaymentStatus → EscrowMonitor.Payment → EscrowMonitor.Payment
with_status status stored = record stored { status = status }

module _ (feed : EscrowFeed) (id : ℕ) (payment : Payment) (events : List SorobanEvent) where
  -- The row of the payment at the Soroban monitor.
  abbrev IsRow : EscrowMonitor.Payment → Type 0
  IsRow stored =
      (stored ≡ escrow_row id payment)
      ⊎ ((stored ≡ escrow_row id (record payment { status = stored.status }))
          × (any (λ event. is_cause feed.outside event stored) events ≡ true))

  abbrev IsRowOf : EscrowMonitor.Payment → Type 0
  IsRowOf stored = if stored.id == id then IsRow stored else Unit

  -- An event of the list keeps that.
  cause-Survives :
      (event : SorobanEvent)
      → ((p : EscrowMonitor.Payment)
          → is_cause feed.outside event p ≡ true
          → any (λ e. is_cause feed.outside e p) events ≡ true)
      → Survives feed.outside IsRowOf event
  cause-Survives event listed stored status h cause = elim (Bool-cases (stored.id == id)) [
    | inr other ↦ rw other tt
    | inl same ↦
        let before : IsRow stored = rw same at h in
        let now : record stored { status = status }
            ≡ escrow_row id (record payment { status = status }) =
          elim before [
            | inl e ↦ ap (with_status status) e
            | inr (e, caused) ↦ ap (with_status status) e
          ] in
        rw same (inr (now, listed (record stored { status = status }) cause))
  ]

  listed-Survive :
      (some_events : List SorobanEvent)
      → ((p : EscrowMonitor.Payment)
          → any (λ e. is_cause feed.outside e p) some_events ≡ true
          → any (λ e. is_cause feed.outside e p) events ≡ true)
      → All (Survives feed.outside IsRowOf) some_events
  listed-Survive [] listed = tt
  listed-Survive (event ∷ rest) listed = (
    cause-Survives event (λ p h. listed p (rw h refl)),
    listed-Survive rest (λ p h. listed p (ground (arith, h))),
  )

  rows-IsRowOf :
      (row : ℕ → Option Payment) (ids : List ℕ)
      → row id ≡ some payment
      → All IsRowOf (escrow_rows row ids)
  unfolding escrow_rows
  rows-IsRowOf row [] held = tt
  rows-IsRowOf row (other ∷ ids) held =
      let rest = rows-IsRowOf row ids held in
      elim (Option-cases (row other)) [
        | inl missing ↦ rw (escrow_rows, missing) rest
        | inr (stored, found) ↦
            let here_ : IsRowOf (escrow_row other stored) = elim (Bool-cases (other == id)) [
              | inr differs ↦ rw differs tt
              | inl same ↦
                  let same_id : other ≡ id = (==_iff other id).0 same in
                  let found' : row id ≡ some stored =
                    subst (λ i. row i ≡ some stored) same_id found in
                  let same_row : stored ≡ payment = cc (held, found') in
                  rw same (
                    inl (
                      subst (λ i. escrow_row other stored ≡ escrow_row i payment) same_id
                        (ap (escrow_row other) same_row)))
            ] in
            rw (escrow_rows, found) (here_, rest)
      ]

-- The poll changes the status of a row only as an event of its page says.
pub poll_escrow-Follows :
    (feed : EscrowFeed) (s : Monitor) (id : ℕ) (payment : Payment)
    → s.row id ≡ some payment
    → Follows feed s id payment ((poll_escrow feed s).0.row id)
unfolding poll_escrow written_row
poll_escrow-Follows feed s id payment held =
    let start = record s.escrow { payments = escrow_rows s.row s.ids } in
    let saved =
      (poll_escrow_events feed.contract_id feed.cache feed.outside feed.get_events
        start).0.payments in
    let events = events_of feed s in
    let all : All (IsRowOf feed id payment events) saved =
      poll-All feed.contract_id feed.cache feed.outside feed.get_events
        (IsRowOf feed id payment events) start
        (listed-Survive feed id payment events events (λ p h. h))
        (rows-IsRowOf feed id payment events s.row s.ids held) in
    elim (Option-cases (find (has_escrow_id id) saved)) [
      | inl gone ↦ inl (rw (poll_escrow, written_row, held) (rw gone refl))
      | inr (stored, found) ↦
          let same = find-passes (has_escrow_id id) saved found in
          let row : IsRow feed id payment events stored =
            rw same at
              (find-All (IsRowOf feed id payment events) (has_escrow_id id) saved all found) in
          let after : (poll_escrow feed s).0.row id
              ≡ some (record payment { status = stored.status }) =
            rw (poll_escrow, written_row, held) (rw found refl) in
          elim row [
            | inl e ↦ inl (after ∙ ap (λ r. some (record payment { status = r.status })) e)
            | inr (e, caused) ↦ inr (
              stored.status,
              after,
              subst (λ r. any (λ event. is_cause feed.outside event r) events ≡ true) e caused,
            )
          ]
    ]

-- The end of a scan: the rows are those of the poll, and no call is made.
pub end_scan-keeps :
    (horizon : Horizon) (feed : EscrowFeed) (s : Monitor)
    → ((end_scan horizon feed s).row ≡ (poll_escrow feed s).0.row)
      × ((end_scan horizon feed s).calls ≡ s.calls)
unfolding end_scan poll_escrow update_lag
end_scan-keeps horizon feed s = elim (Bool-cases (poll_escrow feed s).1) [
  | inr threw ↦ (rw (end_scan, threw) refl, rw (end_scan, threw) refl)
  | inl returned ↦ elim (Option-cases horizon.current_ledger) [
    | inl unknown ↦ (
      rw (end_scan, returned, update_lag, unknown) refl,
      rw (end_scan, returned, update_lag, unknown) refl,
    )
    | inr (ledger, known) ↦ (
      rw (end_scan, returned, update_lag, known) refl,
      rw (end_scan, returned, update_lag, known) refl,
    )
  ]
]

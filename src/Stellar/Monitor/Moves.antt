-- ===== src/Stellar/Monitor/Moves.antt =====
-- How a scan moves a payment (src/stellar/stellar-monitor.service.ts).
use dupdap_backend.Base.{
  ℕ, ◌≡◌, ◌∙◌, refl, Bool, true, false, List, [], ◌∷◌, Option, none, some, arith, Option-cases,
  Bool-cases, inl, inr, count, All, ltb, ◌==◌, ap, subst, sym, ==_iff,
}
use dupdap_backend.Stellar.Monitor.{
  expire_one, note, handle_transaction, handle_transactions, expire_each, old_payments, awaits,
  is_pending, find_locked,
}
use dupdap_backend.Stellar.Payments.{
  World, Monitor, Call, contract_confirm, contract_expire, webhook_confirmed, webhook_expired,
  initiate_settlement, queue_email, enqueue_sms, Payment, Transaction,
}
use dupdap_backend.Stellar.Monitor.Effects.{
  confirm_payment-row, confirm_payment-count, expire_one-row, expire_one-count,
}
use dupdap_backend.Stellar.Monitor.Cases.{handle_transaction-cases}

-- Whether a row is there and pending.
abbrev pub pending_row : Option Payment → Bool
pending_row none = false
pending_row (some payment) = is_pending payment

abbrev pub is_about : ℕ → Call → Bool
is_about id (contract_confirm payment) = payment == id
is_about id (contract_expire payment) = payment == id
is_about id (queue_email payment) = payment == id
is_about id (enqueue_sms payment) = payment == id
is_about id (webhook_confirmed payment) = payment == id
is_about id (webhook_expired payment) = payment == id
is_about id (initiate_settlement payment) = payment == id

find_locked-pending :
    (id : ℕ) (s : Monitor) {locked : Payment}
    → find_locked id s ≡ some locked
    → pending_row (s.row id) ≡ true
unfolding find_locked
find_locked-pending id s h = ground arith

pub awaits-pending :
    (memo id : ℕ) (s : Monitor) → awaits memo s id ≡ true → pending_row (s.row id) ≡ true
unfolding awaits
awaits-pending memo id s h = ground arith

-- A pending payment is another one than one that is not.
pub apart :
    (id other : ℕ) (row : ℕ → Option Payment)
    → pending_row (row id) ≡ false
    → pending_row (row other) ≡ true
    → (id == other) ≡ false
apart id other row h waits = elim (Bool-cases (id == other)) [
  | inr differs ↦ differs
  | inl same ↦
      let w : pending_row (row id) ≡ true =
        subst (λ i. pending_row (row i) ≡ true) (sym ((==_iff id other).0 same)) waits in
      cc
]

-- The row and the calls of a payment are as they were.
abbrev pub Left : ℕ → Monitor → Monitor → Type 0
Left id s s' = (s'.row id ≡ s.row id) × (count (is_about id) s'.calls ≡ count (is_about id) s.calls)

module _ (world : World) where
  handle_transaction-Left :
      (now id : ℕ) (tx : Transaction) (s : Monitor)
      → pending_row (s.row id) ≡ false
      → Left id s (handle_transaction world now tx s)
  unfolding note
  handle_transaction-Left now id tx s h = elim (handle_transaction-cases world now tx s) [
    | inl (row, calls) ↦ (ap (λ r. r id) row, ap (count (is_about id)) calls)
    | inr (memo, other, is_named, awaited, verified, row, calls) ↦
        let waits = awaits-pending memo other (note tx s) awaited in
        let differs = apart id other s.row h waits in
        (
          ap (λ r. r id) row
              ∙ elim (confirm_payment-row world now other tx.hash id (world.verify tx.hash memo)
                  (note tx s)) [
                    | inl unwritten ↦ unwritten
                    | inr (locked, found, written) ↦ written ∙ rw differs refl
                  ],
          ap (count (is_about id)) calls
              ∙ confirm_payment-count world (is_about id) now other tx.hash
                  (world.verify tx.hash memo) (note tx s) (ground arith),
        )
  ]

  expire_one-Left :
      (id other : ℕ) (payment : Payment) (s : Monitor)
      → (id == other) ≡ false
      → Left id s (expire_one world other payment s)
  expire_one-Left id other payment s differs = (
    elim (expire_one-row world other id payment s) [
      | inl unwritten ↦ unwritten
      | inr written ↦ written ∙ rw differs refl
    ],
    expire_one-count world (is_about id) other payment s (ground arith),
  )

  pub handle_transactions-Left :
      (now id : ℕ) (txs : List Transaction) (s : Monitor)
      → pending_row (s.row id) ≡ false
      → Left id s (handle_transactions world now txs s)
  unfolding handle_transactions
  handle_transactions-Left now id [] s h = (refl, refl)
  handle_transactions-Left now id (tx ∷ txs) s h =
      let (row, calls) = handle_transaction-Left now id tx s h in
      let (row', calls') =
        handle_transactions-Left now id txs (handle_transaction world now tx s) (rw row h) in
      (row' ∙ row, calls' ∙ calls)

  -- None of the rows that were read is the payment's.
  abbrev pub Avoids : ℕ → List (ℕ × Payment) → Type 0
  Avoids id rows = All (λ e. (id == e.0) ≡ false) rows

  pub old_payments-Avoids :
      (now id : ℕ) (s : Monitor) (ids : List ℕ)
      → pending_row (s.row id) ≡ false
      → Avoids id (old_payments now s ids)
  unfolding old_payments
  old_payments-Avoids now id s [] h = tt
  old_payments-Avoids now id s (other ∷ ids) h =
      let rest = old_payments-Avoids now id s ids h in
      elim (Option-cases (s.row other)) [
        | inl missing ↦ rw (missing, old_payments) rest
        | inr (payment, found) ↦ elim (Bool-cases (is_pending payment)) [
          | inr finished ↦ rw (found, old_payments) (rw finished rest)
          | inl waits ↦ elim (Bool-cases (ltb payment.expires_at now)) [
            | inr early ↦ rw (found, old_payments) (rw waits (rw early rest))
            | inl late ↦
                rw (found, old_payments)
                  (rw waits (rw late (apart id other s.row h (rw found waits), rest)))
          ]
        ]
      ]

  pub expire_each-Left :
      (id : ℕ) (rows : List (ℕ × Payment)) (s : Monitor)
      → Avoids id rows
      → Left id s (expire_each world rows s)
  unfolding expire_each
  expire_each-Left id [] s h = (refl, refl)
  expire_each-Left id ((other, payment) ∷ rows) s h =
      let (row, calls) = expire_one-Left id other payment s h.0 in
      let (row', calls') = expire_each-Left id rows (expire_one world other payment s) h.1 in
      (row' ∙ row, calls' ∙ calls)

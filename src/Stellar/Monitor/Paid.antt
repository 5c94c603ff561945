-- ===== src/Stellar/Monitor/Paid.antt =====
-- Why a scan confirms or expires a payment (src/stellar/stellar-monitor.service.ts).
use dupdap_backend.Base.{
  ℕ, ◌≡◌, ◌⊎◌, ◌∙◌, refl, Bool, true, false, ◌&&◌, List, [], ◌∷◌, Option, none, some, arith,
  Option-cases, Bool-cases, inl, inr, any, All, ltb, ◌==◌, ap, if◌then◌else◌, subst, sym, ==_iff,
}
use dupdap_backend.Settlements.{confirmed, expired}
use dupdap_backend.Stellar.Monitor.{
  Horizon, EscrowFeed, expire_one, note, handle_transaction, handle_transactions, expire_each,
  expire_old_payments, old_payments, scan_pending_payments, awaits, is_pending, as_confirmed,
}
use dupdap_backend.Stellar.Payments.{World, Monitor, Payment, Transaction}
use dupdap_backend.Stellar.Monitor.Effects.{confirm_payment-row, expire_one-row}
use dupdap_backend.Stellar.Monitor.Cases.{
  handle_transaction-cases, scan_pending_payments-cases, before_poll,
}
use dupdap_backend.Stellar.Monitor.Escrow.{Follows, poll_escrow-Follows}
use dupdap_backend.Stellar.Monitor.Moves.{
  pending_row, old_payments-Avoids, expire_each-Left, handle_transactions-Left,
}

abbrev pub confirmed_row : Option Payment → Bool
confirmed_row none = false
confirmed_row (some payment) = elim payment.status [ confirmed ↦ true | _ ↦ false ]

abbrev pub expired_row : Option Payment → Bool
expired_row none = false
expired_row (some payment) = elim payment.status [ expired ↦ true | _ ↦ false ]

confirmed-pending : (row : Option Payment) → confirmed_row row ≡ true → pending_row row ≡ false
confirmed-pending none h = refl
confirmed-pending (some payment) h = ground arith

module _ (world : World) (payment : Payment) where
  -- A transaction carries the payment's memo and is verified.
  abbrev pub pays : Transaction → Bool
  pays tx = elim tx.memo [
    | none ↦ false
    | some memo ↦
        elim payment.stellar_memo [ none ↦ false | some stored ↦ stored == memo ]
        && (world.verify tx.hash memo).verified
  ]

  awaited-pays :
      (memo id : ℕ) (tx : Transaction) (s : Monitor)
      → s.row id ≡ some payment
      → tx.memo ≡ some memo
      → awaits memo s id ≡ true
      → (world.verify tx.hash memo).verified ≡ true
      → pays tx ≡ true
  unfolding awaits
  awaited-pays memo id tx s held is_named awaited verified =
      rw (is_named, pays) (rw verified (ground (arith, rw (held, awaits) at awaited)))

  handle_transaction-Paid :
      (now id : ℕ) (tx : Transaction) (s : Monitor)
      → s.row id ≡ some payment
      → let row = (handle_transaction world now tx s).row id in
        (row ≡ some payment) ⊎ ((pays tx ≡ true) × (confirmed_row row ≡ true))
  unfolding note as_confirmed
  handle_transaction-Paid now id tx s held = elim (handle_transaction-cases world now tx s) [
    | inl (row, calls) ↦ inl (ap (λ r. r id) row ∙ held)
    | inr (memo, other, is_named, awaited, verified, row, calls) ↦
        elim (confirm_payment-row world now other tx.hash id (world.verify tx.hash memo)
          (note tx s)) [
            | inl unwritten ↦ inl (ap (λ r. r id) row ∙ unwritten ∙ held)
            | inr (locked, found, written) ↦ elim (Bool-cases (id == other)) [
              | inr differs ↦ inl (ap (λ r. r id) row ∙ written ∙ rw differs held)
              | inl same ↦
                  let awaited' : awaits memo (note tx s) id ≡ true =
                    subst (λ i. awaits memo (note tx s) i ≡ true) (sym ((==_iff id other).0 same))
                      awaited in
                  let now_row : (handle_transaction world now tx s).row id
                      ≡ some (as_confirmed now tx.hash (world.verify tx.hash memo) locked) =
                    ap (λ r. r id) row ∙ written ∙ rw same refl in
                  inr (
                    awaited-pays memo id tx (note tx s) held is_named awaited' verified,
                    ap confirmed_row now_row,
                  )
            ]
          ]
  ]

  handle_transactions-Paid :
      (now id : ℕ) (txs : List Transaction) (s : Monitor)
      → s.row id ≡ some payment
      → let row = (handle_transactions world now txs s).row id in
        (row ≡ some payment) ⊎ ((any pays txs ≡ true) × (confirmed_row row ≡ true))
  unfolding handle_transactions
  handle_transactions-Paid now id [] s held = inl held
  handle_transactions-Paid now id (tx ∷ txs) s held =
      let s' = handle_transaction world now tx s in
      elim (handle_transaction-Paid now id tx s held) [
        | inl still ↦ elim (handle_transactions-Paid now id txs s' still) [
          | inl kept ↦ inl kept
          | inr (paid, done) ↦ inr (rw paid (ground arith), done)
        ]
        | inr (paid, done) ↦
            let (same, calls) =
              handle_transactions-Left world now id txs s' (confirmed-pending (s'.row id) done) in
            inr (rw paid refl, rw same done)
      ]

  -- The rows that were read for an id are late.
  abbrev Late : (now id : ℕ) → List (ℕ × Payment) → Type 0
  Late now id rows = All (λ e. if id == e.0 then ltb payment.expires_at now ≡ true else Unit) rows

  late_read :
      (now id other : ℕ) (s : Monitor) {stored : Payment}
      → s.row id ≡ some payment
      → s.row other ≡ some stored
      → (is_pending stored && ltb stored.expires_at now) ≡ true
      → if id == other then ltb payment.expires_at now ≡ true else Unit
  late_read now id other s {stored} held found late = elim (Bool-cases (id == other)) [
    | inr differs ↦ rw differs tt
    | inl same ↦
        let again : s.row other ≡ some payment =
          subst (λ i. s.row i ≡ some payment) ((==_iff id other).0 same) held in
        let same_row : stored ≡ payment = cc in
        let over : ltb stored.expires_at now ≡ true = ground arith in
        rw same (subst (λ p. ltb p.expires_at now ≡ true) same_row over)
  ]

  old_payments-Late :
      (now id : ℕ) (s : Monitor) (ids : List ℕ)
      → s.row id ≡ some payment
      → Late now id (old_payments now s ids)
  unfolding old_payments
  old_payments-Late now id s [] held = tt
  old_payments-Late now id s (other ∷ ids) held =
      let rest = old_payments-Late now id s ids held in
      elim (Option-cases (s.row other)) [
        | inl missing ↦ rw (missing, old_payments) rest
        | inr (stored, found) ↦ elim (Bool-cases (is_pending stored && ltb stored.expires_at now)) [
          | inr kept ↦ rw (found, old_payments) (rw kept rest)
          | inl late ↦
              rw (found, old_payments) (rw late (late_read now id other s held found late, rest))
        ]
      ]

  expire_each-Late :
      (now id : ℕ) (rows : List (ℕ × Payment)) (s : Monitor)
      → Late now id rows
      → let row = (expire_each world rows s).row id in
        (row ≡ s.row id) ⊎ ((ltb payment.expires_at now ≡ true) × (expired_row row ≡ true))
  unfolding expire_each
  expire_each-Late now id [] s h = inl refl
  expire_each-Late now id ((other, stored) ∷ rows) s h =
      let s' = expire_one world other stored s in
      elim (expire_each-Late now id rows s' h.1) [
        | inr expired_later ↦ inr expired_later
        | inl same ↦ elim (expire_one-row world other id stored s) [
          | inl unwritten ↦ inl (same ∙ unwritten)
          | inr written ↦ elim (Bool-cases (id == other)) [
            | inr differs ↦ inl (same ∙ written ∙ rw differs refl)
            | inl matches ↦ inr (rw matches at h.0, rw (same ∙ written) (rw matches refl))
          ]
        ]
      ]

  -- The row of a pending payment when the Soroban monitor is polled.
  abbrev pub Decided : Horizon → (now : ℕ) → Monitor → Option Payment → Type 0
  Decided horizon now s row =
      (row ≡ some payment)
      ⊎ (((txs : List Transaction) × (horizon.transactions s.cursor ≡ some txs)
            × (any pays txs ≡ true)
            × (confirmed_row row ≡ true))
          ⊎ ((ltb payment.expires_at now ≡ true) × (expired_row row ≡ true)))

  before_poll-Decided :
      (horizon : Horizon) (now id : ℕ) (s : Monitor)
      → s.row id ≡ some payment
      → Decided horizon now s ((before_poll world horizon now s).row id)
  unfolding expire_old_payments
  before_poll-Decided horizon now id s held = elim (Option-cases (horizon.transactions s.cursor)) [
    | inl failed ↦ inl (rw (failed, before_poll) held)
    | inr (txs, listed) ↦
        let handled = handle_transactions world now txs s in
        let rows = old_payments now handled handled.ids in
        let final : (before_poll world horizon now s).row id
            ≡ (expire_each world rows handled).row id =
          rw (listed, before_poll) refl in
        elim (handle_transactions-Paid now id txs s held) [
          | inr (paid, done) ↦
              let (same, calls) = expire_each-Left world id rows handled (
                old_payments-Avoids world now id handled handled.ids
                  (confirmed-pending (handled.row id) done)) in
              inr (
                inl (
                  txs,
                  listed,
                  paid,
                  subst (λ r. confirmed_row r ≡ true) (sym (final ∙ same)) done,
                ))
          | inl still ↦
              elim (expire_each-Late now id rows handled
                (old_payments-Late now id handled handled.ids still)) [
                  | inl kept ↦ inl (final ∙ kept ∙ still)
                  | inr (late, gone) ↦
                      inr (inr (late, subst (λ r. expired_row r ≡ true) (sym final) gone))
                ]
        ]
  ]

  row-some :
      (horizon : Horizon) (now : ℕ) (s : Monitor) (row : Option Payment)
      → Decided horizon now s row
      → (p : Payment) × (row ≡ some p)
  row-some horizon now s none (inl kept) = cc
  row-some horizon now s none (inr (inl (txs, listed, paid, done))) = cc
  row-some horizon now s none (inr (inr (late, gone))) = cc
  row-some horizon now s (some p) decided = (p, refl)

  -- What a scan does to a pending payment, before the Soroban monitor is polled: it leaves it as it is;
  -- or it confirms it, and one of the transactions that Horizon listed carries its memo and is verified;
  -- or it lets it expire, and its time is over. The poll then leaves the row `mid` that this gives, or
  -- changes its status to the one that the topic of an event stands for which names the payment. A
  -- payment that is confirmed does not expire in the same scan unless such an event says so.
  pub scan_pending_payments-Paid :
      (horizon : Horizon) (feed : EscrowFeed) (now id : ℕ) (s : Monitor)
      → s.row id ≡ some payment
      → (mid : Payment) × Decided horizon now s (some mid)
        × Follows feed
            (before_poll world horizon now s)
            id
            mid
            ((scan_pending_payments world horizon feed now s).row id)
  scan_pending_payments-Paid horizon feed now id s held =
      let before = before_poll world horizon now s in
      elim (scan_pending_payments-cases world horizon feed now s) [
        | inl (row, calls) ↦ (payment, inl refl, inl (ap (λ r. r id) row ∙ held))
        | inr (txs, listed, row, calls) ↦
            let decided = before_poll-Decided horizon now id s held in
            let (mid, found) = row-some horizon now s (before.row id) decided in
            (
              mid,
              subst (Decided horizon now s) found decided,
              subst (λ r. Follows feed before id mid r) (sym (ap (λ r. r id) row))
                  (poll_escrow-Follows feed before id mid found),
            )
      ]

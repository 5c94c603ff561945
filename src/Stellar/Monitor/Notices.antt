-- ===== src/Stellar/Monitor/Notices.antt =====
-- The emails and texts about a confirmed payment (src/stellar/stellar-monitor.service.ts).
use dupdap_backend.Base.{
  ℕ, ◌≡◌, ◌∙◌, refl, Bool, true, false, List, [], ◌∷◌, arith, inl, inr, count, ap,
}
use dupdap_backend.Stellar.Monitor.{
  Horizon, EscrowFeed, expire_one, note, handle_transaction, handle_transactions, expire_each,
  expire_old_payments, old_payments, scan_pending_payments,
}
use dupdap_backend.Stellar.Payments.{
  World, Monitor, Call, queue_email, enqueue_sms, Payment, Transaction,
}
use dupdap_backend.Stellar.Monitor.Effects.{confirm_payment-count, expire_one-count}
use dupdap_backend.Stellar.Monitor.Cases.{
  handle_transaction-cases, scan_pending_payments-cases, before_poll,
}

abbrev pub is_notice : Call → Bool
is_notice (queue_email payment) = true
is_notice (enqueue_sms payment) = true
is_notice _ = false

-- How many notices have been asked for.
abbrev pub notices : Monitor → ℕ
notices s = count is_notice s.calls

module _ (world : World) where
  handle_transaction-notices :
      (now : ℕ) (tx : Transaction) (s : Monitor)
      → notices (handle_transaction world now tx s) ≡ notices s
  unfolding note
  handle_transaction-notices now tx s = elim (handle_transaction-cases world now tx s) [
    | inl (row, calls) ↦ ap (count is_notice) calls
    | inr (memo, id, is_named, awaited, verified, row, calls) ↦
        ap (count is_notice) calls
        ∙ confirm_payment-count world is_notice now id tx.hash (world.verify tx.hash memo)
            (note tx s) (omega arith)
  ]

  handle_transactions-notices :
      (now : ℕ) (txs : List Transaction) (s : Monitor)
      → notices (handle_transactions world now txs s) ≡ notices s
  unfolding handle_transactions
  handle_transactions-notices now [] s = refl
  handle_transactions-notices now (tx ∷ txs) s =
      handle_transactions-notices now txs (handle_transaction world now tx s)
      ∙ handle_transaction-notices now tx s

  expire_each-notices :
      (rows : List (ℕ × Payment)) (s : Monitor) → notices (expire_each world rows s) ≡ notices s
  unfolding expire_each
  expire_each-notices [] s = refl
  expire_each-notices ((id, payment) ∷ rows) s =
      expire_each-notices rows (expire_one world id payment s)
      ∙ expire_one-count world is_notice id payment s (omega arith)

  -- A scan never queues the email or the text that tells a merchant of a confirmed payment, whatever it
  -- confirms, whoever the merchant is and whatever the merchant prefers: the row that is fetched under
  -- the lock has no merchant. Mails about alerts are not counted.
  pub scan_pending_payments-notices :
      (horizon : Horizon) (feed : EscrowFeed) (now : ℕ) (s : Monitor)
      → notices (scan_pending_payments world horizon feed now s) ≡ notices s
  unfolding expire_old_payments
  scan_pending_payments-notices horizon feed now s =
      elim (scan_pending_payments-cases world horizon feed now s) [
        | inl (row, calls) ↦ ap (count is_notice) calls
        | inr (txs, listed, row, calls) ↦
            let handled = handle_transactions world now txs s in
            ap (count is_notice) (rw (listed, before_poll) at calls)
            ∙ expire_each-notices (old_payments now handled handled.ids) handled
            ∙ handle_transactions-notices now txs s
      ]

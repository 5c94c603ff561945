-- ===== src/Stellar/Monitor/Cases.antt =====
-- What a transaction and a scan come down to (src/stellar/stellar-monitor.service.ts).
use dupdap_backend.Base.{
  ◌⊎◌, ℕ, ◌≡◌, refl, true, List, none, some, Option-cases, Bool-cases, inl, inr, find, find-passes,
}
use dupdap_backend.Stellar.Monitor.{
  Horizon, handle_transactions, expire_old_payments, scan_pending_payments, EscrowFeed, poll_escrow,
  confirm_payment, handle_transaction, handle_memo, note, awaits,
}
use dupdap_backend.Stellar.Payments.{World, Monitor, Transaction}
use dupdap_backend.Stellar.Monitor.Escrow.{end_scan-keeps}

module _ (world : World) where
  -- A transaction confirms the payment that waits for its memo, if it is verified, or it moves only
  -- the cursor.
  pub handle_transaction-cases :
      (now : ℕ) (tx : Transaction) (s : Monitor)
      → let s' = handle_transaction world now tx s in
        ((s'.row ≡ s.row) × (s'.calls ≡ s.calls))
        ⊎ ((memo id : ℕ) × (tx.memo ≡ some memo)
            × (awaits memo (note tx s) id ≡ true)
            × ((world.verify tx.hash memo).verified ≡ true)
            × (s'.row
                ≡ (confirm_payment world now id tx.hash
                    (world.verify tx.hash memo)
                    (note tx s)).0.row)
            × (s'.calls
                ≡ (confirm_payment world now id tx.hash
                    (world.verify tx.hash memo)
                    (note tx s)).0.calls))
  unfolding handle_transaction handle_memo note
  handle_transaction-cases now tx s = elim (Option-cases tx.memo) [
    | inl unnamed ↦ inl (rw (unnamed, handle_transaction) (refl, refl))
    | inr (memo, is_named) ↦ elim (Option-cases (find (awaits memo (note tx s)) s.ids)) [
      | inl unknown ↦
          inl (rw (is_named, handle_transaction) (rw (unknown, handle_memo) (refl, refl)))
      | inr (id, found) ↦
          let awaited = find-passes (awaits memo (note tx s)) s.ids found in
          elim (Bool-cases (world.verify tx.hash memo).verified) [
            | inr unverified ↦ inl (
                rw (is_named, handle_transaction)
                  (rw (found, handle_memo) (rw unverified (refl, refl))))
            | inl verified ↦
                let ran =
                  confirm_payment world now id tx.hash (world.verify tx.hash memo) (note tx s) in
                elim (Bool-cases ran.1) [
                  | inl settled ↦ inr (
                    memo,
                    id,
                    is_named,
                    awaited,
                    verified,
                    rw (is_named, handle_transaction)
                        (rw (found, handle_memo) (rw settled (rw verified refl))),
                    rw (is_named, handle_transaction)
                        (rw (found, handle_memo) (rw settled (rw verified refl))),
                  )
                  | inr thrown ↦ inr (
                    memo,
                    id,
                    is_named,
                    awaited,
                    verified,
                    rw (is_named, handle_transaction)
                        (rw (found, handle_memo) (rw thrown (rw verified refl))),
                    rw (is_named, handle_transaction)
                        (rw (found, handle_memo) (rw thrown (rw verified refl))),
                  )
                ]
          ]
    ]
  ]

  -- The state when the Soroban monitor is polled.
  abbrev pub before_poll : Horizon → (now : ℕ) → Monitor → Monitor
  before_poll horizon now s = elim (horizon.transactions s.cursor) [
    | none ↦ s
    | some txs ↦ expire_old_payments world now (handle_transactions world now txs s)
  ]

  -- A scan goes through the transactions that are listed and then polls, or it leaves the payments
  -- alone.
  pub scan_pending_payments-cases :
      (horizon : Horizon) (feed : EscrowFeed) (now : ℕ) (s : Monitor)
      → let s' = scan_pending_payments world horizon feed now s in
        ((s'.row ≡ s.row) × (s'.calls ≡ s.calls))
        ⊎ ((txs : List Transaction) × (horizon.transactions s.cursor ≡ some txs)
            × (s'.row ≡ (poll_escrow feed (before_poll horizon now s)).0.row)
            × (s'.calls ≡ (before_poll horizon now s).calls))
  unfolding scan_pending_payments
  scan_pending_payments-cases horizon feed now s = elim (Bool-cases horizon.circuit_open) [
    | inl opened ↦ inl (rw opened (refl, refl))
    | inr closed_ ↦ elim (Option-cases horizon.deposit_address) [
      | inl unset ↦ inl (rw closed_ (rw unset (refl, refl)))
      | inr (address, set) ↦ elim (Option-cases (horizon.transactions s.cursor)) [
        | inl failed ↦ inl (rw closed_ (rw set (rw failed (refl, refl))))
        | inr (txs, got) ↦
            let scanned = expire_old_payments world now (handle_transactions world now txs s) in
            let (row, calls) = end_scan-keeps horizon feed scanned in
            inr (
              txs,
              got,
              rw (closed_, scan_pending_payments) (rw set (rw (got, before_poll) row)),
              rw (closed_, scan_pending_payments) (rw set (rw (got, before_poll) calls)),
            )
      ]
    ]
  ]

-- ===== src/Stellar/EscrowMonitor/Deposits.antt =====
-- Deposits that are confirmed (src/stellar/soroban-monitor.service.ts).
use dupdap_backend.Base.{
  ℕ, ◌≡◌, refl, Bool, true, false, ◌&&◌, List, [], ◌∷◌, Option, Result, if◌then◌else◌, arith,
  Option-cases, Bool-cases, inl, inr, All, subst,
}
use dupdap_backend.Settlements.{
  StoredPaymentStatus, confirmed, unconfirmed, settling, settled, failed_payment, expired, refunded,
  partially_refunded, cancelled,
}
use dupdap_backend.Stellar.EscrowMonitor.{
  Payment, SorobanEvent, SorobanEventsResponse, Monitor, CacheHealth, EscrowEventTopic, Outside,
  deposit, release, refund, expired_event, dispute, matches_escrow_payment_id,
  StoredPaymentStatus-discrete, same_status, extract_topic, payment_id_of, map_topic_to_status,
  is_deposit, poll_escrow_events,
}
use dupdap_backend.Stellar.EscrowMonitor.Causes.{
  is_enough, passes, is_cause, Survives, page, poll-All,
}

abbrev pub is_confirmed : StoredPaymentStatus → Bool
is_confirmed confirmed = true
is_confirmed _ = false

is_confirmed-status :
    (status : StoredPaymentStatus) → is_confirmed status ≡ true → status ≡ confirmed
is_confirmed-status confirmed h = refl
is_confirmed-status unconfirmed h = cc
is_confirmed-status settling h = cc
is_confirmed-status settled h = cc
is_confirmed-status failed_payment h = cc
is_confirmed-status expired h = cc
is_confirmed-status refunded h = cc
is_confirmed-status partially_refunded h = cc
is_confirmed-status cancelled h = cc

-- Only a deposit confirms.
confirmed-deposit :
    (topic : EscrowEventTopic)
    → same_status confirmed (map_topic_to_status topic) ≡ true
    → is_deposit topic ≡ true
unfolding map_topic_to_status StoredPaymentStatus-discrete
confirmed-deposit deposit same = refl
confirmed-deposit release same = cc
confirmed-deposit refund same = cc
confirmed-deposit expired_event same = cc
confirmed-deposit dispute same = cc

module _ (outside : Outside) where
  -- Under one of the payment's identifiers the contract holds at least ten stroops for each millionth, or
  -- the query answers that the balance is not available.
  abbrev pub IsFunded : Payment → Type 0
  IsFunded payment =
      (id : ℕ) × (matches_escrow_payment_id id payment ≡ true)
      × (is_enough outside id payment ≡ true)

  abbrev pub IsCovered : Payment → Type 0
  IsCovered payment = if is_confirmed payment.status then IsFunded payment else Unit

  cause-IsFunded :
      (event : SorobanEvent) (payment : Payment)
      → is_confirmed payment.status ≡ true
      → is_cause outside event payment ≡ true
      → IsFunded payment
  unfolding is_cause
  cause-IsFunded event payment done h = elim (Option-cases (extract_topic event.topic)) [
    | inl unknown ↦ cc (rw (is_cause, unknown) at h)
    | inr (topic, known) ↦ elim (Option-cases (payment_id_of event)) [
      | inl unnamed ↦ cc (rw (unnamed, payment_id_of) at (rw (is_cause, known) at h))
      | inr (id, is_named) ↦
          let all : (matches_escrow_payment_id id payment
                && (same_status payment.status (map_topic_to_status topic)
                    && passes outside topic id payment))
              ≡ true =
            rw (is_named, payment_id_of) at (rw (is_cause, known) at h) in
          let fits : matches_escrow_payment_id id payment ≡ true = ground (arith, all) in
          let same : same_status payment.status (map_topic_to_status topic) ≡ true =
            ground (arith, all) in
          let passed : passes outside topic id payment ≡ true = ground (arith, all) in
          let deposits = confirmed-deposit topic (
            subst (λ st. same_status st (map_topic_to_status topic) ≡ true)
              (is_confirmed-status payment.status done) same) in
          (id, fits, rw deposits at passed)
    ]
  ]

  IsCovered-Survives : (event : SorobanEvent) → Survives outside IsCovered event
  IsCovered-Survives event payment status h cause = elim (Bool-cases (is_confirmed status)) [
    | inl done ↦ rw done (cause-IsFunded event (record payment { status = status }) done cause)
    | inr other ↦ rw other tt
  ]

  All-Survives : (events : List SorobanEvent) → All (Survives outside IsCovered) events
  All-Survives [] = tt
  All-Survives (event ∷ events) = (IsCovered-Survives event, All-Survives events)

  -- A poll, whether it returns or throws, and whatever the RPC endpoint, the cache and the balance query
  -- do: if each confirmed payment was so before with enough on the contract under one of its identifiers,
  -- or with the answer that the balance is not available, each confirmed payment is so afterwards. A
  -- short-paid deposit confirms nothing, and neither does one whose balance query throws.
  pub poll_escrow_events-IsCovered :
      {E : Type 0} (contract : Option ℕ) (cache : CacheHealth)
      (get_events : (start_ledger : ℕ) → Result E SorobanEventsResponse) (s : Monitor)
      → All IsCovered s.payments
      → All IsCovered (poll_escrow_events contract cache outside get_events s).0.payments
  poll_escrow_events-IsCovered contract cache get_events s h =
      poll-All contract cache outside get_events IsCovered s
        (All-Survives (page contract cache outside get_events s)) h

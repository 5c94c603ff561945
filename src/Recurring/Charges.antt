-- ===== src/Recurring/Charges.antt =====
-- The charges of src/recurring-payments/recurring-payments.service.ts, cycle by cycle.
use dupdap_backend.Base.{
  ℕ, ◌+◌, ◌*◌, ◌≤◌, ◌<◌, ◌≡◌, refl, ◌⊎◌, inl, inr, Bool, true, false, ◌&&◌, List, [], ◌∷◌, Option,
  none, some, lookup, insert, lookup-insert, count, count-append, All, ltb, ◌==◌, arith, Bool-cases,
  Option-cases, if◌then◌else◌,
}
use dupdap_backend.Recurring.{
  RecurringPayment, Charge, Billing, day_ms, update_subscription, claim, charge_one,
}

abbrev pub is_charge : (id cycle : ℕ) → Charge → Bool
is_charge id cycle c = c.subscription_id == id && c.cycle == cycle

-- A round of some run of `chargeDueSubscriptions`: the row as that run has read it, and how the payment
-- goes.
pub record Round : Type 0 where
  pub id : ℕ
  pub read : RecurringPayment
  pub created : Bool

-- The rounds of several runs, in the order in which they happen.
pub rounds : List Round → Billing → Billing
rounds [] b = b
rounds (r ∷ rs) b = rounds rs (charge_one r.created r.id r.read b)

-- A cycle that lies before the next charge may have been charged, once.
abbrev charged_at_most : ℕ → Option RecurringPayment → ℕ
charged_at_most cycle none = 1
charged_at_most cycle (some row) = if ltb cycle row.next_charge_at then 1 else 0

-- The row that a claim leaves.
abbrev advanced : RecurringPayment → RecurringPayment → RecurringPayment
advanced read row = record row {
  next_charge_at = read.next_charge_at + read.interval_days * day_ms;
}

abbrev charge_of : ℕ → RecurringPayment → Charge
charge_of id read = record {
  subscription_id = id;
  cycle = read.next_charge_at;
  merchant_id = read.merchant_id;
  amount_usd = read.amount_usd;
  description = read.description;
}

-- The claim of a cycle goes through exactly if the row still has the time that was read.
claim-cases :
    (id : ℕ) (read : RecurringPayment) (b : Billing)
    → (claim id read b ≡ (b, false))
      ⊎ ((row : RecurringPayment) × (lookup id b.subscriptions ≡ some row)
          × (row.next_charge_at ≡ read.next_charge_at)
          × (claim id read b
              ≡ (record b { subscriptions = insert id (advanced read row) b.subscriptions }, true)))
unfolding claim
claim-cases id read b = elim (Option-cases (lookup id b.subscriptions)) [
  | inl missing ↦ inl (rw (missing, claim) refl)
  | inr (row, found) ↦ elim (Bool-cases (row.next_charge_at == read.next_charge_at)) [
    | inl same ↦ inr (row, found, ground arith, rw (found, claim) (rw same refl))
    | inr moved ↦ inl (rw (found, claim) (rw moved refl))
  ]
]

update_subscription_lem :
    (id j : ℕ) (change : RecurringPayment → RecurringPayment) (b : Billing) {row : RecurringPayment}
    → lookup id b.subscriptions ≡ some row
    → let b' = update_subscription id change b in
      (b'.charges ≡ b.charges)
      × (lookup j b'.subscriptions
          ≡ (if id == j then some (change row) else lookup j b.subscriptions))
unfolding update_subscription
update_subscription_lem id j change b {row} found =
    rw (found, update_subscription) (refl, lookup-insert id j (change row) b.subscriptions)

module _ (id cycle : ℕ) where
  abbrev IsFair : Billing → Type 0
  IsFair b =
      count (is_charge id cycle) b.charges ≤ charged_at_most cycle (lookup id b.subscriptions)

  charge_one-IsFair :
      (r : Round) (b : Billing)
      → 0 < r.read.interval_days
      → IsFair b
      → IsFair (charge_one r.created r.id r.read b)
  unfolding charge_one
  charge_one-IsFair r b positive h = elim (claim-cases r.id r.read b) [
    | inl late ↦ rw (late, charge_one) h
    | inr (row, found, same, claimed) ↦ elim (Bool-cases r.created) [
      | inl made ↦
          rw (claimed, made, charge_one)
            (ground (
              arith,
              lookup-insert r.id id (advanced r.read row) b.subscriptions,
              count-append (is_charge id cycle) b.charges (charge_of r.id r.read ∷ []),
            ))
      | inr failed ↦
          let b' = record b { subscriptions = insert r.id (advanced r.read row) b.subscriptions } in
          let stored : lookup r.id b'.subscriptions ≡ some (advanced r.read row) =
            ground (arith, lookup-insert r.id r.id (advanced r.read row) b.subscriptions) in
          let back =
            λ (q : RecurringPayment). record q { next_charge_at = r.read.next_charge_at } in
          let (kept, rows) =
            update_subscription_lem r.id id back b' {row = advanced r.read row} stored in
          rw (claimed, failed, charge_one)
            (rw (kept, rows)
              (ground (arith, lookup-insert r.id id (advanced r.read row) b.subscriptions)))
    ]
  ]

  rounds-IsFair :
      (rs : List Round) (b : Billing)
      → All (λ r. 0 < r.read.interval_days) rs
      → IsFair b
      → IsFair (rounds rs b)
  unfolding rounds
  rounds-IsFair [] b positive h = h
  rounds-IsFair (r ∷ rs) b positive h =
      rounds-IsFair rs (charge_one r.created r.id r.read b) positive.1
        (charge_one-IsFair r b positive.0 h)

  -- However the rounds of overlapping runs follow one another, and however old the rows are that they
  -- have read, no cycle of a subscription is charged twice, as long as every interval is at least a
  -- day and a round ends before the next one claims.
  pub rounds_charge_once :
      (rs : List Round) (b : Billing)
      → All (λ r. 0 < r.read.interval_days) rs
      → b.charges ≡ []
      → count (is_charge id cycle) (rounds rs b).charges ≤ 1
  rounds_charge_once rs b positive none_yet =
      let fair = rounds-IsFair rs b positive (rw none_yet (omega arith)) in ground (arith, fair)

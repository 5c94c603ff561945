-- ===== src/Webhooks/Delivery/Frames.antt =====
-- What the bookkeeping of src/webhooks/webhook-delivery.processor.ts leaves alone, and what it does to
-- the row of its webhook.
use dupdap_backend.Base.{
  ℕ, ◌+◌, ◌≡◌, ap, ◌∙◌, Bool, false, not, ◌&&◌, some, arith, lookup, lookup-insert, ltb, leb,
  if◌then◌else◌, Option-cases, inl, inr,
}
use dupdap_backend.Webhooks.Records.{Webhook, World, is_future}
use dupdap_backend.Webhooks.Delivery.{
  update_webhook, mark_webhook_failure, open_circuit_if_needed, after_failure, notify_merchant,
  retire_if_failing,
}

-- The two tables that only `process` itself writes.
abbrev pub Keeps : World → World → Type 0
Keeps w w' =
    (w'.queue ≡ w.queue)
    × (w'.delivery_log ≡ w.delivery_log)
    × (w'.requests ≡ w.requests)
    × (w'.merchants ≡ w.merchants)

pub update_webhook-Keeps :
    (id : ℕ) (change : Webhook → Webhook) (w : World) → Keeps w (update_webhook id change w)
unfolding update_webhook
update_webhook-Keeps id change w = ground arith

notify_merchant-Keeps :
    (id : ℕ) (webhook : Webhook) (w : World)
    → Keeps w (notify_merchant id webhook w)
      × ((notify_merchant id webhook w).webhooks ≡ w.webhooks)
unfolding notify_merchant
notify_merchant-Keeps id webhook w = ground arith

retire_if_failing-Keeps :
    (id : ℕ) (webhook : Webhook) (w : World) → Keeps w (retire_if_failing id webhook w).0
unfolding retire_if_failing
retire_if_failing-Keeps id webhook w = ground arith

open_circuit_if_needed-Keeps :
    (end id : ℕ) (webhook : Webhook) (w : World)
    → Keeps w (open_circuit_if_needed end id webhook w).0
unfolding open_circuit_if_needed
open_circuit_if_needed-Keeps end id webhook w = ground arith

pub update_webhook-row :
    (id : ℕ) (change : Webhook → Webhook) (w : World) {row : Webhook}
    → lookup id w.webhooks ≡ some row
    → lookup id (update_webhook id change w).webhooks ≡ some (change row)
unfolding update_webhook
update_webhook-row id change w {row} found =
    rw (found, update_webhook) (rw (lookup-insert id id (change row) w.webhooks) (ground arith))

-- Whether a failure opens the circuit: five failures or more, and it is not open already.
abbrev pub opens : ℕ → Webhook → Bool
opens end row = leb 5 row.failure_count && not (is_future row.circuit_open_until end)

abbrev pub reopened : ℕ → Webhook → Webhook
reopened end row = record row {
  circuit_open_until = if opens end row then some (end + 86400000) else row.circuit_open_until;
}

open_circuit_if_needed-row :
    (end id : ℕ) (webhook : Webhook) (w : World)
    → lookup id w.webhooks ≡ some webhook
    → let (w', opened) = open_circuit_if_needed end id webhook w in
      (opened ≡ opens end webhook) × (lookup id w'.webhooks ≡ some (reopened end webhook))
unfolding open_circuit_if_needed
open_circuit_if_needed-row end id webhook w found =
    let row = record webhook { circuit_open_until = some (end + 86400000) } in
    (ground arith, ground (arith, lookup-insert id id row w.webhooks))

-- The row after a failure has been counted.
abbrev pub counted : Webhook → Webhook
counted row = record row {
  failure_count = row.failure_count + 1;
  is_active = row.is_active && ltb (row.failure_count + 1) 10;
}

retire_if_failing-row :
    (id : ℕ) (row : Webhook) (w : World)
    → lookup id w.webhooks ≡ some row
    → let (w', row') = retire_if_failing id row w in
      (lookup id w'.webhooks ≡ some row')
      × (row' ≡ record row { is_active = row.is_active && ltb row.failure_count 10 })
unfolding retire_if_failing
retire_if_failing-row id row w found =
    let off = record row { is_active = false } in
    (ground (arith, lookup-insert id id off w.webhooks), ground arith)

after_failure-row :
    (end id : ℕ) (row : Webhook) (w : World)
    → lookup id w.webhooks ≡ some (record row { failure_count = row.failure_count + 1 })
    → let (w', opened) =
        after_failure end id (record row { failure_count = row.failure_count + 1 }) w in
      (opened ≡ opens end (counted row))
      × (lookup id w'.webhooks ≡ some (reopened end (counted row)))
unfolding after_failure
after_failure-row end id row w found =
    let next = record row { failure_count = row.failure_count + 1 } in
    let (stored, e) = retire_if_failing-row id next w found in
    let (w1, next') = retire_if_failing id next w in
    let (_, same) = notify_merchant-Keeps id next' w1 in
    let (o, r) =
      open_circuit_if_needed-row end id next' (notify_merchant id next' w1) (rw same stored) in
    (o ∙ ap (opens end) e, r ∙ ap (λ x. some (reopened end x)) e)

after_failure-Keeps :
    (end id : ℕ) (webhook : Webhook) (w : World) → Keeps w (after_failure end id webhook w).0
unfolding after_failure
after_failure-Keeps end id webhook w =
    let (w1, webhook') = retire_if_failing id webhook w in
    let w2 = notify_merchant id webhook' w1 in
    ground (
      arith,
      retire_if_failing-Keeps id webhook w,
      notify_merchant-Keeps id webhook' w1,
      open_circuit_if_needed-Keeps end id webhook' w2,
    )

-- A failure of a webhook that is there is counted in its row, and opens the circuit as `opens` says.
pub mark_webhook_failure-row :
    (end id : ℕ) (row : Webhook) (w : World)
    → lookup id w.webhooks ≡ some row
    → let (w', opened) = mark_webhook_failure end id w in
      (opened ≡ opens end (counted row))
      × (lookup id w'.webhooks ≡ some (reopened end (counted row)))
unfolding mark_webhook_failure
mark_webhook_failure-row end id row w found =
    let count_one = λ (r : Webhook). record r { failure_count = r.failure_count + 1 } in
    let stored = update_webhook-row id count_one w found in
    rw (stored, mark_webhook_failure)
      (after_failure-row end id row (update_webhook id count_one w) stored)

pub mark_webhook_failure-Keeps :
    (end id : ℕ) (w : World) → Keeps w (mark_webhook_failure end id w).0
unfolding mark_webhook_failure
mark_webhook_failure-Keeps end id w =
    let count_one = λ (r : Webhook). record r { failure_count = r.failure_count + 1 } in
    let w1 = update_webhook id count_one w in
    let counted_once = update_webhook-Keeps id count_one w in
    elim (Option-cases (lookup id w1.webhooks)) [
      | inl missing ↦ rw (missing, mark_webhook_failure) counted_once
      | inr (row, stored) ↦
          rw (stored, mark_webhook_failure)
            (ground (arith, counted_once, after_failure-Keeps end id row w1))
    ]

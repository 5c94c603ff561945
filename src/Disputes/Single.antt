-- ===== src/Disputes/Single.antt =====
-- The open disputes of a payment (src/payments/disputes.service.ts).
use Prim.Native.String.{String}
use dupdap_backend.Base.{
  ℕ, ◌+◌, ◌*◌, ◌≤◌, ◌≡◌, inl, inr, Bool, false, [], ◌∷◌, ◌++◌, Option, none, Dict, lookup, insert,
  find, count, arith, Bool-cases, Option-cases, if◌then◌else◌,
}
use dupdap_backend.Disputes.{
  DisputeStatus, escalated, PaymentDispute, Disputes, is_open, is_open_for, raiser_of, raise,
  reviewed, review, overdue, escalate_each, escalate_overdue, new_dispute, hour_ms,
}

module _ {V : Type 0} (p : ℕ × V → Bool) where
  count-insert-new :
      (k : ℕ) (v : V) (d : Dict V)
      → lookup k d ≡ none
      → count p (insert k v d) ≡ count p d + (if p (k, v) then 1 else 0)
  count-insert-new k v [] h = omega arith
  count-insert-new k v ((j, w) ∷ d) h = ground (arith, count-insert-new k v d)

  count-insert-le :
      (k : ℕ) (v : V) (d : Dict V) → p (k, v) ≡ false → count p (insert k v d) ≤ count p d
  count-insert-le k v [] h = ground arith
  count-insert-le k v ((j, w) ∷ d) h = ground (arith, count-insert-le k v d)

  find-none-count : (d : Dict V) → find p d ≡ none → count p d ≡ 0
  find-none-count [] h = omega arith
  find-none-count (e ∷ d) h = ground (arith, find-none-count d)

-- The open disputes of a payment.
abbrev pub open_count : ℕ → Disputes → ℕ
open_count payment s = count (is_open_for payment) s.disputes

escalate_each-le :
    (payment : ℕ) (rows : Dict PaymentDispute) (s : Disputes)
    → open_count payment (escalate_each rows s) ≤ open_count payment s
unfolding escalate_each
escalate_each-le payment [] s = omega arith
escalate_each-le payment ((id, row) ∷ rows) s =
    let row' = record row { status = escalated } in
    let s' = record s { disputes = insert id row' s.disputes; alerts = s.alerts ++ id ∷ [] } in
    omega (
      arith,
      escalate_each-le payment rows s',
      count-insert-le (is_open_for payment) id row' s.disputes (ground arith),
    )

review-le :
    (payment now id admin : ℕ) (status : DisputeStatus) (resolution : Option String) (s : Disputes)
    → is_open status ≡ false
    → open_count payment (review now id admin status resolution s).0 ≤ open_count payment s
unfolding review
review-le payment now id admin status resolution s closed =
    elim (Option-cases (lookup id s.disputes)) [
      | inl missing ↦ rw (missing, review) (omega arith)
      | inr (row, found) ↦
          rw (found, review)
            (count-insert-le (is_open_for payment) id (reviewed now admin status resolution row)
              s.disputes (ground arith))
    ]

raise-le :
    (payment sla_hours fresh now payment_id : ℕ) (blank : String → Bool) (merchant email : Option ℕ)
    (reason : String) (s : Disputes)
    → lookup fresh s.disputes ≡ none
    → open_count payment s ≤ 1
    → open_count payment (raise blank sla_hours fresh now payment_id merchant email reason s).0 ≤ 1
unfolding raise
raise-le payment sla_hours fresh now payment_id blank merchant email reason s unused h =
    elim (Bool-cases (blank reason)) [
      | inl empty ↦ rw (empty, raise) h
      | inr given ↦ elim (Option-cases (lookup payment_id s.payments)) [
        | inl missing ↦ rw (given, raise) (rw missing h)
        | inr (stored, found) ↦ elim (Option-cases (raiser_of stored merchant email)) [
          | inl stranger ↦ rw (given, raise) (rw found (rw stranger h))
          | inr (raiser, theirs) ↦ elim (Option-cases (find (is_open_for payment_id) s.disputes)) [
            | inr (other, double) ↦ rw (given, raise) (rw found (rw theirs (rw double h)))
            | inl single ↦
                rw (given, raise)
                  (rw found (
                    rw theirs (
                      rw single (
                        ground (
                          arith,
                          count-insert-new (is_open_for payment) fresh
                              (new_dispute payment_id stored raiser reason
                                (now + sla_hours * hour_ms))
                              s.disputes unused,
                          find-none-count (is_open_for payment_id) s.disputes single,
                        )))))
          ]
        ]
      ]
    ]

-- A call of the service: a dispute is raised with an id that is not in use, or reviewed with a result
-- that does not open it again, or the overdue ones are escalated.
pub data Step (s : Disputes) : Disputes → Type 0 where
  raises :
      (blank : String → Bool) (sla_hours fresh now payment_id : ℕ) (merchant email : Option ℕ)
      (reason : String)
      → lookup fresh s.disputes ≡ none
      → Step s (raise blank sla_hours fresh now payment_id merchant email reason s).0
  reviews :
      (now id admin : ℕ) (status : DisputeStatus) (resolution : Option String)
      → is_open status ≡ false
      → Step s (review now id admin status resolution s).0
  escalates : (now : ℕ) → Step s (escalate_overdue now s).0

pub data Reach (s : Disputes) : Disputes → Type 0 where
  here : Reach s s
  next : {t u : Disputes} → Reach s t → Step t u → Reach s u

-- As long as no review sets a dispute back to open and new rows get ids that are not in use, calls
-- that follow one another leave a payment that has at most one open dispute with at most one.
pub Reach-open_count :
    (payment : ℕ) {s t : Disputes} → Reach s t → open_count payment s ≤ 1 → open_count payment t ≤ 1
unfolding escalate_overdue
Reach-open_count payment here h = h
Reach-open_count payment
      (next {t = t} r (raises blank sla_hours fresh now payment_id merchant email reason unused))
      h =
    raise-le payment sla_hours fresh now payment_id blank merchant email reason t unused
      (Reach-open_count payment r h)
Reach-open_count payment (next {t = t} r (reviews now id admin status resolution closed)) h =
    omega (
      arith,
      review-le payment now id admin status resolution t closed,
      Reach-open_count payment r h,
    )
Reach-open_count payment (next {t = t} r (escalates now)) h =
    omega (arith, escalate_each-le payment (overdue now t) t, Reach-open_count payment r h)

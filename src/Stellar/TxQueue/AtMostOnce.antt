-- ===== src/Stellar/TxQueue/AtMostOnce.antt =====
-- How often the transactions of the queue can be applied (src/stellar/stellar-tx-queue.service.ts).
use dupdap_backend.Base.{
  ℕ, ◌+◌, ◌≤◌, ◌≡◌, refl, true, List, [], ◌∷◌, Option, length, Bool-cases, Option-cases,
  Result-cases, inl, inr, arith,
}
use dupdap_backend.Stellar.TxQueue.{Horizon, IsHorizon, attempt, submit_one, submit_each, retries}

module _ (h : Horizon) (laws : IsHorizon h) where
  open h use {Ledger, Tx, load_account, submit_transaction, others, may_apply}

  -- How many transactions of the queue are applied or may still be.
  abbrev pub total : Ledger → ℕ
  total l = length (may_apply l)

  attempt-bounds :
      (build_tx : ℕ → Option Tx) (l : Ledger)
      → (total (attempt h build_tx l).0 ≤ total l + 1)
        × (retries h (attempt h build_tx l).1 ≡ true → total (attempt h build_tx l).0 ≤ total l)
  unfolding attempt
  attempt-bounds build_tx l = elim (Option-cases (load_account l)) [
    | inl down ↦ rw (down, attempt) (omega arith, λ e. cc)
    | inr (sequence, loaded) ↦ elim (Option-cases (build_tx sequence)) [
      | inl throws ↦ rw (loaded, attempt) (rw throws (omega arith, λ e. cc))
      | inr (tx, built) ↦
          let same = laws.others-adds l in
          let one = laws.submit-adds (others l) tx in
          elim (Result-cases (submit_transaction (others l) tx).1) [
            | inl (hash, accepted) ↦
                rw (loaded, attempt) (rw built (rw accepted (omega (arith, one, same), λ e. cc)))
            | inr (e, thrown) ↦
                rw (loaded, attempt)
                  (rw built (
                    rw thrown (
                      omega (arith, one, same),
                      λ b. omega (arith, laws.submit-bad_seq (others l) tx e thrown b, same),
                    )))
          ]
    ]
  ]

  -- A submission.
  submit_one-bounds :
      (build_tx : ℕ → Option Tx) (l : Ledger) → total (submit_one h build_tx l).0 ≤ total l + 1
  unfolding submit_one
  submit_one-bounds build_tx l =
      let first = attempt h build_tx l in
      let bounds = attempt-bounds build_tx l in
      elim (Bool-cases (retries h first.1)) [
        | inr ends ↦ rw (ends, submit_one) bounds.0
        | inl again ↦
            let kept = bounds.1 again in
            let second = attempt-bounds build_tx first.0 in
            rw (again, submit_one) (omega (arith, kept, second.0))
      ]

  -- Any number of submissions, whatever others do to the account and whenever the network applies what it
  -- was sent: each submission has a result, and the network applies at most one transaction for it, its
  -- retry included, now or later.
  pub submit_each-bounds :
      (builds : List (ℕ → Option Tx)) (l : Ledger)
      → (length (submit_each h builds l).1 ≡ length builds)
        × (total (submit_each h builds l).0 ≤ total l + length builds)
  unfolding submit_each
  submit_each-bounds [] l = (refl, omega arith)
  submit_each-bounds (build_tx ∷ builds) l =
      let one = submit_one-bounds build_tx l in
      let rest = submit_each-bounds builds (submit_one h build_tx l).0 in
      (omega (arith, rest.0), omega (arith, one, rest.1))

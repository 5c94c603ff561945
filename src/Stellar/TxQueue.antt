-- ===== src/Stellar/TxQueue.antt =====
-- src/stellar/stellar-tx-queue.service.ts: the submissions from the treasury account, one after another. Horizon and the Stellar
-- SDK are the record `Horizon`; `IsHorizon` is what is documented of them. `others` is what other processes do to
-- the account between the loading of it and the submission.
pub mod AtMostOnce
use dupdap_backend.Base.{
  ℕ, ◌+◌, ◌≤◌, length, ◌≡◌, Bool, true, false, ◌&&◌, ◌||◌, List, [], ◌∷◌, ◌++◌, Option, none, some,
  Result, ok, err, if◌then◌else◌,
}

-- What `isBadSeqError` reads of an error; `is_answer` says that it has the data of a response.
pub record HorizonError : Type 0 where
  pub is_answer : Bool
  pub error_is_bad_seq : Bool
  pub transaction_is_bad_seq : Bool
  pub operation_is_bad_seq : Bool

abbrev pub is_bad_seq_error : HorizonError → Bool
is_bad_seq_error e =
    e.is_answer && (e.error_is_bad_seq || (e.transaction_is_bad_seq || e.operation_is_bad_seq))

pub record Horizon : Type 1 where
  pub Ledger : Type 0
  pub Tx : Type 0
  -- The sequence number of the account; `none` where the request fails.
  pub load_account : Ledger → Option ℕ
  -- The hash, or what is thrown.
  pub submit_transaction : Ledger → Tx → Ledger × Result HorizonError ℕ
  pub others : Ledger → Ledger
  -- The transactions that this queue has sent and that the network has applied or may still apply; a
  -- transaction that is sent again is the same one and stands here once.
  pub may_apply : Ledger → List Tx

-- A submission adds at most its transaction, whether it is answered with a hash (also with that of an
-- earlier application), times out, or throws; one whose sequence number is refused adds nothing. What
-- other processes and the closing of ledgers do adds none.
pub record IsHorizon (h : Horizon) : Type 0 where
  pub submit-adds :
      (l : h.Ledger) (tx : h.Tx)
      → length (h.may_apply (h.submit_transaction l tx).0) ≤ length (h.may_apply l) + 1
  pub submit-bad_seq :
      (l : h.Ledger) (tx : h.Tx) (e : HorizonError)
      → (h.submit_transaction l tx).1 ≡ err e
      → is_bad_seq_error e ≡ true
      → length (h.may_apply (h.submit_transaction l tx).0) ≤ length (h.may_apply l)
  pub others-adds : (l : h.Ledger) → length (h.may_apply (h.others l)) ≤ length (h.may_apply l)

pub data SubmitError : Type 0 where
  not_configured cannot_load cannot_build : SubmitError
  refused : HorizonError → SubmitError

module _ (h : Horizon) where
  open h use {Ledger, Tx, load_account, submit_transaction, others}

  -- Load, build, sign and submit.
  unfoldable pub attempt : (build_tx : ℕ → Option Tx) → Ledger → Ledger × Result SubmitError ℕ
  attempt build_tx l = elim (load_account l) [
    | none ↦ (l, err cannot_load)
    | some sequence ↦ elim (build_tx sequence) [
      | none ↦ (l, err cannot_build)
      | some tx ↦
          let (l', result) = submit_transaction (others l) tx in
          (l', elim result [ ok hash ↦ ok hash | err e ↦ err (refused e) ])
    ]
  ]

  -- `err?.…` of an error that a load or a build has thrown is no such error.
  abbrev retries : Result SubmitError ℕ → Bool
  retries (ok hash) = false
  retries (err e) = elim e [
    | not_configured ↦ false
    | cannot_load ↦ false
    | cannot_build ↦ false
    | refused e ↦ is_bad_seq_error e
  ]

  unfoldable pub submit_one : (build_tx : ℕ → Option Tx) → Ledger → Ledger × Result SubmitError ℕ
  unfolding attempt
  submit_one build_tx l =
      let first = attempt build_tx l in if retries first.1 then attempt build_tx first.0 else first

  -- The chain of the submissions: each waits for the one before it, whose failure is ignored.
  unfoldable pub submit_each : List (ℕ → Option Tx) → Ledger → Ledger × List (Result SubmitError ℕ)
  submit_each [] l = (l, [])
  submit_each (build_tx ∷ builds) l =
      let (l', result) = submit_one build_tx l in
      let (l'', results) = submit_each builds l' in (l'', result ∷ results)

  unfoldable pub submit_from_treasury :
      (is_configured : Bool) (build_tx : ℕ → Option Tx) → Ledger → Ledger × Result SubmitError ℕ
  unfolding submit_one
  submit_from_treasury is_configured build_tx l =
      if is_configured then submit_one build_tx l else (l, err not_configured)

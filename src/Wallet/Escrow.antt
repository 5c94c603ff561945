-- ===== src/Wallet/Escrow.antt =====
-- src/blockchain-wallet/payment-escrow.service.ts. A method that changes the service returns the new
-- state; a throw leaves the state that it has reached. `new Date()` is the argument `now`. Ledger
-- numbers and deltas are natural numbers. The Soroban client is not part of the state: the calls
-- that the service makes of it are kept in `submitted`, oldest first, and how such a call settles is
-- a parameter.
pub mod Steps
pub mod Lock
pub mod Pause
pub mod Expiry
use Prim.Native.String.{String}
use dupdap_backend.Base.{
  ℕ, ◌+◌, Bool, true, false, not, ◌&&◌, ◌||◌, ltb, leb, List, [], ◌∷◌, ◌++◌, Option, none, some,
  Result, ok, err, Dict, lookup, insert, if◌then◌else◌,
}

pub data ContractEvent : Type 0 where
  contract_paused : (admin timestamp : ℕ) → ContractEvent
  contract_unpaused : (admin timestamp : ℕ) → ContractEvent

pub data PaymentStatus : Type 0 where
  pending confirmed expired : PaymentStatus

pub record ContractPayment : Type 0 where
  pub id : ℕ
  pub merchant_address : String
  pub customer_address : Option String
  pub amount_usdc : String
  pub expiry_ledger : ℕ
  pub status : PaymentStatus
  pub created_at : ℕ

pub record RefundInstruction : Type 0 where
  pub amount_usdc : String
  pub return_to_address : Option String

pub record PaymentExpiredEvent : Type 0 where
  pub payment_id : ℕ
  pub expiry_ledger : ℕ
  pub ledger_at_expiry : ℕ
  pub refund_instruction : RefundInstruction

-- The exceptions of the service; `rpc` is one that the Soroban client throws.
pub data EscrowError : Type 0 where
  payment_expired : (payment_id expiry_ledger current_ledger : ℕ) → EscrowError
  paused_error : EscrowError
  reentrant_call : EscrowError
  payment_not_found : EscrowError
  rpc : ℕ → EscrowError

pub data SorobanCall : Type 0 where
  deposit_call : (stellar_address amount_usdc : String) → SorobanCall
  release_call : (payment_id : ℕ) → (merchant_address : String) → SorobanCall
  refund_call : (payment_id : ℕ) → (customer_address : String) → SorobanCall

pub record Escrow : Type 0 where
  pub paused : Bool
  pub locked : Bool
  pub event_log : List ContractEvent
  pub payments : Dict ContractPayment
  pub expired_event_log : List PaymentExpiredEvent
  pub current_ledger : ℕ
  pub submitted : List SorobanCall

-- The initial values of the fields.
abbrev pub new : Escrow
new = record {
  paused = false;
  locked = false;
  event_log = [];
  payments = [];
  expired_event_log = [];
  current_ledger = 1000;
  submitted = [];
}

abbrev pub default_expiry_ledgers : ℕ
default_expiry_ledgers = 360

pub set_current_ledger : ℕ → Escrow → Escrow
set_current_ledger ledger s = record s { current_ledger = ledger }

pub advance_ledger : ℕ → Escrow → Escrow
advance_ledger delta s = record s { current_ledger = s.current_ledger + delta }

-- A default argument.
abbrev expiry_or_default : Option ℕ → ℕ
expiry_or_default none = default_expiry_ledgers
expiry_or_default (some n) = n

pub create_payment :
    (now : ℕ) (payment_id : ℕ)
    → (merchant_address amount_usdc : String) → (expiry_ledgers : Option ℕ) → Escrow
    → Escrow × ContractPayment
create_payment now payment_id merchant_address amount_usdc expiry_ledgers s =
    let payment : ContractPayment = record {
      id = payment_id;
      merchant_address = merchant_address;
      customer_address = none;
      amount_usdc = amount_usdc;
      expiry_ledger = s.current_ledger + expiry_or_default expiry_ledgers;
      status = pending;
      created_at = now;
    } in
    (record s { payments = insert payment_id payment s.payments }, payment)

pub get_payment : ℕ → Escrow → Option ContractPayment
get_payment payment_id s = lookup payment_id s.payments

-- `requirePayment`
require_payment : ℕ → Escrow → Result EscrowError ContractPayment
require_payment id s = elim (lookup id s.payments) [ none ↦ err payment_not_found | some p ↦ ok p ]

pub confirm :
    (payment_id : ℕ) → (customer_address : String) → Escrow → Escrow × Result EscrowError (Unit {0})
unfolding require_payment
confirm payment_id customer_address s = elim (require_payment payment_id s) [
  | err e ↦ (s, err e)
  | ok payment ↦
      if ltb payment.expiry_ledger s.current_ledger
      then (s, err (payment_expired payment_id payment.expiry_ledger s.current_ledger))
      else (
        record s {
          payments =
              insert payment_id
                (record payment { customer_address = some customer_address; status = confirmed })
                s.payments;
        },
        ok tt,
      )
]

abbrev is_confirmed : PaymentStatus → Bool
is_confirmed confirmed = true
is_confirmed _ = false

abbrev is_expired_status : PaymentStatus → Bool
is_expired_status expired = true
is_expired_status _ = false

unfoldable pub expire_payment :
    ℕ → Escrow → Escrow × Result EscrowError (Option PaymentExpiredEvent)
unfolding require_payment
expire_payment payment_id s = elim (require_payment payment_id s) [
  | err e ↦ (s, err e)
  | ok payment ↦
      if is_confirmed payment.status || leb s.current_ledger payment.expiry_ledger
      then (s, ok none)
      else if is_expired_status payment.status
      then (s, ok none)
      else (let event : PaymentExpiredEvent = record {
        payment_id = payment_id;
        expiry_ledger = payment.expiry_ledger;
        ledger_at_expiry = s.current_ledger;
        refund_instruction = record {
          amount_usdc = payment.amount_usdc;
          return_to_address = payment.customer_address;
        };
      } in
          (
            record s {
              payments = insert payment_id (record payment { status = expired }) s.payments;
              expired_event_log = s.expired_event_log ++ event ∷ [];
            },
            ok (some event),
          ))
]

pub is_expired : ℕ → Escrow → Bool
is_expired payment_id s = elim (lookup payment_id s.payments) [
  | none ↦ false
  | some payment ↦ ltb payment.expiry_ledger s.current_ledger
]

pub pause : (admin now : ℕ) → Escrow → Escrow
pause admin now s =
    if s.paused
    then s
    else record s { paused = true; event_log = s.event_log ++ contract_paused admin now ∷ [] }

pub unpause : (admin now : ℕ) → Escrow → Escrow
unpause admin now s =
    if not s.paused
    then s
    else record s { paused = false; event_log = s.event_log ++ contract_unpaused admin now ∷ [] }

require_not_paused : Escrow → Result EscrowError (Unit {0})
require_not_paused s = if s.paused then err paused_error else ok tt

acquire_lock : Escrow → Escrow × Result EscrowError (Unit {0})
acquire_lock s = if s.locked then (s, err reentrant_call) else (record s { locked = true }, ok tt)

pub release_lock : Escrow → Escrow
release_lock s = record s { locked = false }

-- `deposit`, `release` and `refund` up to the await of the Soroban call.
pub begin : SorobanCall → Escrow → Escrow × Result EscrowError (Unit {0})
unfolding require_not_paused acquire_lock
begin request s = elim (require_not_paused s) [
  | err e ↦ (s, err e)
  | ok _ ↦
      let (s', taken) = acquire_lock s in
      elim taken [
        | err e ↦ (s', err e)
        | ok _ ↦ (record s' { submitted = s'.submitted ++ request ∷ [] }, ok tt)
      ]
]

-- A whole operation: `settled` is how the Soroban call settles, and `others` is what happens to the
-- service while it is awaited; the `finally` releases the lock either way.
pub guarded :
    SorobanCall
    → (others : Escrow → Escrow) → (settled : Result EscrowError (Unit {0})) → Escrow
    → Escrow × Result EscrowError (Unit {0})
unfolding begin release_lock
guarded request others settled s =
    let (s', entered) = begin request s in
    elim entered [ err e ↦ (s', err e) | ok _ ↦ (release_lock (others s'), settled) ]

module _ (others : Escrow → Escrow) (settled : Result EscrowError (Unit {0})) where
  pub deposit :
      (stellar_address amount_usdc : String) → Escrow → Escrow × Result EscrowError (Unit {0})
  unfolding guarded
  deposit stellar_address amount_usdc =
      guarded (deposit_call stellar_address amount_usdc) others settled

  pub release : ℕ → (merchant_address : String) → Escrow → Escrow × Result EscrowError (Unit {0})
  unfolding guarded
  release payment_id merchant_address =
      guarded (release_call payment_id merchant_address) others settled

  pub refund : ℕ → (customer_address : String) → Escrow → Escrow × Result EscrowError (Unit {0})
  unfolding guarded
  refund payment_id customer_address =
      guarded (refund_call payment_id customer_address) others settled

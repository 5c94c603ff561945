-- ===== src/Payments/StateMachine.antt =====
-- src/payments/payment-state-machine.ts: the table of allowed transitions and its queries.
pub mod Lifecycle
use dupdap_backend.Base.{
  Bool, true, false, not, ◌==◌, List, [], ◌∷◌, any, length, Result, ok, err, if◌then◌else◌,
}
use mathlib.Core.Logic.{ite}

pub data PaymentStatus : Type 0 where
  pending confirmed settling settled failed cancelled : PaymentStatus

unfoldable pub PaymentStatus-discrete : Discrete PaymentStatus
PaymentStatus-discrete = hlevel

-- The fields of `InvalidStateTransitionException`.
pub data InvalidStateTransition : Type 0 where
  invalid : (from to : PaymentStatus) → InvalidStateTransition

-- `ALLOWED_TRANSITIONS[from]`; the record is total, so `?? []` is never taken.
unfoldable pub allowed_transitions : PaymentStatus → List PaymentStatus
allowed_transitions pending = confirmed ∷ failed ∷ cancelled ∷ []
allowed_transitions confirmed = settling ∷ failed ∷ cancelled ∷ []
allowed_transitions settling = settled ∷ failed ∷ []
allowed_transitions settled = []
allowed_transitions failed = []
allowed_transitions cancelled = []

-- `===` on the enum.
abbrev same : PaymentStatus → PaymentStatus → Bool
same a b = ite (PaymentStatus-discrete a b) true false

unfoldable pub can_transition : PaymentStatus → PaymentStatus → Bool
unfolding allowed_transitions
can_transition from to = any (same to) (allowed_transitions from)

-- `assertTransition` throws where the table has no entry.
unfoldable pub assert_transition :
    PaymentStatus → PaymentStatus → Result InvalidStateTransition (Unit {0})
unfolding can_transition
assert_transition from to = if not (can_transition from to) then err (invalid from to) else ok tt

unfoldable pub transition :
    PaymentStatus → PaymentStatus → Result InvalidStateTransition PaymentStatus
unfolding assert_transition
transition from to = elim (assert_transition from to) [ ok _ ↦ ok to | err e ↦ err e ]

pub is_terminal : PaymentStatus → Bool
unfolding allowed_transitions
is_terminal status = length (allowed_transitions status) == 0

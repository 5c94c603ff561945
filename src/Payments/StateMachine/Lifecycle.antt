-- ===== src/Payments/StateMachine/Lifecycle.antt =====
-- The life of a payment as a diagram, and what the table in payment-state-machine.ts makes of it.
use dupdap_backend.Base.{
  ℕ, ◌+◌, ◌≤◌, ◌≡◌, refl, ◌↔◌, ◌⊎◌, inl, inr, true, List, [], ◌∷◌, length, Result, ok, err, arith,
  Bool-cases,
}
use dupdap_backend.Payments.StateMachine.{
  PaymentStatus, PaymentStatus-discrete, pending, confirmed, settling, settled, failed, cancelled,
  invalid, InvalidStateTransition, can_transition, transition, is_terminal,
}

-- The edges of the diagram.
infix 40 ◌⟶◌
pub data ◌⟶◌ : PaymentStatus → PaymentStatus → Type 0 where
  confirm : pending ⟶ confirmed
  settle : confirmed ⟶ settling
  finish : settling ⟶ settled
  fail_pending : pending ⟶ failed
  fail_confirmed : confirmed ⟶ failed
  fail_settling : settling ⟶ failed
  cancel_pending : pending ⟶ cancelled
  cancel_confirmed : confirmed ⟶ cancelled

ruleset edges = (
  confirm, settle, finish, fail_pending, fail_confirmed, fail_settling, cancel_pending,
  cancel_confirmed,
)

⟶-can : {s t : PaymentStatus} → s ⟶ t → can_transition s t ≡ true
unfolding can_transition PaymentStatus-discrete
⟶-can confirm = refl
⟶-can settle = refl
⟶-can finish = refl
⟶-can fail_pending = refl
⟶-can fail_confirmed = refl
⟶-can fail_settling = refl
⟶-can cancel_pending = refl
⟶-can cancel_confirmed = refl

can-⟶ : (s t : PaymentStatus) → can_transition s t ≡ true → s ⟶ t
unfolding can_transition
can-⟶ s t h = grind (arith, edges)

-- `canTransition` answers true exactly on the edges of the diagram.
can_transition_iff : (s t : PaymentStatus) → (can_transition s t ≡ true) ↔ (s ⟶ t)
can_transition_iff s t = (can-⟶ s t, ⟶-can)

-- `transition` returns the target along an edge, and throws with both ends where there is none.
transition_lem :
    (s t : PaymentStatus)
    → (s ⟶ t) × (transition s t ≡ ok t) ⊎ (¬ (s ⟶ t)) × (transition s t ≡ err (invalid s t))
unfolding transition
transition_lem s t = elim (Bool-cases (can_transition s t)) [
  | inl yes_edge ↦ inl (can-⟶ s t yes_edge, ground arith)
  | inr no_edge ↦ inr (λ e. cc (⟶-can e), ground arith)
]

-- `isTerminal` answers true exactly where no edge leaves.
pub is_terminal_iff :
    (s : PaymentStatus) → (is_terminal s ≡ true) ↔ ((t : PaymentStatus) → ¬ (s ⟶ t))
unfolding is_terminal
is_terminal_iff pending = (λ h. cc, λ none_leaves. absurd (none_leaves confirmed confirm))
is_terminal_iff confirmed = (λ h. cc, λ none_leaves. absurd (none_leaves settling settle))
is_terminal_iff settling = (λ h. cc, λ none_leaves. absurd (none_leaves settled finish))
is_terminal_iff settled = (λ h t e. elim e [ ], λ _. refl)
is_terminal_iff failed = (λ h t e. elim e [ ], λ _. refl)
is_terminal_iff cancelled = (λ h t e. elim e [ ], λ _. refl)

-- A caller that applies `transition` to each requested status in turn.
unfoldable pub follow :
    PaymentStatus → List PaymentStatus → Result InvalidStateTransition PaymentStatus
follow s [] = ok s
follow s (t ∷ ts) = elim (transition s t) [ ok next ↦ follow next ts | err e ↦ err e ]

-- How many transitions a payment can still make.
abbrev rank : PaymentStatus → ℕ
rank pending = 3
rank confirmed = 2
rank settling = 1
rank _ = 0

rank-⟶ : {s t : PaymentStatus} → s ⟶ t → rank t + 1 ≤ rank s
rank-⟶ confirm = omega arith
rank-⟶ settle = omega arith
rank-⟶ finish = omega arith
rank-⟶ fail_pending = omega arith
rank-⟶ fail_confirmed = omega arith
rank-⟶ fail_settling = omega arith
rank-⟶ cancel_pending = omega arith
rank-⟶ cancel_confirmed = omega arith

follow-rank :
    (s : PaymentStatus) (ts : List PaymentStatus) {t : PaymentStatus}
    → follow s ts ≡ ok t
    → length ts + rank t ≤ rank s
unfolding follow
follow-rank s [] h = ground arith
follow-rank s (u ∷ ts) {t} h = elim (transition_lem s u) [
  | inl (edge, e) ↦ omega (arith, rank-⟶ edge, follow-rank u ts {t = t} (rw (e, follow) at h))
  | inr (_, e) ↦ cc (rw (e, follow) at h)
]

-- No payment makes more than three transitions.
follow_bounded :
    (ts : List PaymentStatus) {t : PaymentStatus} → follow pending ts ≡ ok t → length ts ≤ 3
follow_bounded ts {t} h = omega (arith, follow-rank pending ts {t = t} h)

-- The statuses that lead from `s` to `settled`, as the only ones.
abbrev Leads : PaymentStatus → List PaymentStatus → Type 0
Leads pending ts = ts ≡ confirmed ∷ settling ∷ settled ∷ []
Leads confirmed ts = ts ≡ settling ∷ settled ∷ []
Leads settling ts = ts ≡ settled ∷ []
Leads settled ts = ts ≡ []
Leads failed ts = ⊥
Leads cancelled ts = ⊥

Leads-cons : {s u : PaymentStatus} (ts : List PaymentStatus) → s ⟶ u → Leads u ts → Leads s (u ∷ ts)
Leads-cons ts confirm h = cc
Leads-cons ts settle h = cc
Leads-cons ts finish h = cc
Leads-cons ts fail_pending h = absurd h
Leads-cons ts fail_confirmed h = absurd h
Leads-cons ts fail_settling h = absurd h
Leads-cons ts cancel_pending h = absurd h
Leads-cons ts cancel_confirmed h = absurd h

Leads-nil : (s : PaymentStatus) → s ≡ settled → Leads s []
Leads-nil settled h = refl
Leads-nil pending h = cc
Leads-nil confirmed h = cc
Leads-nil settling h = cc
Leads-nil failed h = cc
Leads-nil cancelled h = cc

follow-Leads : (s : PaymentStatus) (ts : List PaymentStatus) → follow s ts ≡ ok settled → Leads s ts
unfolding follow
follow-Leads s [] h = Leads-nil s (ground arith)
follow-Leads s (u ∷ ts) h = elim (transition_lem s u) [
  | inl (edge, e) ↦ Leads-cons ts edge (follow-Leads u ts (rw (e, follow) at h))
  | inr (_, e) ↦ cc (rw (e, follow) at h)
]

-- A new payment is settled by one history only: confirmed, settling, settled.
settled_history :
    (ts : List PaymentStatus)
    → follow pending ts ≡ ok settled
    → ts ≡ confirmed ∷ settling ∷ settled ∷ []
settled_history ts h = follow-Leads pending ts h

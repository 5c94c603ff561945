-- ===== src/Common/CircuitBreaker/Invariant.antt =====
-- What holds of a circuit breaker (src/common/circuit-breaker.ts) however the calls that share it
-- overlap: each await of `execute` splits it into the steps below.
use dupdap_backend.Base.{ℕ, ◌≤◌, ◌<◌, ◌≡◌, refl, sym, subst, ◌⊎◌, ◌≢◌, List, [], ◌∷◌, ◌++◌, arith}
use dupdap_backend.Common.CircuitBreaker.{
  CircuitState, closed, open_, half_open, CircuitBreakerOptions, CircuitBreaker, new, state,
  record_failure, record_success,
}

-- The moves between states. An `open` circuit is closed by a success of a call that was admitted
-- before it opened.
pub data Edge : CircuitState → CircuitState → Type 0 where
  trip : Edge closed open_
  try : Edge open_ half_open
  retrip : Edge half_open open_
  recover : Edge half_open closed
  late_success : Edge open_ closed

-- The log of `(next, previous)` leads from one state to another along the edges, with no gap.
abbrev pub Linked : CircuitState → List (CircuitState × CircuitState) → CircuitState → Type 0
Linked s [] t = s ≡ t
Linked s ((next, previous) ∷ log) t = (previous ≡ s) × Edge s next × Linked next log t

Linked-append :
    (s t u : CircuitState) (log : List (CircuitState × CircuitState))
    → Linked s log t
    → Edge t u
    → Linked s (log ++ (u, t) ∷ []) u
Linked-append s t u [] h e = (sym h, subst (λ r. Edge r u) (sym h) e, refl)
Linked-append s t u (x ∷ log) h e = (h.0, h.1, Linked-append x.0 t u log h.2 e)

half_open-Edge : (s : CircuitState) → s ≡ open_ → Edge s half_open
half_open-Edge s h = subst (λ r. Edge r half_open) (sym h) try

closed-Edge : (s : CircuitState) → s ≢ closed → Edge s closed
closed-Edge closed h = absurd (h refl)
closed-Edge open_ h = late_success
closed-Edge half_open h = recover

open-Edge : (s : CircuitState) → s ≢ open_ → Edge s open_
open-Edge closed h = trip
open-Edge open_ h = absurd (h refl)
open-Edge half_open h = retrip

module _ {E : Type 0} (options : CircuitBreakerOptions E) where
  pub record IsSound (b : CircuitBreaker) : Type 0 where
    pub closed_below :
        b.current ≡ closed
        → (b.consecutive_failures < options.failure_threshold) ⊎ (b.consecutive_failures ≡ 0)
    pub tripped : b.current ≢ closed → options.failure_threshold ≤ b.consecutive_failures
    pub linked : Linked closed b.changes b.current

  -- One atomic step of a call that shares the breaker.
  pub data Step (b : CircuitBreaker) : CircuitBreaker → Type 0 where
    check : (now : ℕ) → Step b (state options now b)
    success : Step b (record_success b)
    failure : (now : ℕ) → Step b (record_failure options now b)

  pub data Reach (b : CircuitBreaker) : CircuitBreaker → Type 0 where
    here : Reach b b
    next : {c d : CircuitBreaker} → Reach b c → Step c d → Reach b d

  new-IsSound : IsSound new
  unfolding new
  new-IsSound = record {
    closed_below = λ h. ground arith;
    tripped = λ h. ground arith;
    linked = refl;
  }

  state-IsSound : (now : ℕ) (b : CircuitBreaker) → IsSound b → IsSound (state options now b)
  unfolding state
  state-IsSound now b h = record {
    closed_below = ground arith;
    tripped = ground arith;
    linked =
        ground
          (arith, half_open-Edge b.current, Linked-append closed b.current half_open b.changes);
  }

  record_success-IsSound : (b : CircuitBreaker) → IsSound b → IsSound (record_success b)
  unfolding record_success
  record_success-IsSound b h = record {
    closed_below = ground arith;
    tripped = ground arith;
    linked = ground (arith, closed-Edge b.current, Linked-append closed b.current closed b.changes);
  }

  record_failure-IsSound :
      (now : ℕ) (b : CircuitBreaker) → IsSound b → IsSound (record_failure options now b)
  unfolding record_failure
  record_failure-IsSound now b h = record {
    closed_below = ground arith;
    tripped = ground arith;
    linked = ground (arith, open-Edge b.current, Linked-append closed b.current open_ b.changes);
  }

  -- However calls overlap, a breaker that started new is sound: closed with fewer consecutive
  -- failures than the threshold (or none), otherwise with at least as many, and the state changes
  -- reported so far lead from `closed` to its state along the edges.
  pub Reach-IsSound : {b : CircuitBreaker} → Reach new b → IsSound b
  Reach-IsSound here = new-IsSound
  Reach-IsSound (next {c = c} r (check now)) = state-IsSound now c (Reach-IsSound r)
  Reach-IsSound (next {c = c} r success) = record_success-IsSound c (Reach-IsSound r)
  Reach-IsSound (next {c = c} r (failure now)) = record_failure-IsSound now c (Reach-IsSound r)

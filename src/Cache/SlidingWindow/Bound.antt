-- ===== src/Cache/SlidingWindow/Bound.antt =====
-- How many calls the in-memory rate limiter of src/cache/cache.service.ts lets through in a window.
use dupdap_backend.Base.{
  ℕ, ◌≤◌, ◌<◌, ◌≡◌, refl, sym, ◌∙◌, ◌⊎◌, inl, inr, Bool, true, false, ◌&&◌, leb, List, [], ◌∷◌,
  ◌++◌, Option, none, some, arith, filter, length, count, count-append, length-filter, count-le,
  if◌then◌else◌, Bool-cases,
}
use native.Mathlib.Nat.{le_trans}
use dupdap_backend.Cache.SlidingWindow.{
  SlidingWindowRateLimitOptions, SlidingWindowRateLimitResult, in_window, refusal, check,
}

-- Whether an answer lets the call through.
abbrev pub lets_through : Option SlidingWindowRateLimitResult → Bool
lets_through none = false
lets_through (some r) = r.allowed

last_count : (p : ℕ → Bool) (x : ℕ) → count p (x ∷ []) ≤ 1
last_count p x = ground arith

none_count : (p : ℕ → Bool) (x : ℕ) → p x ≡ false → count p (x ∷ []) ≡ 0
none_count p x h = ground arith

module _ (options : SlidingWindowRateLimitOptions) where
  -- The times of the calls that were let through, in a row of calls on one key that starts with the
  -- stored scores.
  pub admitted : List ℕ → List ℕ → List ℕ → List ℕ
  admitted so_far stored [] = so_far
  admitted so_far stored (now ∷ times) =
      let (stored', answer) = check options now stored in
      admitted (if lets_through answer then so_far ++ now ∷ [] else so_far) stored' times

  -- A time lies in the window that ends at `t`.
  abbrev pub is_recent : ℕ → ℕ → Bool
  is_recent t score = leb score t && in_window options.window_seconds t score

  refusal-refuses : (now : ℕ) (within : List ℕ) → lets_through (refusal options now within) ≡ false
  unfolding refusal
  refusal-refuses now [] = refl
  refusal-refuses now (x ∷ xs) = refl

  -- The two ways a check ends.
  check-cases :
      (now : ℕ) (stored : List ℕ)
      → let within = filter (in_window options.window_seconds now) stored in
        let (stored', answer) = check options now stored in
        (length within < options.limit)
          × (lets_through answer ≡ true)
          × (stored' ≡ within ++ now ∷ [])
        ⊎ (lets_through answer ≡ false) × ((stored' ≡ within) ⊎ (stored' ≡ stored))
  unfolding check
  check-cases now stored =
      let within = filter (in_window options.window_seconds now) stored in
      ground (arith, refusal-refuses now within)

  -- What holds after the call at `now`.
  record IsFair (now : ℕ) (so_far stored : List ℕ) : Type 0 where
    kept :
        (t : ℕ)
        → now ≤ t
        → count (in_window options.window_seconds t) so_far
          ≡ count (in_window options.window_seconds t) stored
    bounded : (t : ℕ) → count (is_recent t) so_far ≤ options.limit

  count-later :
      (now t : ℕ) (xs : List ℕ)
      → now ≤ t
      → count
          (in_window options.window_seconds t)
          (filter (in_window options.window_seconds now) xs)
        ≡ count (in_window options.window_seconds t) xs
  count-later now t [] h = refl
  count-later now t (x ∷ xs) h = ground (arith, count-later now t xs h)

  -- All that is recent later is in the window now.
  count-recent :
      (now t : ℕ) (xs : List ℕ)
      → now ≤ t
      → count (is_recent t) xs ≤ count (in_window options.window_seconds now) xs
  count-recent now t xs h =
      count-le (is_recent t) (in_window options.window_seconds now) xs (λ x e. ground arith)

  module _ (now later : ℕ) (so_far stored : List ℕ) (h : IsFair now so_far stored)
      (le : now ≤ later) where
    within : List ℕ
    within = filter (in_window options.window_seconds later) stored

    admit-IsFair :
        length within < options.limit → IsFair later (so_far ++ later ∷ []) (within ++ later ∷ [])
    unfolding within
    admit-IsFair room = record {
      kept = λ t lt. omega (
        arith,
        h.kept t (le_trans le lt),
        count-later later t stored lt,
        count-append (in_window options.window_seconds t) so_far (later ∷ []),
        count-append (in_window options.window_seconds t) within (later ∷ []),
      );
      bounded = λ t. elim (Bool-cases (is_recent t later)) [
        | inl recent ↦ omega (
          arith,
          count-append (is_recent t) so_far (later ∷ []),
          count-recent later t so_far (ground arith),
          h.kept later le,
          length-filter (in_window options.window_seconds later) stored,
          last_count (is_recent t) later,
        )
        | inr old ↦ omega (
          arith,
          h.bounded t,
          count-append (is_recent t) so_far (later ∷ []),
          none_count (is_recent t) later old,
        )
      ];
    }

    refuse-IsFair : IsFair later so_far within
    unfolding within
    refuse-IsFair = record {
      kept = λ t lt. h.kept t (le_trans le lt) ∙ sym (count-later later t stored lt);
      bounded = h.bounded;
    }

    wait-IsFair : IsFair later so_far stored
    wait-IsFair = record { kept = λ t lt. h.kept t (le_trans le lt); bounded = h.bounded }

  step-IsFair :
      (now later : ℕ) (so_far stored : List ℕ)
      → IsFair now so_far stored
      → now ≤ later
      → let (stored', answer) = check options later stored in
        IsFair later (if lets_through answer then so_far ++ later ∷ [] else so_far) stored'
  unfolding within
  step-IsFair now later so_far stored h le = elim (check-cases later stored) [
    | inl (room, passes, same) ↦ rw (passes, same) (admit-IsFair now later so_far stored h le room)
    | inr (stops, inl same) ↦ rw (stops, same) (refuse-IsFair now later so_far stored h le)
    | inr (stops, inr same) ↦ rw (stops, same) (wait-IsFair now later so_far stored h le)
  ]

  -- The clock does not step back.
  abbrev pub Ascends : ℕ → List ℕ → Type 0
  Ascends now [] = Unit
  Ascends now (later ∷ times) = (now ≤ later) × Ascends later times

  admitted-IsFair :
      (now : ℕ) (so_far stored times : List ℕ)
      → IsFair now so_far stored
      → Ascends now times
      → (t : ℕ) → count (is_recent t) (admitted so_far stored times) ≤ options.limit
  unfolding admitted
  admitted-IsFair now so_far stored [] h up = h.bounded
  admitted-IsFair now so_far stored (later ∷ times) h up =
      admitted-IsFair later _ _ times (step-IsFair now later so_far stored h up.0) up.1

  -- For calls on one key at times that do not go back, and every moment `t`: of the calls let through
  -- at most `limit` lie in the `windowSeconds` that end at `t`.
  pub admitted_bounded :
      (times : List ℕ) (t : ℕ)
      → Ascends 0 times
      → count (is_recent t) (admitted [] [] times) ≤ options.limit
  admitted_bounded times t up =
      admitted-IsFair 0 [] [] times (record { kept = λ u le. refl; bounded = λ u. omega arith }) up
        t

-- ===== src/Cache/SlidingWindow/Refinement.antt =====
-- The in-memory limiter (src/cache/cache.service.ts) against a limiter that remembers every call it has let
-- through.
use dupdap_backend.Base.{
  ℕ, ◌≡◌, ◌≤◌, ◌<◌, refl, sym, ◌∙◌, ap, Bool, true, false, List, [], ◌∷◌, ◌++◌, Option, none, some,
  filter, length, count, length-filter, ltb, leb, if◌then◌else◌, arith, Bool-cases, inl, inr, map,
}
use dupdap_backend.Cache.SlidingWindow.{
  SlidingWindowRateLimitOptions, SlidingWindowRateLimitResult, in_window, check, refusal,
}

filter-append : (p : ℕ → Bool) (xs ys : List ℕ) → filter p (xs ++ ys) ≡ filter p xs ++ filter p ys
filter-append p [] ys = refl
filter-append p (x ∷ xs) ys = elim (Bool-cases (p x)) [
  | inl passes ↦ rw passes (ap (λ zs. x ∷ zs) (filter-append p xs ys))
  | inr fails ↦ rw fails (filter-append p xs ys)
]

-- A weaker test first changes nothing.
filter-filter :
    (p q : ℕ → Bool) (xs : List ℕ)
    → ((x : ℕ) → p x ≡ true → q x ≡ true)
    → filter p (filter q xs) ≡ filter p xs
filter-filter p q [] h = refl
filter-filter p q (x ∷ xs) h =
    let rest = filter-filter p q xs h in
    elim (Bool-cases (q x)) [
      | inl kept ↦ rw kept (elim (Bool-cases (p x)) [
        | inl passes ↦ rw passes (ap (λ zs. x ∷ zs) rest)
        | inr fails ↦ rw fails rest
      ])
      | inr dropped ↦ elim (Bool-cases (p x)) [
        | inl passes ↦ cc (h x passes)
        | inr fails ↦ rw (dropped, fails) rest
      ]
    ]

-- A refusal of a window that holds a call.
refusal-some :
    (options : SlidingWindowRateLimitOptions) (now : ℕ) (scores : List ℕ)
    → 0 < length scores
    → (r : SlidingWindowRateLimitResult) × (refusal options now scores ≡ some r)
      × (r.allowed ≡ false)
unfolding refusal
refusal-some options now [] h = ground arith
refusal-some options now (first ∷ scores) h = (_, refl, refl)

-- The specification: the state is the history of the calls that were let through.
abbrev pub admit : SlidingWindowRateLimitOptions → (now : ℕ) → List ℕ → List ℕ × Bool
admit options now history =
    if ltb (count (in_window options.window_seconds now) history) options.limit
    then (history ++ now ∷ [], true)
    else (history, false)

-- Its decisions on a sequence of calls.
pub decisions : SlidingWindowRateLimitOptions → (times history : List ℕ) → List Bool
decisions options [] history = []
decisions options (now ∷ times) history =
    let (history', allowed) = admit options now history in
    allowed ∷ decisions options times history'

-- The decisions of the limiter on the window that it keeps.
pub memory_decisions : SlidingWindowRateLimitOptions → (times scores : List ℕ) → List (Option Bool)
memory_decisions options [] scores = []
memory_decisions options (now ∷ times) scores =
    let (scores', result) = check options now scores in
    elim result [ none ↦ none | some r ↦ some r.allowed ] ∷ memory_decisions options times scores'

-- The clock does not go back.
abbrev pub IsOrdered : (last : ℕ) → List ℕ → Type 0
IsOrdered last [] = Unit
IsOrdered last (now ∷ times) = (last ≤ now) × IsOrdered now times

module _ (options : SlidingWindowRateLimitOptions) (positive : 0 < options.limit) where
  -- From now on nobody can tell the history from the window.
  Agrees : (now : ℕ) → (history scores : List ℕ) → Type 0
  Agrees now history scores =
      (t : ℕ)
      → now ≤ t
      → filter (in_window options.window_seconds t) scores
        ≡ filter (in_window options.window_seconds t) history

  Agrees-window :
      (now : ℕ) (history scores : List ℕ)
      → Agrees now history scores
      → Agrees now history (filter (in_window options.window_seconds now) scores)
  unfolding Agrees
  Agrees-window now history scores same t le =
      filter-filter (in_window options.window_seconds t) (in_window options.window_seconds now)
        scores (λ x passes. ground arith)
      ∙ same t le

  Agrees-append :
      (now : ℕ) (history scores : List ℕ)
      → Agrees now history scores
      → Agrees now (history ++ now ∷ []) (scores ++ now ∷ [])
  unfolding Agrees
  Agrees-append now history scores same t le =
      let p = in_window options.window_seconds t in
      filter-append p scores (now ∷ [])
      ∙ ap (λ zs. zs ++ filter p (now ∷ [])) (same t le)
      ∙ sym (filter-append p history (now ∷ []))

  Agrees-later :
      (last now : ℕ) (history scores : List ℕ)
      → last ≤ now
      → Agrees last history scores
      → Agrees now history scores
  unfolding Agrees
  Agrees-later last now history scores le same t h = same t (omega (arith, le, h))

  -- The limiter counts what the specification counts.
  Agrees-count :
      (now : ℕ) (history scores : List ℕ)
      → Agrees now history scores
      → length (filter (in_window options.window_seconds now) scores)
        ≡ count (in_window options.window_seconds now) history
  unfolding Agrees
  Agrees-count now history scores same =
      ap length (same now (omega arith))
      ∙ length-filter (in_window options.window_seconds now) history

  -- On calls in the order of the clock, the limiter, which forgets the calls that have left the
  -- window, takes the decisions of the specification, which remembers all of them. It never throws
  -- when the limit is at least 1.
  pub memory_decisions-refine :
      (last : ℕ) (times history scores : List ℕ)
      → IsOrdered last times
      → ((t : ℕ)
          → last ≤ t
          → filter (in_window options.window_seconds t) scores
            ≡ filter (in_window options.window_seconds t) history)
      → memory_decisions options times scores ≡ map some (decisions options times history)
  unfolding memory_decisions decisions check refusal Agrees
  memory_decisions-refine last [] history scores ordered same = refl
  memory_decisions-refine last (now ∷ times) history scores (le, ordered) same =
      let agrees : Agrees now history scores = Agrees-later last now history scores le same in
      let within = filter (in_window options.window_seconds now) scores in
      let counted = Agrees-count now history scores agrees in
      let kept = Agrees-window now history scores agrees in
      elim (Bool-cases (leb options.limit (length within))) [
        | inr room ↦
            let admitted : ltb (count (in_window options.window_seconds now) history) options.limit
                ≡ true =
              ground arith in
            rw (room, admitted)
              (ap (λ rest. some true ∷ rest)
                (memory_decisions-refine now times (history ++ now ∷ []) (within ++ now ∷ [])
                  ordered (Agrees-append now history within kept)))
        | inl full ↦
            let refused : ltb (count (in_window options.window_seconds now) history) options.limit
                ≡ false =
              ground arith in
            let (r, answered, not_allowed) = refusal-some options now within (ground arith) in
            rw (full, refused)
              (rw answered (
                rw not_allowed (
                  ap (λ rest. some false ∷ rest)
                    (memory_decisions-refine now times history within ordered kept))))
      ]

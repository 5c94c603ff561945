-- ===== src/Base/Maps.antt =====
-- A JavaScript Map, or a table with a key, as an association list in insertion order. Identifiers
-- of the source are strings that are only compared for equality: they are numbers here.
use Prim.Native.Nat.{ℕ}
use mathlib.Core.Path.{◌≡◌, refl, subst, ap}
use mathlib.Core.Bool.{Bool, true, false}
use mathlib.Core.Logic.{inl, inr}
use mathlib.Core.Option.{Option, none, some}
use mathlib.Core.List.{List, [], ◌∷◌}
use native.Mathlib.Omega.{arith}
use dupdap_backend.Base.Tests.{if◌then◌else◌, ◌==◌, ==_iff, Bool-cases}
use dupdap_backend.Base.Lists.{All, All-filter, filter}

abbrev pub Dict {ℓ} : Type ℓ → Type ℓ
Dict V = List (ℕ × V)

module _ {ℓ} {V : Type ℓ} where
  -- `map.get(k)`
  abbrev pub lookup : ℕ → Dict V → Option V
  lookup k [] = none
  lookup k ((j, v) ∷ d) = if j == k then some v else lookup k d

  -- `map.set(k, v)`
  abbrev pub insert : ℕ → V → Dict V → Dict V
  insert k v [] = (k, v) ∷ []
  insert k v ((j, w) ∷ d) = if j == k then (k, v) ∷ d else (j, w) ∷ insert k v d

  pub lookup-insert :
      (k j : ℕ) (v : V) (d : Dict V)
      → lookup j (insert k v d) ≡ (if k == j then some v else lookup j d)
  lookup-insert k j v [] = refl
  lookup-insert k j v ((i, w) ∷ d) = ground (arith, lookup-insert k j v d)

  pub lookup-insert_self : (k : ℕ) (v : V) (d : Dict V) → lookup k (insert k v d) ≡ some v
  lookup-insert_self k v d = ground (arith, lookup-insert k k v d)

  pub All-insert {κ} :
      (P : V → Type κ) (k : ℕ) (v : V) (d : Dict V)
      → P v
      → All (λ e. P e.1) d
      → All (λ e. P e.1) (insert k v d)
  All-insert P k v [] p h = (p, tt)
  All-insert P k v (e ∷ d) p h = ground (arith, All-insert P k v d p h.1)

  pub lookup-All {κ} :
      (P : V → Type κ) (k : ℕ) (v : V) (d : Dict V) → All (λ e. P e.1) d → lookup k d ≡ some v → P v
  lookup-All P k v [] h e = cc
  lookup-All P k v (x ∷ d) h e = ground (arith, lookup-All P k v d h.1)

  -- No entry has the key, and all keys differ.
  abbrev pub Absent : ℕ → Dict V → Type 0
  Absent k d = All (λ e. (e.0 == k) ≡ false) d

  abbrev pub IsKeyed : Dict V → Type 0
  IsKeyed [] = Unit
  IsKeyed ((k, v) ∷ d) = Absent k d × IsKeyed d

  pub insert-Absent :
      (k j : ℕ) (v : V) (d : Dict V) → (k == j) ≡ false → Absent j d → Absent j (insert k v d)
  insert-Absent k j v [] ne h = (ne, tt)
  insert-Absent k j v ((i, w) ∷ d) ne h = elim (Bool-cases (i == k)) [
    | inl same ↦ rw same (ne, h.1)
    | inr other ↦ rw other (h.0, insert-Absent k j v d ne h.1)
  ]

  pub insert-IsKeyed : (k : ℕ) (v : V) (d : Dict V) → IsKeyed d → IsKeyed (insert k v d)
  insert-IsKeyed k v [] h = (tt, tt)
  insert-IsKeyed k v ((i, w) ∷ d) h = elim (Bool-cases (i == k)) [
    | inl same ↦ rw same (subst (λ j. Absent j d) ((==_iff i k).0 same) h.0, h.1)
    | inr other ↦ rw other (insert-Absent k i v d (ground arith) h.0, insert-IsKeyed k v d h.1)
  ]

  pub Absent-lookup : (k : ℕ) (d : Dict V) → Absent k d → lookup k d ≡ none
  Absent-lookup k [] h = refl
  Absent-lookup k ((j, v) ∷ d) h = rw h.0 (Absent-lookup k d h.1)

  pub filter-Absent : (p : ℕ × V → Bool) (k : ℕ) (d : Dict V) → Absent k d → Absent k (filter p d)
  filter-Absent p k d = All-filter (λ e. (e.0 == k) ≡ false) p d

  pub filter-IsKeyed : (p : ℕ × V → Bool) (d : Dict V) → IsKeyed d → IsKeyed (filter p d)
  filter-IsKeyed p [] h = tt
  filter-IsKeyed p ((k, v) ∷ d) h = elim (Bool-cases (p (k, v))) [
    | inl passes ↦ rw passes (filter-Absent p k d h.0, filter-IsKeyed p d h.1)
    | inr fails ↦ rw fails (filter-IsKeyed p d h.1)
  ]

  -- What is found among the entries that pass is found among all, and passes.
  pub lookup-filter :
      (p : ℕ × V → Bool) (k : ℕ) (d : Dict V) {v : V}
      → IsKeyed d
      → lookup k (filter p d) ≡ some v
      → (lookup k d ≡ some v) × (p (k, v) ≡ true)
  lookup-filter p k [] h e = absurd (cc e)
  lookup-filter p k ((j, w) ∷ d) {v} h e = elim (Bool-cases (j == k)) [
    | inr other ↦
        let later : lookup k (filter p d) ≡ some v = ground (arith, e, other) in
        rw other (lookup-filter p k d h.1 later)
    | inl here ↦
        let same : j ≡ k = (==_iff j k).0 here in
        elim (Bool-cases (p (j, w))) [
          | inr fails ↦
              let later : lookup k (filter p d) ≡ some v = ground (arith, e, fails) in
              let gone =
                Absent-lookup k (filter p d)
                  (filter-Absent p k d (subst (λ i. Absent i d) same h.0)) in
              absurd (cc (later, gone))
          | inl passes ↦
              let found : w ≡ v = ground (arith, e, passes, here) in
              rw here (
                ap some found,
                subst (λ i. p (i, v) ≡ true) same (subst (λ u. p (j, u) ≡ true) found passes),
              )
        ]
  ]

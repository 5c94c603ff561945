-- ===== src/Aml/Escalation.antt =====
-- The flags that are overdue (src/aml/aml.service.ts).
use dupdap_backend.Base.{
  ℕ, ◌≡◌, ◌∙◌, refl, ap, subst, Bool, true, ◌&&◌, leb, ◌==◌, ==_iff, List, [], ◌∷◌, some, any, All,
  arith, if◌then◌else◌, Bool-cases, Option-cases, inl, inr,
}
use dupdap_backend.Aml.{
  AmlConfig, Aml, AmlFlag, escalated, is_pending, overdue, escalate_one, escalate_each,
  escalate_overdue,
}

-- A flag that a run at a time escalates.
abbrev pub is_overdue : ℕ → AmlFlag → Bool
is_overdue now flag = is_pending flag && leb flag.sla_deadline now

abbrev pub as_escalated : AmlFlag → AmlFlag
as_escalated flag = record flag { status = escalated }

module _ (config : AmlConfig) (now id : ℕ) (flag : AmlFlag) where
  -- The rows that were read for the id are the flag.
  abbrev Reads : List (ℕ × AmlFlag) → Type 0
  Reads rows = All (λ e. if id == e.0 then e.1 ≡ flag else Unit) rows

  escalate_each-row :
      (rows : List (ℕ × AmlFlag)) (s : Aml)
      → Reads rows
      → (escalate_each config rows s).0.row id
        ≡ (if any (λ e. id == e.0) rows then some (as_escalated flag) else s.row id)
  unfolding escalate_each escalate_one
  escalate_each-row [] s h = refl
  escalate_each-row ((other, stored) ∷ rows) s h =
      let rest = escalate_each-row rows (escalate_one config other stored s) h.1 in
      elim (Bool-cases (any (λ e. id == e.0) rows)) [
        | inl later ↦ rest ∙ rw later (ground arith)
        | inr last ↦ elim (Bool-cases (id == other)) [
          | inr differs ↦ rest ∙ rw last (rw differs refl)
          | inl same ↦
              let its : stored ≡ flag = rw same at h.0 in
              rest ∙ rw last (rw same (ap (λ f. some (as_escalated f)) its))
        ]
      ]

  overdue-Reads : (ids : List ℕ) (s : Aml) → s.row id ≡ some flag → Reads (overdue now s ids)
  unfolding overdue
  overdue-Reads [] s held = tt
  overdue-Reads (other ∷ ids) s held =
      let rest = overdue-Reads ids s held in
      elim (Option-cases (s.row other)) [
        | inl missing ↦ rw (missing, overdue) rest
        | inr (stored, found) ↦ elim (Bool-cases (is_overdue now stored)) [
          | inr kept ↦ rw (found, overdue) (rw kept rest)
          | inl late ↦ elim (Bool-cases (id == other)) [
            | inr differs ↦ rw (found, overdue) (rw late (rw differs (tt, rest)))
            | inl same ↦
                let again : s.row other ≡ some flag =
                  subst (λ i. s.row i ≡ some flag) ((==_iff id other).0 same) held in
                let its : stored ≡ flag = cc in rw (found, overdue) (rw late (rw same (its, rest)))
          ]
        ]
      ]

  overdue-any :
      (ids : List ℕ) (s : Aml)
      → s.row id ≡ some flag
      → any (λ e. id == e.0) (overdue now s ids)
        ≡ (any (λ other. id == other) ids && is_overdue now flag)
  unfolding overdue
  overdue-any [] s held = refl
  overdue-any (other ∷ ids) s held =
      let rest = overdue-any ids s held in
      elim (Bool-cases (id == other)) [
        | inl same ↦
            let again : s.row other ≡ some flag =
              subst (λ i. s.row i ≡ some flag) ((==_iff id other).0 same) held in
            elim (Bool-cases (is_overdue now flag)) [
              | inl late ↦ rw (again, overdue) (rw late (rw same refl))
              | inr early ↦ rw (again, overdue) (rw early (ground (arith, rw early at rest)))
            ]
        | inr differs ↦ elim (Option-cases (s.row other)) [
          | inl missing ↦ rw (missing, overdue) (rw differs rest)
          | inr (stored, found) ↦ elim (Bool-cases (is_overdue now stored)) [
            | inr kept ↦ rw (found, overdue) (rw kept (rw differs rest))
            | inl late ↦ rw (found, overdue) (rw late (rw differs rest))
          ]
        ]
      ]

  -- A run on a table that lists a flag: the flag is escalated if it is pending and its deadline is
  -- not later than the run; otherwise its row stays as it is.
  escalate_overdue-row :
      (s : Aml)
      → s.row id ≡ some flag
      → any (λ other. id == other) s.ids ≡ true
      → (escalate_overdue config now s).0.row id
        ≡ some (if is_pending flag && leb flag.sla_deadline now then as_escalated flag else flag)
  unfolding escalate_overdue
  escalate_overdue-row s held listed =
      let rows = overdue now s s.ids in
      let every = escalate_each-row rows s (overdue-Reads s.ids s held) in
      let which = overdue-any s.ids s held in every ∙ rw which (rw listed (ground (arith, held)))

-- ===== src/Cron/Exclusion.antt =====
-- How many runs of a job race at once (src/cron/cron-job.service.ts).
use dupdap_backend.Base.{
  ℕ, ◌+◌, ◌≤◌, ◌≡◌, ◌==◌, ◌∙◌, refl, ap, Bool, true, false, not, List, [], ◌∷◌, none, some, count,
  Dict, lookup, insert, Absent, IsKeyed, insert-IsKeyed, filter-IsKeyed, arith, if◌then◌else◌,
  Bool-cases, Option-cases, inl, inr, ==_iff, subst,
}
use dupdap_backend.Cron.{
  CronJobs, CronJobLog, Racing, End, begin_run, end_run, end_late, remove, release, has, skipped,
  started,
}

-- The service among its calls: a run begins, a race ends, a function that was overtaken ends.
pub data Step (saves : CronJobLog → Bool) : CronJobs → CronJobs → Type 0 where
  begin :
      (now run job : ℕ) (s : CronJobs)
      → Absent run s.races
      → Step saves s (begin_run saves now run job s).0
  end : (now run : ℕ) (e : End) (s : CronJobs) → Step saves s (end_run saves now run e s)
  late : (run : ℕ) (s : CronJobs) → Step saves s (end_late run s)

pub data Reach (saves : CronJobLog → Bool) (s : CronJobs) : CronJobs → Type 0 where
  here : Reach saves s s
  next : {t u : CronJobs} → Reach saves s t → Step saves t u → Reach saves s u

abbrev pub races_of : ℕ → CronJobs → ℕ
races_of job s = count (λ e. e.1.job_name == job) s.races

abbrev pub holds : ℕ → CronJobs → ℕ
holds job s = count (λ j. j == job) s.running_jobs

-- A job has at most one race, and then its name is in the set, once.
abbrev pub IsExclusive : CronJobs → Type 0
IsExclusive s = IsKeyed s.races × ((job : ℕ) → (races_of job s ≤ holds job s) × (holds job s ≤ 1))

not_has : (jobs : List ℕ) (job : ℕ) → has jobs job ≡ false → count (λ j. j == job) jobs ≡ 0
not_has [] job h = refl
not_has (j ∷ jobs) job h = ground (arith, not_has jobs job)

module _ {ℓ} {V : Type ℓ} where
  count-insert :
      (p : ℕ × V → Bool) (k : ℕ) (v : V) (d : Dict V)
      → Absent k d
      → count p (insert k v d) ≡ count p d + (if p (k, v) then 1 else 0)
  count-insert p k v [] h = omega arith
  count-insert p k v ((j, w) ∷ d) h = rw h.0 (omega (arith, count-insert p k v d h.1))

  count-remove-Absent :
      (p : ℕ × V → Bool) (k : ℕ) (d : Dict V) → Absent k d → count p (remove k d) ≡ count p d
  unfolding remove
  count-remove-Absent p k [] h = refl
  count-remove-Absent p k ((j, w) ∷ d) h = rw h.0 (omega (arith, count-remove-Absent p k d h.1))

  count-remove :
      (p : ℕ × V → Bool) (k : ℕ) (d : Dict V) {v : V}
      → IsKeyed d
      → lookup k d ≡ some v
      → count p (remove k d) + (if p (k, v) then 1 else 0) ≡ count p d
  unfolding remove
  count-remove p k [] h e = cc
  count-remove p k ((j, w) ∷ d) {v} h e = elim (Bool-cases (j == k)) [
    | inl same ↦
        let k_is : j ≡ k = (==_iff j k).0 same in
        let v_is : w ≡ v = ground (arith, e, same) in
        let gone = count-remove-Absent p k d (subst (λ i. Absent i d) k_is h.0) in
        let test : p (j, w) ≡ p (k, v) = ap (λ i. p (i, w)) k_is ∙ ap (λ u. p (k, u)) v_is in
        rw same (rw test (omega (arith, gone)))
    | inr other ↦
        let later : lookup k d ≡ some v = ground (arith, e, other) in
        rw other (omega (arith, count-remove p k d h.1 later))
  ]

count-release :
    (job j : ℕ) (jobs : List ℕ)
    → count (λ i. i == j) (release job jobs) ≡ (if job == j then 0 else count (λ i. i == j) jobs)
unfolding release
count-release job j [] = ground arith
count-release job j (i ∷ jobs) = ground (arith, count-release job j jobs)

remove-IsKeyed {ℓ} : {V : Type ℓ} (k : ℕ) (d : Dict V) → IsKeyed d → IsKeyed (remove k d)
unfolding remove
remove-IsKeyed k d = filter-IsKeyed (λ e. not (e.0 == k)) d

-- A race is added, with its name in the set.
locked_bounds :
    (j run : ℕ) (race : Racing) (s : CronJobs)
    → Absent run s.races
    → (races_of j s ≤ holds j s) × (holds j s ≤ 1)
    → ((race.job_name == j) ≡ true → holds j s ≡ 0)
    → (let locked = record s {
      running_jobs = race.job_name ∷ s.running_jobs;
      races = insert run race s.races;
    } in
        (races_of j locked ≤ holds j locked) × (holds j locked ≤ 1))
locked_bounds j run race s new bounds free =
    let added = count-insert (λ e. e.1.job_name == j) run race s.races new in
    elim (Bool-cases (race.job_name == j)) [
      | inl same ↦ rw same (ground (arith, bounds, free same, added, same))
      | inr other ↦ rw other (ground (arith, bounds, added, other))
    ]

module _ (saves : CronJobLog → Bool) where
  begin-IsExclusive :
      (now run job : ℕ) (s : CronJobs)
      → Absent run s.races
      → IsExclusive s
      → IsExclusive (begin_run saves now run job s).0
  unfolding begin_run
  begin-IsExclusive now run job s new h = elim (Bool-cases (has s.running_jobs job)) [
    | inl busy ↦
        let row : CronJobLog = record {
          job_name = job;
          status = skipped;
          completed_at = some now;
          duration_ms = some 0;
        } in
        elim (Bool-cases (saves row)) [
          | inl saved ↦ rw (busy, begin_run) (rw saved h)
          | inr refused ↦ rw (busy, begin_run) (rw refused h)
        ]
    | inr idle ↦
        let row : CronJobLog = record {
          job_name = job;
          status = started;
          completed_at = none;
          duration_ms = none;
        } in
        let race : Racing = record { job_name = job; start = now } in
        let free = not_has s.running_jobs job idle in
        let free_at : (j : ℕ) → (job == j) ≡ true → holds j s ≡ 0 = λ j same.
          subst (λ i. count (λ k. k == i) s.running_jobs ≡ 0) ((==_iff job j).0 same) free in
        elim (Bool-cases (saves row)) [
          | inl saved ↦
              rw (idle, begin_run)
                (rw saved (
                  insert-IsKeyed run race s.races h.0,
                  λ j. locked_bounds j run race s new (h.1 j) (free_at j),
                ))
          | inr refused ↦
              rw (idle, begin_run)
                (rw refused (
                  h.0,
                  λ j. elim (Bool-cases (job == j)) [
                    | inl same ↦ rw same (omega (arith, h.1 j, free_at j same))
                    | inr other ↦ rw other (omega (arith, h.1 j))
                  ],
                ))
        ]
  ]

  end-IsExclusive :
      (now run : ℕ) (e : End) (s : CronJobs)
      → IsExclusive s
      → IsExclusive (end_run saves now run e s)
  unfolding end_run
  end-IsExclusive now run e s h = elim (Option-cases (lookup run s.races)) [
    | inl missing ↦ rw (missing, end_run) h
    | inr (race, found) ↦
        let removed = λ (j : ℕ). count-remove (λ e. e.1.job_name == j) run s.races h.0 found in
        rw (found, end_run)
          (
            remove-IsKeyed run s.races h.0,
            λ job.
                ground
                  (arith, removed job, count-release race.job_name job s.running_jobs, h.1 job),
          )
  ]

  Step-IsExclusive : {t u : CronJobs} → Step saves t u → IsExclusive t → IsExclusive u
  unfolding end_late
  Step-IsExclusive (begin now run job s new) h = begin-IsExclusive now run job s new h
  Step-IsExclusive (end now run e s) h = end-IsExclusive now run e s h
  Step-IsExclusive (late run s) h = elim (Option-cases (lookup run s.races)) [
    | inl missing ↦ rw (missing, end_late) h
    | inr (race, found) ↦ rw (found, end_late) h
  ]

  -- However runs begin and end, and whatever rows the database accepts: of a job at most one run races at a time, if that
  -- holds at the start.
  pub Reach-IsExclusive : {s t : CronJobs} → IsExclusive s → Reach saves s t → IsExclusive t
  Reach-IsExclusive h here = h
  Reach-IsExclusive h (next r st) = Step-IsExclusive st (Reach-IsExclusive h r)

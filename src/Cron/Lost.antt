-- ===== src/Cron/Lost.antt =====
-- The row of a run that begins (src/cron/cron-job.service.ts, src/cron/entities/cron-job-log.entity.ts): it is saved without a
-- duration, in a column that is not nullable and has no default.
use dupdap_backend.Base.{ℕ, ◌≡◌, refl, ap, ◌∙◌, Bool, true, false, [], none, lookup, arith}
use dupdap_backend.Cron.{
  CronJobs, CronJobLog, End, begin_run, end_run, end_late, remove, has, started, throws,
}
use dupdap_backend.Cron.Exclusion.{Step, Reach, here, next, begin, end, late}

-- A database that accepts no row without a duration, as the migration of the table has it.
abbrev pub NeedsDuration : (saves : CronJobLog → Bool) → Type 0
NeedsDuration saves = (row : CronJobLog) → row.duration_ms ≡ none → saves row ≡ false

-- No race is on and no function is at work.
abbrev pub IsIdle : CronJobs → Type 0
IsIdle s = (s.races ≡ []) × (s.working ≡ [])

module _ (saves : CronJobLog → Bool) (needs : NeedsDuration saves) where
  begin-IsIdle :
      (now run job : ℕ) (s : CronJobs) → IsIdle s → IsIdle (begin_run saves now run job s).0
  unfolding begin_run
  begin-IsIdle now run job s h =
      let row : CronJobLog = record {
        job_name = job;
        status = started;
        completed_at = none;
        duration_ms = none;
      } in
      let refused : saves row ≡ false = needs row refl in ground (arith, refused)

  end-IsIdle :
      (now run : ℕ) (e : End) (s : CronJobs) → IsIdle s → IsIdle (end_run saves now run e s)
  unfolding end_run
  end-IsIdle now run e s h =
      let missing : lookup run s.races ≡ none = ap (lookup run) h.0 in rw (missing, end_run) h

  late-IsIdle : (run : ℕ) (s : CronJobs) → IsIdle s → IsIdle (end_late run s)
  unfolding end_late
  late-IsIdle run s h =
      let missing : lookup run s.races ≡ none = ap (lookup run) h.0 in
      let none_left : remove run s.working ≡ [] = ap (remove run) h.1 ∙ unfold remove in refl in
      rw (missing, end_late) (h.0, none_left)

  Step-IsIdle : {s t : CronJobs} → Step saves s t → IsIdle s → IsIdle t
  Step-IsIdle (begin now run job s new) h = begin-IsIdle now run job s h
  Step-IsIdle (end now run e s) h = end-IsIdle now run e s h
  Step-IsIdle (late run s) h = late-IsIdle run s h

  -- On a database that accepts no row without a duration, no function of any job is ever called, however often the jobs are
  -- run.
  pub Reach-IsIdle : {s t : CronJobs} → IsIdle s → Reach saves s t → IsIdle t
  Reach-IsIdle h here = h
  Reach-IsIdle h (next r st) = Step-IsIdle st (Reach-IsIdle h r)

  -- There, the first run of a job throws, and leaves the name of the job in the set, so that the next run finds
  -- the job running.
  pub begin_run-leaks :
      (now run job : ℕ) (s : CronJobs)
      → has s.running_jobs job ≡ false
      → ((begin_run saves now run job s).1 ≡ throws)
        × (has (begin_run saves now run job s).0.running_jobs job ≡ true)
  unfolding begin_run
  begin_run-leaks now run job s free =
      let row : CronJobLog = record {
        job_name = job;
        status = started;
        completed_at = none;
        duration_ms = none;
      } in
      let refused : saves row ≡ false = needs row refl in ground (arith, refused, free)

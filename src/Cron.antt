-- ===== src/Cron.antt =====
-- `CronJobService.run` of src/cron/cron-job.service.ts, as steps between its waits. A run has an identifier that no other run
-- has, with which its row of the log is saved. Whether a save is accepted is decided by the database. Times are
-- milliseconds.
pub mod Exclusion
pub mod Lost
use dupdap_backend.Base.{
  ℕ, ◌+◌, ◌-◌, ◌*◌, ◌==◌, Bool, true, false, not, List, [], ◌∷◌, Option, none, some, any, filter,
  Dict, lookup, insert, if◌then◌else◌,
}

abbrev pub lock_ttl_ms : ℕ
lock_ttl_ms = 5 * 60 * 1000

pub data CronJobStatus : Type 0 where
  started completed failed skipped : CronJobStatus

pub record CronJobLog : Type 0 where
  pub job_name : ℕ
  pub status : CronJobStatus
  pub completed_at : Option ℕ
  pub duration_ms : Option ℕ

-- A run whose function has been called and whose race is not over.
pub record Racing : Type 0 where
  pub job_name : ℕ
  pub start : ℕ

-- `running_jobs` is the set of the service. `working` has the function of every run that has not ended, also
-- after the timeout.
pub record CronJobs : Type 0 where
  pub running_jobs : List ℕ
  pub logs : Dict CronJobLog
  pub races : Dict Racing
  pub working : Dict ℕ

abbrev pub has : List ℕ → ℕ → Bool
has jobs job = any (λ j. j == job) jobs

-- The part of `run` before the race: what it saves, and whether the function is called. `saves` is the
-- answer of the database to the row that is saved first.
pub data Start : Type 0 where
  skips throws races_on : Start

unfoldable pub begin_run :
    (saves : CronJobLog → Bool) (now run job : ℕ) → CronJobs → CronJobs × Start
begin_run saves now run job s =
    if has s.running_jobs job
    then (let row : CronJobLog = record {
      job_name = job;
      status = skipped;
      completed_at = some now;
      duration_ms = some 0;
    } in
        if saves row then (record s { logs = insert run row s.logs }, skips) else (s, throws))
    else (let row : CronJobLog = record {
      job_name = job;
      status = started;
      completed_at = none;
      duration_ms = none;
    } in
        let locked = record s { running_jobs = job ∷ s.running_jobs } in
        if saves row
        then (
          record locked {
            logs = insert run row s.logs;
            races = insert run (record { job_name = job; start = now }) s.races;
            working = insert run job s.working;
          },
          races_on,
        )
        else (locked, throws))

-- `map.delete(key)` and `set.delete(value)`
unfoldable pub remove {ℓ} : {V : Type ℓ} → ℕ → Dict V → Dict V
remove run d = filter (λ e. not (e.0 == run)) d

unfoldable pub release : ℕ → List ℕ → List ℕ
release job jobs = filter (λ j. not (j == job)) jobs

-- The end of the race: the function has ended (`ok` says how), or the timer came first. The row is saved again, and
-- `finally` takes the name out of the set whether or not that throws.
pub data End : Type 0 where
  ended : (ok : Bool) → End
  timed_out : End

abbrev pub status_of : End → CronJobStatus
status_of (ended true) = completed
status_of (ended false) = failed
status_of timed_out = failed

-- The row of the end. If the row of a completion is not accepted, `catch` saves the run as failed.
unfoldable pub saved_end :
    (saves : CronJobLog → Bool) (run : ℕ) → End → CronJobLog → Dict CronJobLog → Dict CronJobLog
saved_end saves run end row logs =
    let as_ended = record row { status = status_of end } in
    let as_failed = record row { status = failed } in
    if saves as_ended
    then insert run as_ended logs
    else (if saves as_failed then insert run as_failed logs else logs)

abbrev pub still_working : End → ℕ → Dict ℕ → Dict ℕ
still_working (ended ok) run working = remove run working
still_working timed_out run working = working

unfoldable pub end_run : (saves : CronJobLog → Bool) (now run : ℕ) → End → CronJobs → CronJobs
unfolding remove release saved_end
end_run saves now run end s = elim (lookup run s.races) [
  | none ↦ s
  | some race ↦
      let row : CronJobLog = record {
        job_name = race.job_name;
        status = status_of end;
        completed_at = some now;
        duration_ms = some (now - race.start);
      } in
      record {
        running_jobs = release race.job_name s.running_jobs;
        logs = saved_end saves run end row s.logs;
        races = remove run s.races;
        working = still_working end run s.working;
      }
]

-- A function that the timer has overtaken comes to its end.
unfoldable pub end_late : (run : ℕ) → CronJobs → CronJobs
unfolding remove
end_late run s = elim (lookup run s.races) [
  | some race ↦ s
  | none ↦ record s { working = remove run s.working }
]

-- ===== src/Dispatch/Reaper.antt =====
-- `reap_stuck_jobs` of harness/worker_dispatch.py. `exceeded` stands for the text of the message
-- that a job fails with. A retry limit below 0 is met by the source as 0 is.
pub mod Sweep
pub mod Outcome
pub mod Races
use testharness.Prelude.{
  ℕ, suc, String, Bool, false, true, not, List, [], ◌∷◌, leb, ◌==◌, if◌then◌else◌, length, Option,
  none, some,
}
use testharness.Db.{Db, Job}
use testharness.Db.RunnerJobs.Stuck.{find_stuck_runner_jobs, requeue_runner_job, fail_runner_job}

pub record Summary : Type 0 where
  pub scanned : ℕ
  pub requeued : ℕ
  pub failed : ℕ

-- What a scan leaves: the summary, and whether `notify_job_queued` was called.
pub record Reaped : Type 0 where
  pub db : Db
  pub summary : Summary
  pub notified : Bool

-- retry_count >= max_retries
abbrev pub is_exhausted : ℕ → Job → Bool
is_exhausted max_retries job = leb max_retries job.retry_count

module _ (exceeded : Job → ℕ → String) (max_retries now : ℕ) where
  unfoldable pub reap_job : Job → Db → Db
  unfolding requeue_runner_job fail_runner_job
  reap_job job db =
      if is_exhausted max_retries job
      then (fail_runner_job db job.id (exceeded job max_retries) now).1
      else (requeue_runner_job db job.id).1

  -- The loop over the stuck jobs, with the two counters.
  unfoldable pub reap_each : List Job → Db → Db × ℕ × ℕ
  reap_each [] db = (db, 0, 0)
  reap_each (job ∷ rest) db =
      let (db', requeued, failed) = reap_each rest (reap_job job db) in
      if is_exhausted max_retries job
      then (db', requeued, suc failed)
      else (db', suc requeued, failed)

unfoldable pub reap_stuck_jobs : (Job → ℕ → String) → Db → ℕ → ℕ → ℕ → Reaped
unfolding reap_each reap_job find_stuck_runner_jobs
reap_stuck_jobs exceeded db job_timeout max_retries now =
    let stuck = find_stuck_runner_jobs db job_timeout now in
    let (db', requeued, failed) = reap_each exceeded max_retries now stuck db in
    record {
      db = db';
      summary = record { scanned = length stuck; requeued = requeued; failed = failed };
      notified = not (requeued == 0);
    }

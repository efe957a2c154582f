-- ===== src/Dispatch/Reaper/Races.antt =====
-- The scan of harness/worker_dispatch.py reads its list first and writes one job at a time, so a
-- worker's results may come in between.
use testharness.Prelude.{
  ℕ, String, ◌≡◌, refl, ap, ◌∙◌, inl, inr, false, Option, none, some, if◌then◌else◌, Bool-cases,
  map_option, select_one, select_one-update_key, select_one-update_where_self,
}
use testharness.Db.{Db, Job, JobState, state_is}
use testharness.Db.RunnerJobs.{
  get_runner_job, has_id, complete, completion_state, complete_runner_job,
}
use testharness.Db.RunnerJobs.Stuck.{requeue, fail}
use testharness.Db.RunnerJobs.Claims.{job_id_of}
use testharness.Dispatch.Reaper.{is_exhausted, reap_job}

not_assigned : (error : Option String) → state_is (completion_state error) JobState.assigned ≡ false
not_assigned none = refl
not_assigned (some e) = refl

-- If the results of a job that the scan has listed come in before the scan writes it, then a scan
-- that would requeue it leaves the completed row as it is, but a scan that finds its retries used
-- up overwrites the completed row as failed.
pub reap_job_after_completion :
    (exceeded : Job → ℕ → String) (max_retries now : ℕ) (db : Db) (job row : Job)
    (error : Option String) (done : ℕ)
    → get_runner_job db job.id ≡ some row
    → let db' = (complete_runner_job db job.id error done).1 in
      let completed = complete error done row in
      get_runner_job (reap_job exceeded max_retries now job db') job.id
      ≡ some (
          if is_exhausted max_retries job
          then fail (exceeded job max_retries) now completed
          else completed)
reap_job_after_completion exceeded max_retries now db job row error done g =
    elim (Bool-cases (is_exhausted max_retries job)) [
      | inr e ↦
          unfold reap_job get_runner_job in
          rw e (
            select_one-update_where_self job_id_of job.id (λ j. state_is j.state JobState.assigned)
              requeue db'.runner_jobs (complete error done row) (λ r. refl) completed
            ∙ rw (not_assigned error))
      | inl e ↦
          unfold reap_job get_runner_job in
          rw e (
            select_one-update_key job_id_of job.id (fail (exceeded job max_retries) now)
              db'.runner_jobs (λ r. refl)
            ∙ ap (map_option (fail (exceeded job max_retries) now)) completed)
    ]
  where
    db' : Db
    db' = (complete_runner_job db job.id error done).1

    completed : select_one (has_id job.id) db'.runner_jobs ≡ some (complete error done row)
    completed =
        unfold complete_runner_job get_runner_job in
        select_one-update_key job_id_of job.id (complete error done) db.runner_jobs (λ r. refl)
        ∙ ap (map_option (complete error done)) g

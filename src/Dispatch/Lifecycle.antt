-- ===== src/Dispatch/Lifecycle.antt =====
-- The life of a job: every way in which harness/db/_runner_jobs.py, the reaper of
-- harness/worker_dispatch.py and `delete_runner` change the table, as a step relation.
pub mod Invariant
use testharness.Prelude.{ℕ, ◌≤◌, String, ◌≡◌, ◌≢◌, Option, none, some, List, ◌⊎◌}
use testharness.Db.{Db, Job, JobState}
use testharness.Db.RunnerJobs.{queue_runner_job, claim_runner_jobs, complete_runner_job}
use testharness.Db.RunnerJobs.Stuck.{
  manually_requeue_failed_job, requeue_runner_job, fail_runner_job,
}
use testharness.Db.Runners.{delete_runner}
use testharness.Dispatch.Reaper.{reap_stuck_jobs}

-- One transaction on the queue, with the reaper's retry limit.
pub data Step (max_retries : ℕ) : Db → Db → Type 0 where
  queue :
      {db db' : Db} (job_id run_id app_def_json environment : String)
      (runner_name target_tag : Option String) (now : ℕ)
      → queue_runner_job db job_id run_id app_def_json environment runner_name target_tag now
        ≡ some db'
      → Step max_retries db db'
  claim :
      {db db' : Db} (worker_name : String) (tags : List String) (capacity now : ℕ)
      → db' ≡ (claim_runner_jobs db worker_name tags capacity now).1
      → Step max_retries db db'
  complete :
      {db db' : Db} (job_id : String) (error : Option String) (now : ℕ)
      → db' ≡ (complete_runner_job db job_id error now).1
      → Step max_retries db db'
  reap :
      {db db' : Db} (exceeded : Job → ℕ → String) (timeout now : ℕ)
      → db' ≡ (reap_stuck_jobs exceeded db timeout max_retries now).db
      → Step max_retries db db'
  requeue_failed :
      {db db' : Db} (job_id : String) (now : ℕ)
      → db' ≡ (manually_requeue_failed_job db job_id now).1
      → Step max_retries db db'
  delete : {db db' : Db} (name : String) → db' ≡ (delete_runner name db).1 → Step max_retries db db'

pub data Reach (max_retries : ℕ) (db : Db) : Db → Type 0 where
  here : Reach max_retries db db
  next : {a b : Db} → Reach max_retries db a → Step max_retries a b → Reach max_retries db b

abbrev pub IsUnassigned : Job → Type 0
IsUnassigned j = (j.assigned_to ≡ none) × (j.assigned_at ≡ none)

abbrev pub IsOpen : Job → Type 0
IsOpen j = (j.completed_at ≡ none) × (j.error ≡ none)

-- What a row of each state looks like.
abbrev pub Fits : JobState → Job → Type 0
Fits JobState.queued j = IsUnassigned j × IsOpen j
Fits JobState.assigned j = (j.assigned_to ≢ none) × (j.assigned_at ≢ none) × IsOpen j
Fits JobState.complete j = (j.completed_at ≢ none) × (j.error ≡ none)
Fits JobState.error j = (j.completed_at ≢ none) × (j.error ≢ none)
Fits JobState.failed j = (j.completed_at ≢ none) × (j.error ≢ none)

abbrev pub IsSound : ℕ → Job → Type 0
IsSound max_retries j = Fits j.state j × (j.retry_count ≤ max_retries)

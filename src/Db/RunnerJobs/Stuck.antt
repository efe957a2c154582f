-- ===== src/Db/RunnerJobs/Stuck.antt =====
-- harness/db/_runner_jobs.py: the reaper's and the operators' queries, and `delete_runner` of
-- harness/db/_runners.py as far as it concerns the jobs.
use testharness.Prelude.{
  ℕ, suc, ◌+◌, String, Bool, false, ◌&&◌, Option, none, some, List, [], ◌∷◌, ltb, leb,
  if◌then◌else◌, column_is, select_where, update_where, count_where, order_by, ◌==◌,
}
use testharness.Db.{Db, Run, RunStatus, Job, JobState, state_is}
use testharness.Db.Runs.{run_has_id}
use testharness.Db.RunnerJobs.{has_id, get_runner_job}

-- SELECT COUNT(*) ... WHERE assigned_to=? AND state='assigned'
abbrev pub is_inflight : String → Job → Bool
is_inflight name j = column_is j.assigned_to name && state_is j.state JobState.assigned

unfoldable pub count_inflight_jobs_for_runner : Db → String → ℕ
unfolding count_where
count_inflight_jobs_for_runner db name = count_where (is_inflight name) db.runner_jobs

-- assigned_at IS NOT NULL AND assigned_at < older_than; the source has `older_than` as the time
-- `now - timeout`, which on ℕ is written as a sum.
abbrev pub assigned_before : Option ℕ → ℕ → ℕ → Bool
assigned_before none timeout now = false
assigned_before (some t) timeout now = ltb (t + timeout) now

unfoldable pub is_stuck : ℕ → ℕ → Job → Bool
is_stuck timeout now j =
    state_is j.state JobState.assigned && assigned_before j.assigned_at timeout now

abbrev pub assigned_key : Job → ℕ
assigned_key j = elim j.assigned_at [ none ↦ 0 | some t ↦ suc t ]

unfoldable pub find_stuck_runner_jobs : Db → ℕ → ℕ → List Job
unfolding select_where order_by is_stuck
find_stuck_runner_jobs db timeout now =
    order_by assigned_key (select_where (is_stuck timeout now) db.runner_jobs)

abbrev pub requeue : Job → Job
requeue j = record j {
  state = JobState.queued;
  assigned_to = none;
  assigned_at = none;
  retry_count = j.retry_count + 1;
}

abbrev pub is_assigned_row : String → Job → Bool
is_assigned_row job_id j = has_id job_id j && state_is j.state JobState.assigned

unfoldable pub requeue_runner_job : Db → String → Option Job × Db
unfolding update_where get_runner_job
requeue_runner_job db job_id =
    let db' = record db {
      runner_jobs = update_where (is_assigned_row job_id) requeue db.runner_jobs;
    } in
    (get_runner_job db' job_id, db')

abbrev pub fail : String → ℕ → Job → Job
fail error now j = record j { state = JobState.failed; completed_at = some now; error = some error }

-- `if row:` the linked run is moved to 'error'
abbrev pub fail_run : Option Job → ℕ → List Run → List Run
fail_run none now runs = runs
fail_run (some row) now runs =
    update_where (run_has_id row.run_id)
      (λ r. record r { status = RunStatus.error; finished_at = some now }) runs

unfoldable pub fail_runner_job : Db → String → String → ℕ → Option Job × Db
unfolding update_where get_runner_job
fail_runner_job db job_id error now =
    let db' = record db {
      runner_jobs = update_where (has_id job_id) (fail error now) db.runner_jobs;
    } in
    let row = get_runner_job db' job_id in (row, record db' { runs = fail_run row now db.runs })

abbrev pub is_failed_row : String → Job → Bool
is_failed_row job_id j = has_id job_id j && state_is j.state JobState.failed

abbrev pub reset : ℕ → Job → Job
reset now j = record j {
  state = JobState.queued;
  assigned_to = none;
  assigned_at = none;
  completed_at = none;
  error = none;
  queued_at = now;
}

abbrev pub requeue_run : Option Job → List Run → List Run
requeue_run none runs = runs
requeue_run (some row) runs =
    update_where (run_has_id row.run_id)
      (λ r. record r { status = RunStatus.queued; finished_at = none }) runs

unfoldable pub manually_requeue_failed_job : Db → String → ℕ → Option Job × Db
unfolding update_where count_where get_runner_job
manually_requeue_failed_job db job_id now =
    let db' = record db {
      runner_jobs = update_where (is_failed_row job_id) (reset now) db.runner_jobs;
    } in
    let row = get_runner_job db' job_id in
    if count_where (is_failed_row job_id) db.runner_jobs == 0
    then (none, db')
    else (row, record db' { runs = requeue_run row db.runs })

-- The jobs' half of `delete_runner`, with its rowcount: assigned jobs go back to the queue.
abbrev pub release : Job → Job
release j = record j { state = JobState.queued; assigned_to = none; assigned_at = none }

unfoldable pub release_jobs_of : String → List Job → List Job
unfolding update_where
release_jobs_of name rows = update_where (is_inflight name) release rows

abbrev sum_retries : List Job → ℕ
sum_retries [] = 0
sum_retries (j ∷ rows) = j.retry_count + sum_retries rows

-- WHERE assigned_to=? AND queued_at >= ?
unfoldable pub sum_retry_count_for_runner : Db → String → ℕ → ℕ
unfolding select_where
sum_retry_count_for_runner db name since =
    sum_retries
      (select_where (λ j. column_is j.assigned_to name && leb since j.queued_at) db.runner_jobs)

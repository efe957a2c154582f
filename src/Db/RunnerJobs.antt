-- ===== src/Db/RunnerJobs.antt =====
-- harness/db/_runner_jobs.py: the dispatch queue in the table `runner_jobs`. Each method is one
-- transaction. What `uuid.uuid4()` and the clock give is an argument, `job_id` and `now`.
pub mod Stuck
pub mod Reads
pub mod Claims
pub mod ClaimOrder
use testharness.Prelude.{
  ℕ, suc, ◌+◌, ◌≤◌, String, ◌=s=◌, Bool, true, false, ◌&&◌, ◌||◌, Option, none, some, List, [], ◌∷◌,
  ◌++◌, map, ltb, leb, ◌==◌, if◌then◌else◌, is_none, column_is, take, select_where, select_one,
  update_where, count_where, order_by,
}
use testharness.Db.{Db, Run, RunStatus, Job, JobState, state_is}
use testharness.Db.Runs.{run_has_id}

abbrev pub has_id : String → Job → Bool
has_id job_id j = j.id =s= job_id

unfoldable pub get_runner_job : Db → String → Option Job
unfolding select_one
get_runner_job db job_id = select_one (has_id job_id) db.runner_jobs

-- `none` is the IntegrityError of a second row with one primary key.
abbrev pub insert_job : Option Job → Db → Job → Option Db
insert_job (some existing) db row = none
insert_job none db row = some (record db { runner_jobs = db.runner_jobs ++ row ∷ [] })

unfoldable pub queue_runner_job :
    Db
    → (job_id run_id app_def_json environment : String) (runner_name target_tag : Option String) → ℕ
    → Option Db
unfolding get_runner_job
queue_runner_job db job_id run_id app_def_json environment runner_name target_tag now =
    insert_job (get_runner_job db job_id) db (record {
      id = job_id;
      run_id = run_id;
      runner_name = runner_name;
      target_tag = target_tag;
      app_def_json = app_def_json;
      environment = environment;
      state = JobState.queued;
      queued_at = now;
      assigned_to = none;
      assigned_at = none;
      completed_at = none;
      error = none;
      retry_count = 0;
    })

-- target_tag IN (tags)
abbrev pub column_in : Option String → List String → Bool
column_in none tags = false
column_in (some t) [] = false
column_in (some t) (tag ∷ tags) = t =s= tag || column_in (some t) tags

-- The WHERE clause of the claim: pinned to the worker, open to all, or tagged for it.
unfoldable pub is_claimable : String → List String → Job → Bool
is_claimable worker_name tags j =
    state_is j.state JobState.queued
    && (column_is j.runner_name worker_name
        || (is_none j.runner_name && is_none j.target_tag)
        || (is_none j.runner_name && column_in j.target_tag tags))

abbrev pub is_queued_row : String → Job → Bool
is_queued_row job_id j = has_id job_id j && state_is j.state JobState.queued

abbrev pub assign : String → ℕ → Job → Job
assign worker_name now j = record j {
  state = JobState.assigned;
  assigned_to = some worker_name;
  assigned_at = some now;
}

-- `claimed.append(dict(row))`, if the UPDATE changed one row
abbrev append_row : ℕ → Option Job → List Job → List Job
append_row rowcount none claimed = claimed
append_row rowcount (some row) claimed = if rowcount == 1 then row ∷ claimed else claimed

-- The loop over the candidates' ids; `assigned_at` is one time for all.
unfoldable pub claim_each : String → ℕ → List String → List Job → List Job × List Job
unfolding update_where count_where select_one
claim_each worker_name now [] rows = ([], rows)
claim_each worker_name now (jid ∷ ids) rows =
    let rowcount = count_where (is_queued_row jid) rows in
    let rows' = update_where (is_queued_row jid) (assign worker_name now) rows in
    let (claimed, rows'') = claim_each worker_name now ids rows' in
    (append_row rowcount (select_one (has_id jid) rows') claimed, rows'')

-- The SELECT of the claim, with its ORDER BY and LIMIT.
unfoldable pub claim_candidates : Db → String → List String → ℕ → List Job
unfolding select_where order_by is_claimable
claim_candidates db worker_name tags capacity =
    take capacity
      (order_by (λ j. j.queued_at) (select_where (is_claimable worker_name tags) db.runner_jobs))

abbrev pub job_ids : List Job → List String
job_ids = map (λ j. j.id)

-- The claimed rows and the new tables. A negative capacity is met by the source as 0 is.
unfoldable pub claim_runner_jobs : Db → String → List String → ℕ → ℕ → List Job × Db
unfolding claim_candidates claim_each
claim_runner_jobs db worker_name tags capacity now =
    let ids = job_ids (claim_candidates db worker_name tags capacity) in
    let (claimed, rows) = claim_each worker_name now ids db.runner_jobs in
    if capacity == 0 then ([], db) else (claimed, record db { runner_jobs = rows })

-- "complete" if error is None else "error"
abbrev pub completion_state : Option String → JobState
completion_state none = JobState.complete
completion_state (some e) = JobState.error

abbrev pub complete : Option String → ℕ → Job → Job
complete error now j = record j {
  state = completion_state error;
  completed_at = some now;
  error = error;
}

unfoldable pub complete_runner_job : Db → String → Option String → ℕ → Option Job × Db
unfolding update_where get_runner_job
complete_runner_job db job_id error now =
    let db' = record db {
      runner_jobs = update_where (has_id job_id) (complete error now) db.runner_jobs;
    } in
    (get_runner_job db' job_id, db')

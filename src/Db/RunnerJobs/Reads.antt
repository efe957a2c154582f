-- ===== src/Db/RunnerJobs/Reads.antt =====
-- The queries of harness/db/_runner_jobs.py, _runs.py and _app_state.py that the pages read. A NULL comes last
-- in a descending order.
use testharness.Prelude.{
  ℕ, suc, String, ◌=s=◌, Bool, false, not, ◌&&◌, Option, none, some, List, [], ◌∷◌, ◌++◌, map, leb,
  ltb, is_none, column_is, take, drop, select_where, order_desc,
}
use testharness.Db.{Db, Run, Job, JobState, state_is, TestResult}
use testharness.Db.Runs.{run_has_id}

abbrev pub null_last : Option ℕ → ℕ
null_last none = 0
null_last (some t) = suc t

-- A negative limit is not modelled.
unfoldable pub list_runner_jobs_for_runner : Db → String → ℕ → List Job
unfolding select_where order_desc
list_runner_jobs_for_runner db name limit = take limit (
    order_desc (λ j. j.queued_at) (select_where (λ j. column_is j.assigned_to name) db.runner_jobs))

-- JOIN of the rows of two tables on a test; the pairs stand in the order of the first table.
unfoldable pub join : {A B : Type 0} → (A → B → Bool) → List A → List B → List (A × B)
unfolding select_where
join on [] bs = []
join on (a ∷ rows) bs = map (λ b. (a, b)) (select_where (on a) bs) ++ join on rows bs

abbrev has_path : Option String → Bool
has_path none = false
has_path (some path) = not (path =s= "")

abbrev finished_since : ℕ → Option ℕ → Bool
finished_since since none = false
finished_since since (some t) = leb since t

-- The results with a screenshot and the jobs of their runs.
unfoldable pub list_recent_screenshots_for_workers : Db → ℕ → List (TestResult × Job)
unfolding join select_where
list_recent_screenshots_for_workers db since =
    select_where
      (λ p.
        has_path p.0.screenshot_path
        && (not (is_none p.1.assigned_to) && finished_since since p.0.finished_at))
      (join (λ (tr : TestResult) (rj : Job). rj.run_id =s= tr.run_id) db.test_results
        db.runner_jobs)

-- The failed jobs that were retried, and their runs.
unfoldable pub list_reaper_failed_runs : Db → ℕ → List (Job × Run)
unfolding join select_where order_desc
list_reaper_failed_runs db limit = take limit (
    order_desc (λ p. null_last p.0.completed_at)
      (select_where (λ p. state_is p.0.state JobState.failed && ltb 0 p.0.retry_count)
        (join (λ (rj : Job) (r : Run). run_has_id rj.run_id r) db.runner_jobs db.runs)))

unfoldable pub get_results_for_run : Db → String → List TestResult
unfolding select_where
get_results_for_run db run_id = select_where (λ r. r.run_id =s= run_id) db.test_results

abbrev of_app : String → String → TestResult → Bool
of_app app environment r = r.app =s= app && r.environment =s= environment

unfoldable pub get_results_for_app : Db → String → String → ℕ → ℕ → List TestResult
unfolding select_where order_desc
get_results_for_app db app environment limit offset = take limit (
    drop offset (
      order_desc (λ r. null_last r.finished_at)
        (select_where (of_app app environment) db.test_results)))

-- The latest statuses of each of some tests, whose names are distinct.
unfoldable pub get_run_history_batch :
    Db → String → String → List String → ℕ → List (String × List String)
unfolding select_where order_desc
get_run_history_batch db app environment test_names limit =
    let rows =
      order_desc (λ r. null_last r.finished_at)
        (select_where (of_app app environment) db.test_results) in
    map
      (λ name. (
        name,
        take limit
            (map (λ (r : TestResult). r.status) (select_where (λ r. r.test_name =s= name) rows)),
      ))
      test_names

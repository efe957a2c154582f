-- ===== src/Dispatch/Ingest.antt =====
-- `ingest_runner_results` of harness/worker_dispatch.py with `determine_alert` of harness/runner.py:
-- a worker's results become rows, states of tests and alerts. `now` is the clock of the call. What
-- `dispatch_alerts` and `dispatch_run_webhook` are called with is part of the result.
pub mod Track
pub mod Recorded
use testharness.Prelude.{
  ℕ, zero, suc, String, ◌=s=◌, Bool, true, false, not, ◌&&◌, ◌||◌, Option, none, some, List, [],
  ◌∷◌, ◌++◌, map, if◌then◌else◌, is_none, length, update_where, starts_with,
}
use testharness.Db.{
  Db, Run, RunStatus, Job, TestResult, StepResult, TestState, passing, failing, AppState,
}
use testharness.Db.Runs.{get_run, update_run_status}
use testharness.Db.RunnerJobs.{get_runner_job, complete_runner_job}
use testharness.Db.AppStates.{upsert_app_state, clear_stale_alert}
use testharness.Db.AppStates.Upserts.{state_at}

-- harness/types.py
pub data AlertType : Type 0 where
  fail resolve stale : AlertType

pub record Alert : Type 0 where
  pub alert_type : AlertType
  pub app : String
  pub environment : String
  pub test_name : String
  pub error_msg : Option String

-- status in ("fail", "error")
abbrev pub is_fail : String → Bool
is_fail status = status =s= "fail" || status =s= "error"

abbrev pub is_failing : TestState → Bool
is_failing failing = true
is_failing _ = false

unfoldable pub determine_alert : TestState → String → Option AlertType
determine_alert previous_state new_status =
    if is_fail new_status && not (is_failing previous_state)
    then some AlertType.fail
    else if not (is_fail new_status) && is_failing previous_state
    then some AlertType.resolve
    else none

-- "passing" if tr.status == "pass" else "failing"
unfoldable pub new_state : String → TestState
new_state status = if status =s= "pass" then passing else failing

-- One entry of `test_results`. `result_id` is the uuid that the row gets, which is a new one.
pub record Report : Type 0 where
  pub result_id : String
  pub test_name : String
  pub status : Option String
  pub error_msg : Option String
  pub duration_ms : Option ℕ
  pub finished_at : Option ℕ
  pub screenshot : Option String
  pub step_log : List StepResult

abbrev path_at : String → List (String × String) → Option String
path_at key [] = none
path_at key ((k, path) ∷ paths) =
    let rest = path_at key paths in if k =s= key then some path else rest

-- The first key that is not empty and has a path; otherwise what the worker recorded.
unfoldable pub resolve_screenshot :
    Option String → List (String × String) → List String → Option String
resolve_screenshot recorded paths [] = recorded
resolve_screenshot recorded paths (key ∷ keys) =
    let rest = resolve_screenshot recorded paths keys in
    let found = path_at key paths in if key =s= "" || is_none found then rest else found

unfoldable pub insert_test_result : TestResult → Db → Db
insert_test_result tr db = record db { test_results = db.test_results ++ tr ∷ [] }

unfoldable pub set_test_result_screenshot_path : String → String → Db → Db
unfolding update_where
set_test_result_screenshot_path result_id path db = record db {
  test_results =
      update_where (λ r. r.id =s= result_id) (λ r. record r { screenshot_path = some path })
        db.test_results;
}

abbrev pub record_path : String → Option String → Db → Db
record_path result_id none db = db
record_path result_id (some path) db =
    if starts_with path "/screenshots/"
    then set_test_result_screenshot_path result_id path db
    else db

abbrev pub status_or_error : Option String → String
status_or_error none = "error"
status_or_error (some status) = status

abbrev pub or_now : ℕ → Option ℕ → ℕ
or_now now none = now
or_now now (some t) = t

abbrev pub push_alert : Option AlertType → String → String → Report → List Alert → List Alert
push_alert none app environment r alerts = alerts
push_alert (some alert_type) app environment r alerts =
    record {
      alert_type = alert_type;
      app = app;
      environment = environment;
      test_name = r.test_name;
      error_msg = r.error_msg;
    }
    ∷ alerts

module _ (run_id app environment : String) (paths : List (String × String)) (now : ℕ) where
  abbrev pub result_of : Report → TestResult
  result_of r = record {
    id = r.result_id;
    run_id = run_id;
    app = app;
    environment = environment;
    test_name = r.test_name;
    status = status_or_error r.status;
    error_msg = r.error_msg;
    step_log = r.step_log;
    screenshot =
        resolve_screenshot r.screenshot paths
          (r.test_name ∷ map (λ (s : StepResult). s.step) r.step_log);
    duration_ms = r.duration_ms;
    finished_at = r.finished_at;
    screenshot_path = none;
  }

  abbrev pub state_after : Report → AppState
  state_after r = record {
    app = app;
    environment = environment;
    test_name = r.test_name;
    state = new_state (status_or_error r.status);
    since = or_now now r.finished_at;
  }

  -- One turn of the loop, up to the alert.
  unfoldable pub record_result : Report → Db → Db
  unfolding insert_test_result upsert_app_state
  record_result r db =
      let tr = result_of r in
      upsert_app_state (record_path tr.id tr.screenshot (insert_test_result tr db)) (state_after r)

  unfoldable pub record_each : List Report → Db → List Alert × Db
  unfolding record_result determine_alert state_at
  record_each [] db = ([], db)
  record_each (r ∷ reports) db =
      let alert_type =
        determine_alert (state_at db app environment r.test_name) (status_or_error r.status) in
      let (alerts, db') = record_each reports (record_result r db) in
      (push_alert alert_type app environment r alerts, db')

pub record Ingested : Type 0 where
  pub db : Db
  pub run_id : String
  pub status : RunStatus
  pub tests_recorded : ℕ
  pub alerts : List Alert
  pub webhook : Bool

-- The result, or the ValueError of an unknown job or a missing run.
pub data Ingest : Type 0 where
  ok : Ingested → Ingest
  value_error : Ingest

-- "complete" if error is None else "error"
abbrev pub final_status : Option String → RunStatus
final_status none = RunStatus.complete
final_status (some e) = RunStatus.error

-- `in_maintenance` is what `is_in_maintenance` answers for the app and the environment, and
-- `has_webhook` whether a webhook is configured.
module _ (in_maintenance : Db → String → String → Option String) (has_webhook : Bool) where
  unfoldable pub ingest_run :
      Db → String → Job → Run → List Report → Option String → List (String × String) → ℕ → Ingested
  unfolding record_each update_run_status clear_stale_alert complete_runner_job
  ingest_run db job_id job run reports error paths now =
      let started = update_run_status db run.id RunStatus.running (some now) none in
      let (alerts, recorded) =
        record_each run.id run.app job.environment paths now reports started in
      let finished = update_run_status recorded run.id (final_status error) none (some now) in
      let cleared = clear_stale_alert finished run.app job.environment in
      let (_, completed) = complete_runner_job cleared job_id error now in
      let quiet = is_none (in_maintenance completed run.app job.environment) in
      record {
        db = completed;
        run_id = run.id;
        status = final_status error;
        tests_recorded = length reports;
        alerts = if quiet then alerts else [];
        webhook = has_webhook && quiet;
      }

  abbrev pub ingest_job :
      Db
      → String
      → List Report
      → Option String
      → List (String × String)
      → ℕ
      → Job
      → Option Run
      → Ingest
  ingest_job db job_id reports error paths now job none = value_error
  ingest_job db job_id reports error paths now job (some run) =
      ok (ingest_run db job_id job run reports error paths now)

  abbrev pub ingest_found :
      Db → String → List Report → Option String → List (String × String) → ℕ → Option Job → Ingest
  ingest_found db job_id reports error paths now none = value_error
  ingest_found db job_id reports error paths now (some job) =
      ingest_job db job_id reports error paths now job (get_run db job.run_id)

  unfoldable pub ingest_runner_results :
      Db → String → List Report → Option String → List (String × String) → ℕ → Ingest
  ingest_runner_results db job_id reports error paths now =
      ingest_found db job_id reports error paths now (get_runner_job db job_id)

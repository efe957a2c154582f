-- ===== src/Execution/RunApp.antt =====
-- `run_app` of harness/runner.py: the run of an app's tests in this process. `now` is the clock when the
-- run starts and `later` the clock when its results are recorded. The substitution of variables, the
-- reading of a certificate in the steps, and the texts of the alerts are arguments.
use testharness.Prelude.{
  ℕ, ◌+◌, String, ◌=s=◌, Bool, true, false, not, ◌&&◌, ◌||◌, Option, none, some, List, [], ◌∷◌,
  ◌++◌, map, leb, ltb, if◌then◌else◌, is_none,
}
use testharness.Db.{Db, Run, RunStatus, TestResult, StepResult, TestState, failing, AppState}
use testharness.Db.Runs.{insert_run, update_run_status}
use testharness.Db.AppStates.{upsert_app_state, clear_stale_alert}
use testharness.Db.AppStates.Upserts.{state_at}
use testharness.Dispatch.Ingest.{
  AlertType, Alert, is_fail, is_failing, determine_alert, new_state, or_now, insert_test_result,
}
use testharness.Execution.{
  TestDef, Attempt, finished, raised, SloTexts, is_tls, Attempts, execute_test,
}

-- An app as far as `run_app` reads it.
pub record App : Type 0 where
  pub name : String
  pub tests : List TestDef
  pub sequential : Bool

abbrev has_extracts : List TestDef → Bool
has_extracts [] = false
has_extracts (td ∷ tests) = not (is_empty td.extract) || has_extracts tests
  where
    is_empty : List String → Bool
    is_empty [] = true
    is_empty (x ∷ xs) = false

unfoldable pub is_sequential : App → Bool
is_sequential app = app.sequential || has_extracts app.tests

-- A test with its variables substituted, or the ConfigError as the attempt that it becomes.
pub data Resolved : Type 0 where
  resolved : TestDef → Resolved
  unresolved : String → String → Resolved

-- The values captured so far, the latest first.
abbrev pub Captures : Type 0
Captures = List (String × String)

abbrev pub captures_after : Captures → Attempt → Captures
captures_after captures (finished result new) = new ++ captures
captures_after captures (raised message row_id) = captures

module _ (texts : SloTexts) (attempts : Attempts) (resolve : Captures → TestDef → Resolved) where
  abbrev run_resolved : Resolved → Attempt
  run_resolved (resolved td) = execute_test texts attempts td
  run_resolved (unresolved message row_id) = raised message row_id

  -- The tests in order, each with the values that those before it captured.
  unfoldable pub run_sequential : Captures → List TestDef → List (TestDef × Attempt)
  unfolding execute_test
  run_sequential captures [] = []
  run_sequential captures (td ∷ tests) =
      let result = run_resolved (resolve captures td) in
      (td, result) ∷ run_sequential (captures_after captures result) tests

  -- zip(test_defs, results)
  unfoldable pub run_tests : App → List (TestDef × Attempt)
  unfolding is_sequential run_sequential execute_test
  run_tests app =
      if is_sequential app
      then run_sequential [] app.tests
      else map (λ td. (td, execute_test texts attempts td)) app.tests

-- What the steps of a test tell of a certificate. The days, which have one decimal, are tenths of days.
pub record Cert : Type 0 where
  pub status : String
  pub days_remaining : Option ℕ

abbrev cert_failed : Option Cert → Bool
cert_failed none = false
cert_failed (some cert) = is_fail cert.status

abbrev days_of : Option Cert → Option ℕ
days_of none = none
days_of (some cert) = cert.days_remaining

abbrev grew : Option ℕ → ℕ → Bool
grew none curr_days = false
grew (some prev_days) curr_days =
    (ltb prev_days 300 && leb 600 curr_days) || leb (prev_days + 300) curr_days

unfoldable pub is_renewed : TestState → Option Cert → ℕ → Bool
is_renewed prev_state prev_cert curr_days =
    (is_failing prev_state || cert_failed prev_cert) || grew (days_of prev_cert) curr_days

-- What is sent for a test: the type and the text.
abbrev pub Notice : Type 0
Notice = Option AlertType × Option String

abbrev renewal : (ℕ → String) → TestState → Option Cert → Option ℕ → Notice → Notice
renewal renewal_text prev_state prev_cert none notice = notice
renewal renewal_text prev_state prev_cert (some curr_days) notice =
    if is_renewed prev_state prev_cert curr_days
    then (some AlertType.resolve, some (renewal_text curr_days))
    else notice

abbrev pub name_or_unknown : Option String → String
name_or_unknown none = "unknown"
name_or_unknown (some name) = name

-- What the checks of certificates give: of the steps and the status of a result, and of the last result
-- of a test that has one.
pub record Certs : Type 0 where
  pub of_steps : List StepResult → String → Option Cert
  pub latest : Db → String → String → String → Option Cert
  pub renewal_text : ℕ → String

abbrev pub to_send : String → String → String → Notice → List Alert → List Alert
to_send app environment test_name (none, message) alerts = alerts
to_send app environment test_name (some alert_type, message) alerts =
    record {
      alert_type = alert_type;
      app = app;
      environment = environment;
      test_name = test_name;
      error_msg = message;
    }
    ∷ alerts

module _ (certs : Certs) (run_id app environment : String) (now : ℕ) where
  -- The row for a test that ended with an exception.
  abbrev pub error_result : TestDef → String → String → TestResult
  error_result td message row_id = record {
    id = row_id;
    run_id = run_id;
    app = app;
    environment = environment;
    test_name = name_or_unknown td.name;
    status = "error";
    error_msg = some message;
    step_log = [];
    screenshot = none;
    duration_ms = none;
    finished_at = some now;
    screenshot_path = none;
  }

  abbrev pub failing_state : TestDef → AppState
  failing_state td = record {
    app = app;
    environment = environment;
    test_name = name_or_unknown td.name;
    state = failing;
    since = now;
  }

  abbrev pub result_state : TestResult → AppState
  result_state result = record {
    app = app;
    environment = environment;
    test_name = result.test_name;
    state = new_state result.status;
    since = or_now now result.finished_at;
  }

  unfoldable pub notice_of : TestDef → TestResult → Db → Notice
  unfolding determine_alert is_renewed state_at
  notice_of td result db =
      let prev_state = state_at db app environment result.test_name in
      let prev_cert = certs.latest db app environment result.test_name in
      let notice : Notice = (determine_alert prev_state result.status, result.error_msg) in
      let curr_days = days_of (certs.of_steps result.step_log result.status) in
      if is_tls td.test_type && result.status =s= "pass"
      then renewal certs.renewal_text prev_state prev_cert curr_days notice
      else notice

  -- One turn of the loop over the results: the tables, and what it sends.
  unfoldable pub record_attempt : TestDef → Attempt → Db → Db
  unfolding insert_test_result upsert_app_state new_state
  record_attempt td (raised message row_id) db =
      upsert_app_state (insert_test_result (error_result td message row_id) db) (failing_state td)
  record_attempt td (finished result captures) db =
      upsert_app_state (insert_test_result result db) (result_state result)

  unfoldable pub alerts_for : TestDef → Attempt → Db → List Alert → List Alert
  unfolding notice_of
  alerts_for td (raised message row_id) db alerts = alerts
  alerts_for td (finished result captures) db alerts =
      to_send app environment result.test_name (notice_of td result db) alerts

  unfoldable pub record_attempts : List (TestDef × Attempt) → Db → List Alert × Db
  unfolding record_attempt alerts_for
  record_attempts [] db = ([], db)
  record_attempts ((td, result) ∷ rest) db =
      let (alerts, db') = record_attempts rest (record_attempt td result db) in
      (alerts_for td result db alerts, db')

-- The app with its variables substituted and its URL checked, or the text of the ConfigError.
pub data Setup : Type 0 where
  ready : App → Setup
  config_error : String → Setup

-- What a run leaves, and what `dispatch_alerts` and `dispatch_run_webhook` are called with.
pub record Ran : Type 0 where
  pub db : Db
  pub run_id : String
  pub alerts : List Alert
  pub webhook : Bool

-- Run(app=..., environment=..., triggered_by=...), with a new id
abbrev pub new_run : String → String → String → String → Run
new_run id app environment triggered_by = record {
  id = id;
  app = app;
  environment = environment;
  triggered_by = triggered_by;
  status = RunStatus.pending;
  started_at = none;
  finished_at = none;
}

-- The id of the run, and the tables with its row; `none` is the IntegrityError of the new row.
abbrev pub begin_run : Option String → Run → Db → String × Option Db
begin_run (some run_id) run db = (run_id, some db)
begin_run none run db = (run.id, insert_run db run)

-- `_record_setup_error`. `result_id` is the id of the result's row.
unfoldable pub setup_error_result : String → String → String → String → String → ℕ → TestResult
setup_error_result result_id run_id app environment message now = record {
  id = result_id;
  run_id = run_id;
  app = app;
  environment = environment;
  test_name = "(run setup)";
  status = "error";
  error_msg = some message;
  step_log = [];
  screenshot = none;
  duration_ms = none;
  finished_at = some now;
  screenshot_path = none;
}

unfoldable pub record_setup_error : String → String → String → String → String → ℕ → Db → Db
unfolding setup_error_result insert_test_result update_run_status
record_setup_error result_id run_id app environment message now db =
    update_run_status
      (insert_test_result (setup_error_result result_id run_id app environment message now) db)
      run_id RunStatus.error (some now) (some now)

-- The outside of a run: its executors, its texts, the maintenance windows, and the new ids.
pub record RunEnv : Type 0 where
  pub texts : SloTexts
  pub attempts : Attempts
  pub resolve : Captures → TestDef → Resolved
  pub certs : Certs
  pub in_maintenance : Db → String → String → Option String
  pub has_webhook : Bool
  pub new_run_id : String
  pub setup_result_id : String

module _ (env : RunEnv) (app_name environment : String) (now later : ℕ) where
  -- The run of an app that could be set up, from its row on.
  unfoldable pub run_started : App → String → Db → Ran
  unfolding run_tests record_attempts update_run_status clear_stale_alert
  run_started app run_id db =
      let running = update_run_status db run_id RunStatus.running (some now) none in
      let results = run_tests env.texts env.attempts env.resolve app in
      let (alerts, recorded) =
        record_attempts env.certs run_id app.name environment later results running in
      let complete = update_run_status recorded run_id RunStatus.complete none (some later) in
      let cleared = clear_stale_alert complete app.name environment in
      let quiet = is_none (env.in_maintenance cleared app.name environment) in
      record {
        db = cleared;
        run_id = run_id;
        alerts = if quiet then alerts else [];
        webhook = env.has_webhook && quiet;
      }

  abbrev pub run_begun : Setup → String → Option Db → Option Ran
  run_begun setup run_id none = none
  run_begun (ready app) run_id (some db) = some (run_started app run_id db)
  run_begun (config_error message) run_id (some db) = some (record {
    db = record_setup_error env.setup_result_id run_id app_name environment message now db;
    run_id = run_id;
    alerts = [];
    webhook = false;
  })

  abbrev pub setup_name : Setup → String
  setup_name (ready app) = app.name
  setup_name (config_error message) = app_name

  unfoldable pub run_app : String → Option String → Setup → Db → Option Ran
  unfolding run_started record_setup_error insert_run
  run_app triggered_by run_id setup db =
      let (id, begun) =
        begin_run run_id (new_run env.new_run_id (setup_name setup) environment triggered_by) db in
      run_begun setup id begun

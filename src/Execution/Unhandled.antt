-- ===== src/Execution/Unhandled.antt =====
-- Tests whose executor raises, in harness/runner.py and in worker/worker.py.
use testharness.Prelude.{ℕ, String, ◌≡◌, refl, true, false, none, some, List, [], ◌∷◌}
use testharness.Db.{Db, TestResult, failing}
use testharness.Db.AppStates.Upserts.{state_at, state_at-upsert}
use testharness.Dispatch.Ingest.{
  AlertType, is_fail, is_failing, determine_alert, insert_test_result, record_each,
}
use testharness.Execution.{TestDef, finished, raised, SloTexts, is_tls}
use testharness.Execution.RunApp.{
  Captures, Certs, name_or_unknown, error_result, failing_state, notice_of, record_attempt,
  alerts_for, record_attempts,
}
use testharness.Worker.Jobs.{WorkerTest, test_result_to_dict, worker_exception}

module _ (certs : Certs) (run_id app environment : String) (now : ℕ) where
  -- The tables after a test raised.
  abbrev pub after_raise : TestDef → String → String → Db → Db
  after_raise td message row_id db =
      record_attempt certs run_id app environment now td (raised message row_id) db

  raised-failing :
      (td : TestDef) (message row_id : String) (db : Db)
      → state_at (after_raise td message row_id db) app environment (name_or_unknown td.name)
        ≡ failing
  unfolding record_attempt
  raised-failing td message row_id db =
      state_at-upsert
        (insert_test_result (error_result certs run_id app environment now td message row_id) db)
        (failing_state certs run_id app environment now td)

  determine_alert-failing :
      (status : String) → is_fail status ≡ true → determine_alert failing status ≡ none
  unfolding determine_alert
  determine_alert-failing status h = rw h

  -- A test that raises gives no alert, and a failure in the next run gives none either, since the state of the
  -- test is then failing. (A test of a certificate is not covered.)
  pub raised_silent :
      (td : TestDef) (message row_id : String) (result : TestResult) (captures : Captures) (db : Db)
      → is_tls td.test_type ≡ false
      → result.test_name ≡ name_or_unknown td.name
      → is_fail result.status ≡ true
      → ((record_attempts certs run_id app environment now ((td, raised message row_id) ∷ []) db).0
          ≡ [])
        × ((record_attempts certs run_id app environment now
              ((td, finished result captures) ∷ [])
              (after_raise td message row_id db)).0
            ≡ [])
  unfolding record_attempts alerts_for notice_of
  raised_silent td message row_id result captures db plain name fails = (
    refl,
    rw (
      plain,
      name,
      raised-failing td message row_id db,
      determine_alert-failing result.status fails,
    ),
  )

-- The same exception in a worker gives an alert, unless the state of the test is failing.
pub worker_exception-alert :
    (run_id app environment : String) (paths : List (String × String)) (now : ℕ) (texts : SloTexts)
    (td : WorkerTest) (message row_id : String) (db : Db)
    → is_failing (state_at db app environment (name_or_unknown td.name)) ≡ false
    → (record_each run_id app environment paths now
        (test_result_to_dict row_id
            (worker_exception run_id app environment now texts td message row_id)
          ∷ [])
        db).0
      ≡ record {
        alert_type = AlertType.fail;
        app = app;
        environment = environment;
        test_name = name_or_unknown td.name;
        error_msg = some message;
      }
        ∷ []
unfolding record_each determine_alert test_result_to_dict
worker_exception-alert run_id app environment paths now texts td message row_id db h = rw h

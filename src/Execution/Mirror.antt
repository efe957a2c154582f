-- ===== src/Execution/Mirror.antt =====
-- `run_app` and `ingest_runner_results` judge the same results alike.
use testharness.Prelude.{
  ℕ, String, ◌≡◌, refl, sym, ap, ◌∙◌, inl, inr, false, Option, none, some, List, [], ◌∷◌, ◌++◌, map,
  ◌==◌, Bool-cases, All, if◌then◌else◌, starts_with, count_where, update_where,
}
use testharness.Db.{Db, TestResult, AppState}
use testharness.Db.AppStates.{get_app_state, upsert_app_state, is_state_of}
use testharness.Db.AppStates.Upserts.{state_at}
use testharness.Dispatch.Ingest.{
  Report, AlertType, Alert, determine_alert, insert_test_result, set_test_result_screenshot_path,
  record_path, result_of, record_result, record_each, push_alert,
}
use testharness.Execution.{TestDef, Attempt, finished, is_tls}
use testharness.Execution.RunApp.{
  Captures, Certs, notice_of, result_state, record_attempt, alerts_for, record_attempts, to_send,
}
use testharness.Worker.Jobs.{test_result_to_dict}

-- A test that ended with a result.
abbrev pub Entry : Type 0
Entry = TestDef × TestResult × Captures

abbrev pub as_attempt : Entry → TestDef × Attempt
as_attempt (td, result, captures) = (td, finished result captures)

-- What a worker reports of it, with the id that the row gets.
abbrev pub as_report : Entry → Report
as_report (td, result, captures) = test_result_to_dict result.id result

abbrev pub IsPlain : Entry → Type 0
IsPlain (td, result, captures) = is_tls td.test_type ≡ false

-- The tables agree on the states of the tests.
abbrev pub SameStates : Db → Db → Type 0
SameStates a b = a.app_state ≡ b.app_state

state_at-SameStates :
    (a b : Db) (app environment test_name : String)
    → SameStates a b
    → state_at a app environment test_name ≡ state_at b app environment test_name
unfolding state_at get_app_state
state_at-SameStates a b app environment test_name h = rw h

-- The rows of `app_state` after a state is written.
upserted : AppState → List AppState → List AppState
upserted s rows =
    let same = is_state_of s.app s.environment s.test_name in
    if count_where same rows == 0
    then rows ++ s ∷ []
    else update_where same (λ r. record r { state = s.state; since = s.since }) rows

upsert-upserted :
    (db : Db) (s : AppState) → (upsert_app_state db s).app_state ≡ upserted s db.app_state
unfolding upsert_app_state upserted
upsert-upserted db s =
    elim (Bool-cases
      (count_where (is_state_of s.app s.environment s.test_name) db.app_state == 0)) [
        | inl e ↦ rw e
        | inr e ↦ rw e
      ]

upsert-SameStates :
    (a b : Db) (s : AppState)
    → SameStates a b
    → SameStates (upsert_app_state a s) (upsert_app_state b s)
upsert-SameStates a b s h = upsert-upserted a s ∙ ap (upserted s) h ∙ sym (upsert-upserted b s)

path-SameStates :
    (result_id : String) (path : Option String) (db : Db)
    → SameStates (record_path result_id path db) db
unfolding set_test_result_screenshot_path
path-SameStates result_id none db = refl
path-SameStates result_id (some path) db = elim (Bool-cases (starts_with path "/screenshots/")) [
  | inl e ↦ rw e
  | inr e ↦ rw e
]

module _ (certs : Certs) (run_id app environment : String) (paths : List (String × String))
    (now : ℕ) where
  record-SameStates :
      (e : Entry) (a b : Db)
      → SameStates a b
      → SameStates
          (record_attempt certs run_id app environment now e.0 (finished e.1 e.2) a)
          (record_result run_id app environment paths now (as_report e) b)
  unfolding record_attempt record_result test_result_to_dict insert_test_result
  record-SameStates (td, result, captures) a b h =
      let report = as_report (td, result, captures) in
      let tr = result_of run_id app environment paths now report in
      upsert-SameStates _ _ (result_state certs run_id app environment now result)
        (h ∙ sym (path-SameStates tr.id tr.screenshot (insert_test_result tr b)))

  alerts-SameStates :
      (e : Entry) (a b : Db) (alerts : List Alert)
      → IsPlain e
      → SameStates a b
      → alerts_for certs run_id app environment now e.0 (finished e.1 e.2) a alerts
        ≡ push_alert
            (determine_alert (state_at b app environment e.1.test_name) e.1.status)
            app
            environment
            (as_report e)
            alerts
  unfolding alerts_for notice_of test_result_to_dict
  alerts-SameStates (td, result, captures) a b alerts p h =
      rw (p, state_at-SameStates a b app environment result.test_name h)
        (pushed (determine_alert (state_at b app environment result.test_name) result.status))
    where
      pushed :
          (alert_type : Option AlertType)
          → to_send app environment result.test_name (alert_type, result.error_msg) alerts
            ≡ push_alert alert_type app environment (as_report (td, result, captures)) alerts
      pushed none = refl
      pushed (some t) = refl

  alike :
      (entries : List Entry) (a b : Db)
      → All IsPlain entries
      → SameStates a b
      → ((record_attempts certs run_id app environment now (map as_attempt entries) a).0
          ≡ (record_each run_id app environment paths now (map as_report entries) b).0)
        × SameStates
            (record_attempts certs run_id app environment now (map as_attempt entries) a).1
            (record_each run_id app environment paths now (map as_report entries) b).1
  unfolding record_attempts record_each test_result_to_dict
  alike [] a b p h = (refl, h)
  alike (e ∷ entries) a b p h =
      let (alerts, states) =
        alike entries (record_attempt certs run_id app environment now e.0 (finished e.1 e.2) a)
          (record_result run_id app environment paths now (as_report e) b) p.1
          (record-SameStates e a b h) in
      (
        alerts-SameStates e a b _ p.0 h
            ∙ ap
                (push_alert (determine_alert (state_at b app environment e.1.test_name) e.1.status)
                  app environment (as_report e))
                alerts,
        states,
      )

  -- For tests that ended with a result and are not of certificates, the loop of `run_app` and that of
  -- `ingest_runner_results`, on the same tables and the results that a worker sends, find the same alerts
  -- in the same order and leave the same rows in `app_state`.
  pub record_attempts-record_each :
      (entries : List Entry) (db : Db)
      → All IsPlain entries
      → ((record_attempts certs run_id app environment now (map as_attempt entries) db).0
          ≡ (record_each run_id app environment paths now (map as_report entries) db).0)
        × SameStates
            (record_attempts certs run_id app environment now (map as_attempt entries) db).1
            (record_each run_id app environment paths now (map as_report entries) db).1
  record_attempts-record_each entries db p = alike entries db db p refl

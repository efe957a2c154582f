-- ===== src/Db/AppStates.antt =====
-- harness/db/_app_state.py: the state of each test, the retention and the times of stale alerts.
pub mod Upserts
pub mod Retention
use testharness.Prelude.{
  ℕ, String, ◌=s=◌, Bool, true, false, ◌&&◌, Option, none, some, List, [], ◌∷◌, ◌++◌, ltb, ◌==◌,
  if◌then◌else◌, max, map, select_where, select_one, update_where, count_where, delete_where,
}
use testharness.Db.{Db, Run, RunStatus, TestResult, TestState, AppState, StaleAlert}

-- WHERE app=? AND environment=? AND test_name=?
abbrev pub is_state_of : String → String → String → AppState → Bool
is_state_of app environment test_name s =
    s.app =s= app && (s.environment =s= environment && s.test_name =s= test_name)

unfoldable pub get_app_state : Db → String → String → String → Option AppState
unfolding select_one
get_app_state db app environment test_name =
    select_one (is_state_of app environment test_name) db.app_state

-- ON CONFLICT(app,environment,test_name) DO UPDATE SET state, since
unfoldable pub upsert_app_state : Db → AppState → Db
unfolding update_where count_where
upsert_app_state db s =
    let same = is_state_of s.app s.environment s.test_name in
    if count_where same db.app_state == 0
    then record db { app_state = db.app_state ++ s ∷ [] }
    else record db {
      app_state =
          update_where same (λ r. record r { state = s.state; since = s.since }) db.app_state;
    }

-- finished_at IS NOT NULL AND finished_at < ?
abbrev pub finished_before : ℕ → Option ℕ → Bool
finished_before cutoff none = false
finished_before cutoff (some t) = ltb t cutoff

abbrev has_text : Option String → Bool
has_text none = false
has_text (some s) = if s =s= "" then false else true

abbrev texts : List (Option String) → List String
texts [] = []
texts (none ∷ rows) = texts rows
texts (some s ∷ rows) = s ∷ texts rows

unfoldable pub list_screenshots_older_than : Db → ℕ → List String
unfolding select_where
list_screenshots_older_than db cutoff = texts (
    map (λ (r : TestResult). r.screenshot)
      (select_where (λ r. finished_before cutoff r.finished_at && has_text r.screenshot)
        db.test_results))

-- The numbers of deleted runs and results.
unfoldable pub prune_runs_older_than : Db → ℕ → (ℕ × ℕ) × Db
unfolding count_where delete_where
prune_runs_older_than db cutoff =
    let old_run = λ (r : Run). finished_before cutoff r.finished_at in
    let old_result = λ (r : TestResult). finished_before cutoff r.finished_at in
    (
      (count_where old_run db.runs, count_where old_result db.test_results),
      record db {
        test_results = delete_where old_result db.test_results;
        runs = delete_where old_run db.runs;
      },
    )

abbrev pub is_alert_of : String → String → StaleAlert → Bool
is_alert_of app environment a = a.app =s= app && a.environment =s= environment

abbrev pub alerted_at : Option StaleAlert → Option ℕ
alerted_at none = none
alerted_at (some a) = some a.last_alerted_at

unfoldable pub get_last_stale_alert_at : Db → String → String → Option ℕ
unfolding select_one
get_last_stale_alert_at db app environment =
    alerted_at (select_one (is_alert_of app environment) db.stale_alerts)

unfoldable pub mark_stale_alerted : Db → String → String → ℕ → Db
unfolding update_where count_where
mark_stale_alerted db app environment timestamp =
    if count_where (is_alert_of app environment) db.stale_alerts == 0
    then record db {
      stale_alerts =
          db.stale_alerts
          ++ record { app = app; environment = environment; last_alerted_at = timestamp } ∷ [];
    }
    else record db {
      stale_alerts =
          update_where (is_alert_of app environment) (λ a. record a { last_alerted_at = timestamp })
            db.stale_alerts;
    }

unfoldable pub clear_stale_alert : Db → String → String → Db
unfolding delete_where
clear_stale_alert db app environment = record db {
  stale_alerts = delete_where (is_alert_of app environment) db.stale_alerts;
}

abbrev is_complete : RunStatus → Bool
is_complete RunStatus.complete = true
is_complete _ = false

-- SELECT MAX(finished_at), which passes over NULL
abbrev later : Option ℕ → Option ℕ → Option ℕ
later none best = best
later (some t) none = some t
later (some t) (some u) = some (max t u)

unfoldable pub max_finished_at : List Run → Option ℕ
max_finished_at [] = none
max_finished_at (r ∷ runs) = later r.finished_at (max_finished_at runs)

unfoldable pub get_app_last_finished_at : Db → String → String → Option ℕ
unfolding select_where max_finished_at
get_app_last_finished_at db app environment = max_finished_at (
    select_where (λ r. r.app =s= app && (r.environment =s= environment && is_complete r.status))
      db.runs)

abbrev is_running : RunStatus → Bool
is_running RunStatus.running = true
is_running _ = false

unfoldable pub is_run_active : Db → String → String → Bool
unfolding count_where
is_run_active db app environment =
    if count_where
        (λ (r : Run). r.app =s= app && (r.environment =s= environment && is_running r.status))
        db.runs
      == 0
    then false
    else true

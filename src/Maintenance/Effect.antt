-- ===== src/Maintenance/Effect.antt =====
-- What maintenance windows do to the alerts: harness/maintenance.py with harness/worker_dispatch.py.
use testharness.Prelude.{
  select_where-In, order_desc-In, ℕ, ◌+◌, String, ◌≡◌, refl, sym, ap, ◌∙◌, inl, inr, Bool, true,
  false, Option, none, some, List, [], ◌∷◌, ◌++◌, ◌==◌, length, In, Bool-cases, starts_with,
  count_where, arith,
}
use testharness.Db.{Db, Job, Run, RunStatus, Window, AppState}
use testharness.Db.Runs.{get_run, update_run_status}
use testharness.Db.RunnerJobs.{get_runner_job, complete_runner_job}
use testharness.Db.AppStates.{is_state_of, upsert_app_state, clear_stale_alert}
use testharness.Db.Windows.{
  NewWindow, is_listed, list_maintenance_windows, window_row, create_maintenance_window,
  is_valid_window,
}
use testharness.Dispatch.Ingest.{
  Report, record_path, set_test_result_screenshot_path, insert_test_result, record_result,
  record_each, result_of, state_after, Ingested, ok, ingest_run, ingest_runner_results,
}
use testharness.Dispatch.Ingest.Recorded.{record_each-Kept}
use testharness.Maintenance.{Calendar, suppresses, or_unnamed, first_suppressing, is_in_maintenance}

first_suppressing-In :
    (calendar : Calendar) (now : ℕ) (app environment : Option String) (w : Window)
    (windows : List Window)
    → In w windows
    → suppresses calendar now app environment w ≡ true
    → (name : String) × (first_suppressing calendar now app environment windows ≡ some name)
unfolding first_suppressing
first_suppressing-In calendar now app environment w [] m h = absurd m
first_suppressing-In calendar now app environment w (x ∷ windows) (inl e) h =
    (or_unnamed calendar x.name, rw (sym (ap (suppresses calendar now app environment) e) ∙ h))
first_suppressing-In calendar now app environment w (x ∷ windows) (inr m) h =
    let (name, e) = first_suppressing-In calendar now app environment w windows m h in
    elim (Bool-cases (suppresses calendar now app environment x)) [
      | inl f ↦ (or_unnamed calendar x.name, rw f)
      | inr f ↦ (name, rw f e)
    ]

In-behind : (w : Window) (rows : List Window) → In w (rows ++ w ∷ [])
In-behind w [] = inl refl
In-behind w (r ∷ rows) = inr (In-behind w rows)

In-after : (w : Window) (xs ys : List Window) → In w ys → In w (xs ++ ys)
In-after w [] ys m = m
In-after w (x ∷ xs) ys m = inr (In-after w xs ys m)

abbrev windows_of : Option Db → List Window
windows_of none = []
windows_of (some db) = db.maintenance_windows

-- A window that was created takes effect: if the query lists its row and it suppresses alerts at a time, for an
-- app and an environment, then these are in maintenance.
pub create-in_maintenance :
    (calendar : Calendar) (strip lower : String → String) (configured : List Window) (db db' : Db)
    (id : String) (created : ℕ) (w : NewWindow) (now : ℕ) (app environment : Option String)
    → create_maintenance_window strip lower db id created w ≡ some db'
    → is_listed true app environment (window_row strip lower id created w) ≡ true
    → suppresses calendar now app environment (window_row strip lower id created w) ≡ true
    → (name : String) × (is_in_maintenance calendar configured db' now app environment ≡ some name)
unfolding create_maintenance_window is_in_maintenance list_maintenance_windows
create-in_maintenance calendar strip lower configured db db' id created w now app environment made
      listed active =
    elim (Bool-cases (is_valid_window strip lower w)) [
      | inr e ↦ cc (rw e at made)
      | inl e ↦
          let row = window_row strip lower id created w in
          let rows : db'.maintenance_windows ≡ db.maintenance_windows ++ row ∷ [] =
            sym (ap windows_of (rw e at made)) in
          rw rows (
            first_suppressing-In calendar now app environment row _
              (In-after row configured _ (
                order_desc-In (λ (r : Window). r.created_at) row _
                  (select_where-In row (is_listed true app environment) _
                    (In-behind row db.maintenance_windows) listed)))
              active)
    ]

-- The windows stay as they are.
abbrev SameWindows : Db → Db → Type 0
SameWindows a b = a.maintenance_windows ≡ b.maintenance_windows

path-SameWindows :
    (result_id : String) (path : Option String) (db : Db)
    → SameWindows (record_path result_id path db) db
unfolding set_test_result_screenshot_path
path-SameWindows result_id none db = refl
path-SameWindows result_id (some path) db = elim (Bool-cases (starts_with path "/screenshots/")) [
  | inl e ↦ rw e
  | inr e ↦ rw e
]

upsert-SameWindows : (db : Db) (s : AppState) → SameWindows (upsert_app_state db s) db
unfolding upsert_app_state
upsert-SameWindows db s =
    elim (Bool-cases
      (count_where (is_state_of s.app s.environment s.test_name) db.app_state == 0)) [
        | inl e ↦ rw e
        | inr e ↦ rw e
      ]

module _ (run_id app environment : String) (paths : List (String × String)) (now : ℕ) where
  record_each-SameWindows :
      (reports : List Report) (db : Db)
      → SameWindows (record_each run_id app environment paths now reports db).1 db
  unfolding record_each
  record_each-SameWindows [] db = refl
  record_each-SameWindows (r ∷ reports) db =
      let tr = result_of run_id app environment paths now r in
      let inserted = insert_test_result tr db in
      let one : SameWindows (record_result run_id app environment paths now r db) db =
        unfold record_result insert_test_result in
        upsert-SameWindows (record_path tr.id tr.screenshot inserted)
          (state_after run_id app environment paths now r)
        ∙ path-SameWindows tr.id tr.screenshot inserted in
      record_each-SameWindows reports (record_result run_id app environment paths now r db) ∙ one

is_in_maintenance-SameWindows :
    (calendar : Calendar) (configured : List Window) (a b : Db) (now : ℕ)
    (app environment : Option String)
    → SameWindows a b
    → is_in_maintenance calendar configured a now app environment
      ≡ is_in_maintenance calendar configured b now app environment
unfolding is_in_maintenance list_maintenance_windows
is_in_maintenance-SameWindows calendar configured a b now app environment h = rw h

-- In maintenance, a worker's results are recorded as ever, one row for each, and nothing is sent.
pub maintenance_silences :
    (calendar : Calendar) (configured : List Window) (clock : ℕ) (has_webhook : Bool) (db : Db)
    (job_id : String) (reports : List Report) (error : Option String)
    (paths : List (String × String)) (now : ℕ) (job : Job) (run : Run) (name : String)
    → get_runner_job db job_id ≡ some job
    → get_run db job.run_id ≡ some run
    → is_in_maintenance calendar configured db clock (some run.app) (some job.environment)
      ≡ some name
    → (i : Ingested) × (ingest_runner_results
          (λ d app environment.
            is_in_maintenance calendar configured d clock (some app) (some environment))
          has_webhook
          db
          job_id
          reports
          error
          paths
          now
        ≡ ok i)
      × (length i.db.test_results ≡ length db.test_results + length reports)
      × (i.alerts ≡ [])
      × (i.webhook ≡ false)
unfolding ingest_runner_results ingest_run complete_runner_job clear_stale_alert update_run_status
maintenance_silences calendar configured clock has_webhook db job_id reports error paths now job run
      name gj gr quiet =
    (
      ingested,
      rw (gj, gr),
      (record_each-Kept run.id run.app job.environment paths now reports started).2,
      rw silent,
      rw silent (ground arith),
    )
  where
    in_maintenance : Db → String → String → Option String
    in_maintenance d app environment =
        is_in_maintenance calendar configured d clock (some app) (some environment)

    ingested : Ingested
    ingested = ingest_run in_maintenance has_webhook db job_id job run reports error paths now

    started : Db
    started = update_run_status db run.id RunStatus.running (some now) none

    windows : ingested.db.maintenance_windows ≡ db.maintenance_windows
    windows = record_each-SameWindows run.id run.app job.environment paths now reports started

    silent : in_maintenance ingested.db run.app job.environment ≡ some name
    silent =
        is_in_maintenance-SameWindows calendar configured ingested.db db clock (some run.app)
          (some job.environment) windows
        ∙ quiet

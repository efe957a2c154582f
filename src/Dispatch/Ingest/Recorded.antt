-- ===== src/Dispatch/Ingest/Recorded.antt =====
-- What a worker's results leave in the tables.
use testharness.Prelude.{
  ℕ, suc, ◌+◌, String, ◌=s=◌, eq_iff, ◌≡◌, refl, sym, ap, ◌∙◌, inl, inr, ◌⊎◌, Bool, true, false,
  Option, none, some, List, [], ◌∷◌, ◌++◌, arith, ◌==◌, Bool-cases, length, map_option, select_one,
  update_where, count_where, select_one-update_key, select_one-In, starts_with, is_none,
}
use testharness.Db.{Db, Run, RunStatus, Job}
use testharness.Db.Runs.{get_run, update_run_status, run_has_id}
use testharness.Db.RunnerJobs.{get_runner_job, complete_runner_job, complete}
use testharness.Db.RunnerJobs.Claims.{job_id_of}
use testharness.Db.AppStates.{is_state_of, upsert_app_state, clear_stale_alert}
use testharness.Dispatch.Ingest.{
  Report, insert_test_result, set_test_result_screenshot_path, record_path, result_of, state_after,
  record_result, record_each, Ingested, ok, final_status, ingest_run, ingest_runner_results,
}

abbrev pub run_id_of : Run → String
run_id_of r = r.id

-- The tables that the loop over the results leaves alone, and how far it gets.
abbrev pub Kept : ℕ → Db → Db → Type 0
Kept n a b =
    (b.runs ≡ a.runs)
    × (b.runner_jobs ≡ a.runner_jobs)
    × (length b.test_results ≡ length a.test_results + n)

length-update_where :
    {A : Type 0} (p : A → Bool) (f : A → A) (rows : List A)
    → length (update_where p f rows) ≡ length rows
unfolding update_where
length-update_where p f [] = refl
length-update_where p f (r ∷ rows) = ap suc (length-update_where p f rows)

length-snoc : {A : Type 0} (a : A) (rows : List A) → length (rows ++ a ∷ []) ≡ length rows + 1
length-snoc a [] = refl
length-snoc a (r ∷ rows) = ground (arith, length-snoc a rows)

module _ (run_id app environment : String) (paths : List (String × String)) (now : ℕ) where
  path-Kept :
      (result_id : String) (path : Option String) (db : Db)
      → Kept 0 db (record_path result_id path db)
  unfolding set_test_result_screenshot_path
  path-Kept result_id none db = (refl, refl, ground arith)
  path-Kept result_id (some path) db = elim (Bool-cases (starts_with path "/screenshots/")) [
    | inl e ↦ rw e (
      refl,
      refl,
      length-update_where (λ r. r.id =s= result_id) (λ r. record r { screenshot_path = some path })
            db.test_results
          ∙ ground arith,
    )
    | inr e ↦ rw e (refl, refl, ground arith)
  ]

  upsert-Kept :
      (db : Db) (r : Report)
      → Kept 0 db (upsert_app_state db (state_after run_id app environment paths now r))
  unfolding upsert_app_state
  upsert-Kept db r =
      elim (Bool-cases (count_where (is_state_of app environment r.test_name) db.app_state == 0)) [
        | inl e ↦ rw e (refl, refl, ground arith)
        | inr e ↦ rw e (refl, refl, ground arith)
      ]

  record_result-Kept :
      (r : Report) (db : Db) → Kept 1 db (record_result run_id app environment paths now r db)
  unfolding record_result insert_test_result
  record_result-Kept r db =
      let tr = result_of run_id app environment paths now r in
      let inserted = insert_test_result tr db in
      let (a, b, c) = path-Kept tr.id tr.screenshot inserted in
      let (x, y, z) = upsert-Kept (record_path tr.id tr.screenshot inserted) r in
      (x ∙ a, y ∙ b, ground (arith, z, c, length-snoc tr db.test_results))

  pub record_each-Kept :
      (reports : List Report) (db : Db)
      → Kept (length reports) db (record_each run_id app environment paths now reports db).1
  unfolding record_each
  record_each-Kept [] db = (refl, refl, ground arith)
  record_each-Kept (r ∷ reports) db =
      let (a, b, c) = record_result-Kept r db in
      let (x, y, z) =
        record_each-Kept reports (record_result run_id app environment paths now r db) in
      (x ∙ a, y ∙ b, ground (arith, z, c))

-- The row of the run afterwards.
abbrev pub finished_run : Option String → ℕ → Run → Run
finished_run error now run = record run {
  status = final_status error;
  started_at = some now;
  finished_at = some now;
}

-- If the job and its run exist, ingestion succeeds, whatever the results are: the job is completed
-- with the error, the run finished with the status that the error gives, and exactly one row is
-- added to `test_results` for each result. In a maintenance window it sends no alert and no webhook.
pub ingest_runner_results_lem :
    (in_maintenance : Db → String → String → Option String) (has_webhook : Bool) (db : Db)
    (job_id : String) (reports : List Report) (error : Option String)
    (paths : List (String × String)) (now : ℕ) (job : Job) (run : Run)
    → get_runner_job db job_id ≡ some job
    → get_run db job.run_id ≡ some run
    → (i : Ingested) × (ingest_runner_results in_maintenance has_webhook db job_id reports error
          paths now
        ≡ ok i)
      × (get_runner_job i.db job_id ≡ some (complete error now job))
      × (get_run i.db job.run_id ≡ some (finished_run error now run))
      × (length i.db.test_results ≡ length db.test_results + length reports)
      × ((is_none (in_maintenance i.db run.app job.environment) ≡ true)
          ⊎ ((i.alerts ≡ []) × (i.webhook ≡ false)))
unfolding ingest_runner_results ingest_run record_each update_run_status
ingest_runner_results_lem in_maintenance has_webhook db job_id reports error paths now job run gj
      gr =
    (
      ingested,
      rw (gj, gr),
      jobs,
      runs,
      kept.2,
      elim (Bool-cases quiet) [ inl e ↦ inl e | inr e ↦ inr (rw e, ground (arith, e)) ],
    )
  where
    ingested : Ingested
    ingested = ingest_run in_maintenance has_webhook db job_id job run reports error paths now

    quiet : Bool
    quiet = is_none (in_maintenance ingested.db run.app job.environment)

    started : Db
    started = update_run_status db run.id RunStatus.running (some now) none

    recorded : Db
    recorded = (record_each run.id run.app job.environment paths now reports started).1

    kept : Kept (length reports) started recorded
    kept = record_each-Kept run.id run.app job.environment paths now reports started

    same_id : run.id ≡ job.run_id
    same_id =
        (eq_iff run.id job.run_id).0
          ((select_one-In run_id_of job.run_id run db.runs (unfold get_run in gr)).1)

    jobs : get_runner_job ingested.db job_id ≡ some (complete error now job)
    jobs =
        unfold get_runner_job ingest_run complete_runner_job clear_stale_alert update_run_status in
        rw (kept.1) (
          select_one-update_key job_id_of job_id (complete error now) db.runner_jobs (λ r. refl)
          ∙ ap (map_option (complete error now)) gj)

    start : Run → Run
    start r = record r { status = RunStatus.running; started_at = some now }

    finish : Run → Run
    finish r = record r { status = final_status error; finished_at = some now }

    at_run : select_one (run_has_id run.id) db.runs ≡ some run
    at_run =
        let g : select_one (run_has_id job.run_id) db.runs ≡ some run = unfold get_run in gr in
        ap (λ k. select_one (run_has_id k) db.runs) same_id ∙ g

    found : get_run ingested.db run.id ≡ some (finished_run error now run)
    found =
        unfold get_run ingest_run complete_runner_job clear_stale_alert update_run_status in
        rw kept.0 (
          select_one-update_key run_id_of run.id finish _ (λ r. refl)
          ∙ ap (map_option finish) (
              select_one-update_key run_id_of run.id start db.runs (λ r. refl)
              ∙ ap (map_option start) at_run))

    runs : get_run ingested.db job.run_id ≡ some (finished_run error now run)
    runs = ap (get_run ingested.db) (sym same_id) ∙ found

-- ===== src/Dispatch/Remote/Routing.antt =====
-- To whom a run that is queued by harness/worker_dispatch.py goes.
use testharness.Prelude.{
  ℕ, String, ◌=s=◌, ◌≡◌, refl, ap, ◌∙◌, Bool, true, false, ◌&&◌, ◌||◌, Option, none, some, List, [],
  ◌∷◌, ◌++◌, arith, column_is, is_none, Bool-cases, inl, inr, if◌then◌else◌,
}
use package.text.Mathlib.TextPositions.{eq_refl}
use testharness.Db.{Db, Run, RunStatus, Job, JobState}
use testharness.Db.Runs.{get_run, insert_run, update_run_status}
use testharness.Db.RunnerJobs.{
  get_runner_job, insert_job, has_id, is_claimable, column_in, queue_runner_job,
}
use testharness.Db.AppStates.Upserts.{select_one-at_end}
use testharness.Dispatch.Remote.{
  RunOn, text, mapping, other, by_name, ResolvedApp, parse_run_on, queue_remote_run, queue_job,
  queued_run, new_run,
}

-- A worker's name, which is none where it is empty, admits that worker; no name admits every worker.
abbrev admits : String → String → Bool
admits name worker = name =s= "" || name =s= worker

abbrev admits_name : Option String → String → Bool
admits_name none worker = true
admits_name (some name) worker = admits name worker

-- Whom `run_on` names: a text is the name of a worker; of a mapping the tag counts, if it is not empty, and
-- otherwise the name; anything else admits every worker.
abbrev pub may_take : RunOn → String → List String → Bool
may_take (text name) worker tags = admits name worker
may_take (mapping none name) worker tags = admits_name name worker
may_take (mapping (some tag) name) worker tags =
    if tag =s= "" then admits_name name worker else column_in (some tag) tags
may_take other worker tags = true

abbrev routed : Option String × Option String → String → List String → Bool
routed route worker tags =
    column_is route.0 worker
    || (is_none route.0 && is_none route.1)
    || (is_none route.0 && column_in route.1 tags)

routed-by_name :
    (name : Option String) (worker : String) (tags : List String)
    → routed (by_name name) worker tags ≡ admits_name name worker
routed-by_name none worker tags = refl
routed-by_name (some name) worker tags = ground arith

routed-parse_run_on :
    (spec : RunOn) (worker : String) (tags : List String)
    → routed (parse_run_on spec) worker tags ≡ may_take spec worker tags
unfolding parse_run_on
routed-parse_run_on (text name) worker tags = routed-by_name (some name) worker tags
routed-parse_run_on (mapping none name) worker tags = routed-by_name name worker tags
routed-parse_run_on (mapping (some tag) name) worker tags = elim (Bool-cases (tag =s= "")) [
  | inl e ↦ rw e (routed-by_name name worker tags)
  | inr e ↦ rw e refl
]
routed-parse_run_on other worker tags = refl

insert_run-new :
    (db : Db) (run : Run)
    → get_run db run.id ≡ none
    → insert_run db run ≡ some (record db { runs = db.runs ++ run ∷ [] })
unfolding insert_run
insert_run-new db run h = rw (insert_run, h)

-- Queueing an app that resolves, with new ids, succeeds. The job is then claimable by a worker exactly
-- if `run_on` names one of its tags, or, without a tag, the worker, or neither a tag nor a worker.
pub queue_remote_run-claimable :
    (db : Db) (resolved : ResolvedApp) (environment triggered_by run_id job_id : String) (now : ℕ)
    (worker : String) (tags : List String)
    → get_run db run_id ≡ none
    → get_runner_job db job_id ≡ none
    → (db' : Db) × (j : Job) × (queue_remote_run db
          (some resolved)
          environment
          triggered_by
          false
          run_id
          job_id
          now
        ≡ some db')
      × (get_runner_job db' job_id ≡ some j)
      × (j.run_id ≡ run_id)
      × (is_claimable worker tags j ≡ may_take resolved.run_on worker tags)
unfolding queue_remote_run is_claimable insert_run queue_runner_job update_run_status get_runner_job
queue_remote_run-claimable db resolved environment triggered_by run_id job_id now worker tags gr
      gj =
    (
      after,
      job,
      queued,
      select_one-at_end (has_id job_id) db.runner_jobs job ∙ rw (gj, eq_refl job_id),
      refl,
      routed-parse_run_on resolved.run_on worker tags,
    )
  where
    started : Db
    started =
        update_run_status
          (record db { runs = db.runs ++ new_run run_id resolved environment triggered_by ∷ [] })
          run_id RunStatus.queued none none

    job : Job
    job = record {
      id = job_id;
      run_id = run_id;
      runner_name = (parse_run_on resolved.run_on).0;
      target_tag = (parse_run_on resolved.run_on).1;
      app_def_json = resolved.app_def_json;
      environment = environment;
      state = JobState.queued;
      queued_at = now;
      assigned_to = none;
      assigned_at = none;
      completed_at = none;
      error = none;
      retry_count = 0;
    }

    after : Db
    after = record started { runner_jobs = db.runner_jobs ++ job ∷ [] }

    with_row :
        insert_run db (new_run run_id resolved environment triggered_by)
        ≡ some
            (record db { runs = db.runs ++ new_run run_id resolved environment triggered_by ∷ [] })
    with_row = insert_run-new db (new_run run_id resolved environment triggered_by) gr

    queued :
        queue_remote_run db (some resolved) environment triggered_by false run_id job_id now
        ≡ some after
    queued =
        ap (λ o. queue_job (queued_run run_id o) job_id run_id resolved environment now) with_row
        ∙ ap (λ o. insert_job o started job) gj

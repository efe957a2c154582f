-- ===== src/Dispatch/Reaper/Sweep.antt =====
-- The scan of harness/worker_dispatch.py as one pass over the table of jobs.
use testharness.Prelude.{
  ℕ, String, ◌=s=◌, eq_iff, eq_symm, ◌≡◌, refl, sym, ap, subst, ◌∙◌, inl, inr, true, false, some,
  List, [], ◌∷◌, map, arith, if◌then◌else◌, Bool-cases, All, All-of, All-at, In, map-In,
  select_one-In, map-eq_on, map-map, map_id, update_where-map, select_one, Distinct,
  Distinct-update_where, In-select_one,
}
use testharness.Db.{Db, Job, JobState, state_is}
use testharness.Db.RunnerJobs.{has_id, job_ids, column_in}
use testharness.Db.RunnerJobs.Stuck.{requeue, fail, is_assigned_row}
use testharness.Db.RunnerJobs.Claims.{HasDistinctJobs, job_id_of}
use testharness.Dispatch.Reaper.{is_exhausted, reap_job, reap_each}

module _ (exceeded : Job → ℕ → String) (max_retries now : ℕ) where
  -- What the scan means for one stuck job.
  abbrev pub outcome : Job → Job
  outcome j = if is_exhausted max_retries j then fail (exceeded j max_retries) now j else requeue j

  abbrev pub reaped : List String → Job → Job
  reaped ids j = if column_in (some j.id) ids then outcome j else j

  pub id-outcome : (j : Job) → (outcome j).id ≡ j.id
  id-outcome j = ground arith

  -- The row of a stuck job, while it is that job.
  abbrev pub IsHeld : List Job → Job → Type 0
  IsHeld rows c =
      (select_one (has_id c.id) rows ≡ some c) × (state_is c.state JobState.assigned ≡ true)

  held_row :
      (c j : Job) (rows : List Job)
      → Distinct job_id_of rows
      → IsHeld rows c
      → In j rows
      → (j.id =s= c.id) ≡ true
      → j ≡ c
  held_row c j rows d h m e =
      ground (arith, h.0, eq_iff j.id c.id, In-select_one job_id_of j rows d m)

  reap_job-rows :
      (c : Job) (db : Db)
      → HasDistinctJobs db
      → IsHeld db.runner_jobs c
      → (reap_job exceeded max_retries now c db).runner_jobs
        ≡ map (λ j. if j.id =s= c.id then outcome j else j) db.runner_jobs
  unfolding reap_job
  reap_job-rows c db d h = elim (Bool-cases (is_exhausted max_retries c)) [
    | inl e ↦ rw e (
        update_where-map (has_id c.id) _ db.runner_jobs
        ∙ map-eq_on _ _ db.runner_jobs
            (λ j m. ground (arith, e, held_row c j db.runner_jobs d h m)))
    | inr e ↦ rw e (
        update_where-map (is_assigned_row c.id) _ db.runner_jobs
        ∙ map-eq_on _ _ db.runner_jobs
            (λ j m. ground (arith, e, held_row c j db.runner_jobs d h m)))
  ]

  reap_job-HasDistinctJobs :
      (c : Job) (db : Db)
      → HasDistinctJobs db
      → HasDistinctJobs (reap_job exceeded max_retries now c db)
  unfolding reap_job
  reap_job-HasDistinctJobs c db d = elim (Bool-cases (is_exhausted max_retries c)) [
    | inl e ↦ rw e (Distinct-update_where job_id_of _ _ db.runner_jobs (λ r. refl) d)
    | inr e ↦ rw e (Distinct-update_where job_id_of _ _ db.runner_jobs (λ r. refl) d)
  ]

  -- The other stuck jobs keep their rows.
  reap_job-IsHeld :
      (c a : Job) (db : Db)
      → HasDistinctJobs db
      → IsHeld db.runner_jobs c
      → (a.id =s= c.id) ≡ false
      → IsHeld db.runner_jobs a
      → IsHeld (reap_job exceeded max_retries now c db).runner_jobs a
  reap_job-IsHeld c a db d h apart w = (
    In-select_one job_id_of a _ (reap_job-HasDistinctJobs c db d) (
        rw (reap_job-rows c db d h) (
          subst (λ x. In x (map step db.runner_jobs)) same
            (map-In step a db.runner_jobs (select_one-In job_id_of a.id a db.runner_jobs w.0).0))),
    w.1,
  )
    where
      step : Job → Job
      step j = if j.id =s= c.id then outcome j else j

      same : step a ≡ a
      same = rw apart

  reap_each-next :
      (c : Job) (cs : List Job) (db : Db)
      → (reap_each exceeded max_retries now (c ∷ cs) db).0
        ≡ (reap_each exceeded max_retries now cs (reap_job exceeded max_retries now c db)).0
  unfolding reap_each
  reap_each-next c cs db = elim (Bool-cases (is_exhausted max_retries c)) [
    | inl e ↦ rw e
    | inr e ↦ rw e
  ]

  reaped-cons :
      (c : Job) (cs : List Job) (j : Job)
      → Distinct job_id_of (c ∷ cs)
      → (j.id =s= c.id ≡ true → column_in (some j.id) (job_ids cs) ≡ false)
      → reaped (job_ids cs) (if j.id =s= c.id then outcome j else j) ≡ reaped (job_ids (c ∷ cs)) j
  reaped-cons c cs j f out = elim (Bool-cases (j.id =s= c.id)) [
    | inl e ↦ rw (e, id-outcome j, out e)
    | inr e ↦ rw e
  ]

  not-column_in :
      (k : String) (cs : List Job)
      → All (λ (r : Job). (r.id =s= k) ≡ false) cs
      → column_in (some k) (job_ids cs) ≡ false
  not-column_in k [] h = refl
  not-column_in k (c ∷ cs) h = rw (eq_symm k c.id, h.0, not-column_in k cs h.1)

  pub reap_each-rows :
      (cs : List Job) (db : Db)
      → HasDistinctJobs db
      → Distinct job_id_of cs
      → All (IsHeld db.runner_jobs) cs
      → (reap_each exceeded max_retries now cs db).0.runner_jobs
        ≡ map (reaped (job_ids cs)) db.runner_jobs
  reap_each-rows [] db d f h = unfold reap_each in sym (map_id db.runner_jobs)
  reap_each-rows (c ∷ cs) db d f h =
      ap (λ (b : Db). b.runner_jobs) (reap_each-next c cs db)
      ∙ reap_each-rows cs (reap_job exceeded max_retries now c db) (reap_job-HasDistinctJobs c db d)
          f.1
          (All-of _ cs (λ a m.
            reap_job-IsHeld c a db d h.0 (All-at (λ (r : Job). (r.id =s= c.id) ≡ false) a cs f.0 m)
              (All-at (IsHeld db.runner_jobs) a cs h.1 m)))
      ∙ ap (map (reaped (job_ids cs))) (reap_job-rows c db d h.0)
      ∙ map-map (reaped (job_ids cs)) _ db.runner_jobs
      ∙ map-eq_on _ _ db.runner_jobs (λ j m.
        reaped-cons c cs j f (λ e. rw ((eq_iff j.id c.id).0 e) (not-column_in c.id cs f.0)))

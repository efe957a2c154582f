-- ===== src/Dispatch/Reaper/Outcome.antt =====
-- What a scan of harness/worker_dispatch.py does to the queue, and what its summary says.
use testharness.Prelude.{
  ℕ, ◌+◌, String, ◌=s=◌, eq_iff, ◌≡◌, refl, sym, ap, ◌∙◌, inl, inr, Bool, true, false, ◌&&◌, not,
  some, List, [], ◌∷◌, map, arith, if◌then◌else◌, Bool-cases, and-true_left, All, All-of,
  All-of-map, In, map-eq_on, count_where, count_where-order_by, count_where-select_where,
  count_where-split, select_where-none, select_where, select_one, order_by, In-select_where,
  select_where-In, In-order_by, order_by-In, Distinct, Distinct-order_by, Distinct-select_where,
  In-select_one,
}
use testharness.Db.{Db, Job}
use testharness.Db.RunnerJobs.{has_id, job_ids, column_in}
use testharness.Db.RunnerJobs.Stuck.{is_stuck, assigned_key, find_stuck_runner_jobs}
use testharness.Db.RunnerJobs.Claims.{HasDistinctJobs, job_id_of, column_in-job_ids}
use testharness.Dispatch.Reaper.{is_exhausted, reap_job, reap_each, reap_stuck_jobs}
use testharness.Dispatch.Reaper.Sweep.{outcome, reap_each-rows, IsHeld}

module _ (exceeded : Job → ℕ → String) (db : Db) (timeout max_retries now : ℕ) where
  abbrev stuck : List Job
  stuck = find_stuck_runner_jobs db timeout now

  stuck-In : (c : Job) → In c stuck → In c db.runner_jobs × (is_stuck timeout now c ≡ true)
  unfolding find_stuck_runner_jobs
  stuck-In c m = In-select_where c _ db.runner_jobs (In-order_by _ c _ m)

  In-stuck : (c : Job) → In c db.runner_jobs → is_stuck timeout now c ≡ true → In c stuck
  unfolding find_stuck_runner_jobs
  In-stuck c m h = order_by-In _ c _ (select_where-In c _ db.runner_jobs m h)

  stuck-Distinct : HasDistinctJobs db → Distinct job_id_of stuck
  unfolding find_stuck_runner_jobs
  stuck-Distinct d =
      Distinct-order_by job_id_of _ _ (Distinct-select_where job_id_of _ db.runner_jobs d)

  stuck-IsHeld : HasDistinctJobs db → All (IsHeld exceeded max_retries now db.runner_jobs) stuck
  unfolding is_stuck
  stuck-IsHeld d = All-of _ stuck (λ c m.
      let (old, h) = stuck-In c m in
      (In-select_one job_id_of c db.runner_jobs d old, and-true_left _ _ h))

  -- Among the table's rows, the ids of the stuck jobs are those of the rows that are stuck.
  column_in-In :
      (k : String) (cs : List Job)
      → column_in (some k) (job_ids cs) ≡ true
      → (c : Job) × In c cs × (c.id ≡ k)
  column_in-In k [] h = cc
  column_in-In k (c ∷ cs) h = elim (Bool-cases (k =s= c.id)) [
    | inl e ↦ (c, inl refl, sym ((eq_iff k c.id).0 e))
    | inr e ↦ let (a, m, q) = column_in-In k cs (rw e at h) in (a, inr m, q)
  ]

  is_stuck-column_in :
      (j : Job)
      → HasDistinctJobs db
      → In j db.runner_jobs
      → column_in (some j.id) (job_ids stuck) ≡ is_stuck timeout now j
  is_stuck-column_in j d m = elim (Bool-cases (is_stuck timeout now j)) [
    | inl e ↦ rw e (column_in-job_ids "" now j stuck (In-stuck j m e) j.id refl)
    | inr e ↦ elim (Bool-cases (column_in (some j.id) (job_ids stuck))) [
      | inr out ↦ rw (e, out)
      | inl held ↦
          let (c, mc, q) = column_in-In j.id stuck held in
          let (old, h) = stuck-In c mc in
          let same : some c ≡ some j =
            sym (In-select_one job_id_of c db.runner_jobs d old)
            ∙ ap (λ k. select_one (has_id k) db.runner_jobs) q
            ∙ In-select_one job_id_of j db.runner_jobs d m in
          cc (h, same)
    ]
  ]

-- With distinct job ids a scan is one pass over the table: every job that has been assigned for
-- longer than the timeout is failed if its retries are used up and requeued if not, and no other
-- job is touched.
pub reap_stuck_jobs_lem :
    (exceeded : Job → ℕ → String) (db : Db) (timeout max_retries now : ℕ)
    → HasDistinctJobs db
    → (reap_stuck_jobs exceeded db timeout max_retries now).db.runner_jobs
      ≡ map
          (λ j. if is_stuck timeout now j then outcome exceeded max_retries now j else j)
          db.runner_jobs
unfolding reap_stuck_jobs
reap_stuck_jobs_lem exceeded db timeout max_retries now d =
    reap_each-rows exceeded max_retries now (stuck exceeded db timeout max_retries now) db d
      (stuck-Distinct exceeded db timeout max_retries now d)
      (stuck-IsHeld exceeded db timeout max_retries now d)
    ∙ map-eq_on _ _ db.runner_jobs (λ j m.
      ap (λ b. if b then outcome exceeded max_retries now j else j)
        (is_stuck-column_in exceeded db timeout max_retries now j d m))

abbrev pub is_stuck_within : (Job → Bool) → ℕ → ℕ → Job → Bool
is_stuck_within p timeout now j = is_stuck timeout now j && p j

module _ (exceeded : Job → ℕ → String) (max_retries now : ℕ) where
  reap_each-counts :
      (cs : List Job) (db : Db)
      → ((reap_each exceeded max_retries now cs db).1
          ≡ count_where (λ j. not (is_exhausted max_retries j)) cs)
        × ((reap_each exceeded max_retries now cs db).2 ≡ count_where (is_exhausted max_retries) cs)
  unfolding reap_each count_where
  reap_each-counts [] db = (refl, refl)
  reap_each-counts (c ∷ cs) db =
      ground (arith, reap_each-counts cs (reap_job exceeded max_retries now c db))

-- The summary counts the table's stuck jobs: `requeued` those with retries left, `failed` the
-- others, `scanned` both.
pub reap_summary :
    (exceeded : Job → ℕ → String) (db : Db) (timeout max_retries now : ℕ)
    → let summary = (reap_stuck_jobs exceeded db timeout max_retries now).summary in
      let counted =
        λ (p : Job → Bool). count_where (is_stuck_within p timeout now) db.runner_jobs in
      (summary.requeued ≡ counted (λ j. not (is_exhausted max_retries j)))
      × (summary.failed ≡ counted (is_exhausted max_retries))
      × (summary.scanned ≡ summary.requeued + summary.failed)
unfolding reap_stuck_jobs
reap_summary exceeded db timeout max_retries now = (
  requeued,
  failed,
  ground (arith, count_where-split (is_exhausted max_retries) cs, counts.0, counts.1),
)
  where
    cs : List Job
    cs = find_stuck_runner_jobs db timeout now

    counts :
        ((reap_each exceeded max_retries now cs db).1
          ≡ count_where (λ j. not (is_exhausted max_retries j)) cs)
        × ((reap_each exceeded max_retries now cs db).2 ≡ count_where (is_exhausted max_retries) cs)
    counts = reap_each-counts exceeded max_retries now cs db

    over_table :
        (p : Job → Bool)
        → count_where p cs ≡ count_where (is_stuck_within p timeout now) db.runner_jobs
    over_table p =
        count_where-order_by p assigned_key (select_where (is_stuck timeout now) db.runner_jobs)
        ∙ count_where-select_where p (is_stuck timeout now) db.runner_jobs

    requeued :
        (reap_each exceeded max_retries now cs db).1
        ≡ count_where
            (is_stuck_within (λ j. not (is_exhausted max_retries j)) timeout now)
            db.runner_jobs
    requeued = counts.0 ∙ over_table (λ j. not (is_exhausted max_retries j))

    failed :
        (reap_each exceeded max_retries now cs db).2
        ≡ count_where (is_stuck_within (is_exhausted max_retries) timeout now) db.runner_jobs
    failed = counts.1 ∙ over_table (is_exhausted max_retries)

outcome-not_stuck :
    (exceeded : Job → ℕ → String) (timeout max_retries now : ℕ) (later : ℕ) (j : Job)
    → is_stuck timeout later (outcome exceeded max_retries now j) ≡ false
unfolding is_stuck
outcome-not_stuck exceeded timeout max_retries now later j = ground arith

-- After a scan, with distinct job ids, a second scan at the same time finds nothing.
pub reap_leaves_none_stuck :
    (exceeded : Job → ℕ → String) (db : Db) (timeout max_retries now : ℕ)
    → HasDistinctJobs db
    → find_stuck_runner_jobs (reap_stuck_jobs exceeded db timeout max_retries now).db timeout now
      ≡ []
unfolding find_stuck_runner_jobs
reap_leaves_none_stuck exceeded db timeout max_retries now d =
    rw (reap_stuck_jobs_lem exceeded db timeout max_retries now d) (
      ap (order_by assigned_key) (
        select_where-none (is_stuck timeout now) _
          (All-of-map step _ db.runner_jobs (All-of _ db.runner_jobs (λ j _. rested j)))))
  where
    step : Job → Job
    step j = if is_stuck timeout now j then outcome exceeded max_retries now j else j

    rested : (j : Job) → is_stuck timeout now (step j) ≡ false
    rested j = elim (Bool-cases (is_stuck timeout now j)) [
      | inl e ↦ rw e (outcome-not_stuck exceeded timeout max_retries now now j)
      | inr e ↦ rw (e, e)
    ]

-- ===== src/Web/RunnerApi/Once.antt =====
-- The results of a job of web/routes/runner.py are taken once, along the whole history of the table.
use testharness.Prelude.{
  ℕ, String, ◌≡◌, refl, sym, ap, subst, ◌∙◌, inl, inr, Bool, true, false, Option, none, some, List,
  [], ◌∷◌, ◌++◌, arith, Bool-cases, if◌then◌else◌, and-true_left, and-true_right, select_one-In,
  select_one, update_where, update_where-map, count_where, ◌==◌, ◌=s=◌,
}
use testharness.Db.{Db, Job, JobState, state_is, state_is-eq}
use testharness.Db.RunnerJobs.{
  get_runner_job, insert_job, has_id, assign, complete, completion_state, complete_runner_job,
  queue_runner_job, claim_candidates, job_ids,
}
use testharness.Db.RunnerJobs.Claims.{is_picked, job_id_of, claim_runner_jobs_lem}
use testharness.Db.RunnerJobs.Stuck.{
  is_stuck, is_failed_row, reset, is_inflight, release, manually_requeue_failed_job,
}
use testharness.Db.Runners.{delete_runner}
use testharness.Dispatch.Reaper.Sweep.{outcome, id-outcome}
use testharness.Dispatch.Reaper.Outcome.{reap_stuck_jobs_lem}
use testharness.Dispatch.Lifecycle.{Step, Reach}
use testharness.Dispatch.Lifecycle.Invariant.{IsValid, Step-IsValid, Reach-IsValid}
use testharness.Web.RunnerApi.{http_error, authorize_results, authorize_job}

abbrev is_done : JobState → Bool
is_done JobState.complete = true
is_done JobState.error = true
is_done _ = false

-- The row of the job is there, and it is complete or has ended with an error.
abbrev HasDone : Db → String → Type 0
HasDone db job_id = (j : Job) × (get_runner_job db job_id ≡ some j) × (is_done j.state ≡ true)

completion_state-done : (error : Option String) → is_done (completion_state error) ≡ true
completion_state-done none = refl
completion_state-done (some e) = refl

-- A row that is done is in no other state.
not_in_state :
    {A : Type 0} (s : JobState) (j : Job)
    → is_done s ≡ false
    → state_is j.state s ≡ true
    → is_done j.state ≡ true
    → A
not_in_state s j other e done =
    let bad : false ≡ true = sym other ∙ ap is_done (sym (state_is-eq j.state s e)) ∙ done in cc bad

-- An UPDATE that keeps the ids acts on the row of an id as on any other.
updated_row :
    (job_id : String) (p : Job → Bool) (f : Job → Job) (rows : List Job) (j : Job)
    → ((r : Job) → (f r).id ≡ r.id)
    → select_one (has_id job_id) rows ≡ some j
    → select_one (has_id job_id) (update_where p f rows) ≡ some (if p j then f j else j)
unfolding select_one update_where
updated_row job_id p f [] j keep g = cc g
updated_row job_id p f (r ∷ rows) j keep g = elim (Bool-cases (r.id =s= job_id)) [
  | inl e ↦
      let same : r ≡ j = ground (arith, e, g) in
      rw (← same) (elim (Bool-cases (p r)) [ inl q ↦ rw (q, keep r, e) | inr q ↦ rw (q, e) ])
  | inr e ↦
      let later : select_one (has_id job_id) rows ≡ some j = ground (arith, e, g) in
      elim (Bool-cases (p r)) [
        | inl q ↦ rw (q, keep r, e) (updated_row job_id p f rows j keep later)
        | inr q ↦ rw (q, e) (updated_row job_id p f rows j keep later)
      ]
]

module _ (job_id : String) where
  updated-HasDone :
      (p : Job → Bool) (f : Job → Job) (db db' : Db)
      → db'.runner_jobs ≡ update_where p f db.runner_jobs
      → ((r : Job) → (f r).id ≡ r.id)
      → ((r : Job) → p r ≡ true → is_done r.state ≡ true → is_done (f r).state ≡ true)
      → HasDone db job_id
      → HasDone db' job_id
  unfolding get_runner_job
  updated-HasDone p f db db' rows keep stays (j, g, done) = (
    if p j then f j else j,
    ap (select_one (has_id job_id)) rows ∙ updated_row job_id p f db.runner_jobs j keep g,
    elim (Bool-cases (p j)) [ inl e ↦ rw e (stays j e done) | inr e ↦ rw e done ],
  )

  appended_row :
      (rows : List Job) (row j : Job)
      → select_one (has_id job_id) rows ≡ some j
      → select_one (has_id job_id) (rows ++ row ∷ []) ≡ some j
  unfolding select_one
  appended_row [] row j g = cc g
  appended_row (r ∷ rows) row j g = ground (arith, g, appended_row rows row j)

  inserted-HasDone :
      (found : Option Job) (db db' : Db) (row : Job)
      → insert_job found db row ≡ some db'
      → HasDone db job_id
      → HasDone db' job_id
  unfolding get_runner_job
  inserted-HasDone (some existing) db db' row e h = cc e
  inserted-HasDone none db db' row e (j, g, done) =
      let same : record db { runner_jobs = db.runner_jobs ++ row ∷ [] } ≡ db' = cc e in
      subst (λ d. HasDone d job_id) same (j, appended_row db.runner_jobs row j g, done)

  requeued_rows :
      (i : String) (now : ℕ) (a b : Db)
      → b ≡ (manually_requeue_failed_job a i now).1
      → b.runner_jobs ≡ update_where (is_failed_row i) (reset now) a.runner_jobs
  unfolding manually_requeue_failed_job
  requeued_rows i now a b h =
      ap (λ (x : Db). x.runner_jobs) h
      ∙ (elim (Bool-cases (count_where (is_failed_row i) a.runner_jobs == 0)) [
        | inl e ↦ rw e refl
        | inr e ↦ rw e refl
      ])

  -- No transaction of the queue takes a job that is done back.
  Step-HasDone : {m : ℕ} {a b : Db} → Step m a b → IsValid m a → HasDone a job_id → HasDone b job_id
  unfolding queue_runner_job complete_runner_job manually_requeue_failed_job delete_runner is_stuck
  Step-HasDone {m} {a} {b} (Step.queue i r j e n t now h) v d =
      inserted-HasDone (get_runner_job a i) a b _ h d
  Step-HasDone {m} {a} {b} (Step.claim w tags capacity now h) v d =
      updated-HasDone (is_picked (job_ids (claim_candidates a w tags capacity))) (assign w now) a b
        (ap (λ (x : Db). x.runner_jobs) h
          ∙ ap (λ (r : List Job × Db). r.1.runner_jobs)
              (claim_runner_jobs_lem a w tags capacity now v.distinct))
        (λ r. refl) (λ r p q. not_in_state JobState.queued r refl (and-true_right _ _ p) q) d
  Step-HasDone {m} {a} {b} (Step.complete i e now h) v d =
      updated-HasDone (has_id i) (complete e now) a b (ap (λ (x : Db). x.runner_jobs) h) (λ r. refl)
        (λ r p q. completion_state-done e) d
  Step-HasDone {m} {a} {b} (Step.reap exceeded timeout now h) v d =
      updated-HasDone (is_stuck timeout now) (outcome exceeded m now) a b
        (ap (λ (x : Db). x.runner_jobs) h
          ∙ reap_stuck_jobs_lem exceeded a timeout m now v.distinct
          ∙ sym (update_where-map (is_stuck timeout now) (outcome exceeded m now) a.runner_jobs))
        (id-outcome exceeded m now)
        (λ r p q. not_in_state JobState.assigned r refl (and-true_left _ _ p) q) d
  Step-HasDone {m} {a} {b} (Step.requeue_failed i now h) v d =
      updated-HasDone (is_failed_row i) (reset now) a b (requeued_rows i now a b h) (λ r. refl)
        (λ r p q. not_in_state JobState.failed r refl (and-true_right _ _ p) q) d
  Step-HasDone {m} {a} {b} (Step.delete name h) v d =
      updated-HasDone (is_inflight name) release a b (ap (λ (x : Db). x.runner_jobs) h) (λ r. refl)
        (λ r p q. not_in_state JobState.assigned r refl (and-true_right _ _ p) q) d

  Reach-HasDone :
      {m : ℕ} {a b : Db} → Reach m a b → IsValid m a → HasDone a job_id → HasDone b job_id
  Reach-HasDone Reach.here v d = d
  Reach-HasDone (Reach.next r s) v d = Step-HasDone s (Reach-IsValid v r) (Reach-HasDone r v d)

completed_job :
    (db : Db) (job_id : String) (job : Job) (error : Option String) (now : ℕ)
    → get_runner_job db job_id ≡ some job
    → HasDone (complete_runner_job db job_id error now).1 job_id
unfolding complete_runner_job get_runner_job
completed_job db job_id job error now g = (
  if has_id job_id job then complete error now job else job,
  updated_row job_id (has_id job_id) (complete error now) db.runner_jobs job (λ r. refl) g,
  rw ((select_one-In job_id_of job_id job db.runner_jobs g).1) (completion_state-done error),
)

done-refused :
    (db : Db) (key_id job_id : String)
    → HasDone db job_id
    → authorize_results db key_id job_id ≡ http_error 409
unfolding authorize_results
done-refused db key_id job_id (j, g, done) =
    ap (authorize_job db key_id) g ∙ (elim (Bool-cases (state_is j.state JobState.assigned)) [
      | inl e ↦ not_in_state JobState.assigned j refl e done
      | inr e ↦ rw e refl
    ])

-- A job's results are taken once: after its completion, with an error or without, and however the queue moves
-- on from there (jobs are queued, claimed, completed, reaped or requeued by an operator, workers are
-- deleted, each in one transaction), every later submission of results for it is refused with 409.
pub results_once :
    {m : ℕ} (db db' : Db) (key_id job_id : String) (job : Job) (error : Option String) (now : ℕ)
    → IsValid m db
    → get_runner_job db job_id ≡ some job
    → Reach m (complete_runner_job db job_id error now).1 db'
    → authorize_results db' key_id job_id ≡ http_error 409
results_once {m} db db' key_id job_id job error now v g history = done-refused db' key_id job_id (
    Reach-HasDone job_id history (Step-IsValid (Step.complete job_id error now refl) v)
      (completed_job db job_id job error now g))

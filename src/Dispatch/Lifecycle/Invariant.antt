-- ===== src/Dispatch/Lifecycle/Invariant.antt =====
-- The rows of `runner_jobs` stay sound along every history.
use Prim.Native.Nat.{zero-le}
use testharness.Prelude.{
  ℕ, ◌<◌, String, ◌≡◌, refl, subst, inl, inr, true, Option, none, some, List, [], ◌∷◌, ◌++◌, arith,
  ◌==◌, if◌then◌else◌, Bool-cases, and-true_left, and-true_right, column_is, All, All-append,
  All-map, All-of-map, All-update_where, update_where-map, update_where, count_where, Distinct,
  Distinct-update_where, Distinct-append, select_one-none,
}
use testharness.Db.{Db, Job, JobState, state_is, state_is-eq}
use testharness.Db.RunnerJobs.{
  assign, complete, completion_state, get_runner_job, insert_job, queue_runner_job,
  claim_runner_jobs, complete_runner_job,
}
use testharness.Db.RunnerJobs.Stuck.{
  is_stuck, requeue, fail, reset, release, is_failed_row, is_inflight, manually_requeue_failed_job,
}
use testharness.Db.RunnerJobs.Claims.{HasDistinctJobs, job_id_of, claim_runner_jobs_lem}
use testharness.Db.Runners.{delete_runner}
use testharness.Dispatch.Reaper.{is_exhausted, reap_stuck_jobs}
use testharness.Dispatch.Reaper.Sweep.{outcome, id-outcome}
use testharness.Dispatch.Reaper.Outcome.{reap_stuck_jobs_lem}
use testharness.Dispatch.Lifecycle.{Step, Reach, Fits, IsSound}

-- Distinct job ids and sound rows.
pub record IsValid (max_retries : ℕ) (db : Db) : Type 0 where
  pub distinct : HasDistinctJobs db
  pub sound : All (IsSound max_retries) db.runner_jobs

-- The content of a row whose state is known.
at_state : (s : JobState) (j : Job) → state_is j.state s ≡ true → Fits j.state j → Fits s j
at_state s j e h = subst (λ t. Fits t j) (state_is-eq j.state s e) h

module _ (m : ℕ) where
  assign-IsSound :
      (w : String) (now : ℕ) (j : Job)
      → state_is j.state JobState.queued ≡ true
      → IsSound m j
      → IsSound m (assign w now j)
  assign-IsSound w now j e h = (((λ q. cc), (λ q. cc), (at_state JobState.queued j e h.0).1), h.1)

  completed-Fits :
      (error : Option String) (now : ℕ) (j : Job)
      → Fits (completion_state error) (complete error now j)
  completed-Fits none now j = ((λ q. cc), refl)
  completed-Fits (some e) now j = ((λ q. cc), (λ q. cc))

  requeue-IsSound :
      (j : Job)
      → state_is j.state JobState.assigned ≡ true
      → j.retry_count < m
      → IsSound m j
      → IsSound m (requeue j)
  requeue-IsSound j e lt h = (((refl, refl), (at_state JobState.assigned j e h.0).2), omega arith)

  fail-IsSound :
      (message : String) (now : ℕ) (j : Job) → IsSound m j → IsSound m (fail message now j)
  fail-IsSound message now j h = (((λ q. cc), (λ q. cc)), h.1)

  reset-IsSound : (now : ℕ) (j : Job) → IsSound m j → IsSound m (reset now j)
  reset-IsSound now j h = (((refl, refl), (refl, refl)), h.1)

  release-IsSound :
      (j : Job) → state_is j.state JobState.assigned ≡ true → IsSound m j → IsSound m (release j)
  release-IsSound j e h = (((refl, refl), (at_state JobState.assigned j e h.0).2), h.1)

  outcome-IsSound :
      (exceeded : Job → ℕ → String) (timeout now : ℕ) (j : Job)
      → IsSound m j
      → IsSound m (if is_stuck timeout now j then outcome exceeded m now j else j)
  unfolding is_stuck
  outcome-IsSound exceeded timeout now j h = elim (Bool-cases (is_stuck timeout now j)) [
    | inr e ↦ rw e h
    | inl e ↦ rw e (elim (Bool-cases (is_exhausted m j)) [
      | inl x ↦ rw x (fail-IsSound (exceeded j m) now j h)
      | inr x ↦ rw x (requeue-IsSound j (and-true_left _ _ e) (ground (arith, x)) h)
    ])
  ]

  reap-IsValid :
      (exceeded : Job → ℕ → String) (db : Db) (timeout now : ℕ)
      → IsValid m db
      → IsValid m (reap_stuck_jobs exceeded db timeout m now).db
  reap-IsValid exceeded db timeout now v = record {
    distinct = rw (reap_stuck_jobs_lem exceeded db timeout m now v.distinct) (
        rw (← update_where-map (is_stuck timeout now) (outcome exceeded m now) db.runner_jobs) (
          Distinct-update_where job_id_of _ _ db.runner_jobs (id-outcome exceeded m now)
            v.distinct));
    sound = rw (reap_stuck_jobs_lem exceeded db timeout m now v.distinct) (
        All-of-map _ (IsSound m) db.runner_jobs
          (All-map (outcome-IsSound exceeded timeout now) db.runner_jobs v.sound));
  }

  claim-IsValid :
      (db : Db) (w : String) (tags : List String) (capacity now : ℕ)
      → IsValid m db
      → IsValid m (claim_runner_jobs db w tags capacity now).1
  claim-IsValid db w tags capacity now v =
      rw (claim_runner_jobs_lem db w tags capacity now v.distinct) (record {
        distinct = Distinct-update_where job_id_of _ _ db.runner_jobs (λ r. refl) v.distinct;
        sound =
            All-update_where (IsSound m) _ _ db.runner_jobs
              (λ j e h. assign-IsSound w now j (and-true_right _ _ e) h) v.sound;
      })

  complete-IsValid :
      (db : Db) (job_id : String) (error : Option String) (now : ℕ)
      → IsValid m db
      → IsValid m (complete_runner_job db job_id error now).1
  unfolding complete_runner_job
  complete-IsValid db job_id error now v = record {
    distinct = Distinct-update_where job_id_of _ _ db.runner_jobs (λ r. refl) v.distinct;
    sound =
        All-update_where (IsSound m) _ _ db.runner_jobs (λ j e h. (completed-Fits error now j, h.1))
          v.sound;
  }

  requeue_failed-IsValid :
      (db : Db) (job_id : String) (now : ℕ)
      → IsValid m db
      → IsValid m (manually_requeue_failed_job db job_id now).1
  unfolding manually_requeue_failed_job
  requeue_failed-IsValid db job_id now v =
      elim (Bool-cases (count_where (is_failed_row job_id) db.runner_jobs == 0)) [
        | inl e ↦ rw e (record { distinct = distinct; sound = sound })
        | inr e ↦ rw e (record { distinct = distinct; sound = sound })
      ]
    where
      distinct : Distinct job_id_of (update_where (is_failed_row job_id) (reset now) db.runner_jobs)
      distinct = Distinct-update_where job_id_of _ _ db.runner_jobs (λ r. refl) v.distinct

      sound : All (IsSound m) (update_where (is_failed_row job_id) (reset now) db.runner_jobs)
      sound =
          All-update_where (IsSound m) (is_failed_row job_id) (reset now) db.runner_jobs
            (λ j e h. reset-IsSound now j h) v.sound

  delete-IsValid : (name : String) (db : Db) → IsValid m db → IsValid m (delete_runner name db).1
  unfolding delete_runner
  delete-IsValid name db v = record {
    distinct = Distinct-update_where job_id_of _ _ db.runner_jobs (λ r. refl) v.distinct;
    sound =
        All-update_where (IsSound m) (is_inflight name) release db.runner_jobs
          (λ j e h. release-IsSound j (and-true_right (column_is j.assigned_to name) _ e) h)
          v.sound;
  }

  insert_job-IsValid :
      (found : Option Job) (db db' : Db) (row : Job)
      → get_runner_job db row.id ≡ found
      → insert_job found db row ≡ some db'
      → IsSound m row
      → IsValid m db
      → IsValid m db'
  unfolding get_runner_job
  insert_job-IsValid (some existing) db db' row e h s v = cc h
  insert_job-IsValid none db db' row e h s v = subst (IsValid m) same (record {
    distinct =
        Distinct-append job_id_of row db.runner_jobs
          (select_one-none job_id_of row.id db.runner_jobs e) v.distinct;
    sound = All-append (IsSound m) db.runner_jobs (row ∷ []) v.sound (s, tt);
  })
    where
      same : record db { runner_jobs = db.runner_jobs ++ row ∷ [] } ≡ db'
      same = cc h

-- One transaction keeps the job ids distinct and every row sound: a queued row is assigned to
-- nobody, an assigned one has its worker and time, a finished one its time, only failures carry an
-- error, and no job has been retried more often than the reaper's limit.
pub Step-IsValid : {m : ℕ} {a b : Db} → Step m a b → IsValid m a → IsValid m b
Step-IsValid {m} {a} {b} (Step.queue i r j e n t now h) v =
    unfold queue_runner_job in
    insert_job-IsValid m (get_runner_job a i) a b _ refl h (((refl, refl), (refl, refl)), zero-le) v
Step-IsValid {m} {a} (Step.claim w tags capacity now h) v =
    rw h (claim-IsValid m a w tags capacity now v)
Step-IsValid {m} {a} (Step.complete i e now h) v = rw h (complete-IsValid m a i e now v)
Step-IsValid {m} {a} (Step.reap exceeded timeout now h) v =
    rw h (reap-IsValid m exceeded a timeout now v)
Step-IsValid {m} {a} (Step.requeue_failed i now h) v = rw h (requeue_failed-IsValid m a i now v)
Step-IsValid {m} {a} (Step.delete name h) v = rw h (delete-IsValid m name a v)

-- Every history of transactions that begins with a valid table ends with one: distinct job ids, and
-- rows that fit their states with no more retries than the reaper's limit.
pub Reach-IsValid : {m : ℕ} {a b : Db} → IsValid m a → Reach m a b → IsValid m b
Reach-IsValid v Reach.here = v
Reach-IsValid v (Reach.next r s) = Step-IsValid s (Reach-IsValid v r)

-- ===== src/Db/RunnerJobs/Claims.antt =====
-- What `claim_runner_jobs` of harness/db/_runner_jobs.py hands out and leaves.
use testharness.Prelude.{
  ℕ, zero, suc, String, ◌=s=◌, eq_iff, eq_symm, ◌≡◌, refl, sym, ap, ap₂, ◌∙◌, inl, inr, Bool, true,
  false, ◌&&◌, ◌||◌, some, List, [], ◌∷◌, map, arith, if◌then◌else◌, suc-==-zero, and-true_left,
  All, All-of, All-at, In, In-take, select_where, select_one, update_where, In-select_where,
  In-order_by, Distinct, Distinct-update_where, Distinct-select_where, Distinct-order_by,
  Distinct-take, In-select_one, select_one-update_where, select_one-update_where_self,
  count_where-one,
}
use testharness.Db.{Db, Job, JobState, state_is}
use testharness.Db.RunnerJobs.{
  has_id, is_claimable, is_queued_row, assign, claim_each, claim_candidates, claim_runner_jobs,
  job_ids, column_in,
}

abbrev pub job_id_of : Job → String
job_id_of j = j.id

-- PRIMARY KEY: no two jobs have one id.
abbrev pub HasDistinctJobs : Db → Type 0
HasDistinctJobs db = Distinct job_id_of db.runner_jobs

-- The WHERE clauses of all the UPDATEs of one claim together.
abbrev pub is_picked : List String → Job → Bool
is_picked ids j = column_in (some j.id) ids && state_is j.state JobState.queued

module _ (worker_name : String) (now : ℕ) where
  -- The row is the one of its id, and it waits.
  abbrev IsWaiting : List Job → Job → Type 0
  IsWaiting rows c =
      (select_one (has_id c.id) rows ≡ some c) × (state_is c.state JobState.queued ≡ true)

  claim_each-claims :
      (cands rows : List Job)
      → Distinct job_id_of rows
      → Distinct job_id_of cands
      → All (IsWaiting rows) cands
      → (claim_each worker_name now (job_ids cands) rows).0 ≡ map (assign worker_name now) cands
  unfolding claim_each
  claim_each-claims [] rows d f w = refl
  claim_each-claims (c ∷ cs) rows d f w = ground (
    arith,
    count_where-one job_id_of c.id (λ j. state_is j.state JobState.queued) rows c d w.0.0,
    select_one-update_where_self job_id_of c.id (λ j. state_is j.state JobState.queued)
        (assign worker_name now) rows c (λ r. refl) w.0.0,
    claim_each-claims cs rows' (Distinct-update_where job_id_of _ _ rows (λ r. refl) d) f.1 still,
  )
    where
      rows' : List Job
      rows' = update_where (is_queued_row c.id) (assign worker_name now) rows

      still : All (IsWaiting rows') cs
      still = All-of (IsWaiting rows') cs (λ a m.
          let old = All-at (IsWaiting rows) a cs w.1 m in
          let apart = All-at (λ (r : Job). (r.id =s= c.id) ≡ false) a cs f.0 m in
          (
            select_one-update_where job_id_of c.id a.id _ _ rows (λ r. refl)
                  (eq_symm c.id a.id ∙ apart)
                ∙ old.0,
            old.1,
          ))

  abbrev once : Bool → Job → Job
  once b r = if b then assign worker_name now r else r

  -- The same at one row, over the tests' answers.
  row_twice :
      (r : Job) (here others waits : Bool)
      → state_is r.state JobState.queued ≡ waits
      → once
          (others && state_is (once (here && waits) r).state JobState.queued)
          (once (here && waits) r)
        ≡ once ((here || others) && waits) r
  row_twice r true true true e = refl
  row_twice r true true false e = rw e
  row_twice r true false true e = refl
  row_twice r true false false e = refl
  row_twice r false true true e = rw e
  row_twice r false true false e = rw e
  row_twice r false false true e = refl
  row_twice r false false false e = refl

  id_once : (b : Bool) (r : Job) → (once b r).id ≡ r.id
  id_once true r = refl
  id_once false r = refl

  update_twice :
      (jid : String) (ids : List String) (rows : List Job)
      → update_where
          (is_picked ids)
          (assign worker_name now)
          (update_where (is_queued_row jid) (assign worker_name now) rows)
        ≡ update_where (is_picked (jid ∷ ids)) (assign worker_name now) rows
  unfolding update_where
  update_twice jid ids [] = refl
  update_twice jid ids (r ∷ rows) =
      ap₂ ◌∷◌
        (ap (λ k. once (column_in (some k) ids && state_is first.state JobState.queued) first)
            (id_once (is_queued_row jid r) r)
          ∙ row_twice r (r.id =s= jid) (column_in (some r.id) ids) _ refl)
        (update_twice jid ids rows)
    where
      first : Job
      first = once (is_queued_row jid r) r

  update_none : (rows : List Job) → update_where (is_picked []) (assign worker_name now) rows ≡ rows
  unfolding update_where
  update_none [] = refl
  update_none (r ∷ rows) = ground (arith, update_none rows)

  claim_each-rows :
      (ids : List String) (rows : List Job)
      → (claim_each worker_name now ids rows).1
        ≡ update_where (is_picked ids) (assign worker_name now) rows
  unfolding claim_each
  claim_each-rows [] rows = sym (update_none rows)
  claim_each-rows (jid ∷ ids) rows = claim_each-rows ids _ ∙ update_twice jid ids rows

  -- Whoever is picked stands in the list of ids.
  pub column_in-job_ids :
      (c : Job) (cands : List Job)
      → In c cands
      → (k : String) → c.id ≡ k
      → column_in (some k) (job_ids cands) ≡ true
  column_in-job_ids c [] m k e = absurd m
  column_in-job_ids c (x ∷ cands) (inl q) k e =
      rw ((eq_iff k x.id).1 (sym e ∙ ap (λ (j : Job). j.id) q))
  column_in-job_ids c (x ∷ cands) (inr m) k e = ground (arith, column_in-job_ids c cands m k e)

pub claimable-queued :
    (worker_name : String) (tags : List String) (c : Job)
    → is_claimable worker_name tags c ≡ true
    → state_is c.state JobState.queued ≡ true
unfolding is_claimable
claimable-queued worker_name tags c h = and-true_left _ _ h

module _ (db : Db) (worker_name : String) (tags : List String) (capacity now : ℕ) where
  abbrev candidates : List Job
  candidates = claim_candidates db worker_name tags capacity

  abbrev claimable_rows : List Job
  claimable_rows = select_where (is_claimable worker_name tags) db.runner_jobs

  pub candidate-In :
      (c : Job) → In c candidates → In c db.runner_jobs × (is_claimable worker_name tags c ≡ true)
  unfolding claim_candidates
  candidate-In c m =
      In-select_where c _ db.runner_jobs
        (In-order_by (λ j. j.queued_at) c claimable_rows (In-take c capacity _ m))

  candidates-IsWaiting :
      HasDistinctJobs db → All (IsWaiting worker_name now db.runner_jobs) candidates
  candidates-IsWaiting d = All-of _ candidates (λ c m.
      let h = candidate-In c m in
      (In-select_one job_id_of c db.runner_jobs d h.0, claimable-queued worker_name tags c h.1))

  candidates-Distinct : HasDistinctJobs db → Distinct job_id_of candidates
  unfolding claim_candidates
  candidates-Distinct d = Distinct-take job_id_of capacity _ (
      Distinct-order_by job_id_of _ claimable_rows
        (Distinct-select_where job_id_of _ db.runner_jobs d))

-- With distinct job ids, a claim returns exactly the first `capacity` jobs that the worker may take,
-- oldest first, each as it is after the assignment, and changes the table at those jobs alone.
pub claim_runner_jobs_lem :
    (db : Db) (worker_name : String) (tags : List String) (capacity now : ℕ)
    → HasDistinctJobs db
    → let cands = claim_candidates db worker_name tags capacity in
      claim_runner_jobs db worker_name tags capacity now ≡ (
        map (assign worker_name now) cands,
        record db {
          runner_jobs =
              update_where (is_picked (job_ids cands)) (assign worker_name now) db.runner_jobs;
        },
      )
unfolding claim_runner_jobs
claim_runner_jobs_lem db w tags zero now d =
    ap (λ rows. ([], record db { runner_jobs = rows })) (sym (update_none w now db.runner_jobs))
claim_runner_jobs_lem db w tags (suc n) now d = rw (suc-==-zero n) (
    ap₂ (λ claimed rows. (claimed, record db { runner_jobs = rows }))
      (claim_each-claims w now cands db.runner_jobs d (candidates-Distinct db w tags (suc n) now d)
        (candidates-IsWaiting db w tags (suc n) now d))
      (claim_each-rows w now (job_ids cands) db.runner_jobs))
  where
    cands : List Job
    cands = claim_candidates db w tags (suc n)

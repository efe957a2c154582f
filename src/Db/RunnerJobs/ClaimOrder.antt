-- ===== src/Db/RunnerJobs/ClaimOrder.antt =====
-- Fairness and exclusion of the claims of harness/db/_runner_jobs.py.
use testharness.Prelude.{
  ℕ, ◌≤◌, String, ◌=s=◌, eq_iff, ◌≡◌, refl, sym, ap, subst, ◌∙◌, inl, inr, ◌⊎◌, true, false, some,
  List, [], arith, Bool-cases, and-false_left, length, take, drop, All, All-of, All-at, All-map, In,
  take-or-drop, take-le-drop, length-take-le, select_where, update_where, order_by, In-select_where,
  select_where-In, In-update_where, order_by-In, order_by-IsOrdered, IsOrdered,
  Distinct-update_where, All-of-map, length-map, drop-or-full, no_members, In-map,
}
use testharness.Db.{Db, Job}
use testharness.Db.RunnerJobs.{
  is_claimable, assign, claim_candidates, claim_runner_jobs, job_ids, column_in,
}
use testharness.Db.RunnerJobs.Claims.{
  HasDistinctJobs, job_id_of, is_picked, claim_runner_jobs_lem, candidate-In, claimable-queued,
  column_in-job_ids,
}

module _ (db : Db) (worker_name : String) (tags : List String) (capacity now : ℕ) where
  abbrev cands : List Job
  cands = claim_candidates db worker_name tags capacity

  abbrev eligible : List Job
  eligible = select_where (is_claimable worker_name tags) db.runner_jobs

  abbrev rows_after : List Job
  rows_after = update_where (is_picked (job_ids cands)) (assign worker_name now) db.runner_jobs

  assigned_unclaimable :
      (w : String) (ts : List String) (b : Job)
      → is_claimable w ts (assign worker_name now b) ≡ false
  unfolding is_claimable
  assigned_unclaimable w ts b = refl

  -- A job that is claimable after the claim, by whomever, is an old one that the claim passed over.
  still_claimable :
      (w : String) (ts : List String) (k : Job)
      → In k rows_after
      → is_claimable w ts k ≡ true
      → In k db.runner_jobs × (column_in (some k.id) (job_ids cands) ≡ false)
  unfolding is_claimable
  still_claimable w ts k m h =
      let (b, n, e) = In-update_where k _ _ db.runner_jobs m in
      elim (Bool-cases (is_picked (job_ids cands) b)) [
        | inl p ↦
            let q : k ≡ assign worker_name now b = e ∙ rw p in
            cc (ap (is_claimable w ts) q, assigned_unclaimable w ts b)
        | inr p ↦
            let q : k ≡ b = e ∙ rw p in
            (
              rw q n,
              and-false_left _ _ (claimable-queued w ts k h)
                  (subst (λ x. is_picked (job_ids cands) x ≡ false) (sym q) p),
            )
      ]

  -- What the worker could still take stands behind the candidates.
  left_over :
      (k : Job)
      → In k (select_where (is_claimable worker_name tags) rows_after)
      → In k (drop capacity (order_by (λ j. j.queued_at) eligible))
  unfolding claim_candidates
  left_over k m =
      let (n, h) = In-select_where k _ rows_after m in
      let (old, skipped) = still_claimable worker_name tags k n h in
      let sorted =
        order_by-In (λ (j : Job). j.queued_at) k eligible
          (select_where-In k _ db.runner_jobs old h) in
      elim (take-or-drop k capacity _ sorted) [
        | inl t ↦ cc (skipped, column_in-job_ids worker_name now k cands t k.id refl)
        | inr d ↦ d
      ]

-- A claim is first come, first served, and leaves nothing that it had room for: every job that the
-- worker may still take afterwards was queued no earlier than every claimed one, and if there is
-- such a job, the claim returned `capacity` jobs. It never returns more.
pub claim_in_order :
    (db : Db) (worker_name : String) (tags : List String) (capacity now : ℕ)
    → HasDistinctJobs db
    → let (claimed, db') = claim_runner_jobs db worker_name tags capacity now in
      let left = select_where (is_claimable worker_name tags) db'.runner_jobs in
      All (λ c. All (λ k. c.queued_at ≤ k.queued_at) left) claimed
      × (length claimed ≤ capacity)
      × ((left ≡ []) ⊎ (length claimed ≡ capacity))
unfolding claim_candidates
claim_in_order db w tags n now d = rw (claim_runner_jobs_lem db w tags n now d) (
  All-of-map (assign w now) _ cs (All-map earlier cs (take-le-drop queued_at n sorted order)),
  rw (length-map (assign w now) cs) (length-take-le n sorted),
  rw (length-map (assign w now) cs) (rest (drop-or-full n sorted)),
)
  where
    queued_at : Job → ℕ
    queued_at j = j.queued_at

    sorted : List Job
    sorted = order_by queued_at (eligible db w tags n now)

    order : IsOrdered queued_at sorted
    order = order_by-IsOrdered queued_at (eligible db w tags n now)

    cs : List Job
    cs = cands db w tags n now

    left : List Job
    left = select_where (is_claimable w tags) (rows_after db w tags n now)

    earlier :
        (c : Job)
        → All (λ k. c.queued_at ≤ k.queued_at) (drop n sorted)
        → All (λ k. c.queued_at ≤ k.queued_at) left
    earlier c h = All-of _ left (λ k m.
        All-at (λ (k : Job). c.queued_at ≤ k.queued_at) k (drop n sorted) h
          (left_over db w tags n now k m))

    rest : (drop n sorted ≡ []) ⊎ (length (take n sorted) ≡ n) → (left ≡ []) ⊎ (length cs ≡ n)
    rest (inr full) = inr full
    rest (inl done) =
        inl (no_members left (λ k m. subst (In k) done (left_over db w tags n now k m)))

pub claim-HasDistinctJobs :
    (db : Db) (worker_name : String) (tags : List String) (capacity now : ℕ)
    → HasDistinctJobs db
    → HasDistinctJobs (claim_runner_jobs db worker_name tags capacity now).1
claim-HasDistinctJobs db w tags n now d =
    rw (claim_runner_jobs_lem db w tags n now d)
      (Distinct-update_where job_id_of _ _ db.runner_jobs (λ r. refl) d)

claimed-from :
    (db : Db) (worker_name : String) (tags : List String) (capacity now : ℕ)
    → HasDistinctJobs db
    → (c : Job) → In c (claim_runner_jobs db worker_name tags capacity now).0
    → (b : Job) × In b (claim_candidates db worker_name tags capacity)
      × (c ≡ assign worker_name now b)
claimed-from db w tags n now d c m =
    In-map (assign w now) c (claim_candidates db w tags n)
      (subst (In c) (ap (λ r. r.0) (claim_runner_jobs_lem db w tags n now d)) m)

-- Two claims in a row never hand out one job twice, whoever makes them.
pub claims_disjoint :
    (db : Db) (first second : String) (tags tags' : List String) (capacity capacity' now later : ℕ)
    → HasDistinctJobs db
    → let (claimed, db') = claim_runner_jobs db first tags capacity now in
      All
        (λ c.
          All (λ k. (k.id =s= c.id) ≡ false) (claim_runner_jobs db' second tags' capacity' later).0)
        claimed
claims_disjoint db w w' tags tags' n n' now later d =
    All-of _ (claim_runner_jobs db w tags n now).0
      (λ c m. All-of _ (claim_runner_jobs db' w' tags' n' later).0 (λ k mk. apart c m k mk))
  where
    db' : Db
    db' = (claim_runner_jobs db w tags n now).1

    apart :
        (c : Job)
        → In c (claim_runner_jobs db w tags n now).0
        → (k : Job) → In k (claim_runner_jobs db' w' tags' n' later).0
        → (k.id =s= c.id) ≡ false
    apart c m k mk =
        let (b, mb, eb) = claimed-from db w tags n now d c m in
        let (a, ma, ea) =
          claimed-from db' w' tags' n' later (claim-HasDistinctJobs db w tags n now d) k mk in
        let (old, free) = candidate-In db' w' tags' n' later a ma in
        let rows =
          subst (In a) (ap (λ r. r.1.runner_jobs) (claim_runner_jobs_lem db w tags n now d)) old in
        let (_, skipped) = still_claimable db w tags n now w' tags' a rows free in
        ground (
          arith,
          skipped,
          ap (λ (j : Job). j.id) ea,
          ap (λ (j : Job). j.id) eb,
          eq_iff k.id c.id,
          column_in-job_ids w now b (claim_candidates db w tags n) mb a.id,
        )

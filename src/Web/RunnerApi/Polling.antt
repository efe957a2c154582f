-- ===== src/Web/RunnerApi/Polling.antt =====
-- To whom `runner_poll` and `runner_results` of web/routes/runner.py answer.
use testharness.Prelude.{
  ℕ, ◌≤◌, String, eq_iff, ◌≡◌, refl, sym, ap, subst, ◌∙◌, inl, inr, true, false, ◌||◌, Option, none,
  some, List, ◌∷◌, arith, Bool-cases, Option-cases, length, column_is,
}
use testharness.Db.{Db, Job, JobState, state_is, state_is-eq, Runner}
use testharness.Db.RunnerJobs.{get_runner_job}
use testharness.Db.RunnerJobs.Claims.{HasDistinctJobs}
use testharness.Db.RunnerJobs.ClaimOrder.{claim_in_order}
use testharness.Db.Runners.{
  get_runner_by_name, check_runner_binding, compare_binding, key_of, touch_runner_heartbeat,
}
use testharness.VersionSkew.{is_major_incompatible}
use testharness.Web.RunnerApi.{
  ok, http_error, is_bound, is_draining, clamp_capacity, poll_runner, poll_found, runner_poll,
  authorize_job, authorize_results, owns, or_empty,
}

bound_key :
    (o : Option String) (key_id : String)
    → is_bound (compare_binding o key_id) ≡ true
    → o ≡ some key_id
bound_key none key_id h = cc h
bound_key (some key) key_id h = ground (arith, eq_iff key key_id, h)

pub binding-key :
    (db : Db) (name key_id : String) (runner : Runner)
    → get_runner_by_name db name ≡ some runner
    → is_bound (check_runner_binding db name key_id) ≡ true
    → runner.api_key_id ≡ some key_id
unfolding check_runner_binding
binding-key db name key_id runner g h =
    bound_key runner.api_key_id key_id
      (subst (λ o. is_bound (compare_binding (key_of o) key_id) ≡ true) g h)

-- Who may be handed jobs.
pub record MayWork (central_version : String) (db : Db) (name key_id : String) (runner : Runner)
    : Type 0 where
  pub registered : get_runner_by_name db name ≡ some runner
  pub key : runner.api_key_id ≡ some key_id
  pub active : is_draining runner.status ≡ false
  pub compatible : is_major_incompatible runner.version central_version ≡ false

module _ (central_version : String) (db : Db) (name key_id : String) (capacity now : ℕ) where
  poll_runner-MayWork :
      (runner : Runner) (j : Job) (jobs : List Job)
      → get_runner_by_name db name ≡ some runner
      → (poll_runner central_version db name key_id capacity now runner).0 ≡ ok (j ∷ jobs)
      → MayWork central_version db name key_id runner
  unfolding poll_runner
  poll_runner-MayWork runner j jobs g h =
      elim (Bool-cases (is_bound (check_runner_binding db name key_id))) [
        | inr e ↦ ground (arith, e, h)
        | inl e ↦
            elim (Bool-cases
              (is_draining runner.status || is_major_incompatible runner.version central_version)) [
                | inl t ↦ ground (arith, e, t, h)
                | inr t ↦ record {
                  registered = g;
                  key = binding-key db name key_id runner g e;
                  active = ground (arith, t);
                  compatible = ground (arith, t);
                }
              ]
      ]

  -- Jobs are handed only to a registered worker that is bound to the caller's key, is not draining
  -- and has a compatible major version.
  pub poll-MayWork :
      (j : Job) (jobs : List Job)
      → (runner_poll central_version db name key_id capacity now).0 ≡ ok (j ∷ jobs)
      → (runner : Runner) × MayWork central_version db name key_id runner
  unfolding runner_poll
  poll-MayWork j jobs h = elim (Option-cases (get_runner_by_name db name)) [
    | inl e ↦ cc h
    | inr (r, e) ↦ (
      r,
      poll_runner-MayWork r j jobs e
          (sym (ap (λ o. (poll_found central_version db name key_id capacity now o).0) e) ∙ h),
    )
  ]

  poll_runner_refused :
      (runner : Runner) (status : ℕ)
      → (poll_runner central_version db name key_id capacity now runner).0 ≡ http_error status
      → (poll_runner central_version db name key_id capacity now runner).1 ≡ db
  unfolding poll_runner
  poll_runner_refused runner status h = ground arith

  -- A poll that is refused changes nothing, not even the worker's last-seen time.
  pub poll_refused :
      (status : ℕ)
      → (runner_poll central_version db name key_id capacity now).0 ≡ http_error status
      → (runner_poll central_version db name key_id capacity now).1 ≡ db
  unfolding runner_poll
  poll_refused status h = elim (Option-cases (get_runner_by_name db name)) [
    | inl e ↦ rw e
    | inr (r, e) ↦ rw e (
        poll_runner_refused r status
          (sym (ap (λ o. (poll_found central_version db name key_id capacity now o).0) e) ∙ h))
  ]

  poll_runner_capacity :
      (runner : Runner) (jobs : List Job)
      → HasDistinctJobs db
      → (poll_runner central_version db name key_id capacity now runner).0 ≡ ok jobs
      → length jobs ≤ 16
  unfolding poll_runner
  poll_runner_capacity runner jobs d h =
      let claimed =
        claim_in_order (touch_runner_heartbeat name now db) name runner.tags
          (clamp_capacity capacity) now (unfold touch_runner_heartbeat in d) in
      ground (arith, h, claimed.1)

  -- One poll hands out 16 jobs at most, whatever capacity the worker names.
  pub poll_capacity :
      (jobs : List Job)
      → HasDistinctJobs db
      → (runner_poll central_version db name key_id capacity now).0 ≡ ok jobs
      → length jobs ≤ 16
  unfolding runner_poll
  poll_capacity jobs d h = elim (Option-cases (get_runner_by_name db name)) [
    | inl e ↦ cc h
    | inr (r, e) ↦
        poll_runner_capacity r jobs d
          (sym (ap (λ o. (poll_found central_version db name key_id capacity now o).0) e) ∙ h)
  ]

owner-key :
    (owner : Option Runner) (key_id : String)
    → owns owner key_id ≡ true
    → (r : Runner) × (owner ≡ some r) × (r.api_key_id ≡ some key_id)
owner-key none key_id h = cc h
owner-key (some r) key_id h = (r, refl, key_of_row r.api_key_id h)
  where
    key_of_row : (o : Option String) → column_is o key_id ≡ true → o ≡ some key_id
    key_of_row none e = cc e
    key_of_row (some k) e = ap some ((eq_iff k key_id).0 e)

authorized :
    (db : Db) (key_id : String) (found : Option Job) (job : Job)
    → authorize_job db key_id found ≡ ok job
    → (found ≡ some job)
      × (job.state ≡ JobState.assigned)
      × (r : Runner) × (get_runner_by_name db (or_empty job.assigned_to) ≡ some r)
      × (r.api_key_id ≡ some key_id)
authorized db key_id none job h = cc h
authorized db key_id (some j) job h = elim (Bool-cases (state_is j.state JobState.assigned)) [
  | inr e ↦ ground (arith, e, h)
  | inl e ↦ elim (Bool-cases (owns (get_runner_by_name db (or_empty j.assigned_to)) key_id)) [
    | inr o ↦ ground (arith, e, o, h)
    | inl o ↦
        let same : j ≡ job = ground (arith, e, o, h) in
        let (r, g, k) = owner-key (get_runner_by_name db (or_empty j.assigned_to)) key_id o in
        (
          ap some same,
          subst (λ (x : Job). x.state ≡ JobState.assigned) same
              (state_is-eq j.state JobState.assigned e),
          r,
          subst (λ (x : Job). get_runner_by_name db (or_empty x.assigned_to) ≡ some r) same g,
          k,
        )
  ]
]

-- Results are taken only for a job that is assigned, to a runner that is bound to the caller's key.
pub authorize_results_lem :
    (db : Db) (key_id job_id : String) (job : Job)
    → authorize_results db key_id job_id ≡ ok job
    → (get_runner_job db job_id ≡ some job)
      × (job.state ≡ JobState.assigned)
      × (r : Runner) × (get_runner_by_name db (or_empty job.assigned_to) ≡ some r)
      × (r.api_key_id ≡ some key_id)
unfolding authorize_results
authorize_results_lem db key_id job_id job h = authorized db key_id (get_runner_job db job_id) job h

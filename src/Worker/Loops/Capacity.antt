-- ===== src/Worker/Loops/Capacity.antt =====
-- The jobs that a worker holds at a time, with the server of web/routes/runner.py behind the polls.
use testharness.Prelude.{
  ℕ, ◌+◌, ◌<◌, ◌≤◌, String, ◌≡◌, ap, ◌∙◌, inl, inr, ◌⊎◌, ◌||◌, sym, Bool-cases, Option-cases,
  length-map, List, [], ◌∷◌, ◌++◌, map, arith, length, length-append,
}
use testharness.VersionSkew.{is_major_incompatible}
use testharness.Db.{Db, Job, Runner}
use testharness.Db.RunnerJobs.{claim_runner_jobs}
use testharness.Db.RunnerJobs.Claims.{HasDistinctJobs, job_id_of}
use testharness.Db.RunnerJobs.ClaimOrder.{claim_in_order}
use testharness.Db.Runners.{touch_runner_heartbeat, get_runner_by_name, check_runner_binding}
use testharness.Web.RunnerApi.{
  ok, is_bound, is_draining, clamp_capacity, runner_poll, poll_runner, poll_found,
}
use testharness.Worker.Loops.{Pool, Step, polled, acquired, ended, signalled, Reach, start, step}

-- The jobs that run, and those that run or wait to, are no more than the worker's capacity.
abbrev pub IsBounded : ℕ → Pool → Type 0
IsBounded capacity p =
    (length p.running ≤ capacity) × (length p.running + length p.waiting ≤ capacity)

-- A server never sends more jobs than were asked for.
abbrev pub Fits : (ℕ → List String → Type 0) → Type 0
Fits Answers = (n : ℕ) (jobs : List String) → 0 < n → Answers n jobs → length jobs ≤ n

length-snoc : (xs : List String) (x : String) → length (xs ++ x ∷ []) ≡ length xs + 1
length-snoc xs x = length-append {0} {A = String} xs (x ∷ [])

module _ (capacity : ℕ) (Answers : ℕ → List String → Type 0) where
  step-IsBounded :
      (p q : Pool)
      → Fits Answers
      → IsBounded capacity p
      → Step capacity Answers p q
      → IsBounded capacity q
  step-IsBounded p q fits b (polled n jobs some_asked some_left answer) = (
    b.0,
    omega (
      arith,
      b.1,
      fits n jobs some_asked answer,
      some_left,
      length-append {0} {A = String} p.waiting jobs,
    ),
  )
  step-IsBounded p q fits b (acquired job rest e free) = (
    omega (arith, free, length-snoc p.running job),
    omega (arith, b.1, ap (length {A = String}) e, length-snoc p.running job),
  )
  step-IsBounded p q fits b (ended before job behind e) =
      let one_less : length (before ++ behind) ≤ length p.running = omega (
        arith,
        ap (length {A = String}) e,
        length-append {0} {A = String} before (job ∷ behind),
        length-append {0} {A = String} before behind,
      ) in
      (omega (arith, b.0, one_less), omega (arith, b.1, one_less))
  step-IsBounded p q fits b signalled = b

  fits-IsBounded : (p : Pool) → Fits Answers → Reach capacity Answers p → IsBounded capacity p
  fits-IsBounded p fits start = (omega arith, omega arith)
  fits-IsBounded p fits (step {p = before} r s) =
      step-IsBounded before p fits (fits-IsBounded before fits r) s

-- What the server answers to a request for n jobs: none, or the jobs of one claim, with the capacity
-- clamped as `runner_poll` and `runner_jobs_long_poll` do.
abbrev pub FromServer : ℕ → List String → Type 0
FromServer n jobs =
    (jobs ≡ [])
    ⊎ ((db : Db) × (name : String) × (tags : List String) × (now : ℕ) × HasDistinctJobs db
        × (jobs ≡ map job_id_of (claim_runner_jobs db name tags (clamp_capacity n) now).0))

FromServer-Fits : Fits FromServer
FromServer-Fits n jobs h (inl e) = omega (arith, ap (length {A = String}) e)
FromServer-Fits n jobs h (inr (db, name, tags, now, d, e)) =
    let few = claim_in_order db name tags (clamp_capacity n) now d in
    let all : length jobs ≡ length (claim_runner_jobs db name tags (clamp_capacity n) now).0 =
      ap length e ∙ length-map _ _ in
    ground (arith, all, few.1, h)

-- A worker that polls this server never has more jobs in flight than its capacity, running or waiting for
-- the semaphore, whatever the order in which jobs arrive, start and end.
pub Reach-IsBounded : (capacity : ℕ) (p : Pool) → Reach capacity FromServer p → IsBounded capacity p
Reach-IsBounded capacity p r = fits-IsBounded capacity FromServer p FromServer-Fits r

poll_runner-FromServer :
    (central_version : String) (db : Db) (name key_id : String) (n now : ℕ) (runner : Runner)
    (jobs : List Job)
    → HasDistinctJobs db
    → (poll_runner central_version db name key_id n now runner).0 ≡ ok jobs
    → FromServer n (map job_id_of jobs)
unfolding poll_runner
poll_runner-FromServer central_version db name key_id n now runner jobs d h =
    let touched = touch_runner_heartbeat name now db in
    elim (Bool-cases (is_bound (check_runner_binding db name key_id))) [
      | inr e ↦ cc (rw e at h)
      | inl e ↦
          elim (Bool-cases
            (is_draining runner.status || is_major_incompatible runner.version central_version)) [
              | inl t ↦
                  let nothing : jobs ≡ [] = cc (rw (e, t) at h) in inl (ap (map job_id_of) nothing)
              | inr t ↦
                  let same : (claim_runner_jobs touched name runner.tags (clamp_capacity n) now).0
                      ≡ jobs =
                    cc (rw (e, t) at h) in
                  inr (
                    touched,
                    name,
                    runner.tags,
                    now,
                    unfold touch_runner_heartbeat in d,
                    ap (map job_id_of) (sym same),
                  )
            ]
    ]

-- What a short poll hands out is such an answer.
pub poll-FromServer :
    (central_version : String) (db : Db) (name key_id : String) (n now : ℕ) (jobs : List Job)
    → HasDistinctJobs db
    → (runner_poll central_version db name key_id n now).0 ≡ ok jobs
    → FromServer n (map job_id_of jobs)
unfolding runner_poll
poll-FromServer central_version db name key_id n now jobs d h =
    elim (Option-cases (get_runner_by_name db name)) [
      | inl e ↦ cc (rw e at h)
      | inr (r, e) ↦
          poll_runner-FromServer central_version db name key_id n now r jobs d
            (sym (ap (λ o. (poll_found central_version db name key_id n now o).0) e) ∙ h)
    ]

-- ===== src/Tests/Queue.antt =====
-- Runs of the queue, the reaper and the history of a job.
use testharness.Web.RunnerApi.{http_error, authorize_results}
use testharness.Web.RunnerApi.Once.{results_once}
use testharness.Db.RunnerJobs.Stuck.{manually_requeue_failed_job}
use testharness.Prelude.{
  ℕ, arith, ◌≤◌, String, ◌=s=◌, ◌≡◌, refl, none, some, List, [], ◌∷◌, length, All, false, ◌⊎◌,
  select_where, update_where, order_by, insert_by, select_one,
}
use testharness.Db.{Db, Job, empty}
use testharness.Db.RunnerJobs.{
  assign, claim_candidates, claim_runner_jobs, is_claimable, get_runner_job, complete_runner_job,
  queue_runner_job,
}
use testharness.Db.RunnerJobs.Stuck.{requeue, is_stuck}
use testharness.Db.RunnerJobs.Claims.{HasDistinctJobs, claim_runner_jobs_lem}
use testharness.Db.RunnerJobs.ClaimOrder.{claim_in_order, claims_disjoint}
use testharness.Dispatch.Reaper.{reap_stuck_jobs}
use testharness.Dispatch.Reaper.Outcome.{reap_stuck_jobs_lem}
use testharness.Dispatch.Lifecycle.{Step, Reach}
use testharness.Dispatch.Lifecycle.Invariant.{IsValid, Reach-IsValid}
use testharness.Db.Runs.{get_run}
use testharness.Dispatch.Remote.{RunOn, ResolvedApp, queue_remote_run}
use testharness.Dispatch.Remote.Routing.{may_take, queue_remote_run-claimable}
use testharness.Tests.{sample, waiting, waiting_first, held}

abbrev gpu : List String
gpu = "gpu" ∷ []

sample-Distinct : HasDistinctJobs sample
sample-Distinct = ((refl, (refl, tt)), ((refl, tt), (tt, tt)))

claim_runner_jobs_example : claim_runner_jobs sample "w1" gpu 1 30 ≡ (
  assign "w1" 30 waiting_first ∷ [],
  record sample { runner_jobs = waiting ∷ assign "w1" 30 waiting_first ∷ held ∷ [] },
)
unfolding claim_candidates select_where order_by insert_by is_claimable update_where
claim_runner_jobs_example = claim_runner_jobs_lem sample "w1" gpu 1 30 sample-Distinct

claim_in_order_example :
    let (claimed, db') = claim_runner_jobs sample "w1" gpu 1 30 in
    let left = select_where (is_claimable "w1" gpu) db'.runner_jobs in
    All (λ c. All (λ k. c.queued_at ≤ k.queued_at) left) claimed
    × (length claimed ≤ 1)
    × ((left ≡ []) ⊎ (length claimed ≡ 1))
claim_in_order_example = claim_in_order sample "w1" gpu 1 30 sample-Distinct

claims_disjoint_example :
    let (claimed, db') = claim_runner_jobs sample "w1" gpu 1 30 in
    All (λ c. All (λ k. (k.id =s= c.id) ≡ false) (claim_runner_jobs db' "w2" gpu 2 31).0) claimed
claims_disjoint_example = claims_disjoint sample "w1" "w2" gpu gpu 1 2 30 31 sample-Distinct

abbrev exceeded : Job → ℕ → String
exceeded job max_retries = "exceeded the dispatch retries"

-- With a timeout of 10 the job that was assigned at 5 is stuck at 30.
reap_stuck_jobs_example :
    (reap_stuck_jobs exceeded sample 10 3 30).db.runner_jobs
    ≡ waiting ∷ waiting_first ∷ requeue held ∷ []
unfolding is_stuck
reap_stuck_jobs_example = reap_stuck_jobs_lem exceeded sample 10 3 30 sample-Distinct

abbrev queued_once : Db
queued_once = record empty { runner_jobs = waiting_first ∷ [] }

abbrev claimed_once : Db
claimed_once = (claim_runner_jobs queued_once "w1" gpu 1 30).1

abbrev completed_once : Db
completed_once = (complete_runner_job claimed_once "j2" none 40).1

history : Reach 3 empty completed_once
unfolding queue_runner_job select_one
history =
    Reach.next
      (Reach.next
        (Reach.next Reach.here (Step.queue "j2" "j2" "{}" "production" none (some "gpu") 10 refl))
        (Step.claim "w1" gpu 1 30 refl))
      (Step.complete "j2" none 40 refl)

Reach-IsValid_example : IsValid 3 completed_once
Reach-IsValid_example = Reach-IsValid (record { distinct = tt; sound = tt }) history

sample-IsValid : IsValid 3 sample
sample-IsValid = record {
  distinct = sample-Distinct;
  sound = (
    (((refl, refl), (refl, refl)), omega arith),
    (
      (((refl, refl), (refl, refl)), omega arith),
      ((((λ q. cc), (λ q. cc), (refl, refl)), omega arith), tt),
    ),
  );
}

-- After `j3` is completed, the reaper runs and an operator asks for the job again.
results_once_example :
    authorize_results
      (manually_requeue_failed_job
        (reap_stuck_jobs exceeded (complete_runner_job sample "j3" none 35).1 10 3 90).db
        "j3"
        91).1
      "k1"
      "j3"
    ≡ http_error 409
results_once_example =
    results_once {m = 3} sample _ "k1" "j3" held none 35 sample-IsValid
      (unfold get_runner_job select_one in refl)
      (Reach.next (Reach.next Reach.here (Step.reap exceeded 10 90 refl))
        (Step.requeue_failed "j3" 91 refl))

-- An app with `run_on: {tag: gpu}`.
abbrev gpu_app : ResolvedApp
gpu_app = record { app = "shop"; run_on = RunOn.mapping (some "gpu") none; app_def_json = "{}" }

queue_remote_run-claimable_example :
    (db : Db) × (j : Job) × (queue_remote_run sample
        (some gpu_app)
        "production"
        "api"
        false
        "j9"
        "j9"
        60
      ≡ some db)
    × (get_runner_job db "j9" ≡ some j)
    × (j.run_id ≡ "j9")
    × (is_claimable "w2" gpu j ≡ may_take gpu_app.run_on "w2" gpu)
queue_remote_run-claimable_example =
    queue_remote_run-claimable sample gpu_app "production" "api" "j9" "j9" 60 "w2" gpu
      (unfold get_run select_one in refl) (unfold get_runner_job select_one in refl)

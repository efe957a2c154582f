-- ===== src/Web/RunnerApi.antt =====
-- web/routes/runner.py: the endpoints that a worker calls, behind `require_worker`, which gives the
-- id of the API key. Each reads the clock where the source does; `now` is that time. The
-- notice and the times in a response are left out.
pub mod Polling
pub mod Once
pub mod Heartbeats
use Prim.Native.Nat.{min}
use testharness.Prelude.{
  ℕ, max, String, ◌=s=◌, Bool, true, false, not, ◌&&◌, ◌||◌, Option, none, some, List, [],
  if◌then◌else◌, is_none, column_is,
}
use testharness.Db.{
  Db, Job, JobState, state_is, Runner, RunnerStatus, draining, online, Health, healthy, unhealthy,
}
use testharness.Db.RunnerJobs.{get_runner_job, claim_runner_jobs}
use testharness.Db.Runners.{
  Binding, bound, unbound, conflict, get_runner_by_name, check_runner_binding,
  touch_runner_heartbeat, set_runner_version_stale, set_runner_health, set_runner_status,
}
use testharness.VersionSkew.{ℤ, is_version_stale, is_major_incompatible, incompatibility_notice}

-- A response, or an HTTPException with its status.
pub data Reply {ℓ} (A : Type ℓ) : Type ℓ where
  ok : A → Reply A
  http_error : ℕ → Reply A

abbrev pub is_bound : Binding → Bool
is_bound bound = true
is_bound _ = false

abbrev pub is_draining : RunnerStatus → Bool
is_draining draining = true
is_draining _ = false

-- max(1, min(int(capacity), 16)); a negative capacity gives 1, as 0 does
abbrev pub clamp_capacity : ℕ → ℕ
clamp_capacity capacity = max 1 (min capacity 16)

module _ (central_version : String) where
  -- The part of `runner_poll` behind the 404 check.
  unfoldable pub poll_runner : Db → String → String → ℕ → ℕ → Runner → Reply (List Job) × Db
  poll_runner db name key_id capacity now runner =
      let touched = touch_runner_heartbeat name now db in
      let (claimed, db') =
        claim_runner_jobs touched name runner.tags (clamp_capacity capacity) now in
      if not (is_bound (check_runner_binding db name key_id))
      then (http_error 403, db)
      else if is_draining runner.status || is_major_incompatible runner.version central_version
      then (ok [], touched)
      else (ok claimed, db')

  abbrev pub poll_found : Db → String → String → ℕ → ℕ → Option Runner → Reply (List Job) × Db
  poll_found db name key_id capacity now none = (http_error 404, db)
  poll_found db name key_id capacity now (some runner) =
      poll_runner db name key_id capacity now runner

  -- The rows that the response describes; their `app_def_json` is decoded on the way out.
  unfoldable pub runner_poll : Db → String → String → ℕ → ℕ → Reply (List Job) × Db
  runner_poll db name key_id capacity now =
      poll_found db name key_id capacity now (get_runner_by_name db name)

-- `req.health in ("healthy", "unhealthy")`
abbrev pub reported : Option String → Option Health
reported none = none
reported (some h) =
    if h =s= "healthy" then some healthy else if h =s= "unhealthy" then some unhealthy else none

abbrev pub is_unhealthy : Option Health → Bool
is_unhealthy (some unhealthy) = true
is_unhealthy _ = false

-- The report, and the status that it sets; `runner` is the row as it was read before the ping.
abbrev pub record_health : String → Runner → Option Health → Db → Db
record_health name runner none db = db
record_health name runner (some unhealthy) db =
    let stored = set_runner_health name (some unhealthy) db in
    if is_draining runner.status then stored else set_runner_status name draining stored
record_health name runner (some healthy) db =
    let stored = set_runner_health name (some healthy) db in
    if is_unhealthy runner.health then set_runner_status name online stored else stored

module _ (central_version : String) (warning_minors : ℤ) where
  abbrev pub record_version : String → Option String → Db → Db
  record_version name none db = db
  record_version name (some version) db =
      set_runner_version_stale name (is_version_stale (some version) central_version warning_minors)
        db

  abbrev pub heartbeat_found :
      Db
      → String
      → String
      → Option String
      → Option String
      → ℕ
      → Option Runner
      → Reply (Unit {0}) × Db
  heartbeat_found db name key_id version health now none = (http_error 404, db)
  heartbeat_found db name key_id version health now (some runner) =
      let touched = touch_runner_heartbeat name now db in
      if not (is_bound (check_runner_binding db name key_id)) then (http_error 403, db) else (
        ok tt,
        record_health name runner (reported health) (record_version name version touched),
      )

  unfoldable pub runner_heartbeat :
      Db → String → String → Option String → Option String → ℕ → Reply (Unit {0}) × Db
  runner_heartbeat db name key_id version health now =
      heartbeat_found db name key_id version health now (get_runner_by_name db name)

-- The checks of `runner_results` before anything is written: the id of the job's run.
abbrev pub or_empty : Option String → String
or_empty none = ""
or_empty (some s) = s

abbrev pub owns : Option Runner → String → Bool
owns none key_id = false
owns (some owner) key_id = column_is owner.api_key_id key_id

abbrev pub authorize_job : Db → String → Option Job → Reply Job
authorize_job db key_id none = http_error 404
authorize_job db key_id (some job) =
    if not (state_is job.state JobState.assigned)
    then http_error 409
    else if not (owns (get_runner_by_name db (or_empty job.assigned_to)) key_id)
    then http_error 403
    else ok job

unfoldable pub authorize_results : Db → String → String → Reply Job
authorize_results db key_id job_id = authorize_job db key_id (get_runner_job db job_id)
